-- ===== src/Common.antt =====
-- What several components use: JSON columns, the caller a request acts as (`Principal` in
-- backend/auth.py), and the owner filter of the queries in backend/db.py. A moment of time is the
-- number of seconds since the epoch: `now_utc` cuts the microseconds off, and `as_utc` and
-- `isoformat` only change how a moment is written down.
use autonomous_ai_analyst.Text.{is_empty}
use autonomous_ai_analyst.Base.{
  ℕ, ◌*◌, String, List, [], ◌∷◌, Bool, true, Option, none, some, ◌==◌, if◌then◌else◌,
}

-- A JSON object: keys with their serialised values, in insertion order.
abbrev pub Json : Type 0
Json = List (String × String)

-- `d[key] = value`
abbrev pub set_field : String → String → Json → Json
set_field k v [] = (k, v) ∷ []
set_field k v ((j, w) ∷ d) = if j == k then (j, v) ∷ d else (j, w) ∷ set_field k v d

-- `{**old, **new}`
abbrev pub merge : Json → Json → Json
merge old [] = old
merge old ((k, v) ∷ new) = merge (set_field k v old) new

abbrev pub local_owner_id : String
local_owner_id = "local"

pub record Principal : Type 0 where
  pub user_id : String
  pub email : String
  pub is_admin : Bool

abbrev pub local_principal : Principal
local_principal = record { user_id = local_owner_id; email = "local@localhost"; is_admin = true }

-- `owner_id is None or row.owner_id == owner_id`
abbrev pub owned_by : Option String → String → Bool
owned_by none owner = true
owned_by (some wanted) owner = owner == wanted

-- `timedelta(hours=n)` and `timedelta(days=n)` in seconds.
abbrev pub hours : ℕ → ℕ
hours n = n * 3600

abbrev pub days : ℕ → ℕ
days n = n * 86400

-- `owner or LOCAL_OWNER_ID`
abbrev pub owner_or_local : Option String → String
owner_or_local none = local_owner_id
owner_or_local (some owner) = if is_empty owner then local_owner_id else owner
