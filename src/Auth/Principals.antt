-- ===== src/Auth/Principals.antt =====
-- `_principal_from_key`, `current_principal`, `require_admin`, `owner_scope` and `require_owned_run`
-- of backend/auth.py. SHA-256 (`hash_api_key`) is a parameter.
use autonomous_ai_analyst.Base.{ℕ, String, not, ◌||◌, Option, none, some, ◌==◌, if◌then◌else◌}
use autonomous_ai_analyst.Common.{Principal, local_principal}
use autonomous_ai_analyst.Settings.{Settings}
use autonomous_ai_analyst.Http.{
  Result, ok, raised, auth_required, invalid_key, admin_required, run_not_found,
}
use autonomous_ai_analyst.Users.{
  UserRecord, ApiKeyRecord, key_active, get_user, get_user_by_key_hash, touch_user,
  get_api_key_by_hash, touch_api_key,
}
use autonomous_ai_analyst.Runs.{run_owner}
use autonomous_ai_analyst.Database.{Database, Call}

abbrev pub principal_of : UserRecord → Principal
principal_of u = record { user_id = u.user_id; email = u.email; is_admin = u.is_admin }

abbrev pub touched : Option String → String → ℕ → Database → Database
touched none user_id now db = record db { users = touch_user user_id now db.users }
touched (some key_id) user_id now db = record db {
  api_keys = touch_api_key key_id now db.api_keys;
  users = touch_user user_id now db.users;
}

-- The account behind a row of the key table: the row is usable, and its user is active.
abbrev pub user_behind : String → ApiKeyRecord → ℕ → Database → Option UserRecord
user_behind key_hash k now db =
    if not (k.key_hash == key_hash) || not (key_active now k)
    then none
    else elim (get_user k.user_id db.users) [
      | none ↦ none
      | some u ↦ if u.is_active then some u else none
    ]

-- The key table decides alone when it has the hash; the hash on the user row serves a key that
-- the table does not have.
unfoldable pub principal_from_hash : String → ℕ → Database → Database × Option Principal
principal_from_hash key_hash now db = elim (get_api_key_by_hash key_hash db.api_keys) [
  | some k ↦ elim (user_behind key_hash k now db) [
    | none ↦ (db, none)
    | some u ↦ (touched (some k.key_id) u.user_id now db, some (principal_of u))
  ]
  | none ↦ elim (get_user_by_key_hash key_hash db.users) [
    | none ↦ (db, none)
    | some u ↦
        if not u.is_active || not (u.api_key_hash == key_hash)
        then (db, none)
        else (touched none u.user_id now db, some (principal_of u))
  ]
]

module _ (hash_api_key : String → String) where
  unfoldable pub principal_from_key : String → ℕ → Database → Database × Option Principal
  principal_from_key api_key = principal_from_hash (hash_api_key api_key)

  -- `bearer`: the key of an `Authorization: Bearer` header, stripped; `none` for no such header.
  unfoldable pub current_principal : Settings → Option String → ℕ → Call Principal
  current_principal settings bearer now db =
      if not settings.auth_enabled then (ok local_principal, db) else elim bearer [
        | none ↦ (raised auth_required, db)
        | some api_key ↦
            let (db', found) = principal_from_key api_key now db in
            elim found [ none ↦ (raised invalid_key, db') | some p ↦ (ok p, db') ]
      ]

unfoldable pub require_admin : Principal → Result Principal
require_admin p = if not p.is_admin then raised admin_required else ok p

unfoldable pub owner_scope : Settings → Principal → Option String
owner_scope settings p = if not settings.auth_enabled then none else some p.user_id

unfoldable pub require_owned_run : Settings → String → Principal → Database → Result (Unit {0})
require_owned_run settings run_key p db =
    if not settings.auth_enabled then ok tt else elim (run_owner run_key db.runs) [
      | none ↦ raised run_not_found
      | some owner ↦ if not (owner == p.user_id) then raised run_not_found else ok tt
    ]
