-- ===== src/Users/Records.antt =====
-- `UserRecord`, `ApiKeyRecord` and their helpers in backend/db.py.
use autonomous_ai_analyst.Base.{
  ℕ, String, List, Bool, true, false, Option, none, some, ◌==◌, ltb, length, select, count, take,
  first, if◌then◌else◌,
}
use autonomous_ai_analyst.Table.{get, update, add, order_by, ascending}

pub record UserRecord : Type 0 where
  pub user_id : String
  pub email : String
  pub api_key_hash : String
  pub is_active : Bool
  pub is_admin : Bool
  pub created_at : ℕ
  pub last_seen_at : Option ℕ

pub record ApiKeyRecord : Type 0 where
  pub key_id : String
  pub user_id : String
  pub key_hash : String
  pub label : Option String
  pub created_at : ℕ
  pub expires_at : Option ℕ
  pub revoked_at : Option ℕ
  pub last_used_at : Option ℕ

abbrev pub user_key : UserRecord → String
user_key u = u.user_id

abbrev pub api_key_key : ApiKeyRecord → String
api_key_key k = k.key_id

-- `ApiKeyRecord.is_active`
abbrev pub key_active : ℕ → ApiKeyRecord → Bool
key_active moment k = elim k.revoked_at [
  | some _ ↦ false
  | none ↦ elim k.expires_at [ none ↦ true | some expires ↦ ltb moment expires ]
]

-- `none`: the id or the email is taken.
unfoldable pub create_user :
    String → String → String → Bool → ℕ → List UserRecord → Option (List UserRecord)
create_user user_id email api_key_hash is_admin now users =
    elim (select (λ (u : UserRecord). u.email == email) users) [
      | List.◌∷◌ _ _ ↦ none
      | List.[] ↦
          add user_key
            (record {
              user_id = user_id;
              email = email;
              api_key_hash = api_key_hash;
              is_active = true;
              is_admin = is_admin;
              created_at = now;
              last_seen_at = none;
            })
            users
    ]

unfoldable pub get_user : String → List UserRecord → Option UserRecord
get_user = get user_key

unfoldable pub get_user_by_email : String → List UserRecord → Option UserRecord
get_user_by_email email users = first (select (λ (u : UserRecord). u.email == email) users)

unfoldable pub get_user_by_key_hash : String → List UserRecord → Option UserRecord
get_user_by_key_hash api_key_hash users =
    first (select (λ (u : UserRecord). u.api_key_hash == api_key_hash) users)

unfoldable pub touch_user : String → ℕ → List UserRecord → List UserRecord
touch_user user_id now = update user_key user_id (λ u. record u { last_seen_at = some now })

unfoldable pub list_users : ℕ → List UserRecord → List UserRecord
list_users limit users = take limit (order_by (ascending λ (u : UserRecord). u.created_at) users)

unfoldable pub count_users : List UserRecord → ℕ
count_users = length

-- The new table, and the user; `none` if there is no such user.
unfoldable pub set_user_active :
    String → Bool → List UserRecord → List UserRecord × Option UserRecord
set_user_active user_id is_active users = elim (get user_key user_id users) [
  | none ↦ (users, none)
  | some u ↦ (
    update user_key user_id (λ v. record v { is_active = is_active }) users,
    some (record u { is_active = is_active }),
  )
]

abbrev pub new_key : String → String → String → Option String → Option ℕ → ℕ → ApiKeyRecord
new_key key_id user_id key_hash label expires_at now = record {
  key_id = key_id;
  user_id = user_id;
  key_hash = key_hash;
  label = label;
  created_at = now;
  expires_at = expires_at;
  revoked_at = none;
  last_used_at = none;
}

-- `none`: the id is taken.
unfoldable pub add_api_key :
    String
    → String
    → String
    → Option String
    → Option ℕ
    → ℕ
    → List ApiKeyRecord
    → Option (List ApiKeyRecord)
add_api_key key_id user_id key_hash label expires_at now =
    add api_key_key (new_key key_id user_id key_hash label expires_at now)

-- A key by its hash, whatever its state.
unfoldable pub get_api_key_by_hash : String → List ApiKeyRecord → Option ApiKeyRecord
get_api_key_by_hash key_hash keys =
    first (select (λ (k : ApiKeyRecord). k.key_hash == key_hash) keys)

unfoldable pub touch_api_key : String → ℕ → List ApiKeyRecord → List ApiKeyRecord
touch_api_key key_id now = update api_key_key key_id (λ k. record k { last_used_at = some now })

abbrev pub key_of : String → ApiKeyRecord → Bool
key_of user_id k = k.user_id == user_id

unfoldable pub list_api_keys : String → List ApiKeyRecord → List ApiKeyRecord
list_api_keys user_id keys =
    order_by (ascending λ (k : ApiKeyRecord). k.created_at) (select (key_of user_id) keys)

abbrev pub key_revoked : ℕ → ApiKeyRecord → ApiKeyRecord
key_revoked now k = elim k.revoked_at [ none ↦ record k { revoked_at = some now } | some _ ↦ k ]

-- The new table, and the key; `none` if it is not this user's.
unfoldable pub revoke_api_key :
    String → String → ℕ → List ApiKeyRecord → List ApiKeyRecord × Option ApiKeyRecord
revoke_api_key key_id user_id now keys = elim (get api_key_key key_id keys) [
  | none ↦ (keys, none)
  | some k ↦
      if k.user_id == user_id
      then (update api_key_key key_id (key_revoked now) keys, some (key_revoked now k))
      else (keys, none)
]

unfoldable pub count_active_api_keys : String → ℕ → List ApiKeyRecord → ℕ
count_active_api_keys user_id moment keys = count (key_active moment) (select (key_of user_id) keys)
