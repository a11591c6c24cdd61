-- ===== src/Auth/Keys.antt =====
-- `default_expiry`, `issue_key` and `create_user` of backend/auth.py, and `issue_my_key`,
-- `revoke_my_key` and `deactivate_user` of backend/routes/admin.py. What `secrets` draws (keys, their
-- ids, a user's id) and the lower-casing of an address are arguments.
use autonomous_ai_analyst.Base.{
  ℕ, ◌+◌, String, Bool, true, false, not, ◌&&◌, ◌||◌, Option, none, some, ◌==◌, eqb, leb, count,
  first, select, if◌then◌else◌,
}
use autonomous_ai_analyst.Text.{strip, is_empty, contains_char}
use autonomous_ai_analyst.Common.{Principal, days}
use autonomous_ai_analyst.Settings.{Settings}
use autonomous_ai_analyst.Http.{
  too_many_keys, bad_email, email_taken, keys_disabled, key_not_found, last_key, server_error,
  own_account, user_not_found,
}
use autonomous_ai_analyst.Audit.{principal, key_issued, key_revoked, user_deactivated}
use autonomous_ai_analyst.Users.{
  UserRecord, ApiKeyRecord, key_active, create_user, get_user_by_email, set_user_active,
  add_api_key, list_api_keys, revoke_api_key, count_active_api_keys,
}
use autonomous_ai_analyst.Database.{
  Call, pure, gets, or_raise, ◌>>=◌, ◌>>◌, raise_if, modify, audit,
}

-- `(label or "").strip() or None`
abbrev pub clean_label : Option String → Option String
clean_label none = none
clean_label (some label) = let l = strip label in if is_empty l then none else some l

module _ (settings : Settings) where
  unfoldable pub default_expiry : ℕ → Option ℕ
  default_expiry now =
      if eqb settings.api_key_default_ttl_days 0
      then none
      else some (now + days settings.api_key_default_ttl_days)

  unfoldable pub key_expiry : Option ℕ → ℕ → Option ℕ
  unfolding default_expiry
  key_expiry none now = default_expiry now
  key_expiry (some t) now = if eqb t 0 then none else some (now + days t)

  -- `key_id` and `key_hash` are those of the key that was drawn. Answers the key's id.
  unfoldable pub issue_key : String → String → String → Option String → Option ℕ → ℕ → Call String
  issue_key key_id key_hash user_id label ttl_days now =
      (gets λ db. count_active_api_keys user_id now db.api_keys)
      >>= (λ active. raise_if (leb settings.max_active_api_keys active) too_many_keys)
      >> (gets λ db.
          add_api_key key_id user_id key_hash (clean_label label) (key_expiry ttl_days now) now
            db.api_keys)
      >>= (λ keys. or_raise keys server_error)
      >>= (λ keys. modify λ db. record db { api_keys = keys })
      >> pure key_id

  unfoldable pub issue_my_key :
      String → String → Principal → Option String → Option ℕ → ℕ → Call String
  issue_my_key key_id key_hash p label ttl_days now =
      raise_if (not settings.auth_enabled) keys_disabled
      >> issue_key key_id key_hash p.user_id label ttl_days now
      >>= λ issued. audit key_issued (principal p) (some "api_key") (some issued) now >> pure issued

  -- `auth.create_user`. The user and the key are rows of two tables, written one after the other.
  unfoldable pub sign_up :
      (String → String) → String → String → String → String → Bool → ℕ → Call String
  unfolding default_expiry
  sign_up lower user_id key_id key_hash email is_admin now =
      let address = lower (strip email) in
      raise_if (is_empty address || not (contains_char 64 address)) bad_email
      >> (gets λ db. get_user_by_email address db.users)
      >>= (λ taken. raise_if (elim taken [ none ↦ false | some _ ↦ true ]) email_taken)
      >> (gets λ db. create_user user_id address key_hash is_admin now db.users)
      >>= (λ users. or_raise users server_error)
      >>= (λ users. modify λ db. record db { users = users })
      >> (gets λ db.
          add_api_key key_id user_id key_hash (some "initial") (default_expiry now) now db.api_keys)
      >>= (λ keys. or_raise keys server_error)
      >>= (λ keys. modify λ db. record db { api_keys = keys })
      >> pure user_id

  unfoldable pub revoke_my_key : String → Principal → ℕ → Call ApiKeyRecord
  revoke_my_key key_id p now =
      raise_if (not settings.auth_enabled) keys_disabled
      >> gets (λ db. list_api_keys p.user_id db.api_keys)
      >>= λ keys.
          or_raise (first (select (λ (k : ApiKeyRecord). k.key_id == key_id) keys)) key_not_found
          >>= λ target.
              raise_if (key_active now target && leb (count (key_active now) keys) 1) last_key
              >> gets (λ db. revoke_api_key key_id p.user_id now db.api_keys)
              >>= λ (revoked, row). or_raise row key_not_found >>= λ k.
                  modify (λ db. record db { api_keys = revoked })
                  >> audit key_revoked (principal p) (some "api_key") (some key_id) now
                  >> pure k

unfoldable pub deactivate_user : String → Principal → ℕ → Call UserRecord
deactivate_user user_id p now =
    raise_if (user_id == p.user_id) own_account
    >> gets (λ db. set_user_active user_id false db.users)
    >>= λ (users, row). or_raise row user_not_found >>= λ u.
        modify (λ db. record db { users = users })
        >> audit user_deactivated (principal p) (some "user") (some user_id) now
        >> pure u
