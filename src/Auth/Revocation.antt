-- ===== src/Auth/Revocation.antt =====
-- Histories of the account calls (backend/auth.py, backend/routes/admin.py): what becomes of a
-- revoked key.
use mathlib.Core.Option.{some-injective}
use autonomous_ai_analyst.Auth.Admission.{first-All}
use autonomous_ai_analyst.Base.{
  ℕ, String, List, [], ◌∷◌, ◌++◌, Bool, true, false, Option, none, some, ◌==◌, ◌≡◌, sym, ap, subst,
  inl, inr, arith, eq_iff, Bool-cases, Option-cases, first, select,
}
use autonomous_ai_analyst.Common.{Principal}
use autonomous_ai_analyst.Settings.{Settings}
use autonomous_ai_analyst.Http.{ok}
use autonomous_ai_analyst.Users.{
  ApiKeyRecord, new_key, api_key_key, get_api_key_by_hash, touch_api_key, add_api_key,
  revoke_api_key, key_revoked,
}
use autonomous_ai_analyst.Table.{update, add, IsKeyed, add-eq, get-All_other}
use autonomous_ai_analyst.Database.{Database}
use autonomous_ai_analyst.Auth.Principals.{principal_from_hash, principal_from_key}
use autonomous_ai_analyst.Auth.Keys.{
  clean_label, default_expiry, key_expiry, issue_key, issue_my_key, revoke_my_key, sign_up,
  deactivate_user,
}

-- The key table's row for this hash is revoked.
unfoldable pub is_blocked : String → List ApiKeyRecord → Bool
is_blocked key_hash keys =
    elim (first (select (λ (k : ApiKeyRecord). k.key_hash == key_hash) keys)) [
      | none ↦ false
      | some k ↦ elim k.revoked_at [ none ↦ false | some _ ↦ true ]
    ]

append-blocked :
    (h : String) (keys more : List ApiKeyRecord)
    → is_blocked h keys ≡ true
    → is_blocked h (keys ++ more) ≡ true
unfolding is_blocked
append-blocked h [] more e = cc
append-blocked h (k ∷ keys) more e = ground (arith, append-blocked h keys more)

add-blocked :
    (h : String) (row : ApiKeyRecord) (keys : List ApiKeyRecord) {new : List ApiKeyRecord}
    → is_blocked h keys ≡ true
    → add api_key_key row keys ≡ some new
    → is_blocked h new ≡ true
add-blocked h row keys {new} b e =
    rw (add-eq api_key_key row keys {u = new} e) (append-blocked h keys (row ∷ []) b)

touch-blocked :
    (h key_id : String) (now : ℕ) (keys : List ApiKeyRecord)
    → is_blocked h keys ≡ true
    → is_blocked h (touch_api_key key_id now keys) ≡ true
unfolding is_blocked touch_api_key
touch-blocked h key_id now [] e = cc
touch-blocked h key_id now (k ∷ keys) e = ground (arith, touch-blocked h key_id now keys)

revoke-blocked :
    (h key_id user_id : String) (now : ℕ) (keys : List ApiKeyRecord)
    → is_blocked h keys ≡ true
    → is_blocked h (update api_key_key key_id (key_revoked now) keys) ≡ true
unfolding is_blocked
revoke-blocked h key_id user_id now [] e = cc
revoke-blocked h key_id user_id now (k ∷ keys) e =
    ground (arith, revoke-blocked h key_id user_id now keys)

-- One call of the account interface, with the moment at which it runs.
pub data AccountCall : Type 0 where
  authenticates : String → AccountCall
  issues : String → String → Principal → Option String → Option ℕ → AccountCall
  revokes : String → Principal → AccountCall
  signs_up : String → String → String → String → Bool → AccountCall
  deactivates : String → Principal → AccountCall

module _ (settings : Settings) (hash_api_key lower : String → String) where
  unfoldable pub apply_account : ℕ × AccountCall → Database → Database
  apply_account (now, authenticates api_key) db = (principal_from_key hash_api_key api_key now db).0
  apply_account (now, issues key_id key_hash p label ttl_days) db =
      (issue_my_key settings key_id key_hash p label ttl_days now db).1
  apply_account (now, revokes key_id p) db = (revoke_my_key settings key_id p now db).1
  apply_account (now, signs_up user_id key_id key_hash email is_admin) db =
      (sign_up settings lower user_id key_id key_hash email is_admin now db).1
  apply_account (now, deactivates user_id p) db = (deactivate_user user_id p now db).1

  unfoldable pub run_account : List (ℕ × AccountCall) → Database → Database
  run_account [] db = db
  run_account (c ∷ cs) db = run_account cs (apply_account c db)

module _ (settings : Settings) (hash_api_key lower : String → String) (h : String) where
  IsBlocked : Database → Type 0
  IsBlocked db = is_blocked h db.api_keys ≡ true

  authenticates-IsBlocked :
      (key_hash : String) (now : ℕ) (db : Database)
      → IsBlocked db
      → IsBlocked (principal_from_hash key_hash now db).0
  unfolding IsBlocked principal_from_hash
  authenticates-IsBlocked key_hash now db b =
      elim (Option-cases (get_api_key_by_hash key_hash db.api_keys)) [
        | inl missing ↦ ground (arith)
        | inr (k, found) ↦ ground (arith, touch-blocked h k.key_id now db.api_keys b)
      ]

  issues-IsBlocked :
      (key_id key_hash user_id : String) (label : Option String) (ttl : Option ℕ) (now : ℕ)
      (db : Database)
      → IsBlocked db
      → IsBlocked (issue_key settings key_id key_hash user_id label ttl now db).1
  unfolding IsBlocked issue_key add_api_key
  issues-IsBlocked key_id key_hash user_id label ttl now db b =
      let row : ApiKeyRecord =
        new_key key_id user_id key_hash (clean_label label) (key_expiry settings ttl now) now in
      elim (Option-cases (add api_key_key row db.api_keys)) [
        | inl taken ↦ ground (arith)
        | inr (keys, e) ↦ ground (arith, add-blocked h row db.api_keys {new = keys} b e)
      ]

  revokes-IsBlocked :
      (key_id : String) (p : Principal) (now : ℕ) (db : Database)
      → IsBlocked db
      → IsBlocked (revoke_my_key settings key_id p now db).1
  unfolding IsBlocked revoke_my_key revoke_api_key
  revokes-IsBlocked key_id p now db b =
      ground (arith, revoke-blocked h key_id p.user_id now db.api_keys b)

  issue_my_key-IsBlocked :
      (key_id key_hash : String) (p : Principal) (label : Option String) (ttl : Option ℕ) (now : ℕ)
      (db : Database)
      → IsBlocked db
      → IsBlocked (issue_my_key settings key_id key_hash p label ttl now db).1
  unfolding IsBlocked issue_my_key
  issue_my_key-IsBlocked key_id key_hash p label ttl now db b =
      ground (arith, issues-IsBlocked key_id key_hash p.user_id label ttl now db b)

  signs_up-IsBlocked :
      (user_id key_id key_hash email : String) (is_admin : Bool) (now : ℕ) (db : Database)
      → IsBlocked db
      → IsBlocked (sign_up settings lower user_id key_id key_hash email is_admin now db).1
  unfolding IsBlocked sign_up add_api_key
  signs_up-IsBlocked user_id key_id key_hash email is_admin now db b =
      let row : ApiKeyRecord =
        new_key key_id user_id key_hash (some "initial") (default_expiry settings now) now in
      elim (Option-cases (add api_key_key row db.api_keys)) [
        | inl taken ↦ ground (arith)
        | inr (keys, e) ↦ ground (arith, add-blocked h row db.api_keys {new = keys} b e)
      ]

  deactivates-IsBlocked :
      (user_id : String) (p : Principal) (now : ℕ) (db : Database)
      → IsBlocked db
      → IsBlocked (deactivate_user user_id p now db).1
  unfolding IsBlocked deactivate_user
  deactivates-IsBlocked user_id p now db b = ground (arith)

  apply-IsBlocked :
      (c : ℕ × AccountCall) (db : Database)
      → IsBlocked db
      → IsBlocked (apply_account settings hash_api_key lower c db)
  unfolding apply_account principal_from_key
  apply-IsBlocked (now, authenticates api_key) db b =
      authenticates-IsBlocked (hash_api_key api_key) now db b
  apply-IsBlocked (now, issues key_id key_hash p label ttl) db b =
      issue_my_key-IsBlocked key_id key_hash p label ttl now db b
  apply-IsBlocked (now, revokes key_id p) db b = revokes-IsBlocked key_id p now db b
  apply-IsBlocked (now, signs_up user_id key_id key_hash email is_admin) db b =
      signs_up-IsBlocked user_id key_id key_hash email is_admin now db b
  apply-IsBlocked (now, deactivates user_id p) db b = deactivates-IsBlocked user_id p now db b

  run-IsBlocked :
      (calls : List (ℕ × AccountCall)) (db : Database)
      → IsBlocked db
      → IsBlocked (run_account settings hash_api_key lower calls db)
  unfolding run_account
  run-IsBlocked [] db b = b
  run-IsBlocked (c ∷ calls) db b =
      run-IsBlocked calls (apply_account settings hash_api_key lower c db) (apply-IsBlocked c db b)

  blocked-refused :
      (now : ℕ) (db : Database) → IsBlocked db → (principal_from_hash h now db).1 ≡ none
  unfolding IsBlocked principal_from_hash is_blocked get_api_key_by_hash
  blocked-refused now db b = ground (arith)

update-blocked :
    (h key_id : String) (at : ℕ) (keys : List ApiKeyRecord) {k : ApiKeyRecord}
    → IsKeyed api_key_key keys
    → get_api_key_by_hash h keys ≡ some k
    → k.key_id ≡ key_id
    → is_blocked h (update api_key_key key_id (key_revoked at) keys) ≡ true
unfolding is_blocked get_api_key_by_hash
update-blocked h key_id at [] u e same = cc
update-blocked h key_id at (x ∷ keys) {k} u e same = elim (Bool-cases (x.key_hash == h)) [
  | inl hit ↦
      let is_k : x ≡ k = some-injective _ _ (rw hit at e) in
      ground (arith, eq_iff x.key_id key_id, ap (λ (r : ApiKeyRecord). r.key_id) is_k)
  | inr miss ↦
      let e' : get_api_key_by_hash h keys ≡ some k = rw miss at e in
      elim (Bool-cases (x.key_id == key_id)) [
        | inr other ↦
            rw other (rw (miss, is_blocked) (update-blocked h key_id at keys {k = k} u.1 e' same))
        | inl here ↦
            let apart =
              first-All (λ r. (r.key_id == x.key_id) ≡ false) (λ r. r.key_hash == h) keys {x = k}
                (get-All_other api_key_key x.key_id keys u.0) e' in
            absurd (ground (arith, eq_iff k.key_id x.key_id, eq_iff x.key_id key_id, apart))
      ]
]

pub revoked-keys :
    (settings : Settings) (key_id : String) (p : Principal) (at : ℕ) (db : Database)
    {row : ApiKeyRecord}
    → (revoke_my_key settings key_id p at db).0 ≡ ok row
    → (revoke_my_key settings key_id p at db).1.api_keys
      ≡ update api_key_key key_id (key_revoked at) db.api_keys
unfolding revoke_my_key revoke_api_key
revoked-keys settings key_id p at db {row} e = ground (arith)

-- Once its account has revoked a key, the key authenticates nobody again: not after any further
-- authentications, issues, revocations, registrations and deactivations, at any moment, and not by
-- the hash on the user's row either. The ids of the key table are unique, and the key is the one that
-- the lookup by its hash finds.
pub revoke_my_key-final :
    (settings : Settings) (hash_api_key lower : String → String) (key_id api_key : String)
    (p : Principal) (at now : ℕ) (calls : List (ℕ × AccountCall)) (db : Database)
    {k row : ApiKeyRecord}
    → IsKeyed api_key_key db.api_keys
    → get_api_key_by_hash (hash_api_key api_key) db.api_keys ≡ some k
    → k.key_id ≡ key_id
    → (revoke_my_key settings key_id p at db).0 ≡ ok row
    → (principal_from_key hash_api_key api_key now
        (run_account settings hash_api_key lower calls (revoke_my_key settings key_id p at db).1)).1
      ≡ none
unfolding principal_from_key IsBlocked
revoke_my_key-final settings hash_api_key lower key_id api_key p at now calls db {k} {row} u e same
      done =
    let h = hash_api_key api_key in
    let b : is_blocked h (revoke_my_key settings key_id p at db).1.api_keys ≡ true =
      subst (λ keys. is_blocked h keys ≡ true)
        (sym (revoked-keys settings key_id p at db {row = row} done))
        (update-blocked h key_id at db.api_keys {k = k} u e same) in
    blocked-refused settings hash_api_key lower h now _ (
      run-IsBlocked settings hash_api_key lower h calls (revoke_my_key settings key_id p at db).1 b)
