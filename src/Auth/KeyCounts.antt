-- ===== src/Auth/KeyCounts.antt =====
-- How many active keys an account has after a key is issued (backend/auth.py) or revoked
-- (backend/routes/admin.py), and who gets at a run.
use autonomous_ai_analyst.Base.{
  ℕ, suc, ◌≤◌, String, List, [], ◌∷◌, ◌++◌, Bool, true, false, ◌&&◌, Option, some, ◌==◌, ◌≡◌, ◌↔◌,
  ◌⊎◌, sym, subst, inl, inr, arith, eq_iff, ==→eq, leb, leb→le, Bool-cases, Option-cases, first,
  select, count, All-select,
}
use autonomous_ai_analyst.Common.{Principal}
use autonomous_ai_analyst.Settings.{Settings}
use autonomous_ai_analyst.Http.{ok, raised, run_not_found}
use autonomous_ai_analyst.Users.{
  ApiKeyRecord, new_key, api_key_key, key_active, key_of, add_api_key, key_revoked, list_api_keys,
  count_active_api_keys,
}
use autonomous_ai_analyst.Table.{
  get, update, add, IsKeyed, add-eq, All-found, All-order_by, count-order_by, order_by, ascending,
}
use autonomous_ai_analyst.Runs.{run_owner}
use autonomous_ai_analyst.Database.{Database}
use autonomous_ai_analyst.Auth.Principals.{require_owned_run}
use autonomous_ai_analyst.Auth.Keys.{clean_label, key_expiry, issue_key, revoke_my_key}
use autonomous_ai_analyst.Auth.Admission.{first-All}
use autonomous_ai_analyst.Auth.Revocation.{revoked-keys}

-- With auth on, a run is reached by the account that its registry row names and by no other; a run
-- of another account, a run without a row, and a run that does not exist are refused alike.
pub require_owned_run_iff :
    (settings : Settings) (run_key : String) (p : Principal) (db : Database)
    → settings.auth_enabled ≡ true
    → ((require_owned_run settings run_key p db ≡ ok tt)
        ↔ (run_owner run_key db.runs ≡ some p.user_id))
      × ((require_owned_run settings run_key p db ≡ ok tt)
          ⊎ (require_owned_run settings run_key p db ≡ raised run_not_found))
unfolding require_owned_run
require_owned_run_iff settings run_key p db on = elim (Option-cases (run_owner run_key db.runs)) [
  | inl missing ↦ ((λ e. ground (arith), λ e. ground (arith)), inr (ground (arith)))
  | inr (owner, e) ↦ elim (Bool-cases (owner == p.user_id)) [
    | inl own ↦
        ((λ e'. ground (arith, eq_iff owner p.user_id), λ e'. ground (arith)), inl (ground (arith)))
    | inr foreign ↦
        ((λ e'. ground (arith), λ e'. ground (arith, eq_iff owner p.user_id)), inr (ground (arith)))
  ]
]

add-count :
    (user_id : String) (now : ℕ) (row : ApiKeyRecord) (keys : List ApiKeyRecord)
    → count_active_api_keys user_id now (keys ++ row ∷ [])
      ≤ suc (count_active_api_keys user_id now keys)
unfolding count_active_api_keys
add-count user_id now row [] = ground (arith)
add-count user_id now row (k ∷ keys) = ground (arith, add-count user_id now row keys)

-- Issuing a key leaves the account with at most the configured number of active keys.
pub issue_key-bounded :
    (settings : Settings) (key_id key_hash user_id : String) (label : Option String)
    (ttl_days : Option ℕ) (now : ℕ) (db : Database) {issued : String}
    → (issue_key settings key_id key_hash user_id label ttl_days now db).0 ≡ ok issued
    → count_active_api_keys user_id now
        (issue_key settings key_id key_hash user_id label ttl_days now db).1.api_keys
      ≤ settings.max_active_api_keys
unfolding issue_key add_api_key
issue_key-bounded settings key_id key_hash user_id label ttl_days now db {issued} e =
    let row : ApiKeyRecord =
      new_key key_id user_id key_hash (clean_label label) (key_expiry settings ttl_days now) now in
    elim (Option-cases (add api_key_key row db.api_keys)) [
      | inl taken ↦ absurd (ground (arith))
      | inr (keys, added) ↦ ground (
        arith,
        subst
            (λ (t : List ApiKeyRecord).
              count_active_api_keys user_id now t
              ≤ suc (count_active_api_keys user_id now db.api_keys))
            (sym (add-eq api_key_key row db.api_keys {u = keys} added))
            (add-count user_id now row db.api_keys),
      )
    ]

revoke-count_le :
    (user_id key_id : String) (now : ℕ) (keys : List ApiKeyRecord)
    → count_active_api_keys user_id now keys
      ≤ suc (count_active_api_keys user_id now (update api_key_key key_id (key_revoked now) keys))
unfolding count_active_api_keys
revoke-count_le user_id key_id now [] = ground (arith)
revoke-count_le user_id key_id now (k ∷ keys) =
    ground (arith, revoke-count_le user_id key_id now keys)

revoke-count_same :
    (user_id key_id : String) (now : ℕ) (keys : List ApiKeyRecord) {row : ApiKeyRecord}
    → get api_key_key key_id keys ≡ some row
    → key_active now row ≡ false
    → count_active_api_keys user_id now keys
      ≡ count_active_api_keys user_id now (update api_key_key key_id (key_revoked now) keys)
unfolding count_active_api_keys
revoke-count_same user_id key_id now [] e i = cc
revoke-count_same user_id key_id now (k ∷ keys) {row} e i =
    ground (arith, revoke-count_same user_id key_id now keys {row = row})

-- What a revocation that is carried out has checked.
revoke-checked :
    (settings : Settings) (key_id : String) (p : Principal) (now : ℕ) (db : Database)
    {row : ApiKeyRecord}
    → (revoke_my_key settings key_id p now db).0 ≡ ok row
    → (target : ApiKeyRecord) × (first
          (select (λ (k : ApiKeyRecord). k.key_id == key_id) (list_api_keys p.user_id db.api_keys))
        ≡ some target)
      × ((key_active now target
            && leb (count (key_active now) (list_api_keys p.user_id db.api_keys)) 1)
          ≡ false)
unfolding revoke_my_key
revoke-checked settings key_id p now db {row} e =
    elim (Option-cases (
      first (
        select (λ (k : ApiKeyRecord). k.key_id == key_id) (list_api_keys p.user_id db.api_keys)))) [
          | inl missing ↦ absurd (ground (arith))
          | inr (target, found) ↦ (target, found, ground (arith))
        ]

first-test :
    {A : Type 0} (p : A → Bool) (xs : List A) {x : A} → first (select p xs) ≡ some x → p x ≡ true
first-test p [] e = cc
first-test p (y ∷ xs) {x} e = ground (arith, first-test p xs {x = x})

-- The target is the row that its id finds in the table.
target-found :
    (key_id user_id : String) (keys : List ApiKeyRecord) {target : ApiKeyRecord}
    → IsKeyed api_key_key keys
    → first (select (λ (k : ApiKeyRecord). k.key_id == key_id) (list_api_keys user_id keys))
      ≡ some target
    → get api_key_key key_id keys ≡ some target
unfolding list_api_keys
target-found key_id user_id keys {target} u e =
    let le = ascending λ (k : ApiKeyRecord). k.created_at in
    let own = select (key_of user_id) keys in
    let P : ApiKeyRecord → Type 0 = λ r. get api_key_key r.key_id keys ≡ some r in
    let at =
      first-All P (λ r. r.key_id == key_id) (order_by le own) {x = target}
        (All-order_by le P own (All-select P (key_of user_id) keys (All-found api_key_key keys u)))
        e in
    let same = first-test (λ r. r.key_id == key_id) (order_by le own) {x = target} e in
    subst (λ i. get api_key_key i keys ≡ some target) (==→eq target.key_id key_id same) at

-- An account that has an active key still has one after it has revoked a key.
pub revoke_my_key-keeps :
    (settings : Settings) (key_id : String) (p : Principal) (now : ℕ) (db : Database)
    {row : ApiKeyRecord}
    → IsKeyed api_key_key db.api_keys
    → 1 ≤ count_active_api_keys p.user_id now db.api_keys
    → (revoke_my_key settings key_id p now db).0 ≡ ok row
    → 1 ≤ count_active_api_keys p.user_id now (revoke_my_key settings key_id p now db).1.api_keys
unfolding list_api_keys count_active_api_keys
revoke_my_key-keeps settings key_id p now db {row} u some_active e =
    let (target, found, checked) = revoke-checked settings key_id p now db {row = row} e in
    rw (revoked-keys settings key_id p now db {row = row} e) (
      ground (
        arith,
        count-order_by (ascending λ (k : ApiKeyRecord). k.created_at) (key_active now)
            (select (key_of p.user_id) db.api_keys),
        revoke-count_le p.user_id key_id now db.api_keys,
        revoke-count_same p.user_id key_id now db.api_keys {row = target}
            (target-found key_id p.user_id db.api_keys {target = target} u found),
        leb→le (count (key_active now) (list_api_keys p.user_id db.api_keys)) 1,
      ))
