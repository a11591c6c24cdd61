-- ===== src/Auth/Admission.antt =====
-- Whom a key lets in (backend/auth.py): after a deactivation, after a revocation and every later
-- call on the accounts, and at a run of another account.
use mathlib.Core.Option.{some-injective}
use autonomous_ai_analyst.Base.{
  All-map, ℕ, String, List, [], ◌∷◌, Bool, true, false, ◌&&◌, none, some, ◌==◌, ◌≡◌, refl, sym,
  subst, inl, inr, arith, Bool-cases, Option-cases, ==→eq, first, select, All,
}
use autonomous_ai_analyst.Common.{Principal}
use autonomous_ai_analyst.Http.{ok}
use autonomous_ai_analyst.Users.{
  UserRecord, ApiKeyRecord, user_key, key_active, get_user, get_user_by_key_hash, set_user_active,
  get_api_key_by_hash,
}
use autonomous_ai_analyst.Table.{get, update, IsKeyed, get-All_other, All-get}
use autonomous_ai_analyst.Database.{Database}
use autonomous_ai_analyst.Auth.Principals.{
  principal_of, user_behind, principal_from_hash, principal_from_key,
}
use autonomous_ai_analyst.Auth.Keys.{deactivate_user}

-- A user that is not this one, or whose account is inactive.
abbrev pub IsShutOut : String → UserRecord → Type 0
IsShutOut user_id u = ((u.user_id == user_id) && u.is_active) ≡ false

pub first-All {κ} :
    {A : Type 0} (P : A → Type κ) (p : A → Bool) (xs : List A) {x : A}
    → All P xs
    → first (select p xs) ≡ some x
    → P x
first-All P p [] h e = cc
first-All P p (y ∷ xs) h e = elim (Bool-cases (p y)) [
  | inl kept ↦ subst P (some-injective _ _ (rw kept at e)) h.0
  | inr gone ↦ first-All P p xs h.1 (rw gone at e)
]

shut : (user_id : String) (u : UserRecord) → (u.user_id == user_id) ≡ false → IsShutOut user_id u
shut user_id u e = rw e refl

deactivated-IsShutOut :
    (user_id : String) (users : List UserRecord)
    → IsKeyed user_key users
    → All (IsShutOut user_id) (update user_key user_id (λ v. record v { is_active = false }) users)
deactivated-IsShutOut user_id [] k = tt
deactivated-IsShutOut user_id (u ∷ users) k = elim (Bool-cases (u.user_id == user_id)) [
  | inl hit ↦ rw hit (
    ground (arith),
    All-map (λ v. (v.user_id == user_id) ≡ false) (IsShutOut user_id) users (shut user_id)
        (get-All_other user_key user_id users
          (subst (λ i. get user_key i users ≡ none) (==→eq u.user_id user_id hit) k.0)),
  )
  | inr miss ↦ rw miss (rw miss refl, deactivated-IsShutOut user_id users k.1)
]

-- The account that a key resolves to is active, so it is not one that is shut out.
admitted-other :
    (user_id : String) (u : UserRecord)
    → IsShutOut user_id u
    → u.is_active ≡ true
    → ((principal_of u).user_id == user_id) ≡ false
admitted-other user_id u h a = ground (arith)

user_behind-Active :
    (key_hash : String) (k : ApiKeyRecord) (now : ℕ) (db : Database) {u : UserRecord}
    → user_behind key_hash k now db ≡ some u
    → (key_active now k ≡ true) × (get_user k.user_id db.users ≡ some u) × (u.is_active ≡ true)
unfolding get_user
user_behind-Active key_hash k now db e = ground (arith)

-- What a key that is let in comes from.
pub principal-source {κ} :
    (P : UserRecord → Type κ) (key_hash : String) (now : ℕ) (db : Database) {p : Principal}
    → All P db.users
    → (principal_from_hash key_hash now db).1 ≡ some p
    → (u : UserRecord) × P u × (u.is_active ≡ true) × (p ≡ principal_of u)
unfolding principal_from_hash get_user get_user_by_key_hash get_api_key_by_hash
principal-source P key_hash now db {p} h e =
    elim (Option-cases (get_api_key_by_hash key_hash db.api_keys)) [
      | inr (k, found) ↦ elim (Option-cases (user_behind key_hash k now db)) [
        | inl none_behind ↦ absurd (ground (arith))
        | inr (u, behind) ↦
            let (_, at, active) = user_behind-Active key_hash k now db {u = u} behind in
            (u, All-get user_key P k.user_id db.users h at, active, ground (arith))
      ]
      | inl missing ↦ elim (Option-cases (get_user_by_key_hash key_hash db.users)) [
        | inl unknown ↦ absurd (ground (arith))
        | inr (u, at) ↦ (
          u,
          first-All P (λ v. v.api_key_hash == key_hash) db.users h at,
          ground (arith),
          ground (arith),
        )
      ]
    ]

deactivated-users :
    (user_id : String) (admin : Principal) (at : ℕ) (db : Database) {u : UserRecord}
    → (deactivate_user user_id admin at db).0 ≡ ok u
    → (deactivate_user user_id admin at db).1.users
      ≡ update user_key user_id (λ v. record v { is_active = false }) db.users
unfolding deactivate_user set_user_active
deactivated-users user_id admin at db {u} e = ground (arith)

-- After an admin deactivates an account no key authenticates as it at any moment, neither a key of
-- the key table nor the one whose hash stands on the user's row.
pub deactivate_user-shut :
    (hash_api_key : String → String) (user_id api_key : String) (admin : Principal) (at now : ℕ)
    (db : Database) {u : UserRecord} {p : Principal}
    → IsKeyed user_key db.users
    → (deactivate_user user_id admin at db).0 ≡ ok u
    → (principal_from_key hash_api_key api_key now (deactivate_user user_id admin at db).1).1
      ≡ some p
    → (p.user_id == user_id) ≡ false
unfolding principal_from_key
deactivate_user-shut hash_api_key user_id api_key admin at now db {u} {p} k e h =
    let db' = (deactivate_user user_id admin at db).1 in
    let out =
      subst (All (IsShutOut user_id)) (sym (deactivated-users user_id admin at db {u = u} e))
        (deactivated-IsShutOut user_id db.users k) in
    let (v, shut_v, active, same) =
      principal-source (IsShutOut user_id) (hash_api_key api_key) now db' {p = p} out h in
    rw same (admitted-other user_id v shut_v active)
