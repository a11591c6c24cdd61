-- ===== src/Lifecycle/Account.antt =====
-- `delete_everything_for`: what an account's erasure leaves of the account.
use autonomous_ai_analyst.Base.{
  ◌≤◌, String, List, [], ◌∷◌, Bool, true, none, some, ◌==◌, ◌≡◌, subst, arith, select, take-all,
  All, All-select, All-take, select-All, Bool-cases, eq→==, inl, inr,
}
use mathlib.Core.Option.{some-injective}
use autonomous_ai_analyst.Common.{owned_by}
use autonomous_ai_analyst.Table.{
  get, key-get, IsKeyed, All-found, All-order_by, order_by-All, length-order_by, order_by,
  descending,
}
use autonomous_ai_analyst.Runs.{RunRecord, run_id, list_runs, count_runs}
use autonomous_ai_analyst.Database.{Database}
use autonomous_ai_analyst.Lifecycle.Purge.{delete_everything_for, run_keys_of}
use autonomous_ai_analyst.Lifecycle.Erased.{IsGone, IsOwn, remove_runs-IsGone}

found-IsOwn :
    (owner : String) (runs : List RunRecord) (r : RunRecord)
    → get run_id r.run_key runs ≡ some r
    → owned_by (some owner) r.owner_id ≡ true
    → IsOwn (some owner) runs r.run_key
found-IsOwn owner runs r e h = ground arith

All-found-IsOwn :
    (owner : String) (runs rs : List RunRecord)
    → All (λ r. get run_id r.run_key runs ≡ some r) rs
    → All (λ r. owned_by (some owner) r.owner_id ≡ true) rs
    → All (IsOwn (some owner) runs) (run_keys_of rs)
All-found-IsOwn owner runs [] f o = tt
All-found-IsOwn owner runs (r ∷ rs) f o =
    (found-IsOwn owner runs r f.0 o.0, All-found-IsOwn owner runs rs f.1 o.1)

-- The erasure's list names runs of the owner only.
listed-IsOwn :
    (owner : String) (runs : List RunRecord)
    → IsKeyed run_id runs
    → All (IsOwn (some owner) runs) (run_keys_of (list_runs 10000 (some owner) runs))
unfolding list_runs
listed-IsOwn owner runs u =
    All-found-IsOwn owner runs _
      (All-take _ 10000 _ (All-order_by _ _ _ (All-select _ _ runs (All-found run_id runs u))))
      (All-take _ 10000 _ (All-order_by _ _ _ (select-All _ runs)))

gone_runs :
    (db : Database) (rs : List RunRecord)
    → All (λ k. IsGone k db) (run_keys_of rs)
    → All (λ r. get run_id r.run_key db.runs ≡ none) rs
gone_runs db [] h = tt
gone_runs db (r ∷ rs) h = (h.0.no_run, gone_runs db rs h.1)

found_in_select {κ} :
    (P : RunRecord → Type κ) (p : RunRecord → Bool) (k : String) (runs : List RunRecord)
    (r : RunRecord)
    → All P (select p runs)
    → get run_id k runs ≡ some r
    → p r ≡ true
    → P r
found_in_select P p k [] r a e h = cc
found_in_select P p k (x ∷ runs) r a e h = elim (Bool-cases (x.run_key == k)) [
  | inl hit ↦
      let same : x ≡ r = some-injective x r (rw hit at e) in
      let a' : All P (x ∷ select p runs) = rw (rw (← same) at h) at a in subst P same a'.0
  | inr miss ↦ found_in_select P p k runs r (rest_of x a) (rw miss at e) h
]
  where
    rest_of : (y : RunRecord) → All P (select p (y ∷ runs)) → All P (select p runs)
    rest_of y b = elim (Bool-cases (p y)) [
      | inl kept ↦ let b' : All P (y ∷ select p runs) = rw kept at b in b'.1
      | inr gone ↦ rw gone at b
    ]

All-run_keys {κ} :
    (P : String → Type κ) (rs : List RunRecord) → All P (run_keys_of rs) → All (λ r. P r.run_key) rs
All-run_keys P [] a = tt
All-run_keys P (r ∷ rs) a = (a.0, All-run_keys P rs a.1)

-- With at most 10,000 runs, the erasure of an account leaves nothing of any of its runs: not the
-- row, and no conversation, prediction, model version, share link or report schedule that names it.
pub delete_everything_for-IsGone :
    (owner run : String) (db : Database) (r : RunRecord)
    → IsKeyed run_id db.runs
    → count_runs owner db.runs ≤ 10000
    → get run_id run db.runs ≡ some r
    → r.owner_id ≡ owner
    → IsGone run (delete_everything_for owner db).0
unfolding delete_everything_for list_runs count_runs
delete_everything_for-IsGone owner run db r u few e own =
    subst (λ k. IsGone k after) (key-get run_id run db.runs e)
      (found_in_select (λ x. IsGone x.run_key after) mine run db.runs r
        (order_by-All newest _ (select mine db.runs) (rw all at gone)) e
        (eq→== r.owner_id owner own))
  where
    mine : RunRecord → Bool
    mine x = owned_by (some owner) x.owner_id

    newest : RunRecord → RunRecord → Bool
    newest = descending λ (x : RunRecord). x.created_at

    after : Database
    after = (delete_everything_for owner db).0

    all : list_runs 10000 (some owner) db.runs ≡ order_by newest (select mine db.runs)
    all = take-all 10000 _ (omega (arith, length-order_by newest (select mine db.runs), few))

    gone : All (λ x. IsGone x.run_key after) (list_runs 10000 (some owner) db.runs)
    gone =
        All-run_keys (λ k. IsGone k after) (list_runs 10000 (some owner) db.runs)
          (remove_runs-IsGone (run_keys_of (list_runs 10000 (some owner) db.runs)) (some owner) db u
            (listed-IsOwn owner db.runs u))
