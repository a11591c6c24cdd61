-- ===== src/Limits/Holding.antt =====
-- How many active jobs an account has after each call on the job table (backend/db.py).
use autonomous_ai_analyst.Base.{
  ℕ, suc, ◌≤◌, String, List, [], ◌∷◌, ◌++◌, true, false, ◌&&◌, Option, some, ◌==◌, ◌≡◌, refl, arith,
  count,
}
use autonomous_ai_analyst.Common.{Json}
use autonomous_ai_analyst.Table.{get}
use autonomous_ai_analyst.Jobs.{
  JobRecord, job_key, is_active, append_step, complete_job, fail_job, recover_interrupted_jobs,
  purge_old_jobs,
}

module _ (owner : String) where
  unfoldable pub holds : List JobRecord → ℕ
  holds = count (λ (j : JobRecord). (j.owner_id == owner) && is_active j.state)

  pub add-holds :
      (j : JobRecord) (jobs : List JobRecord) → holds (jobs ++ j ∷ []) ≤ suc (holds jobs)
  unfolding holds
  add-holds j [] = ground (arith)
  add-holds j (x ∷ jobs) = ground (arith, add-holds j jobs)

  pub add-holds_other :
      (j : JobRecord) (jobs : List JobRecord)
      → (j.owner_id == owner) ≡ false
      → holds (jobs ++ j ∷ []) ≡ holds jobs
  unfolding holds
  add-holds_other j [] e = ground (arith)
  add-holds_other j (x ∷ jobs) e = ground (arith, add-holds_other j jobs e)

  pub steps-holds :
      (job_id step : String) (progress now : ℕ) (jobs : List JobRecord) {j : JobRecord}
      → get job_key job_id jobs ≡ some j
      → is_active j.state ≡ true
      → holds (append_step job_id step progress now jobs) ≡ holds jobs
  unfolding holds append_step
  steps-holds job_id step progress now [] e a = refl
  steps-holds job_id step progress now (x ∷ jobs) {j} e a =
      ground (arith, steps-holds job_id step progress now jobs {j = j})

  pub completes-holds :
      (job_id : String) (result : Json) (run_key : Option String) (now : ℕ) (jobs : List JobRecord)
      → holds (complete_job job_id result run_key now jobs) ≤ holds jobs
  unfolding holds complete_job
  completes-holds job_id result run_key now [] = ground (arith)
  completes-holds job_id result run_key now (x ∷ jobs) =
      ground (arith, completes-holds job_id result run_key now jobs)

  pub fails-holds :
      (job_id error kind step : String) (now : ℕ) (jobs : List JobRecord)
      → holds (fail_job job_id error kind step now jobs) ≤ holds jobs
  unfolding holds fail_job
  fails-holds job_id error kind step now [] = ground (arith)
  fails-holds job_id error kind step now (x ∷ jobs) =
      ground (arith, fails-holds job_id error kind step now jobs)

  pub recovers-holds :
      (now : ℕ) (jobs : List JobRecord) → holds (recover_interrupted_jobs now jobs).0 ≤ holds jobs
  unfolding holds recover_interrupted_jobs
  recovers-holds now [] = ground (arith)
  recovers-holds now (x ∷ jobs) = ground (arith, recovers-holds now jobs)

  pub purges-holds :
      (max_age_hours now : ℕ) (jobs : List JobRecord)
      → holds (purge_old_jobs max_age_hours now jobs).0 ≤ holds jobs
  unfolding holds purge_old_jobs
  purges-holds max_age_hours now [] = ground (arith)
  purges-holds max_age_hours now (x ∷ jobs) = ground (arith, purges-holds max_age_hours now jobs)
