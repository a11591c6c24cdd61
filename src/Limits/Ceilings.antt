-- ===== src/Limits/Ceilings.antt =====
-- What the ceilings guarantee (backend/limits.py): when a guard lets a call through, what a refusal
-- leaves behind, and how many jobs an account can hold.

use autonomous_ai_analyst.Base.{
  ℕ, ◌≤◌, ◌<◌, true, false, some, ◌≡◌, ◌⊎◌, refl, inl, inr, arith, Bool-cases,
}
use autonomous_ai_analyst.Common.{Principal}
use autonomous_ai_analyst.Settings.{Settings}
use autonomous_ai_analyst.Http.{
  HttpError, Result, ok, raised, llm_calls_per_hour, daily_spend, max_runs, storage_quota,
  concurrent_jobs,
}
use autonomous_ai_analyst.Audit.{principal, quota_refused, record_action}
use autonomous_ai_analyst.Jobs.{count_active_jobs}
use autonomous_ai_analyst.Runs.{count_runs}
use autonomous_ai_analyst.Database.{Database}
use autonomous_ai_analyst.Limits.Checks.{
  reason_of, refuse, reached, llm_calls, spent, megabytes, owner_storage_bytes, check_llm_quota,
  check_storage_quota, check_job_concurrency,
}

-- A ceiling is off, or there is room below it.
abbrev pub HasRoom : ℕ → ℕ → Type 0
HasRoom ceiling used = (ceiling ≡ 0) ⊎ (used < ceiling)

reached-HasRoom : (ceiling used : ℕ) → reached ceiling used ≡ false → HasRoom ceiling used
reached-HasRoom ceiling used e = ground (arith)

-- A guard has let the call through and written nothing, or has refused it with this error and
-- written one audit row, in the name of the account, that names the ceiling.
abbrev pub IsGuarded :
    Principal → ℕ → Database → (HttpError → Type 0) → Type 0 → Result (Unit {0}) × Database → Type 0
IsGuarded p now db Reason Room outcome =
    ((outcome ≡ (ok tt, db)) × Room)
    ⊎ ((e : HttpError) × Reason e
        × (outcome.0 ≡ raised e)
        × (outcome.1 ≡ record db {
          audit_log =
              record_action quota_refused (principal p) (some "quota") (some (reason_of e)) now
                db.audit_log;
        }))

-- The guard of paid calls, with auth on: it lets a call through just when both ceilings, calls in the
-- last hour and spending in the last day, are off or not reached.
pub check_llm_quota-guards :
    (settings : Settings) (p : Principal) (now : ℕ) (db : Database)
    → settings.auth_enabled ≡ true
    → IsGuarded p now db
        (λ e.
          ((e ≡ llm_calls_per_hour)
            × (settings.principal_max_llm_calls_per_hour ≤ llm_calls settings p now db))
          ⊎ ((e ≡ daily_spend) × (settings.principal_daily_spend_limit ≤ spent settings p now db)))
        (HasRoom settings.principal_max_llm_calls_per_hour (llm_calls settings p now db)
          × HasRoom settings.principal_daily_spend_limit (spent settings p now db))
        (check_llm_quota settings p now db)
unfolding check_llm_quota refuse
check_llm_quota-guards settings p now db on =
    elim (Bool-cases
      (reached settings.principal_max_llm_calls_per_hour (llm_calls settings p now db))) [
        | inl over ↦
            inr (llm_calls_per_hour, inl (refl, ground (arith)), ground (arith), ground (arith))
        | inr room ↦
            elim (Bool-cases
              (reached settings.principal_daily_spend_limit (spent settings p now db))) [
                | inl over ↦
                    inr (daily_spend, inr (refl, ground (arith)), ground (arith), ground (arith))
                | inr room' ↦
                    inl (ground (arith), (reached-HasRoom _ _ room, reached-HasRoom _ _ room'))
              ]
      ]

-- The guard of uploads, with auth on: it lets an upload through just when the number of stored runs
-- and the bytes that they occupy are below their ceilings, or these are off.
pub check_storage_quota-guards :
    (settings : Settings) (p : Principal) (now : ℕ) (db : Database)
    → settings.auth_enabled ≡ true
    → IsGuarded p now db
        (λ e.
          ((e ≡ max_runs) × (settings.principal_max_runs ≤ count_runs p.user_id db.runs))
          ⊎ ((e ≡ storage_quota)
              × (megabytes settings.principal_storage_quota_mb ≤ owner_storage_bytes p.user_id db)))
        (HasRoom settings.principal_max_runs (count_runs p.user_id db.runs)
          × HasRoom
              (megabytes settings.principal_storage_quota_mb)
              (owner_storage_bytes p.user_id db))
        (check_storage_quota settings p now db)
unfolding check_storage_quota refuse
check_storage_quota-guards settings p now db on =
    elim (Bool-cases (reached settings.principal_max_runs (count_runs p.user_id db.runs))) [
      | inl over ↦ inr (max_runs, inl (refl, ground (arith)), ground (arith), ground (arith))
      | inr room ↦
          elim (Bool-cases (
            reached (megabytes settings.principal_storage_quota_mb)
              (owner_storage_bytes p.user_id db))) [
                | inl over ↦
                    inr (storage_quota, inr (refl, ground (arith)), ground (arith), ground (arith))
                | inr room' ↦
                    inl (ground (arith), (reached-HasRoom _ _ room, reached-HasRoom _ _ room'))
              ]
    ]

-- The guard of the workers, with auth on: it lets an upload through just when the account holds fewer
-- jobs than its ceiling, or this is off.
pub check_job_concurrency-guards :
    (settings : Settings) (p : Principal) (now : ℕ) (db : Database)
    → settings.auth_enabled ≡ true
    → IsGuarded p now db
        (λ e.
          (e ≡ concurrent_jobs)
          × (settings.principal_max_concurrent_jobs ≤ count_active_jobs p.user_id db.jobs))
        (HasRoom settings.principal_max_concurrent_jobs (count_active_jobs p.user_id db.jobs))
        (check_job_concurrency settings p now db)
unfolding check_job_concurrency refuse
check_job_concurrency-guards settings p now db on =
    elim (Bool-cases
      (reached settings.principal_max_concurrent_jobs (count_active_jobs p.user_id db.jobs))) [
        | inl over ↦ inr (concurrent_jobs, (refl, ground (arith)), ground (arith), ground (arith))
        | inr room ↦ inl (ground (arith), reached-HasRoom _ _ room)
      ]
