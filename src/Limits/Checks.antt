-- ===== src/Limits/Checks.antt =====
-- `_refuse`, the three guards, `owner_storage_bytes` and `quota_status` of backend/limits.py. A
-- ceiling of 0 is off.
use autonomous_ai_analyst.Base.{
  ℕ, ◌+◌, ◌-◌, ◌*◌, String, List, [], ◌∷◌, Bool, true, false, not, ◌&&◌, Option, none, some, eqb,
  leb, if◌then◌else◌,
}
use autonomous_ai_analyst.Common.{Principal, hours, days}
use autonomous_ai_analyst.Settings.{Settings}
use autonomous_ai_analyst.Http.{
  HttpError, llm_calls_per_hour, daily_spend, max_runs, storage_quota, concurrent_jobs,
}
use autonomous_ai_analyst.Audit.{principal, quota_refused}
use autonomous_ai_analyst.Jobs.{count_active_jobs}
use autonomous_ai_analyst.Runs.{RunRecord, run_id, count_runs, list_runs}
use autonomous_ai_analyst.Usage.{count_llm_calls_since, spend_since}
use autonomous_ai_analyst.Storage.{Store, File, Place, lies_at, run_artifact_paths}
use autonomous_ai_analyst.Database.{Database, Call, pure, raise, gets, ◌>>=◌, ◌>>◌, audit}

-- The `reason` of a refusal.
abbrev pub reason_of : HttpError → String
reason_of llm_calls_per_hour = "llm_calls_per_hour"
reason_of daily_spend = "daily_spend"
reason_of max_runs = "max_runs"
reason_of storage_quota = "storage_quota"
reason_of _ = "concurrent_jobs"

unfoldable pub refuse : Principal → HttpError → ℕ → Call (Unit {0})
refuse p e now =
    audit quota_refused (principal p) (some "quota") (some (reason_of e)) now >> raise e

-- `settings.… > 0` and `used >= ceiling`
abbrev pub reached : ℕ → ℕ → Bool
reached ceiling used = not (eqb ceiling 0) && leb ceiling used

abbrev pub refuse_if : Bool → Principal → HttpError → ℕ → Call (Unit {0})
refuse_if true p e now = refuse p e now
refuse_if false p e now = pure tt

-- `sum(path.stat().st_size for path in …)` of the files that are there.
unfoldable pub size_at : Place → List File → ℕ
size_at p [] = 0
size_at p (f ∷ fs) = if lies_at p f then f.size else size_at p fs

unfoldable pub total_size : List Place → List File → ℕ
total_size [] files = 0
total_size (p ∷ ps) files = size_at p files + total_size ps files

unfoldable pub runs_size : List RunRecord → Store → ℕ
unfolding total_size
runs_size [] store = 0
runs_size (run ∷ runs) store =
    total_size (run_artifact_paths (run_id run) []) store.files + runs_size runs store

unfoldable pub owner_storage_bytes : String → Database → ℕ
unfolding runs_size
owner_storage_bytes owner_id db = runs_size (list_runs 10000 (some owner_id) db.runs) db.store

abbrev pub megabytes : ℕ → ℕ
megabytes n = n * 1024 * 1024

-- What `quota_status` reports; the storage in bytes.
pub record QuotaStatus : Type 0 where
  pub llm_calls_last_hour : ℕ
  pub llm_calls_per_hour_limit : Option ℕ
  pub estimated_spend_last_day : ℕ
  pub daily_spend_limit : Option ℕ
  pub runs_stored : ℕ
  pub max_runs_limit : Option ℕ
  pub jobs_active : ℕ
  pub max_concurrent_jobs : Option ℕ
  pub storage_used : ℕ
  pub storage_quota_mb : Option ℕ

-- `limit or None`
abbrev pub limit_of : ℕ → Option ℕ
limit_of n = if eqb n 0 then none else some n

module _ (settings : Settings) (p : Principal) where
  -- What each guard measures, at the moment `now`.
  abbrev pub llm_calls : ℕ → Database → ℕ
  llm_calls now db = count_llm_calls_since p.user_id (now - hours 1) db.usage

  abbrev pub spent : ℕ → Database → ℕ
  spent now db = spend_since p.user_id (now - days 1) db.usage

  unfoldable pub check_llm_quota : ℕ → Call (Unit {0})
  unfolding refuse
  check_llm_quota now =
      if not settings.auth_enabled
      then pure tt
      else gets (llm_calls now)
        >>= (λ calls.
            refuse_if (reached settings.principal_max_llm_calls_per_hour calls) p llm_calls_per_hour
              now)
        >> gets (spent now)
        >>= λ cost. refuse_if (reached settings.principal_daily_spend_limit cost) p daily_spend now

  unfoldable pub check_storage_quota : ℕ → Call (Unit {0})
  unfolding refuse
  check_storage_quota now =
      if not settings.auth_enabled
      then pure tt
      else gets (λ db. count_runs p.user_id db.runs)
        >>= (λ runs. refuse_if (reached settings.principal_max_runs runs) p max_runs now)
        >> gets (owner_storage_bytes p.user_id)
        >>= λ used.
            refuse_if (reached (megabytes settings.principal_storage_quota_mb) used) p storage_quota
              now

  unfoldable pub check_job_concurrency : ℕ → Call (Unit {0})
  unfolding refuse
  check_job_concurrency now =
      if not settings.auth_enabled
      then pure tt
      else gets (λ db. count_active_jobs p.user_id db.jobs) >>= λ active.
          refuse_if (reached settings.principal_max_concurrent_jobs active) p concurrent_jobs now

  -- The measured fields of `quota_status`; `none` when nothing is enforced.
  unfoldable pub quota_status : ℕ → Database → Option QuotaStatus
  quota_status now db =
      if not settings.auth_enabled
      then none
      else some (record {
        llm_calls_last_hour = llm_calls now db;
        llm_calls_per_hour_limit = limit_of settings.principal_max_llm_calls_per_hour;
        estimated_spend_last_day = spent now db;
        daily_spend_limit = limit_of settings.principal_daily_spend_limit;
        runs_stored = count_runs p.user_id db.runs;
        max_runs_limit = limit_of settings.principal_max_runs;
        jobs_active = count_active_jobs p.user_id db.jobs;
        max_concurrent_jobs = limit_of settings.principal_max_concurrent_jobs;
        storage_used = owner_storage_bytes p.user_id db;
        storage_quota_mb = limit_of settings.principal_storage_quota_mb;
      })
