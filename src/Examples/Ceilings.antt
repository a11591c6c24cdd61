-- ===== src/Examples/Ceilings.antt =====
-- Ceilings at concrete inputs.
use autonomous_ai_analyst.Base.{◌+◌, ◌<◌, [], ◌∷◌, refl, arith}
use autonomous_ai_analyst.Jobs.{count_active_jobs}
use autonomous_ai_analyst.Runs.{count_runs, list_runs}
use autonomous_ai_analyst.Limits.Checks.{
  check_storage_quota, check_job_concurrency, owner_storage_bytes, runs_size, total_size, size_at,
}
use autonomous_ai_analyst.Limits.Burst.{let_through, enqueue, Intake, Move, Reach, Reach-bounded}
use autonomous_ai_analyst.Examples.Data.{settings, bob, database}

abbrev start : Intake
start = record { db = database; uploads = [] }

abbrev admitted : Intake
admitted = record { db = (let_through settings bob 30 database).1; uploads = "bob" ∷ [] }

abbrev queued : Intake
queued = record { db = (enqueue "j3" "bob" 31 admitted.db).1; uploads = [] }

Reach-bounded_example :
    count_active_jobs "bob" queued.db.jobs < settings.principal_max_concurrent_jobs + 2
unfolding count_active_jobs let_through check_storage_quota check_job_concurrency
    owner_storage_bytes runs_size total_size size_at count_runs list_runs
Reach-bounded_example =
    Reach-bounded settings 2 "bob" start queued refl (omega arith) (omega arith) (omega arith) refl
      (Reach.later (Reach.later Reach.here (Move.admits bob 30 refl (omega arith)))
        (Move.enqueues "j3" "bob" 31 [] [] refl))
