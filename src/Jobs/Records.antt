-- ===== src/Jobs/Records.antt =====
-- `JobRecord` and the helpers that read and write one job, from backend/db.py.
use autonomous_ai_analyst.Base.{
  ℕ, ◌-◌, String, List, [], ◌∷◌, ◌++◌, map, Bool, true, false, ◌&&◌, Option, none, some, ◌==◌, ltb,
  count, delete_where, if◌then◌else◌,
}
use autonomous_ai_analyst.Common.{Json, hours}
use mathlib.Core.Option
use autonomous_ai_analyst.Owned.{get_owned}
use autonomous_ai_analyst.Table.{update, add}

pub data JobState : Type 0 where
  queued running completed failed : JobState

pub record LogEntry : Type 0 where
  pub step : String
  pub progress : ℕ
  pub timestamp : ℕ

pub record JobRecord : Type 0 where
  pub job_id : String
  pub state : JobState
  pub current_step : String
  pub progress : ℕ
  pub status_log : List LogEntry
  pub result : Option Json
  pub error : Option String
  pub error_kind : Option String
  pub run_key : Option String
  pub owner_id : String
  pub created_at : ℕ
  pub updated_at : ℕ

abbrev pub job_key : JobRecord → String
job_key j = j.job_id

abbrev pub job_owner : JobRecord → String
job_owner j = j.owner_id

-- The shape that the frontend polls for: neither the owner nor the time of the last write.
pub record JobStatus : Type 0 where
  pub job_id : String
  pub state : JobState
  pub current_step : String
  pub progress : ℕ
  pub status_log : List LogEntry
  pub result : Option Json
  pub error : Option String
  pub error_kind : Option String
  pub run_key : Option String
  pub created_at : ℕ

abbrev pub to_status : JobRecord → JobStatus
to_status j = record {
  job_id = j.job_id;
  state = j.state;
  current_step = j.current_step;
  progress = j.progress;
  status_log = j.status_log;
  result = j.result;
  error = j.error;
  error_kind = j.error_kind;
  run_key = j.run_key;
  created_at = j.created_at;
}

abbrev pub new_job : String → String → String → ℕ → JobRecord
new_job job_id first_step owner_id now = record {
  job_id = job_id;
  state = queued;
  current_step = "Queued";
  progress = 0;
  status_log = record { step = first_step; progress = 0; timestamp = now } ∷ [];
  result = none;
  error = none;
  error_kind = none;
  run_key = none;
  owner_id = owner_id;
  created_at = now;
  updated_at = now;
}

-- `none`: the id is taken, an integrity error.
unfoldable pub create_job : String → String → String → ℕ → List JobRecord → Option (List JobRecord)
create_job job_id first_step owner_id now jobs =
    add job_key (new_job job_id first_step owner_id now) jobs

-- A job of another owner is answered like one that does not exist.
unfoldable pub get_job : String → Option String → List JobRecord → Option JobStatus
get_job job_id owner_id jobs =
    Option.map to_status (get_owned job_key job_owner job_id owner_id jobs)

abbrev pub stepped : String → ℕ → ℕ → JobRecord → JobRecord
stepped step progress now job = record job {
  state = running;
  current_step = step;
  progress = progress;
  status_log = job.status_log ++ record { step = step; progress = progress; timestamp = now } ∷ [];
  updated_at = now;
}

unfoldable pub append_step : String → String → ℕ → ℕ → List JobRecord → List JobRecord
append_step job_id step progress now = update job_key job_id (stepped step progress now)

abbrev pub finished : Json → Option String → ℕ → JobRecord → JobRecord
finished result run_key now job = record job {
  state = completed;
  progress = 100;
  current_step = "Completed";
  status_log =
      job.status_log ++ record { step = "Completed"; progress = 100; timestamp = now } ∷ [];
  result = some result;
  run_key = run_key;
  updated_at = now;
}

unfoldable pub complete_job : String → Json → Option String → ℕ → List JobRecord → List JobRecord
complete_job job_id result run_key now = update job_key job_id (finished result run_key now)

abbrev pub broken : String → String → String → ℕ → JobRecord → JobRecord
broken error kind step now job = record job {
  state = failed;
  error = some error;
  error_kind = some kind;
  current_step = step;
  updated_at = now;
}

unfoldable pub fail_job : String → String → String → String → ℕ → List JobRecord → List JobRecord
fail_job job_id error kind step now = update job_key job_id (broken error kind step now)

-- `JobRecord.state.in_(("queued", "running"))`, the states in `ACTIVE_JOB_STATES`.
abbrev pub is_active : JobState → Bool
is_active queued = true
is_active running = true
is_active completed = false
is_active failed = false

abbrev pub interrupted : ℕ → JobRecord → JobRecord
interrupted now =
    broken "The server restarted while this job was running. Re-upload the dataset to retry."
      "interrupted" "Interrupted by server restart" now

abbrev pub interrupt_active : ℕ → JobRecord → JobRecord
interrupt_active now job = if is_active job.state then interrupted now job else job

-- The new table, and how many jobs were marked.
unfoldable pub recover_interrupted_jobs : ℕ → List JobRecord → List JobRecord × ℕ
recover_interrupted_jobs now jobs =
    (map (interrupt_active now) jobs, count (λ j. is_active j.state) jobs)

-- The new table, and how many rows went.
unfoldable pub purge_old_jobs : ℕ → ℕ → List JobRecord → List JobRecord × ℕ
purge_old_jobs max_age_hours now jobs =
    let old = λ (j : JobRecord). ltb j.created_at (now - hours max_age_hours) in
    (delete_where old jobs, count old jobs)

unfoldable pub count_active_jobs : String → List JobRecord → ℕ
count_active_jobs owner_id =
    count (λ (j : JobRecord). (j.owner_id == owner_id) && is_active j.state)
