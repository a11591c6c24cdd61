-- ===== src/Pipeline/Body.antt =====
-- The training job as a whole, `_run_upload_pipeline`, and `upload_status` of
-- backend/routes/upload.py.
use autonomous_ai_analyst.Base.{String, [], Bool, ◌&&◌, Option, none, some, if◌then◌else◌}
use autonomous_ai_analyst.Text.{◌+++◌}
use autonomous_ai_analyst.Common.{Json}
use autonomous_ai_analyst.Settings.{Settings}
use autonomous_ai_analyst.Jobs.{JobStatus, get_job, complete_job, fail_job}
use autonomous_ai_analyst.Storage.{exists_at}
use autonomous_ai_analyst.Storage.{place}
use autonomous_ai_analyst.Storage.Mirror.{ensure_local}
use autonomous_ai_analyst.Uploads.Reading.{Temp, cleanup}
use autonomous_ai_analyst.Http.{Result, job_not_found}
use autonomous_ai_analyst.Database.{Database}
use autonomous_ai_analyst.Pipeline.Work.{
  kind_name, rejected, crashed, Attempt, ok, raised, Work, attempt, ◌>>=◌, ◌>>◌,
}
use autonomous_ai_analyst.Pipeline.Lab.{Lab}
use autonomous_ai_analyst.Pipeline.Parts.{
  modify_store, step, run_key, reuse, read_dataset, choose_target, train, judge, save, finish, Job,
  World,
}

module _ (settings : Settings) (world : World) (job : Job) (lab : Lab) where
  unfoldable pub train_anew : Work Json
  unfolding read_dataset choose_target train judge save finish
  train_anew = do
    read_dataset settings world job lab
    choose_target settings world job lab
    training ← train settings world job lab
    judge settings world job lab training
    metadata ← save settings world job lab
    finish settings world job lab training metadata

  abbrev pub is_cached : Database → Bool
  is_cached db =
      exists_at (place (run_key settings world job lab) ".json") db.store.files
      && exists_at (place (run_key settings world job lab) "_model.pkl") db.store.files

  abbrev pub reuse_or_train : Work Json
  reuse_or_train db = if is_cached db then reuse settings world job lab db else train_anew db

  -- The `try` block, up to the call of `complete_job` in which both of its ways end.
  unfoldable pub body : Work Json
  unfolding reuse train_anew
  body =
      step settings world job lab "Hashing dataset and run configuration" 5
      >> attempt lab.read_bytes
      >> modify_store (ensure_local world.size_of (run_key settings world job lab) [])
      >> reuse_or_train

  -- `complete_job` and the two handlers.
  abbrev pub end_job : Attempt Json → Database → Database
  end_job (ok result) db = record db {
    jobs = complete_job job.job_id result (some (run_key settings world job lab)) world.now db.jobs;
  }
  end_job (raised (rejected message kind)) db = record db {
    jobs =
        fail_job job.job_id message (kind_name kind) ("Failed: " +++ kind_name kind) world.now
          db.jobs;
  }
  end_job (raised (crashed message)) db = record db {
    jobs = fail_job job.job_id message "pipeline" "Failed" world.now db.jobs;
  }

  unfoldable pub run_upload_pipeline : Database × Temp → Database × Temp
  unfolding body
  run_upload_pipeline (db, temp) =
      let (result, db') = body db in (end_job result db', cleanup job.stored temp)

-- `upload_status`, for the scope of the principal (`owner_scope`).
abbrev found : Option JobStatus → Result JobStatus
found none = Result.raised job_not_found
found (some status) = Result.ok status

unfoldable pub upload_status : String → Option String → Database → Result JobStatus
upload_status job_id scope db = found (get_job job_id scope db.jobs)
