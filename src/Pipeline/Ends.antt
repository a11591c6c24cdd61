-- ===== src/Pipeline/Ends.antt =====
-- How a training job of backend/routes/upload.py ends, whatever the calls that it makes return or
-- raise.
use autonomous_ai_analyst.Base.{
  ℕ, String, List, ◌∷◌, false, Option, none, some, ◌≡◌, ◌≢◌, ◌⊎◌, inl, inr, refl, sym, subst, arith,
  ◌∙◌, ◌==◌, eq_iff,
}
use autonomous_ai_analyst.Common.{Json}
use autonomous_ai_analyst.Settings.{Settings}
use autonomous_ai_analyst.Jobs.{
  JobRecord, job_key, completed, failed, append_step, complete_job, fail_job, stepped, finished,
}
use autonomous_ai_analyst.Table.{get, update, get-update_self, get-update_ne}
use autonomous_ai_analyst.Versions.{ModelVersionRecord}
use autonomous_ai_analyst.Registry.{register_initial}
use autonomous_ai_analyst.Uploads.Reading.{Temp, cleanup}
use autonomous_ai_analyst.Database.{Database}
use autonomous_ai_analyst.Pipeline.Work.{rejected, crashed, Attempt, ok, raised}
use autonomous_ai_analyst.Pipeline.Lab.{Lab}
use autonomous_ai_analyst.Pipeline.Parts.{
  Job, World, register_run, register_version, enrolled, run_key,
}
use autonomous_ai_analyst.Pipeline.Body.{body, end_job, run_upload_pipeline}
use autonomous_ai_analyst.Pipeline.Keeps.{Allows, body-Good}

apart : (id other : String) → other ≢ id → (id == other) ≡ false
apart id other h = ground (arith, eq_iff id other)

-- Another job is as it was, and the job is there under its owner.
pub record KeepsJobs (id : String) (before after : List JobRecord) : Type 0 where
  pub others : (other : String) → other ≢ id → get job_key other after ≡ get job_key other before
  pub own :
      (j : JobRecord)
      → get job_key id before ≡ some j
      → (j' : JobRecord) × (get job_key id after ≡ some j') × (j'.owner_id ≡ j.owner_id)

KeepsJobs-same : (id : String) (jobs : List JobRecord) → KeepsJobs id jobs jobs
KeepsJobs-same id jobs = record { others = λ other h. refl; own = λ j h. (j, h, refl) }

KeepsJobs-after :
    (id : String) (a b c : List JobRecord) → KeepsJobs id a b → KeepsJobs id b c → KeepsJobs id a c
KeepsJobs-after id a b c h k = record {
  others = λ other ne. k.others other ne ∙ h.others other ne;
  own = λ j e.
      let (j', e', o') = h.own j e in let (j'', e'', o'') = k.own j' e' in (j'', e'', o'' ∙ o');
}

-- A write to the columns of the job.
KeepsJobs-update :
    (id : String) (f : JobRecord → JobRecord) (jobs : List JobRecord)
    → ((j : JobRecord) → job_key (f j) ≡ job_key j)
    → ((j : JobRecord) → (f j).owner_id ≡ j.owner_id)
    → KeepsJobs id jobs (update job_key id f jobs)
KeepsJobs-update id f jobs h k = record {
  others = λ other ne. get-update_ne job_key other id f jobs h (apart id other ne);
  own = λ j e. (f j, get-update_self job_key id f jobs (h j) e, k j);
}

enrolled-jobs :
    (r : Option (List ModelVersionRecord × ModelVersionRecord)) (db : Database)
    → (enrolled r db).1.jobs ≡ db.jobs
enrolled-jobs none db = refl
enrolled-jobs (some (versions, _)) db = refl

module _ (settings : Settings) (world : World) (job : Job) (lab : Lab) where
  allows_jobs : Allows settings world job lab (λ db db'. KeepsJobs job.job_id db.jobs db'.jobs)
  unfolding append_step register_run register_version
  allows_jobs = record {
    same = λ db. KeepsJobs-same job.job_id db.jobs;
    after = λ a b c. KeepsJobs-after job.job_id a.jobs b.jobs c.jobs;
    reports = λ text progress now db.
        KeepsJobs-update job.job_id (stepped text progress now) db.jobs (λ j. refl) (λ j. refl);
    runs = λ m db. KeepsJobs-same job.job_id db.jobs;
    versions = λ m db.
        subst (KeepsJobs job.job_id db.jobs)
          (sym (
            enrolled-jobs
              (register_initial job.version_id (run_key settings world job lab) job.config.owner_id
                m.trained world.now db.versions)
              db))
          (KeepsJobs-same job.job_id db.jobs);
    stores = λ f db. KeepsJobs-same job.job_id db.jobs;
  }

  pub body-KeepsJobs :
      (db : Database) → KeepsJobs job.job_id db.jobs (body settings world job lab db).1.jobs
  body-KeepsJobs db = (body-Good settings world job lab _ allows_jobs).keeps db

  -- The last write: the job is over, in one of the two ways.
  pub record Ended (before after : List JobRecord) : Type 0 where
    pub kept : KeepsJobs job.job_id before after
    pub over :
        (j : JobRecord)
        → get job_key job.job_id before ≡ some j
        → (j' : JobRecord) × (get job_key job.job_id after ≡ some j')
          × ((j'.state ≡ completed) ⊎ (j'.state ≡ failed))
          × (j'.owner_id ≡ j.owner_id)

  Ended-update :
      (f : JobRecord → JobRecord) (jobs : List JobRecord)
      → ((j : JobRecord) → job_key (f j) ≡ job_key j)
      → ((j : JobRecord) → (f j).owner_id ≡ j.owner_id)
      → ((j : JobRecord) → ((f j).state ≡ completed) ⊎ ((f j).state ≡ failed))
      → Ended jobs (update job_key job.job_id f jobs)
  Ended-update f jobs h k e = record {
    kept = KeepsJobs-update job.job_id f jobs h k;
    over = λ j found. (f j, get-update_self job_key job.job_id f jobs (h j) found, e j, k j);
  }

  end_job-Ended :
      (r : Attempt Json) (db : Database) → Ended db.jobs (end_job settings world job lab r db).jobs
  unfolding complete_job fail_job
  end_job-Ended (ok result) db =
      Ended-update (finished result (some (run_key settings world job lab)) world.now) db.jobs
        (λ j. refl) (λ j. refl) (λ j. inl refl)
  end_job-Ended (raised (rejected message kind)) db =
      Ended-update _ db.jobs (λ j. refl) (λ j. refl) (λ j. inr refl)
  end_job-Ended (raised (crashed message)) db =
      Ended-update _ db.jobs (λ j. refl) (λ j. refl) (λ j. inr refl)

  -- Whatever its calls return or raise, a job that is in the table ends as completed or failed under its
  -- owner, the uploaded file is gone, and no other job has changed.
  pub run_upload_pipeline-ends :
      (db : Database) (j : JobRecord) (bytes : List ℕ) (temp : Temp)
      → get job_key job.job_id db.jobs ≡ some j
      → let (db', temp') =
          run_upload_pipeline settings world job lab (db, (job.stored.path, bytes) ∷ temp) in
        (temp' ≡ temp)
        × ((j' : JobRecord) × (get job_key job.job_id db'.jobs ≡ some j')
            × ((j'.state ≡ completed) ⊎ (j'.state ≡ failed))
            × (j'.owner_id ≡ j.owner_id))
        × ((other : String)
            → other ≢ job.job_id
            → get job_key other db'.jobs ≡ get job_key other db.jobs)
  unfolding run_upload_pipeline cleanup
  run_upload_pipeline-ends db j bytes temp there =
      let (result, db1) = body settings world job lab db in
      let before = body-KeepsJobs db in
      let last = end_job-Ended result db1 in
      let (j1, there1, own1) = before.own j there in
      let (j2, there2, done, own2) = last.over j1 there1 in
      (
        ground (arith, eq_iff job.stored.path job.stored.path),
        (j2, there2, done, own2 ∙ own1),
        λ other ne. last.kept.others other ne ∙ before.others other ne,
      )
