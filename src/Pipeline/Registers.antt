-- ===== src/Pipeline/Registers.antt =====
-- What a training job of backend/routes/upload.py that completes has put in the run registry.
use autonomous_ai_analyst.Base.{
  ℕ, String, List, [], ◌∷◌, Option, none, some, ◌≡◌, ◌≢◌, inl, inr, refl, sym, subst, arith, ◌∙◌,
  eq_iff, Bool-cases, Option-cases,
}
use autonomous_ai_analyst.Common.{Json}
use autonomous_ai_analyst.Settings.{Settings}
use autonomous_ai_analyst.Jobs.{JobRecord, job_key, completed, fail_job, broken}
use autonomous_ai_analyst.Runs.{RunFields, RunRecord, run_id, upsert_run, run_owner}
use autonomous_ai_analyst.Table.{get, get-update_self, get-append, key-get}
use autonomous_ai_analyst.Versions.{ModelVersionRecord}
use autonomous_ai_analyst.Registry.{register_initial}
use autonomous_ai_analyst.Uploads.Reading.{Temp}
use autonomous_ai_analyst.Database.{Database}
use autonomous_ai_analyst.Pipeline.Work.{
  kind_name, rejected, crashed, Attempt, ok, raised, go_on, Work, ◌>>=◌, ◌>>◌,
}
use autonomous_ai_analyst.Pipeline.Lab.{Metadata, Training, Lab}
use autonomous_ai_analyst.Text.{◌+++◌}
use autonomous_ai_analyst.Pipeline.Ends.{body-KeepsJobs}
use autonomous_ai_analyst.Pipeline.Parts.{
  Job, World, register_run, register_version, enrolled, reuse, save, finish, run_key, run_fields,
}
use autonomous_ai_analyst.Pipeline.Body.{
  train_anew, reuse_or_train, is_cached, body, end_job, run_upload_pipeline,
}

-- What holds after a call that returns, if a condition held before it.
record Triple {A : Type 0} (P : Database → Type 0) (m : Work A) (Q : A → Database → Type 0)
    : Type 0 where
  holds : (db : Database) (a : A) → P db → (m db).0 ≡ ok a → Q a (m db).1

abbrev Anything : Database → Type 0
Anything db = Unit

abbrev Whatever : {A : Type 0} → A → Database → Type 0
Whatever a db = Unit

triple :
    {A : Type 0} {P : Database → Type 0} {m : Work A} {Q : A → Database → Type 0}
    → ((db : Database) (a : A) → P db → (m db).0 ≡ ok a → Q a (m db).1)
    → Triple P m Q
triple h = record { holds = h }

go_on-holds :
    {A B : Type 0} (Q : A → Database → Type 0) (R : B → Database → Type 0) (r : Attempt A)
    (f : A → Work B) (db : Database) (b : B)
    → ((a : A) → r ≡ ok a → Q a db)
    → ((a : A) → Triple (Q a) (f a) R)
    → (go_on r f db).0 ≡ ok b
    → R b (go_on r f db).1
go_on-holds Q R (ok a) f db b q h e = (h a).holds db b (q a refl) e
go_on-holds Q R (raised x) f db b q h e = absurd (ground arith)

bind :
    {A B : Type 0} {m : Work A} {f : A → Work B} {P : Database → Type 0} (Q : A → Database → Type 0)
    {R : B → Database → Type 0}
    → Triple P m Q
    → ((a : A) → Triple (Q a) (f a) R)
    → Triple P (m >>= f) R
unfolding ◌>>=◌
bind {m} {f} Q {R} h k =
    triple λ db b p e. go_on-holds Q R (m db).0 f (m db).1 b (λ a o. h.holds db a p o) k e

next :
    {A B : Type 0} {m : Work A} {k : Work B} {P : Database → Type 0} (Q : A → Database → Type 0)
    {R : B → Database → Type 0}
    → Triple P m Q
    → ((a : A) → Triple (Q a) k R)
    → Triple P (m >> k) R
unfolding ◌>>◌
next Q h k = bind Q h k

-- A part whose result does not matter.
skip :
    {A B : Type 0} (m : Work A) {k : Work B} {R : B → Database → Type 0}
    → Triple Anything k R
    → Triple Anything (m >> k) R
skip m k = next Whatever (triple λ db a p e. tt) (λ a. k)

pass :
    {A B : Type 0} (m : Work A) {f : A → Work B} {R : B → Database → Type 0}
    → ((a : A) → Triple Anything (f a) R)
    → Triple Anything (m >>= f) R
pass m k = bind Whatever (triple λ db a p e. tt) k

enrolled-runs :
    (r : Option (List ModelVersionRecord × ModelVersionRecord)) (db : Database)
    → (enrolled r db).1.runs ≡ db.runs
enrolled-runs none db = refl
enrolled-runs (some (versions, _)) db = refl

upsert_run-owner :
    (fields : RunFields) (now : ℕ) (runs : List RunRecord)
    → run_owner fields.run_key (upsert_run fields now runs) ≡ some fields.owner_id
unfolding run_owner upsert_run
upsert_run-owner fields now runs = elim (Option-cases (get run_id fields.run_key runs)) [
  | inl new ↦
      let row : RunRecord = record { fields = fields; created_at = now } in
      ground (
        arith,
        get-append run_id fields.run_key runs (row ∷ []),
        eq_iff fields.run_key fields.run_key,
      )
  | inr (row, old) ↦
      let f : RunRecord → RunRecord = λ (r : RunRecord). record r { fields = fields } in
      ground (
        arith,
        get-update_self run_id fields.run_key f runs {r = row},
        key-get run_id fields.run_key runs {r = row},
      )
]

module _ (settings : Settings) (world : World) (job : Job) (lab : Lab) where
  abbrev key : String
  key = run_key settings world job lab

  abbrev pub IsRegistered : Database → Type 0
  IsRegistered db = run_owner key db.runs ≡ some job.config.owner_id

  abbrev Registered : {A : Type 0} → A → Database → Type 0
  Registered a db = IsRegistered db

  registers :
      (m : Metadata)
      → Triple (λ db. m.run_key ≡ key) (register_run settings world job lab m) Registered
  unfolding register_run
  registers m = triple λ db a p e.
      subst
        (λ k.
          run_owner k (upsert_run (run_fields settings world job lab m) world.now db.runs)
          ≡ some job.config.owner_id)
        p (upsert_run-owner (run_fields settings world job lab m) world.now db.runs)

  enrolls :
      (m : Metadata) → Triple IsRegistered (register_version settings world job lab m) Registered
  unfolding register_version
  enrolls m = triple λ db a p e.
      subst (λ rows. run_owner key rows ≡ some job.config.owner_id)
        (sym (
          enrolled-runs
            (register_initial job.version_id key job.config.owner_id m.trained world.now
              db.versions)
            db))
        p

  keeps :
      {A : Type 0} (m : Work A)
      → ((db : Database) → (m db).1.runs ≡ db.runs)
      → Triple IsRegistered m Registered
  keeps m h =
      triple
        λ db a p e. subst (λ rows. run_owner key rows ≡ some job.config.owner_id) (sym (h db)) p

  not_completed :
      (m k t : String) (jobs : List JobRecord) (j j' : JobRecord)
      → get job_key job.job_id jobs ≡ some j
      → get job_key job.job_id (fail_job job.job_id m k t world.now jobs) ≡ some j'
      → j'.state ≢ completed
  unfolding fail_job
  not_completed m k t jobs j j' h e c =
      let f : JobRecord → JobRecord = broken m k t world.now in
      let end : some j' ≡ some (f j) =
        sym e ∙ get-update_self job_key job.job_id f jobs {r = j} refl h in
      absurd (ground arith)

  end_job-IsRegistered :
      (r : Attempt Json) (db : Database) (j j' : JobRecord)
      → ((result : Json) → r ≡ ok result → IsRegistered db)
      → get job_key job.job_id db.jobs ≡ some j
      → get job_key job.job_id (end_job settings world job lab r db).jobs ≡ some j'
      → j'.state ≡ completed
      → IsRegistered (end_job settings world job lab r db)
  end_job-IsRegistered (ok result) db j j' good h e c = good result refl
  end_job-IsRegistered (raised (rejected m k)) db j j' good h e c =
      absurd (not_completed m (kind_name k) ("Failed: " +++ kind_name k) db.jobs j j' h e c)
  end_job-IsRegistered (raised (crashed m)) db j j' good h e c =
      absurd (not_completed m "pipeline" "Failed" db.jobs j j' h e c)

  -- The stored metadata names the run that it is stored under.
  module _ (own : (m : Metadata) → lab.load_metadata ≡ ok m → m.run_key ≡ key) where
    reuse-Registered : Triple Anything (reuse settings world job lab) Registered
    unfolding reuse
    reuse-Registered = skip _ (
        bind (λ m db. lab.load_metadata ≡ ok m) (triple λ db m p e. e)
          λ m.
            next Registered (triple λ db a loaded e. (registers m).holds db a (own m loaded) e) λ _.
              next Registered (enrolls m)
                λ _. bind Registered (keeps _ (λ db. refl)) λ log. keeps _ (λ db. refl))

    save-key : Triple Anything (save settings world job lab) (λ m db. m.run_key ≡ key)
    unfolding save
    save-key = skip _ (
        skip _ (
          skip _ (
            skip _
              (skip _ (skip _ (skip _ (pass _ λ m. skip _ (triple λ db a p e. ground arith))))))))

    finish-Registered :
        (t : Training) (m : Metadata)
        → Triple (λ db. m.run_key ≡ key) (finish settings world job lab t m) Registered
    unfolding finish
    finish-Registered t m = next Registered (registers m) λ _. next Registered (enrolls m) λ _.
        next Registered (keeps _ (λ db. refl))
          λ _. bind Registered (keeps _ (λ db. refl)) λ log. keeps _ (λ db. refl)

    train_anew-Registered : Triple Anything (train_anew settings world job lab) Registered
    unfolding train_anew
    train_anew-Registered = skip _ (
        skip _
          (pass _ λ t. skip _ (bind (λ m db. m.run_key ≡ key) save-key λ m. finish-Registered t m)))

    reuse_or_train-Registered : Triple Anything (reuse_or_train settings world job lab) Registered
    reuse_or_train-Registered = triple λ db a p e.
        elim (Bool-cases (is_cached settings world job lab db)) [
          | inl cached ↦ rw cached (reuse-Registered.holds db a tt (rw cached at e))
          | inr absent ↦ rw absent (train_anew-Registered.holds db a tt (rw absent at e))
        ]

    body-Registered : Triple Anything (body settings world job lab) Registered
    unfolding body
    body-Registered = skip _ reuse_or_train-Registered

    -- If stored metadata names the run that it is stored under, a job that is in the table and ends as
    -- completed has its run in the registry under its owner.
    pub run_upload_pipeline-IsRegistered :
        (db : Database) (j j' : JobRecord) (temp : Temp)
        → get job_key job.job_id db.jobs ≡ some j
        → get job_key job.job_id (run_upload_pipeline settings world job lab (db, temp)).0.jobs
          ≡ some j'
        → j'.state ≡ completed
        → IsRegistered (run_upload_pipeline settings world job lab (db, temp)).0
    unfolding run_upload_pipeline
    run_upload_pipeline-IsRegistered db j j' temp h e c =
        let (j1, there, own1) = (body-KeepsJobs settings world job lab db).own j h in
        end_job-IsRegistered (body settings world job lab db).0 (body settings world job lab db).1
          j1 j' (λ result o. body-Registered.holds db result tt o) there e c
