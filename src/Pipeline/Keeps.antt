-- ===== src/Pipeline/Keeps.antt =====
-- What holds of each write of the training job of backend/routes/upload.py holds of the whole of it,
-- whatever the calls that it makes return or raise.
use autonomous_ai_analyst.Base.{
  ℕ, String, List, [], ◌∷◌, Bool, true, false, Option, none, some, inl, inr, if◌then◌else◌,
  Bool-cases,
}
use autonomous_ai_analyst.Settings.{Settings}
use autonomous_ai_analyst.Jobs.{append_step}
use autonomous_ai_analyst.Storage.{Store}
use autonomous_ai_analyst.Database.{Database}
use autonomous_ai_analyst.Pipeline.Work.{
  Fault, Attempt, ok, raised, Work, pure, attempt, go_on, ◌>>=◌, ◌>>◌, report_all,
}
use autonomous_ai_analyst.Pipeline.Lab.{
  Training, ExplainMethod, shap, native, unavailable, Metadata, Lab,
}
use autonomous_ai_analyst.Pipeline.Parts.{
  Job, World, raise_if, modify_store, step, steps, register_run, register_version, reuse,
  read_dataset, choose_target, train, judge, save, finish, smote_step, note, failed_step,
  calibrated, explained, written, logged, is_nil,
}
use autonomous_ai_analyst.Pipeline.Body.{train_anew, reuse_or_train, body, is_cached}

module _ (settings : Settings) (world : World) (job : Job) (lab : Lab) where
  -- A relation that every write of the job keeps to.
  pub record Allows (R : Database → Database → Type 0) : Type 0 where
    pub same : (db : Database) → R db db
    pub after : (a b c : Database) → R a b → R b c → R a c
    pub reports :
        (text : String) (progress now : ℕ) (db : Database)
        → R db (record db { jobs = append_step job.job_id text progress now db.jobs })
    pub runs : (m : Metadata) (db : Database) → R db (register_run settings world job lab m db).1
    pub versions :
        (m : Metadata) (db : Database) → R db (register_version settings world job lab m db).1
    pub stores : (f : Store → Store) (db : Database) → R db (record db { store = f db.store })

  module _ (R : Database → Database → Type 0) (allows : Allows R) where
    pub record Good {A : Type 0} (m : Work A) : Type 0 where
      pub keeps : (db : Database) → R db (m db).1

    good : {A : Type 0} {m : Work A} → ((db : Database) → R db (m db).1) → Good m
    good h = record { keeps = h }

    still : {A : Type 0} (r : Attempt A) → Good (attempt r)
    still r = good (allows.same)

    bind_result :
        {A B : Type 0} (f : A → Work B) (db db' : Database) (r : Attempt A)
        → ((a : A) → Good (f a))
        → R db db'
        → R db (go_on r f db').1
    bind_result f db db' (ok a) g h = allows.after db db' (f a db').1 h ((g a).keeps db')
    bind_result f db db' (raised e) g h = h

    bind :
        {A B : Type 0} {m : Work A} {f : A → Work B}
        → Good m
        → ((a : A) → Good (f a))
        → Good (m >>= f)
    unfolding ◌>>=◌
    bind {m} {f} h g = good λ db. bind_result f db (m db).1 (m db).0 g (h.keeps db)

    next : {A B : Type 0} {m : Work A} {k : Work B} → Good m → Good k → Good (m >> k)
    unfolding ◌>>◌
    next h k = bind h (λ _. k)

    says : (text : String) (progress : ℕ) → Good (step settings world job lab text progress)
    says text progress = good (allows.reports text progress (world.clock text))

    says_all :
        (texts : List String) (progress : ℕ) → Good (steps settings world job lab texts progress)
    unfolding report_all
    says_all [] progress = good (allows.same)
    says_all (text ∷ texts) progress = next (says text progress) (says_all texts progress)

    stops : (b : Bool) (e : Fault) → Good (raise_if b e)
    stops true e = good (allows.same)
    stops false e = good (allows.same)

    stored : (f : Store → Store) → Good (modify_store f)
    stored f = good (allows.stores f)

    saves : (suffix : String) → Good (written settings world job lab suffix)
    saves suffix = stored _

    reads : Good (logged settings world job lab)
    reads = good (allows.same)

    registers : (m : Metadata) → Good (register_run settings world job lab m)
    registers m = good (allows.runs m)

    enrolls : (m : Metadata) → Good (register_version settings world job lab m)
    enrolls m = good (allows.versions m)

    returns : {A : Type 0} (a : A) → Good (pure a)
    returns a = good (allows.same)

    hints : (t : Option String) → Good (note settings world job lab t)
    hints none = returns tt
    hints (some text) = says text 77

    either : {A : Type 0} (b : Bool) {m k : Work A} → Good m → Good k → Good (if b then m else k)
    either true h k = h
    either false h k = k

    smote_step-Good : (t : Training) → Good (smote_step settings world job lab t)
    smote_step-Good t =
        either t.smote_used (says "Applied SMOTE inside each fold's training rows only" 77)
          (either job.config.use_smote (hints t.smote_note) (returns tt))

    failed_step-Good : (t : Training) → Good (failed_step settings world job lab t)
    failed_step-Good t = either (is_nil t.failed_models) (returns tt) (says _ 80)

    calibrated-Good : (r : Option String) → Good (calibrated settings world job lab r)
    calibrated-Good none = returns tt
    calibrated-Good (some reason) = says reason 89

    explained-Good : (m : ExplainMethod) → Good (explained settings world job lab m)
    explained-Good shap = returns tt
    explained-Good native = says _ 87
    explained-Good unavailable = says _ 87

    -- Each part of the job keeps to the relation.
    ruleset parts = (
      bind, next, says, says_all, still, stops, registers, enrolls, reads, returns, saves, stored,
      smote_step-Good, failed_step-Good, calibrated-Good, explained-Good,
    )

    reuse-Good : Good (reuse settings world job lab)
    unfolding reuse
    reuse-Good = search parts depth 20

    read_dataset-Good : Good (read_dataset settings world job lab)
    unfolding read_dataset
    read_dataset-Good = search parts depth 20

    choose_target-Good : Good (choose_target settings world job lab)
    unfolding choose_target
    choose_target-Good = search parts depth 20

    train-Good : Good (train settings world job lab)
    unfolding train
    train-Good = search parts depth 20

    judge-Good : (t : Training) → Good (judge settings world job lab t)
    unfolding judge
    judge-Good t = search parts depth 30

    save-Good : Good (save settings world job lab)
    unfolding save
    save-Good = search parts depth 20

    finish-Good : (t : Training) (m : Metadata) → Good (finish settings world job lab t m)
    unfolding finish
    finish-Good t m = search parts depth 20

    train_anew-Good : Good (train_anew settings world job lab)
    unfolding train_anew
    train_anew-Good =
        search
          (
            bind, next, read_dataset-Good, choose_target-Good, train-Good, judge-Good, save-Good,
            finish-Good,
          )
          depth 20

    reuse_or_train-Good : Good (reuse_or_train settings world job lab)
    reuse_or_train-Good = good λ db. elim (Bool-cases (is_cached settings world job lab db)) [
      | inl cached ↦ rw cached (reuse-Good.keeps db)
      | inr absent ↦ rw absent (train_anew-Good.keeps db)
    ]

    pub body-Good : Good (body settings world job lab)
    unfolding body
    body-Good = search (next, says, still, stored, reuse_or_train-Good) depth 20
