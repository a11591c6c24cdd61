-- ===== src/Pipeline/Parts.antt =====
-- `_register_run` and the steps of `_run_upload_pipeline` of backend/routes/upload.py. One run of the
-- job is at the moment `now`; the texts of its steps are the source's.
use autonomous_ai_analyst.Base.{
  ℕ, String, List, [], ◌∷◌, ◌++◌, map, Bool, true, false, ◌||◌, Option, none, some, ltb,
  if◌then◌else◌,
}
use autonomous_ai_analyst.Text.{◌+++◌, join}
use autonomous_ai_analyst.Common.{Json, merge}
use autonomous_ai_analyst.Settings.{Settings}
use autonomous_ai_analyst.Jobs.{LogEntry, JobStatus, get_job}
use autonomous_ai_analyst.Runs.{RunFields, upsert_run}
use autonomous_ai_analyst.Versions.{ModelVersionRecord}
use autonomous_ai_analyst.Registry.{register_initial}
use autonomous_ai_analyst.Registry.Decimal.{decimal}
use autonomous_ai_analyst.Storage.{File, Store, Place, exists_at}
use autonomous_ai_analyst.Storage.{publish_run, place}
use autonomous_ai_analyst.Lifecycle.{expiry_for_new_run}
use autonomous_ai_analyst.Hashing.Keys.{RunConfig, run_cache_key}
use autonomous_ai_analyst.Uploads.Reading.{StoredUpload}
use autonomous_ai_analyst.Pipeline.Work.{
  dataset, Fault, rejected, crashed, ok, raised, Work, pure, raise, attempt, ◌>>=◌, ◌>>◌, report,
  report_all,
}
use autonomous_ai_analyst.Pipeline.Lab.{
  Parsed, Prepared, Training, ExplainMethod, shap, native, unavailable, Metadata, Lab,
}

-- What the job is given, and what it draws: the new version's id and the sizes of files.
pub record Job : Type 0 where
  pub job_id : String
  pub stored : StoredUpload
  pub config : RunConfig
  pub filename : Option String
  pub version_id : String
  pub max_upload_rows : ℕ

abbrev pub too_small : Fault
too_small = rejected "Dataset too small. Need at least 10 rows and 2 columns." dataset

abbrev pub step_texts : Option JobStatus → List String
step_texts none = []
step_texts (some job) = map (λ (e : LogEntry). e.step) job.status_log

abbrev pub raise_if : Bool → Fault → Work (Unit {0})
raise_if true e = raise e
raise_if false e = pure tt

-- The moment, and functions that are not the program's: `str.lower`, SHA-256, the size of a file that
-- is written or downloaded, the moment of a step, JSON of a list, and `f"{n:}"`.
pub record World : Type 0 where
  pub lower : String → String
  pub sha256 : String → String
  pub size_of : String → ℕ
  pub clock : String → ℕ
  pub dumps : List String → String
  pub grouped : ℕ → String
  pub now : ℕ

abbrev pub is_nil : List String → Bool
is_nil [] = true
is_nil (_ ∷ _) = false

abbrev pub modify_store : (Store → Store) → Work (Unit {0})
modify_store f db = (ok tt, record db { store = f db.store })

abbrev pub enrolled : Option (List ModelVersionRecord × ModelVersionRecord) → Work (Unit {0})
enrolled none db = (raised (crashed "integrity error"), db)
enrolled (some (versions, _)) db = (ok tt, record db { versions = versions })

module _ (settings : Settings) (world : World) (job : Job) (lab : Lab) where
  abbrev pub step : String → ℕ → Work (Unit {0})
  step = report world.clock job.job_id

  abbrev pub steps : List String → ℕ → Work (Unit {0})
  steps = report_all world.clock job.job_id

  abbrev pub owner : String
  owner = job.config.owner_id

  abbrev pub run_key : String
  run_key =
      run_cache_key world.lower world.sha256 (record (job.config) {
        dataset_hash = job.stored.sha256;
        mode = world.lower job.config.mode;
      })

  abbrev pub run_fields : Metadata → RunFields
  run_fields m = record {
    run_key = m.run_key;
    dataset_hash = m.dataset_hash;
    filename = job.filename;
    mode = m.run_mode;
    target = m.target;
    problem_type = m.problem_type;
    selected_model = m.trained.selected_model;
    health_verdict = m.health_verdict;
    row_count = m.trained.row_count;
    column_count = m.column_count;
    pipeline_version = m.pipeline_version;
    owner_id = owner;
    expires_at = expiry_for_new_run settings world.now;
  }

  unfoldable pub register_run : Metadata → Work (Unit {0})
  register_run m db = (ok tt, record db { runs = upsert_run (run_fields m) world.now db.runs })

  -- `registry.register_initial`
  unfoldable pub register_version : Metadata → Work (Unit {0})
  register_version m db =
      enrolled (register_initial job.version_id run_key owner m.trained world.now db.versions) db

  -- The steps of `get_job`, as the job's result lists them.
  abbrev pub logged : Work (List String)
  logged db = (ok (step_texts (get_job job.job_id none db.jobs)), db)

  unfoldable pub reuse : Work Json
  unfolding register_run register_version
  reuse = do
    step "Cache hit: loading artifacts for this exact configuration" 100
    metadata ← attempt lab.load_metadata
    register_run metadata
    register_version metadata
    log ← logged
    pure (
        merge (metadata.payload "reused") (
          (
            "message",
            "This dataset, mode, and target combination was already trained. Reused stored artifacts.",
          )
          ∷ ("status_log", world.dumps log)
          ∷ []))

  abbrev pub too_large : ℕ → Fault
  too_large rows =
      rejected
        ("Dataset has "
          +++ (world.grouped rows
              +++ (" rows, above the " +++ (world.grouped job.max_upload_rows +++ "-row limit."))))
        dataset

  unfoldable pub read_dataset : Work Parsed
  read_dataset = do
    step "Reading CSV and validating shape" 12
    parsed ← attempt lab.read_csv
    steps parsed.parse_warnings 14
    raise_if (ltb parsed.rows 10 || ltb parsed.columns 2) too_small
    raise_if (ltb job.max_upload_rows parsed.rows) (too_large parsed.rows)
    step "Running data quality checks" 20
    attempt lab.data_quality
    step "Preparing auto-generated chart payload" 28
    attempt lab.charts
    pure parsed

  abbrev pub accepted : Prepared → String
  accepted p =
      "Target '"
      +++ (p.target_col
          +++ ("' accepted ("
              +++ (decimal p.numeric_columns
                  +++ (" numeric, "
                      +++ (decimal p.categorical_columns +++ " categorical features)")))))

  unfoldable pub choose_target : Work Prepared
  choose_target = do
    step "Selecting and validating target column" 35
    prepared ← attempt lab.prepare
    step (accepted prepared) 45
    steps prepared.warnings 48
    step "Calculating summary statistics" 55
    attempt lab.summary
    pure prepared

  abbrev pub cross_validated : Training → String
  cross_validated t =
      "Cross-validated "
      +++ (decimal t.candidates
          +++ (" model(s) over "
              +++ (decimal t.cv_folds
                  +++ (" folds; "
                      +++ (t.holdout_rows +++ " rows held out and never used for selection")))))

  abbrev pub note : Option String → Work (Unit {0})
  note none = pure tt
  note (some text) = step text 77

  abbrev pub smote_step : Training → Work (Unit {0})
  smote_step t =
      if t.smote_used
      then step "Applied SMOTE inside each fold's training rows only" 77
      else if job.config.use_smote
      then note t.smote_note
      else pure tt

  abbrev pub failed_step : Training → Work (Unit {0})
  failed_step t =
      if is_nil t.failed_models
      then pure tt
      else step ("Some models failed and were skipped: " +++ join ", " t.failed_models) 80

  unfoldable pub train : Work Training
  train = do
    step "Holding out a test set, then cross-validating every candidate" 60
    training ← attempt lab.train
    step (cross_validated training) 76
    steps training.imbalance_warnings 77
    smote_step training
    steps training.tuning 78
    failed_step training
    pure training

  abbrev pub calibrated : Option String → Work (Unit {0})
  calibrated none = pure tt
  calibrated (some reason) = step reason 89

  abbrev pub explained : ExplainMethod → Work (Unit {0})
  explained shap = pure tt
  explained native =
      step "SHAP unavailable for this model; used the model's own feature importances" 87
  explained unavailable = step "No feature attribution available for this model" 87

  -- `assess` stands for `assess_run` and `per_class_report`.
  unfoldable pub judge : Training → Work (Unit {0})
  judge training = do
    attempt lab.predict
    step "Checking whether the reported confidences are honest" 88
    applied ← attempt lab.calibrate
    calibrated applied
    step (lab.selection_note training) 84
    step "Computing feature attribution" 86
    method ← attempt lab.explain
    explained method
    step "Assessing result health against a naive baseline" 90
    attempt lab.assess
    step "Building diagnostics (confusion/residuals, correlations)" 91
    attempt lab.diagnose
    step "Generating insights" 92
    attempt lab.write_insights

  abbrev pub file_at : Place → File
  file_at p = record { root = p.root; name = p.key; size = world.size_of p.key; locked = false }

  -- A file that is written: a new one, or the one that is there.
  abbrev pub written : String → Work (Unit {0})
  written suffix =
      let p = place run_key suffix in
      modify_store
        λ s. record s { files = if exists_at p s.files then s.files else s.files ++ file_at p ∷ [] }

  unfoldable pub save : Work Metadata
  save = do
    step "Saving model bundle and metadata" 97
    attempt lab.dump_bundle
    written "_model.pkl"
    written "_model.pkl.sig"
    attempt lab.write_snapshot
    written "_data.csv"
    attempt lab.model_card
    metadata ← attempt lab.write_metadata
    written ".json"
    pure (record metadata { run_key = run_key })

  unfoldable pub finish : Training → Metadata → Work Json
  unfolding register_run register_version
  finish training metadata = do
    register_run metadata
    register_version metadata
    modify_store λ s. (publish_run run_key [] s).0
    log ← logged
    pure (
        merge (metadata.payload "trained") (
          ("trained_models", world.dumps training.trained_models)
          ∷ ("status_log", world.dumps (log ++ "Completed" ∷ []))
          ∷ []))
