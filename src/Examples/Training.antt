-- ===== src/Examples/Training.antt =====
-- One training job at concrete inputs.
use autonomous_ai_analyst.Base.{
  String, [], ◌∷◌, false, Option, none, some, ◌≡◌, ◌≢◌, ◌⊎◌, refl, subst,
}
use autonomous_ai_analyst.Base.Int.{pos}
use autonomous_ai_analyst.Text.{join}
use autonomous_ai_analyst.Table.{get}
use autonomous_ai_analyst.Jobs.{
  JobRecord, job_key, completed, failed, append_step, complete_job, get_job,
}
use autonomous_ai_analyst.Runs.{run_owner, upsert_run}
use autonomous_ai_analyst.Versions.{list_model_versions, add_model_version, promote_model_version}
use autonomous_ai_analyst.Storage.{publish_run}
use autonomous_ai_analyst.Storage.Mirror.{ensure_local}
use autonomous_ai_analyst.Lifecycle.{expiry_for_new_run}
use autonomous_ai_analyst.Registry.{register_initial}
use autonomous_ai_analyst.Hashing.Keys.{run_cache_key}
use autonomous_ai_analyst.Database.{Database}
use autonomous_ai_analyst.Pipeline.Work.{Attempt, ok, raised, crashed, report_all, ◌>>=◌, ◌>>◌}
use autonomous_ai_analyst.Pipeline.Lab.{shap, Metadata, Lab}
use autonomous_ai_analyst.Pipeline.Parts.{Job, World}
use autonomous_ai_analyst.Pipeline.Body.{run_upload_pipeline}
use autonomous_ai_analyst.Pipeline.Ends.{run_upload_pipeline-ends}
use autonomous_ai_analyst.Pipeline.Registers.{run_upload_pipeline-IsRegistered}
use autonomous_ai_analyst.Examples.Data.{settings, bob, job_of, database}

abbrev world : World
world = record {
  lower = λ s. s;
  sha256 = λ s. "k";
  size_of = λ s. 4;
  clock = λ s. 70;
  dumps = join ",";
  grouped = λ n. "n";
  now = 71;
}

abbrev job : Job
job = record {
  job_id = "j1";
  stored = record { path = "tmp"; sha256 = "d"; size = 3; line_count = 1 };
  config = record {
    dataset_hash = "d";
    mode = "auto";
    manual_model = none;
    target_column = none;
    pipeline_version = "9";
    tuning_budget = "0";
    use_smote = false;
    owner_id = "bob";
  };
  filename = some "sales.csv";
  version_id = "v9";
  max_upload_rows = 1000;
}

abbrev metadata : Metadata
metadata = record {
  run_key = "k";
  dataset_hash = "d";
  run_mode = "auto";
  target = some "price";
  problem_type = some "regression";
  health_verdict = some "good";
  column_count = 3;
  pipeline_version = some "9";
  trained = record {
    selected_model = some "forest";
    metric_name = some "rmse";
    metric_value = some (pos 3);
    row_count = 50;
  };
  payload = λ status. ("status", status) ∷ [];
}

abbrev done : Attempt (Unit {0})
done = ok tt

abbrev lab : Lab
lab = record {
  read_bytes = done;
  load_metadata = ok metadata;
  read_csv = ok (record { rows = 50; columns = 3; parse_warnings = [] });
  data_quality = done;
  charts = done;
  prepare = ok (record {
    target_col = "price";
    numeric_columns = 2;
    categorical_columns = 0;
    warnings = [];
  });
  summary = done;
  train = ok (record {
    candidates = 2;
    cv_folds = 5;
    holdout_rows = "10";
    imbalance_warnings = [];
    smote_used = false;
    smote_note = none;
    tuning = [];
    failed_models = [];
    trained_models = "forest" ∷ [];
    selected = "forest";
    problem_type = "regression";
  });
  predict = done;
  calibrate = ok none;
  selection_note = λ t. "Selected forest";
  explain = ok shap;
  assess = done;
  diagnose = done;
  write_insights = raised (crashed "bad plot");
  dump_bundle = done;
  write_snapshot = done;
  model_card = done;
  write_metadata = ok metadata;
}

run_upload_pipeline-ends_example :
    let (db, temp) = run_upload_pipeline settings world job lab (database, ("tmp", 1 ∷ []) ∷ []) in
    (temp ≡ [])
    × ((j : JobRecord) × (get job_key "j1" db.jobs ≡ some j)
        × ((j.state ≡ completed) ⊎ (j.state ≡ failed))
        × (j.owner_id ≡ "bob"))
    × ((other : String)
        → other ≢ "j1"
        → get job_key other db.jobs ≡ get job_key other database.jobs)
run_upload_pipeline-ends_example =
    run_upload_pipeline-ends settings world job lab database (job_of "j1" bob) (1 ∷ []) [] refl

abbrev good_lab : Lab
good_lab = record lab { write_insights = done }

abbrev or_default : Option JobRecord → JobRecord
or_default none = job_of "j1" bob
or_default (some j) = j

abbrev trained : Database
trained = (run_upload_pipeline settings world job good_lab (database, [])).0

abbrev trained_job : JobRecord
trained_job = or_default (get job_key "j1" trained.jobs)

own_metadata : (m : Metadata) → ◌≡◌ {A = Attempt Metadata} (ok metadata) (ok m) → m.run_key ≡ "k"
own_metadata m e = let same : metadata ≡ m = cc in subst (λ m. m.run_key ≡ "k") same refl

run_upload_pipeline-IsRegistered_example : run_owner "k" trained.runs ≡ some "bob"
unfolding run_upload_pipeline run_cache_key append_step complete_job report_all register_initial
    upsert_run publish_run ensure_local get_job list_model_versions add_model_version
    promote_model_version expiry_for_new_run ◌>>=◌ ◌>>◌
run_upload_pipeline-IsRegistered_example =
    run_upload_pipeline-IsRegistered settings world job good_lab own_metadata database
      (job_of "j1" bob) trained_job [] refl refl refl
