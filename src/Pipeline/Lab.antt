-- ===== src/Pipeline/Lab.antt =====
-- What the calls that the training job makes on pandas, scikit-learn and the modules of backend/ml/
-- return or raise in one run. Only what the job reports or stores of a result is kept of it.
use autonomous_ai_analyst.Base.{ℕ, String, List, Bool, Option}
use autonomous_ai_analyst.Registry.{Trained}
use autonomous_ai_analyst.Common.{Json}
use autonomous_ai_analyst.Pipeline.Work.{Attempt}

-- `read_csv_with_report`
pub record Parsed : Type 0 where
  pub rows : ℕ
  pub columns : ℕ
  pub parse_warnings : List String

-- `prepare_dataset`
pub record Prepared : Type 0 where
  pub target_col : String
  pub numeric_columns : ℕ
  pub categorical_columns : ℕ
  pub warnings : List String

-- `train_models`; a number that the job writes with separators or digits is given as its text.
pub record Training : Type 0 where
  pub candidates : ℕ
  pub cv_folds : ℕ
  pub holdout_rows : String
  pub imbalance_warnings : List String
  pub smote_used : Bool
  pub smote_note : Option String
  pub tuning : List String
  pub failed_models : List String
  pub trained_models : List String
  pub selected : String
  pub problem_type : String

pub data ExplainMethod : Type 0 where
  shap native unavailable : ExplainMethod

-- What stored metadata says: the columns of the registry row, the version's fields, and the payload
-- of `_result_payload` for a status.
pub record Metadata : Type 0 where
  pub run_key : String
  pub dataset_hash : String
  pub run_mode : String
  pub target : Option String
  pub problem_type : Option String
  pub health_verdict : Option String
  pub column_count : ℕ
  pub pipeline_version : Option String
  pub trained : Trained
  pub payload : String → Json

pub record Lab : Type 0 where
  pub read_bytes : Attempt (Unit {0})
  pub load_metadata : Attempt Metadata
  pub read_csv : Attempt Parsed
  pub data_quality : Attempt (Unit {0})
  pub charts : Attempt (Unit {0})
  pub prepare : Attempt Prepared
  pub summary : Attempt (Unit {0})
  pub train : Attempt Training
  pub predict : Attempt (Unit {0})
  pub calibrate : Attempt (Option String)
  pub selection_note : Training → String
  pub explain : Attempt ExplainMethod
  pub assess : Attempt (Unit {0})
  pub diagnose : Attempt (Unit {0})
  pub write_insights : Attempt (Unit {0})
  pub dump_bundle : Attempt (Unit {0})
  pub write_snapshot : Attempt (Unit {0})
  pub model_card : Attempt (Unit {0})
  pub write_metadata : Attempt Metadata
