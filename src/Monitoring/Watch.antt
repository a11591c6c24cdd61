-- ===== src/Monitoring/Watch.antt =====
-- `log_prediction_batch`, `drift_report`, `retraining_advice` and `overview` of backend/monitoring.py.
-- The identifiers that are drawn, the JSON form of a row of features and what pandas measures on
-- logged inputs are arguments. `index * (total / cap)` is taken without rounding.
use autonomous_ai_analyst.Base.{
  ℕ, zero, suc, ◌+◌, ◌*◌, ◌/◌, min, String, List, [], ◌∷◌, map, Bool, true, false, not, Option,
  none, some, eqb, ltb, if◌then◌else◌, select, take, length,
}
use autonomous_ai_analyst.Text.{◌+++◌, join}
use autonomous_ai_analyst.Common.{Json}
use autonomous_ai_analyst.Predictions.{PredictionRecord, log_predictions, list_predictions}
use autonomous_ai_analyst.Monitoring.Drift.{
  moderate, material, insufficient, unavailable, Reference, Values, Frame, DriftReport, compare,
  has_moved, entry_column,
}

pub record MonitoringSettings : Type 0 where
  pub prediction_logging_enabled : Bool
  pub prediction_log_max_rows : ℕ
  pub prediction_log_inputs : Bool
  pub drift_sample_size : ℕ
  pub drift_min_rows : ℕ
  pub retention_days : ℕ

unfoldable pub enabled : MonitoringSettings → Bool
enabled settings = settings.prediction_logging_enabled

-- One row of a response; `number` is what `_as_float` makes of the prediction.
pub record ServedRow : Type 0 where
  pub prediction : Option String
  pub number : Option String
  pub confidence : Option String

-- What a batch is logged with: the rows of the frame as JSON, and the ids that are drawn.
pub record Batch : Type 0 where
  pub run_key : String
  pub owner_id : String
  pub model_version : Option String
  pub frame_rows : ℕ
  pub inputs_at : ℕ → Json
  pub latency_ms : ℕ
  pub request_id : String
  pub fresh_id : ℕ → String
  pub now : ℕ

abbrev pub row_at : ℕ → List ServedRow → Option ServedRow
row_at n [] = none
row_at zero (row ∷ rows) = some row
row_at (suc n) (row ∷ rows) = row_at n rows

-- `range(n)`, from a number on.
abbrev pub range_from : ℕ → ℕ → List ℕ
range_from start zero = []
range_from start (suc n) = start ∷ range_from (start + 1) n

-- The positions of the rows that are logged.
unfoldable pub positions : ℕ → ℕ → List ℕ
positions total cap =
    if ltb cap total
    then map (λ index. (index * total) / cap) (range_from 0 cap)
    else range_from 0 total

module _ (settings : MonitoringSettings) where
  -- `_row_inputs`
  abbrev row_inputs : Batch → ℕ → Json
  row_inputs batch position =
      if settings.prediction_log_inputs then batch.inputs_at position else []

  abbrev pub record_of : Batch → Bool → ℕ → ServedRow → PredictionRecord
  record_of batch sampled position row = record {
    prediction_id = batch.fresh_id position;
    request_id = some batch.request_id;
    run_key = batch.run_key;
    owner_id = batch.owner_id;
    model_version = batch.model_version;
    created_at = batch.now;
    latency_ms = batch.latency_ms;
    inputs = row_inputs batch position;
    prediction = row.prediction;
    prediction_value = row.number;
    confidence = row.confidence;
    sampled = sampled;
  }

  abbrev pub with_record :
      Batch
      → Bool
      → ℕ
      → Option ServedRow
      → Option (List PredictionRecord)
      → Option (List PredictionRecord)
  with_record batch sampled position (some row) (some records) =
      some (record_of batch sampled position row ∷ records)
  with_record batch sampled position none records = none
  with_record batch sampled position (some row) none = none

  abbrev pub records_at : Batch → Bool → List ServedRow → List ℕ → Option (List PredictionRecord)
  records_at batch sampled rows [] = some []
  records_at batch sampled rows (position ∷ rest) =
      with_record batch sampled position (row_at position rows) (records_at batch sampled rows rest)

  -- `_build_rows`, none where it raises.
  unfoldable pub build_rows : Batch → List ServedRow → Option (List PredictionRecord)
  build_rows batch rows =
      let total = min batch.frame_rows (length rows) in
      records_at batch (ltb settings.prediction_log_max_rows total) rows
        (positions total settings.prediction_log_max_rows)

  abbrev pub log_built :
      Option (List PredictionRecord) → List PredictionRecord → List PredictionRecord × ℕ
  log_built none log = (log, 0)
  log_built (some records) log = log_predictions records log

  unfoldable pub log_prediction_batch :
      Batch → List ServedRow → List PredictionRecord → List PredictionRecord × ℕ
  log_prediction_batch batch rows log =
      if enabled settings then log_built (build_rows batch rows) log else (log, 0)

  -- `_no_inputs_reason`
  abbrev no_inputs_reason : String
  no_inputs_reason =
      if not settings.prediction_log_inputs
      then "Predictions are being logged without their inputs (PREDICTION_LOG_INPUTS=false), so there is no live distribution to compare. Volume and latency are still recorded."
      else "The logged predictions carry no feature values, so there is nothing to compare."

  abbrev has_inputs : Json → Bool
  has_inputs [] = false
  has_inputs (field ∷ fields) = true

  abbrev pub inputs_of : PredictionRecord → Json
  inputs_of p = p.inputs

  module _ (show : ℕ → String) (measure : List Json → String → Option Values) where
    abbrev frame_of : List Json → Frame
    frame_of inputs = record { rows = length inputs; column = measure inputs }

    abbrev report_of : Option Reference → List PredictionRecord → List Json → DriftReport
    report_of reference [] [] = compare show reference (frame_of []) settings.drift_min_rows
    report_of reference (p ∷ logged) [] = record {
      status = unavailable;
      reason = no_inputs_reason;
      rows_compared = length (p ∷ logged);
      columns = [];
    }
    report_of reference logged (row ∷ rows) =
        compare show reference (frame_of (row ∷ rows)) settings.drift_min_rows

    unfoldable pub drift_report :
        String → Option Reference → Option String → List PredictionRecord → DriftReport
    drift_report run_key reference owner_id log =
        let logged = list_predictions run_key settings.drift_sample_size owner_id none log in
        report_of reference logged (select has_inputs (map inputs_of logged))

pub record Advice : Type 0 where
  pub recommended : Bool
  pub trigger : Option String
  pub reason : String
  pub how : Option String

-- `retraining_advice`, by whether predictions have been counted.
module _ (show : ℕ → String) where
  abbrev moved_text : List String → String
  moved_text moved = join ", " (take 5 moved)

  unfoldable pub retraining_advice : DriftReport → ℕ → Advice
  retraining_advice drift counted =
      let moved = map entry_column (select has_moved drift.columns) in
      elim drift.status [
        | material ↦ record {
          recommended = true;
          trigger = some "drift";
          reason =
              show (length moved)
              +++ " feature(s) have moved materially since this model was trained ("
              +++ moved_text moved
              +++ "). Retrain on data that includes the new distribution, then let the champion/challenger comparison decide whether the new model is actually better.";
          how = some "POST /api/runs/{run_key}/retrain with a CSV of newer labelled data.";
        }
        | moderate ↦ record {
          recommended = false;
          trigger = some "drift";
          reason =
              show (length moved)
              +++ " feature(s) have moved moderately ("
              +++ moved_text moved
              +++ "). Worth watching; not yet worth refitting.";
          how = none;
        }
        | insufficient ↦ record {
          recommended = false;
          trigger = none;
          reason = drift.reason;
          how = none;
        }
        | _ ↦ record {
          recommended = false;
          trigger = none;
          reason =
              if eqb counted 0
              then "Nothing has been predicted yet, so there is nothing to judge."
              else "The inputs this model is being sent still look like the ones it was trained on.";
          how = none;
        }
      ]
