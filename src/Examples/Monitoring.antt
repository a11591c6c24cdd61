-- ===== src/Examples/Monitoring.antt =====
-- Monitoring and the usage summary at concrete inputs.
use autonomous_ai_analyst.Base.{
  select, ℕ, String, List, [], ◌∷◌, true, false, none, some, ◌≡◌, refl, eqb, zero, suc,
}
use Prim.Native.Char.{Char}
use autonomous_ai_analyst.Text.{of_chars}
use autonomous_ai_analyst.Predictions.{PredictionRecord}
use autonomous_ai_analyst.Predictions.Stats.{percentile, in_window, prediction_stats}
use autonomous_ai_analyst.Predictions.Ranks.{IsStatsOf, prediction_stats-IsStatsOf}
use autonomous_ai_analyst.Usage.{UsageRecord}
use autonomous_ai_analyst.Usage.Summary.{recent_rows, usage_summary}
use autonomous_ai_analyst.Usage.Totals.{IsSummary, usage_summary-IsSummary}
use autonomous_ai_analyst.Monitoring.Drift.{numeric, Reference, Values, Frame, compare}
use autonomous_ai_analyst.Monitoring.Watch.{MonitoringSettings, ServedRow, Batch, retraining_advice}
use autonomous_ai_analyst.Monitoring.Verdicts.{expected}
use autonomous_ai_analyst.Monitoring.Advice.{retraining_advice-severity}

abbrev use_of : String → ℕ → UsageRecord
use_of model cost = record {
  owner_id = "bob";
  run_key = none;
  conversation_id = none;
  provider = "p";
  model = model;
  input_tokens = 10;
  output_tokens = 5;
  estimated_cost = cost;
  created_at = 100;
}

abbrev usage : List UsageRecord
usage = use_of "small" 1 ∷ use_of "large" 9 ∷ use_of "small" 2 ∷ []

usage_summary-IsSummary_example :
    IsSummary (usage_summary (some "bob") 30 200 usage) (recent_rows (some "bob") 30 200 usage)
usage_summary-IsSummary_example = usage_summary-IsSummary (some "bob") 30 200 usage

abbrev show : ℕ → String
show n = "n"

-- One column that has moved, and one that was constant and no longer is.
abbrev reference : Reference
reference = record { columns = ("area", numeric 6 none) ∷ ("flag", numeric 1 (some "1")) ∷ [] }

abbrev values : Values
values = record {
  numbers = 300;
  close_to = λ constant. false;
  texts = 300;
  psi = 300000;
  unseen_labels = 0;
  unseen_rate = 0;
}

abbrev frame : Frame
frame = record { rows = 300; column = λ name. some values }

retraining_advice-severity_example :
    (retraining_advice show (compare show (some reference) frame 200) 300).recommended
    ≡ eqb (expected 300 200 (compare show (some reference) frame 200).columns) 2
retraining_advice-severity_example = retraining_advice-severity show (some reference) frame 200 300

abbrev marks : ℕ → List Char
marks zero = []
marks (suc n) = "x" ∷ marks n

-- A stand-in for `uuid4` that draws no text twice.
abbrev fresh_id : ℕ → String
fresh_id n = of_chars (marks n)

abbrev monitoring_settings : MonitoringSettings
monitoring_settings = record {
  prediction_logging_enabled = true;
  prediction_log_max_rows = 2;
  prediction_log_inputs = true;
  drift_sample_size = 1000;
  drift_min_rows = 200;
  retention_days = 90;
}

abbrev batch : Batch
batch = record {
  run_key = "rb";
  owner_id = "bob";
  model_version = some "v1";
  frame_rows = 5;
  inputs_at = λ position. [];
  latency_ms = 3;
  request_id = "q";
  fresh_id = fresh_id;
  now = 100;
}

abbrev served : ServedRow
served = record { prediction = some "7"; number = some "7"; confidence = none }

abbrev served_rows : List ServedRow
served_rows = served ∷ served ∷ served ∷ served ∷ served ∷ []

abbrev served_in : String → ℕ → PredictionRecord
served_in id latency_ms = record {
  prediction_id = id;
  request_id = none;
  run_key = "rb";
  owner_id = "bob";
  model_version = some "v1";
  created_at = 90000;
  latency_ms = latency_ms;
  inputs = [];
  prediction = none;
  prediction_value = none;
  confidence = none;
  sampled = false;
}

abbrev prediction_log : List PredictionRecord
prediction_log = served_in "p1" 30 ∷ served_in "p2" 10 ∷ served_in "p3" 20 ∷ []

prediction_stats-IsStatsOf_example :
    IsStatsOf
      (prediction_stats "rb" (some "bob") none prediction_log)
      (select (in_window "rb" (some "bob") none) prediction_log)
prediction_stats-IsStatsOf_example =
    prediction_stats-IsStatsOf "rb" (some "bob") none prediction_log

middle_latency : (prediction_stats "rb" (some "bob") none prediction_log).p50 ≡ some 20
unfolding prediction_stats percentile
middle_latency = refl
