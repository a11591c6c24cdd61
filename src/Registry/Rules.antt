-- ===== src/Registry/Rules.antt =====
-- The functions of backend/registry.py, over the table of model versions. Random ids, the clock and
-- the serialised comparison are arguments; what a model's metadata says about it is `Trained`.

use autonomous_ai_analyst.Base.{
  ℕ, ◌*◌, String, List, [], ◌∷◌, Bool, true, false, Option, none, some, eqb, ltb, length, last,
  first, select, if◌then◌else◌,
}
use autonomous_ai_analyst.Base.Int.{ℤ, ◌-ℤ◌, abs, pos_part}
use autonomous_ai_analyst.Common.{Json}
use autonomous_ai_analyst.Text.{◌+++◌, elem}
use autonomous_ai_analyst.Versions.{
  ModelVersionRecord, initial, retrain, add_model_version, list_model_versions, champion_version,
  promote_model_version,
}
use autonomous_ai_analyst.Registry.Decimal.{decimal}

abbrev pub legacy_suffix : String
legacy_suffix = "_model.pkl"

-- `LOWER_IS_BETTER`
abbrev pub lower_is_better_metrics : List String
lower_is_better_metrics = "rmse" ∷ "mae" ∷ "mape" ∷ "brier" ∷ []

unfoldable pub suffix_for : ℕ → String
suffix_for version =
    if eqb version 1 then legacy_suffix else "_v" +++ (decimal version +++ legacy_suffix)

-- What the registry reads from a training's metadata: the selected model, the metric it was
-- selected on with the holdout's score for it, and the number of rows.
pub record Trained : Type 0 where
  pub selected_model : Option String
  pub metric_name : Option String
  pub metric_value : Option ℤ
  pub row_count : ℕ

-- A margin is a number of these parts of one.
abbrev pub margin_unit : ℕ
margin_unit = 1000000

-- `required` counts in the scores' unit divided by `margin_unit`.
pub record Comparison : Type 0 where
  pub promote : Bool
  pub metric : String
  pub challenger : Option ℤ
  pub champion : Option ℤ
  pub improvement : Option ℤ
  pub required : Option ℕ
  pub margin : ℕ
  pub lower_is_better : Option Bool

abbrev pub scored : String → ℤ → ℤ → ℕ → Comparison
scored metric challenger champion margin =
    let lower_is_better = elem metric lower_is_better_metrics in
    let improvement = if lower_is_better then champion -ℤ challenger else challenger -ℤ champion in
    let required = abs champion * margin in
    record {
      promote = ltb required (pos_part improvement * margin_unit);
      metric = metric;
      challenger = some challenger;
      champion = some champion;
      improvement = some improvement;
      required = some required;
      margin = margin;
      lower_is_better = some lower_is_better;
    }

abbrev pub no_comparison : String → Option ℤ → Option ℤ → ℕ → Comparison
no_comparison metric challenger champion margin = record {
  promote = false;
  metric = metric;
  challenger = challenger;
  champion = champion;
  improvement = none;
  required = none;
  margin = margin;
  lower_is_better = none;
}

unfoldable pub better : String → Option ℤ → Option ℤ → ℕ → Comparison
better metric none champion margin = no_comparison metric none champion margin
better metric (some challenger) none margin = no_comparison metric (some challenger) none margin
better metric (some challenger) (some champion) margin = scored metric challenger champion margin

abbrev pub find_champion : List ModelVersionRecord → Option ModelVersionRecord
find_champion versions = first (select (λ (v : ModelVersionRecord). v.is_champion) versions)

abbrev pub first_reason : Json
first_reason =
    ("reason", "First model trained for this run; there was nothing to compare it with.") ∷ []

abbrev pub first_row : String → String → String → Trained → ℕ → ModelVersionRecord
first_row version_id run_key owner_id trained now = record {
  version_id = version_id;
  run_key = run_key;
  owner_id = owner_id;
  version = 1;
  created_at = now;
  artifact_suffix = legacy_suffix;
  selected_model = trained.selected_model;
  metric_name = trained.metric_name;
  metric_value = trained.metric_value;
  rows_trained = trained.row_count;
  is_champion = true;
  promoted_at = none;
  superseded_at = none;
  source = initial;
  notes = first_reason;
}

-- The new table and the row that the caller gets; `none` if the random id is taken.
unfoldable pub register_initial :
    String
    → String
    → String
    → Trained
    → ℕ
    → List ModelVersionRecord
    → Option (List ModelVersionRecord × ModelVersionRecord)
register_initial version_id run_key owner_id trained now versions =
    elim (list_model_versions run_key none versions) [
      | v ∷ existing ↦ some (
        versions,
        elim (find_champion (v ∷ existing)) [ some champion ↦ champion | none ↦ last v existing ],
      )
      | [] ↦
          let record_row = first_row version_id run_key owner_id trained now in
          elim (add_model_version record_row versions) [
            | none ↦ none
            | some added ↦ elim (promote_model_version version_id [] now added) [
              | none ↦ some (added, record_row)
              | some promoted ↦ some promoted
            ]
          ]
    ]

abbrev pub challenger_row :
    String → String → String → ℕ → Trained → Comparison → Json → ℕ → ModelVersionRecord
challenger_row version_id run_key owner_id version trained comparison notes now = record {
  version_id = version_id;
  run_key = run_key;
  owner_id = owner_id;
  version = version;
  created_at = now;
  artifact_suffix = suffix_for version;
  selected_model = trained.selected_model;
  metric_name = some comparison.metric;
  metric_value = trained.metric_value;
  rows_trained = trained.row_count;
  is_champion = false;
  promoted_at = none;
  superseded_at = none;
  source = retrain;
  notes = notes;
}

unfoldable pub register_challenger :
    String
    → String
    → String
    → ℕ
    → Trained
    → Comparison
    → Json
    → ℕ
    → List ModelVersionRecord
    → Option (List ModelVersionRecord × ModelVersionRecord)
register_challenger version_id run_key owner_id version trained comparison notes now versions =
    let row = challenger_row version_id run_key owner_id version trained comparison notes now in
    elim (add_model_version row versions) [
      | none ↦ none
      | some added ↦
          if comparison.promote
          then elim (promote_model_version version_id notes now added) [
            | none ↦ some (added, row)
            | some promoted ↦ some promoted
          ]
          else some (added, row)
    ]

-- `artifact_suffix` is what the caller loads; `version_id` is none for an unregistered run.
pub record Served : Type 0 where
  pub versioned : Bool
  pub version_id : Option String
  pub version : Option ℕ
  pub artifact_suffix : String
  pub selected_model : Option String
  pub promoted_at : Option ℕ

abbrev pub served : Option ModelVersionRecord → Served
served none = record {
  versioned = false;
  version_id = none;
  version = none;
  artifact_suffix = legacy_suffix;
  selected_model = none;
  promoted_at = none;
}
served (some champion) = record {
  versioned = true;
  version_id = some champion.version_id;
  version = some champion.version;
  artifact_suffix = champion.artifact_suffix;
  selected_model = champion.selected_model;
  promoted_at = champion.promoted_at;
}

unfoldable pub resolve : String → Option String → List ModelVersionRecord → Served
resolve run_key owner_id versions = served (champion_version run_key owner_id versions)

pub record RunHistory : Type 0 where
  pub run_key : String
  pub versions : List ModelVersionRecord
  pub champion : Option ModelVersionRecord
  pub count : ℕ

unfoldable pub history : String → Option String → List ModelVersionRecord → RunHistory
history run_key owner_id table =
    let versions = list_model_versions run_key owner_id table in
    record {
      run_key = run_key;
      versions = versions;
      champion = find_champion versions;
      count = length versions;
    }
