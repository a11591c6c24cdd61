-- ===== src/Predictions.antt =====
-- The prediction log: `PredictionRecord` and its helpers in backend/db.py.

pub mod Stats
pub mod Ranks
use autonomous_ai_analyst.Base.{
  ℕ, String, List, [], ◌∷◌, Bool, Option, none, some, ◌==◌, ◌&&◌, leb, select, delete_where, count,
  take, length,
}
use autonomous_ai_analyst.Common.{Json, owned_by}
use autonomous_ai_analyst.Owned.{get_owned}
use autonomous_ai_analyst.Table.{add, order_by, descending}

-- `prediction_value` and `confidence` are floats that nothing here computes with: their texts.
pub record PredictionRecord : Type 0 where
  pub prediction_id : String
  pub request_id : Option String
  pub run_key : String
  pub owner_id : String
  pub model_version : Option String
  pub created_at : ℕ
  pub latency_ms : ℕ
  pub inputs : Json
  pub prediction : Option String
  pub prediction_value : Option String
  pub confidence : Option String
  pub sampled : Bool

abbrev pub prediction_key : PredictionRecord → String
prediction_key p = p.prediction_id

abbrev pub prediction_owner : PredictionRecord → String
prediction_owner p = p.owner_id

-- All rows in one transaction: `none` if any of them is refused.
abbrev pub add_all : List PredictionRecord → List PredictionRecord → Option (List PredictionRecord)
add_all [] log = some log
add_all (row ∷ rows) log = elim (add prediction_key row log) [
  | none ↦ none
  | some log' ↦ add_all rows log'
]

-- A write that fails is rolled back and answered by 0, never raised.
unfoldable pub log_predictions :
    List PredictionRecord → List PredictionRecord → List PredictionRecord × ℕ
log_predictions rows log = elim (add_all rows log) [
  | none ↦ (log, 0)
  | some log' ↦ (log', length rows)
]

abbrev pub not_before : Option ℕ → ℕ → Bool
not_before none at = Bool.true
not_before (some since) at = leb since at

-- Most recent first.
unfoldable pub list_predictions :
    String → ℕ → Option String → Option ℕ → List PredictionRecord → List PredictionRecord
list_predictions run_key limit owner_id since log = take limit (
    order_by (descending λ (p : PredictionRecord). p.created_at) (
      select
        (λ (p : PredictionRecord).
          (p.run_key == run_key) && owned_by owner_id p.owner_id && not_before since p.created_at)
        log))

unfoldable pub get_prediction :
    String → Option String → List PredictionRecord → Option PredictionRecord
get_prediction prediction_id owner_id =
    get_owned prediction_key prediction_owner prediction_id owner_id

unfoldable pub delete_predictions_for_run :
    String → List PredictionRecord → List PredictionRecord × ℕ
delete_predictions_for_run run_key log =
    let of_run = λ (p : PredictionRecord). p.run_key == run_key in
    (delete_where of_run log, count of_run log)

unfoldable pub count_predictions : Option String → List PredictionRecord → ℕ
count_predictions owner_id = count (λ (p : PredictionRecord). owned_by owner_id p.owner_id)
