-- ===== src/Monitoring/Logged.antt =====
-- What a batch leaves in the prediction log (`log_prediction_batch` of backend/monitoring.py).
use autonomous_ai_analyst.Base.{ℕ, String, List, [], ◌∷◌, Bool, none, some, ◌≡◌}
use autonomous_ai_analyst.Table.{get}
use autonomous_ai_analyst.Predictions.{PredictionRecord, prediction_key}
use autonomous_ai_analyst.Monitoring.Watch.{MonitoringSettings, ServedRow, Batch, row_at, record_of}

-- The ids that are drawn differ from each other and from those in the log.
pub record AreFresh (fresh_id : ℕ → String) (log : List PredictionRecord) : Type 0 where
  pub apart : (m n : ℕ) → fresh_id m ≡ fresh_id n → m ≡ n
  pub absent : (n : ℕ) → get prediction_key (fresh_id n) log ≡ none

module _ (settings : MonitoringSettings) (batch : Batch) (rows : List ServedRow) where
  -- The record of a position is that of the row which stands there.
  abbrev pub AreOf : Bool → List ℕ → List PredictionRecord → Type 0
  AreOf sampled [] [] = Unit
  AreOf sampled [] (r ∷ records) = ⊥
  AreOf sampled (p ∷ ps) [] = ⊥
  AreOf sampled (p ∷ ps) (r ∷ records) =
      ((row : ServedRow) × (row_at p rows ≡ some row)
        × (r ≡ record_of settings batch sampled p row))
      × AreOf sampled ps records
