-- ===== src/Monitoring/Advice.antt =====
-- When a retraining is recommended (`retraining_advice` of backend/monitoring.py).
use autonomous_ai_analyst.Base.{ℕ, String, Option, ◌≡◌, ap, ◌∙◌, eqb, arith}
use autonomous_ai_analyst.Monitoring.Drift.{severity, Reference, Frame, DriftReport, compare}
use autonomous_ai_analyst.Monitoring.Verdicts.{expected, compare-severity}
use autonomous_ai_analyst.Monitoring.Watch.{retraining_advice}

advice-severity :
    (show : ℕ → String) (drift : DriftReport) (counted : ℕ)
    → (retraining_advice show drift counted).recommended ≡ eqb (severity drift.status) 2
unfolding retraining_advice severity
advice-severity show drift counted = ground arith

-- A retraining is recommended exactly if enough predictions are logged and a column whose PSI was
-- measured has moved materially.
pub retraining_advice-severity :
    (show : ℕ → String) (reference : Option Reference) (frame : Frame) (min_rows counted : ℕ)
    → let drift = compare show reference frame min_rows in
      (retraining_advice show drift counted).recommended
      ≡ eqb (expected frame.rows min_rows drift.columns) 2
retraining_advice-severity show reference frame min_rows counted =
    advice-severity show (compare show reference frame min_rows) counted
    ∙ ap (λ n. eqb n 2) (compare-severity show reference frame min_rows)
