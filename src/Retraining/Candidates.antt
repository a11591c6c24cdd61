-- ===== src/Retraining/Candidates.antt =====
-- `scheduled_candidates` of backend/retraining.py.
use autonomous_ai_analyst.Base.{
  ℕ, ◌-◌, String, List, [], ◌∷◌, Option, none, some, ltb, if◌then◌else◌,
}
use autonomous_ai_analyst.Common.{days}
use autonomous_ai_analyst.Runs.{RunRecord, list_runs}
use autonomous_ai_analyst.Versions.{ModelVersionRecord, champion_version}
use autonomous_ai_analyst.Database.{Database}

-- A run that is due for a retraining, and since when its champion serves.
pub record Candidate : Type 0 where
  pub run_key : String
  pub filename : Option String
  pub champion_version : ℕ
  pub promoted_at : ℕ

-- `champion.get("promoted_at") or champion.get("created_at")`
abbrev pub since : ModelVersionRecord → ℕ
since champion = elim champion.promoted_at [ none ↦ champion.created_at | some moment ↦ moment ]

abbrev pub candidate : RunRecord → ModelVersionRecord → Candidate
candidate run champion = record {
  run_key = run.run_key;
  filename = run.filename;
  champion_version = champion.version;
  promoted_at = since champion;
}

abbrev pub if_older : ℕ → RunRecord → Option ModelVersionRecord → List Candidate → List Candidate
if_older cutoff run none due = due
if_older cutoff run (some champion) due =
    if ltb (since champion) cutoff then candidate run champion ∷ due else due

unfoldable pub due_among :
    ℕ → Option String → List ModelVersionRecord → List RunRecord → List Candidate
due_among cutoff owner_id versions [] = []
due_among cutoff owner_id versions (run ∷ runs) =
    if_older cutoff run (champion_version run.run_key owner_id versions)
      (due_among cutoff owner_id versions runs)

unfoldable pub scheduled_candidates : Option String → ℕ → ℕ → Database → List Candidate
unfolding due_among
scheduled_candidates owner_id min_age_days now db =
    due_among (now - days min_age_days) owner_id db.versions (list_runs 1000 owner_id db.runs)
