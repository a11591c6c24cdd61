-- ===== src/Examples/Jobs.antt =====
-- Jobs at concrete inputs.
use autonomous_ai_analyst.Base.{ℕ, List, [], ◌∷◌, none, some, ◌≡◌, refl}
use autonomous_ai_analyst.Table.{get}
use autonomous_ai_analyst.Jobs.{JobRecord, job_key}
use autonomous_ai_analyst.Jobs.History.{
  Call, creates, steps, completes, recovers, run, Inv, run-Inv,
}
use autonomous_ai_analyst.Jobs.Ownership.{run-Extends, Extends}
use autonomous_ai_analyst.Examples.Data.{bob, job_of, database}

abbrev jobs : List JobRecord
jobs = database.jobs

abbrev calls : List (ℕ × Call)
calls =
    (10, creates "j3" "Upload received" "bob")
    ∷ (11, steps "j1" "Cleaning" 20)
    ∷ (12, recovers)
    ∷ (13, completes "j2" [] none)
    ∷ []

run-Inv_example : Inv (run calls jobs)
run-Inv_example = run-Inv calls jobs (record {
  keyed = (refl, (refl, tt));
  formed = ((refl, refl, refl, refl), ((refl, refl, refl, refl), tt));
})

run-Extends_example :
    (k : JobRecord) × (get job_key "j1" (run calls jobs) ≡ some k) × Extends (job_of "j1" bob) k
run-Extends_example =
    run-Extends "j1" calls jobs (job_of "j1" bob) ((λ h. h), ((λ h. h), ((λ h. h), ((λ h. h), tt))))
      refl
