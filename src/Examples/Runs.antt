-- ===== src/Examples/Runs.antt =====
-- Purges and erasures at concrete inputs.
use autonomous_ai_analyst.Base.{[], ◌∷◌, none, some, ◌≡◌, refl, arith, All}
use autonomous_ai_analyst.Text.{◌+++◌}
use autonomous_ai_analyst.Runs.{count_runs, expired_runs}
use autonomous_ai_analyst.Storage.{place, artifact_suffixes, purge_run}
use autonomous_ai_analyst.Storage.Purging.{IsPurged, purge_run_complete}
use autonomous_ai_analyst.Lifecycle.{run_keys_of, purge_expired, delete_everything_for}
use autonomous_ai_analyst.Lifecycle.Traces.{HasNoTrace}
use autonomous_ai_analyst.Lifecycle.Erased.{IsGone, purge_expired-IsGone}
use autonomous_ai_analyst.Lifecycle.Account.{delete_everything_for-IsGone}
use autonomous_ai_analyst.Lifecycle.Kept.{
  IsSpared, Keeps, purge_expired-kept, delete_everything_for-IsSpared,
}
use autonomous_ai_analyst.Runs.{run_owner, delete_run}
use autonomous_ai_analyst.Auth.{require_owned_run, owner_scope}
use autonomous_ai_analyst.Security.{validate_dataset_hash}
use autonomous_ai_analyst.Conversations.{delete_conversations_for_run}
use autonomous_ai_analyst.Predictions.{delete_predictions_for_run}
use autonomous_ai_analyst.Versions.{delete_model_versions_for_run}
use autonomous_ai_analyst.Storage.{run_artifact_paths, purge_places}
use autonomous_ai_analyst.Lifecycle.Request.{erased, erase_run}
use autonomous_ai_analyst.Lifecycle.Requested.{erase_run-IsGone}
use autonomous_ai_analyst.Examples.Data.{settings, digest, hashed, bob, run_of, store, database}

delete_everything_for-IsGone_example : IsGone "rb" (delete_everything_for "bob" database).0
unfolding count_runs
delete_everything_for-IsGone_example =
    delete_everything_for-IsGone "bob" "rb" database (run_of "rb" bob (some 50)) (refl, (refl, tt))
      (omega arith) refl refl

purge_expired-IsGone_example :
    All
      (λ k. IsGone k (purge_expired none 60 database).0)
      (run_keys_of (expired_runs 60 database.runs))
    × All
        (λ k. HasNoTrace k database (purge_expired none 60 database).0)
        (run_keys_of (expired_runs 60 database.runs))
purge_expired-IsGone_example = purge_expired-IsGone none 60 database (refl, (refl, tt))

purge_expired-kept_example : Keeps none 60 "ra" database (purge_expired none 60 database).0
unfolding expired_runs
purge_expired-kept_example = purge_expired-kept none 60 "ra" database (refl, tt) ((refl, refl), tt)

delete_everything_for-IsSpared_example :
    IsSpared database (delete_everything_for "bob" database).0
    × ((delete_everything_for "bob" database).0.audit_log ≡ database.audit_log)
delete_everything_for-IsSpared_example = delete_everything_for-IsSpared "bob" database

purge_run_complete_example :
    All
      (λ x. IsPurged (purge_run "rb" ("_v2_model.pkl" ∷ []) store).0 (place "rb" x))
      artifact_suffixes
    × All
        (λ x.
          IsPurged (purge_run "rb" ("_v2_model.pkl" ∷ []) store).0 (place "rb" x)
          × IsPurged (purge_run "rb" ("_v2_model.pkl" ∷ []) store).0 (place "rb" (x +++ ".sig")))
        ("_v2_model.pkl" ∷ [])
purge_run_complete_example = purge_run_complete "rb" ("_v2_model.pkl" ∷ []) store

erase_run-IsGone_example : IsGone digest (erase_run settings digest bob 60 hashed).1
unfolding erase_run require_owned_run run_owner validate_dataset_hash erased delete_run owner_scope
    delete_model_versions_for_run purge_run run_artifact_paths purge_places
    delete_conversations_for_run delete_predictions_for_run
erase_run-IsGone_example =
    erase_run-IsGone settings digest bob 60 hashed
      {summary = record { runs = 1; artifacts = 0; conversations = 0; predictions = 0 }}
      (refl, (refl, tt)) refl
