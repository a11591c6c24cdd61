-- ===== src/Lifecycle/Request.antt =====
-- The handlers `delete_run` of backend/routes/runs.py and `delete_my_data` of
-- backend/routes/admin.py.
use autonomous_ai_analyst.Base.{ℕ, String, Bool, not, ◌&&◌, Option, some, eqb}
use autonomous_ai_analyst.Common.{Principal, owner_or_local}
use autonomous_ai_analyst.Settings.{Settings}
use autonomous_ai_analyst.Http.{run_not_found, not_confirmed}
use autonomous_ai_analyst.Audit.{principal, run_deleted, account_data_erased}
use autonomous_ai_analyst.Security.{validate_dataset_hash}
use autonomous_ai_analyst.Auth.{owner_scope, require_owned_run}
use autonomous_ai_analyst.Conversations.{delete_conversations_for_run}
use autonomous_ai_analyst.Predictions.{delete_predictions_for_run}
use autonomous_ai_analyst.Versions.{delete_model_versions_for_run}
use autonomous_ai_analyst.Share.{delete_share_links_for_run}
use autonomous_ai_analyst.Schedules.{delete_report_schedules_for_run}
use autonomous_ai_analyst.Runs.{delete_run}
use autonomous_ai_analyst.Storage.{purge_run}
use autonomous_ai_analyst.Database.{
  Database, Call, pure, of_result, gets, ◌>>=◌, ◌>>◌, raise_if, modify, audit,
}
use autonomous_ai_analyst.Lifecycle.Purge.{Summary, delete_everything_for}

-- The deletions of `delete_run` in their order, whether there was a row, and what was removed.
unfoldable pub erased : String → Option String → Database → Database × Bool × Summary
erased run_key owner_id db =
    let (runs, existed) = delete_run run_key owner_id db.runs in
    let (chats, conversations) = delete_conversations_for_run run_key db.chats in
    let (predictions, predicted) = delete_predictions_for_run run_key db.predictions in
    let (versions, extra_model_suffixes) = delete_model_versions_for_run run_key db.versions in
    let (store, removed) = purge_run run_key extra_model_suffixes db.store in
    (
      record db {
        runs = runs;
        chats = chats;
        predictions = predictions;
        versions = versions;
        store = store;
        links = (delete_share_links_for_run run_key db.links).0;
        schedules = (delete_report_schedules_for_run run_key db.schedules).0;
      },
      existed,
      record {
        runs = 1;
        artifacts = removed;
        conversations = conversations;
        predictions = predicted;
      },
    )

module _ (settings : Settings) where
  -- `delete_run`. The tables are written before a missing run is reported.
  unfoldable pub erase_run : String → Principal → ℕ → Call Summary
  unfolding erased
  erase_run run_key p now =
      (gets λ db. require_owned_run settings run_key p db)
      >>= (λ owned. of_result owned)
      >> of_result (validate_dataset_hash run_key)
      >> gets (erased run_key (owner_scope settings p))
      >>= λ (db', existed, summary).
          modify (λ _. db')
          >> raise_if (not existed && eqb summary.artifacts 0) run_not_found
          >> audit run_deleted (principal p) (some "run") (some run_key) now
          >> pure summary

  -- `delete_my_data`
  unfoldable pub delete_my_data : Bool → Principal → ℕ → Call Summary
  delete_my_data confirm p now =
      let owner = owner_or_local (owner_scope settings p) in
      raise_if (not confirm) not_confirmed
      >> gets (delete_everything_for owner)
      >>= λ (db', summary).
          modify (λ _. db')
          >> audit account_data_erased (principal p) (some "account") (some owner) now
          >> pure summary
