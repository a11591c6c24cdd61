-- ===== src/Lifecycle/Purge.antt =====
-- `expiry_for_new_run`, `purge_expired` and `delete_everything_for` of backend/lifecycle.py.
use autonomous_ai_analyst.Base.{
  ℕ, ◌+◌, String, List, [], ◌∷◌, map, Option, none, some, eqb, if◌then◌else◌,
}
use autonomous_ai_analyst.Common.{days}
use autonomous_ai_analyst.Settings.{Settings}
use autonomous_ai_analyst.Audit.{Action, Actor, system, retention_purged, record_action}
use autonomous_ai_analyst.Conversations.{delete_conversations_for_run}
use autonomous_ai_analyst.Predictions.{delete_predictions_for_run}
use autonomous_ai_analyst.Versions.{delete_model_versions_for_run}
use autonomous_ai_analyst.Share.{delete_share_links_for_run}
use autonomous_ai_analyst.Schedules.{delete_report_schedules_for_run}
use autonomous_ai_analyst.Runs.{RunRecord, run_id, delete_run, expired_runs, list_runs}
use autonomous_ai_analyst.Storage.{purge_run}
use autonomous_ai_analyst.Database.{Database}

unfoldable pub expiry_for_new_run : Settings → ℕ → Option ℕ
expiry_for_new_run settings now =
    if eqb settings.retention_days 0 then none else some (now + days settings.retention_days)

-- What a purge reports.
pub record Summary : Type 0 where
  pub runs : ℕ
  pub artifacts : ℕ
  pub conversations : ℕ
  pub predictions : ℕ

abbrev pub nothing : Summary
nothing = record { runs = 0; artifacts = 0; conversations = 0; predictions = 0 }

-- The tables without one run, with its artifacts, and what the summary counts of it: the body of
-- both loops, but for the owner filter of `delete_run`.
unfoldable pub remove_run : String → Option String → Database → Database × Summary
remove_run run_key owner_id db =
    let (chats, conversations) = delete_conversations_for_run run_key db.chats in
    let (predictions, predicted) = delete_predictions_for_run run_key db.predictions in
    let (versions, suffixes) = delete_model_versions_for_run run_key db.versions in
    let (store, artifacts) = purge_run run_key suffixes db.store in
    (
      record db {
        chats = chats;
        predictions = predictions;
        versions = versions;
        store = store;
        links = (delete_share_links_for_run run_key db.links).0;
        schedules = (delete_report_schedules_for_run run_key db.schedules).0;
        runs = (delete_run run_key owner_id db.runs).0;
      },
      record {
        runs = 1;
        artifacts = artifacts;
        conversations = conversations;
        predictions = predicted;
      },
    )

abbrev pub add_summary : Summary → Summary → Summary
add_summary a b = record {
  runs = a.runs + b.runs;
  artifacts = a.artifacts + b.artifacts;
  conversations = a.conversations + b.conversations;
  predictions = a.predictions + b.predictions;
}

unfoldable pub remove_runs : List String → Option String → Database → Database × Summary
remove_runs [] owner_id db = (db, nothing)
remove_runs (run_key ∷ run_keys) owner_id db =
    let (db', one) = remove_run run_key owner_id db in
    let (db'', rest) = remove_runs run_keys owner_id db' in (db'', add_summary one rest)

abbrev pub run_keys_of : List RunRecord → List String
run_keys_of = map run_id

-- `SYSTEM_ACTOR`
abbrev pub system_actor : Actor
system_actor = system "system:retention"

abbrev pub audited : Action → Actor → Option String → Option String → ℕ → Database → Database
audited action actor target_type target_id now db = record db {
  audit_log = record_action action actor target_type target_id now db.audit_log;
}

-- The body of `purge_expired` for the runs that have expired. An empty purge writes no audit row.
unfoldable pub purge_these : Option Actor → ℕ → List RunRecord → Database → Database × Summary
purge_these actor now [] db = (db, nothing)
purge_these actor now (run ∷ runs) db =
    let (db', summary) = remove_runs (run_keys_of (run ∷ runs)) none db in
    let who : Actor = elim actor [ none ↦ system_actor | some a ↦ a ] in
    (audited retention_purged who (some "retention") none now db', summary)

unfoldable pub purge_expired : Option Actor → ℕ → Database → Database × Summary
unfolding purge_these
purge_expired actor now db = purge_these actor now (expired_runs now db.runs) db

unfoldable pub delete_everything_for : String → Database → Database × Summary
delete_everything_for owner_id db =
    remove_runs (run_keys_of (list_runs 10000 (some owner_id) db.runs)) (some owner_id) db
