-- ===== src/Lifecycle/Kept.antt =====
-- What a purge or an erasure leaves alone.
use autonomous_ai_analyst.Base.{
  ℕ, String, List, [], ◌∷◌, ◌++◌, true, false, Option, none, some, ◌==◌, ◌≡◌, refl, sym, ap, ◌∙◌,
  arith, select, select-delete_where_other, All, eq_iff,
}
use mathlib.Core.List.{append-nil}
use autonomous_ai_analyst.Table.{get, get-delete_ne, IsKeyed}
use autonomous_ai_analyst.Audit.{
  Actor, Action, AuditRecord, retention_purged, record_action, append_audit, actor_id_of,
  actor_email_of,
}
use autonomous_ai_analyst.Conversations.{conversation_key, about_run, delete_conversations_for_run}
use autonomous_ai_analyst.Predictions.{delete_predictions_for_run}
use autonomous_ai_analyst.Versions.{of_run, delete_model_versions_for_run}
use autonomous_ai_analyst.Share.{link_of_run, delete_share_links_for_run}
use autonomous_ai_analyst.Schedules.{schedule_of_run, delete_report_schedules_for_run}
use autonomous_ai_analyst.Runs.{RunRecord, run_id, delete_run, expired_runs}
use autonomous_ai_analyst.Database.{Database}
use autonomous_ai_analyst.Lifecycle.Purge.{
  remove_run, remove_runs, purge_expired, purge_these, delete_everything_for, run_keys_of, audited,
  system_actor,
}
use autonomous_ai_analyst.Lifecycle.Erased.{prediction_of}
use autonomous_ai_analyst.Lifecycle.Others.{IsLeft, IsOther, IsLeft-refl, remove_runs-IsLeft}

-- All that the tables say of the run is the same in both.
pub record IsSame (run : String) (db db' : Database) : Type 0 where
  pub same_run : get run_id run db'.runs ≡ get run_id run db.runs
  pub same_conversations :
      select (about_run run) db'.chats.conversations ≡ select (about_run run) db.chats.conversations
  pub same_predictions :
      select (prediction_of run) db'.predictions ≡ select (prediction_of run) db.predictions
  pub same_versions : select (of_run run) db'.versions ≡ select (of_run run) db.versions
  pub same_links : select (link_of_run run) db'.links ≡ select (link_of_run run) db.links
  pub same_schedules :
      select (schedule_of_run run) db'.schedules ≡ select (schedule_of_run run) db.schedules

-- The tables that no deletion of a run writes.
pub record IsSpared (db db' : Database) : Type 0 where
  pub same_users : db'.users ≡ db.users
  pub same_keys : db'.api_keys ≡ db.api_keys
  pub same_usage : db'.usage ≡ db.usage
  pub same_jobs : db'.jobs ≡ db.jobs

abbrev Distinct : String → String → Type 0
Distinct run k = (k == run) ≡ false

texts_apart : (a k run : String) → (k == run) ≡ false → (a == run) ≡ true → (a == k) ≡ false
texts_apart a k run ne e = ground (arith, eq_iff a run, eq_iff a k, eq_iff k run)

delete_run-other :
    (run k : String) (owner : Option String) (runs : List RunRecord)
    → Distinct run k
    → get run_id run (delete_run k owner runs).0 ≡ get run_id run runs
unfolding delete_run
delete_run-other run k owner runs ne = ground (arith, get-delete_ne run_id run k runs ne)

remove_run-IsSame :
    (run k : String) (owner : Option String) (db : Database)
    → Distinct run k
    → IsSame run db (remove_run k owner db).0
unfolding remove_run delete_conversations_for_run delete_predictions_for_run
    delete_model_versions_for_run delete_share_links_for_run delete_report_schedules_for_run
remove_run-IsSame run k owner db ne = record {
  same_run = delete_run-other run k owner db.runs ne;
  same_conversations =
      select-delete_where_other (about_run k) (about_run run) db.chats.conversations
        (λ c e. texts_apart c.run_key k run ne e);
  same_predictions =
      select-delete_where_other (prediction_of k) (prediction_of run) db.predictions
        (λ p e. texts_apart p.run_key k run ne e);
  same_versions =
      select-delete_where_other (of_run k) (of_run run) db.versions
        (λ v e. texts_apart v.run_key k run ne e);
  same_links =
      select-delete_where_other (link_of_run k) (link_of_run run) db.links
        (λ l e. texts_apart l.run_key k run ne e);
  same_schedules =
      select-delete_where_other (schedule_of_run k) (schedule_of_run run) db.schedules
        (λ s e. texts_apart s.run_key k run ne e);
}

IsSame-trans : (run : String) (a b c : Database) → IsSame run a b → IsSame run b c → IsSame run a c
IsSame-trans run a b c x y = record {
  same_run = y.same_run ∙ x.same_run;
  same_conversations = y.same_conversations ∙ x.same_conversations;
  same_predictions = y.same_predictions ∙ x.same_predictions;
  same_versions = y.same_versions ∙ x.same_versions;
  same_links = y.same_links ∙ x.same_links;
  same_schedules = y.same_schedules ∙ x.same_schedules;
}

IsSame-refl : (run : String) (db : Database) → IsSame run db db
IsSame-refl run db = record {
  same_run = refl;
  same_conversations = refl;
  same_predictions = refl;
  same_versions = refl;
  same_links = refl;
  same_schedules = refl;
}

remove_runs-IsSame :
    (run : String) (keys : List String) (owner : Option String) (db : Database)
    → All (Distinct run) keys
    → IsSame run db (remove_runs keys owner db).0
unfolding remove_runs
remove_runs-IsSame run [] owner db h = IsSame-refl run db
remove_runs-IsSame run (k ∷ keys) owner db h =
    let db' = (remove_run k owner db).0 in
    IsSame-trans run db db' (remove_runs keys owner db').0 (remove_run-IsSame run k owner db h.0)
      (remove_runs-IsSame run keys owner db' h.1)

remove_run-IsSpared :
    (k : String) (owner : Option String) (db : Database) → IsSpared db (remove_run k owner db).0
unfolding remove_run
remove_run-IsSpared k owner db = record {
  same_users = refl;
  same_keys = refl;
  same_usage = refl;
  same_jobs = refl;
}

remove_run-audit :
    (k : String) (owner : Option String) (db : Database)
    → (remove_run k owner db).0.audit_log ≡ db.audit_log
unfolding remove_run
remove_run-audit k owner db = refl

remove_runs-IsSpared :
    (keys : List String) (owner : Option String) (db : Database)
    → IsSpared db (remove_runs keys owner db).0
      × ((remove_runs keys owner db).0.audit_log ≡ db.audit_log)
unfolding remove_runs
remove_runs-IsSpared [] owner db =
    (record { same_users = refl; same_keys = refl; same_usage = refl; same_jobs = refl }, refl)
remove_runs-IsSpared (k ∷ keys) owner db =
    let db' = (remove_run k owner db).0 in
    let x = remove_run-IsSpared k owner db in
    let (y, a) = remove_runs-IsSpared keys owner db' in
    (
      record {
        same_users = y.same_users ∙ x.same_users;
        same_keys = y.same_keys ∙ x.same_keys;
        same_usage = y.same_usage ∙ x.same_usage;
        same_jobs = y.same_jobs ∙ x.same_jobs;
      },
      a ∙ remove_run-audit k owner db,
    )

-- The audit rows that a purge of these runs writes: one if there is any, in the name of who asked.
abbrev pub purge_rows : Option Actor → ℕ → List RunRecord → List AuditRecord
purge_rows actor now [] = []
purge_rows actor now (run ∷ runs) =
    let who : Actor = elim actor [ none ↦ system_actor | some a ↦ a ] in
    record {
      at = now;
      actor_id = actor_id_of who;
      actor_email = actor_email_of who;
      action = retention_purged;
      target_type = some "retention";
      target_id = none;
    }
    ∷ []

audited-IsSame :
    (run : String) (a : Action) (who : Actor) (t i : Option String) (now : ℕ) (db db' : Database)
    → IsSame run db db'
    → IsSame run db (audited a who t i now db')
audited-IsSame run a who t i now db db' x = record {
  same_run = x.same_run;
  same_conversations = x.same_conversations;
  same_predictions = x.same_predictions;
  same_versions = x.same_versions;
  same_links = x.same_links;
  same_schedules = x.same_schedules;
}

audited-IsSpared :
    (a : Action) (who : Actor) (t i : Option String) (now : ℕ) (db db' : Database)
    → IsSpared db db'
    → IsSpared db (audited a who t i now db')
audited-IsSpared a who t i now db db' x = record {
  same_users = x.same_users;
  same_keys = x.same_keys;
  same_usage = x.same_usage;
  same_jobs = x.same_jobs;
}

purge_these-kept :
    (actor : Option Actor) (now : ℕ) (runs : List RunRecord) (run : String) (db : Database)
    → All (Distinct run) (run_keys_of runs)
    → IsSame run db (purge_these actor now runs db).0
      × IsSpared db (purge_these actor now runs db).0
      × ((purge_these actor now runs db).0.audit_log ≡ db.audit_log ++ purge_rows actor now runs)
unfolding purge_these record_action append_audit
purge_these-kept actor now [] run db h = (
  IsSame-refl run db,
  record { same_users = refl; same_keys = refl; same_usage = refl; same_jobs = refl },
  sym (append-nil db.audit_log),
)
purge_these-kept actor now (r ∷ runs) run db h =
    let keys = run_keys_of (r ∷ runs) in
    let (x, a) = remove_runs-IsSpared keys none db in
    let db' = (remove_runs keys none db).0 in
    let who : Actor = elim actor [ none ↦ system_actor | some a ↦ a ] in
    (
      audited-IsSame run retention_purged who (some "retention") none now db db'
          (remove_runs-IsSame run keys none db h),
      audited-IsSpared retention_purged who (some "retention") none now db db' x,
      ap (λ log. log ++ purge_rows actor now (r ∷ runs)) a,
    )

module _ (actor : Option Actor) (now : ℕ) (run : String) where
  -- What a purge does of other runs, of the tables that it does not write, and of the audit log.
  abbrev pub Keeps : Database → Database → Type 0
  Keeps db db' =
      IsSame run db db'
      × IsLeft run db db'
      × IsSpared db db'
      × (db'.audit_log ≡ db.audit_log ++ purge_rows actor now (expired_runs now db.runs))

  apart : (keys : List String) → All (IsOther run) keys → All (Distinct run) keys
  apart [] h = tt
  apart (k ∷ keys) h = (h.0.0, apart keys h.1)

  purge_these-IsLeft :
      (runs : List RunRecord) (db : Database)
      → IsKeyed conversation_key db.chats.conversations
      → All (IsOther run) (run_keys_of runs)
      → IsLeft run db (purge_these actor now runs db).0
  unfolding purge_these
  purge_these-IsLeft [] db u h = IsLeft-refl run db
  purge_these-IsLeft (r ∷ runs) db u h =
      let x = remove_runs-IsLeft run (run_keys_of (r ∷ runs)) none db u h in
      record { left_messages = x.left_messages; left_files = x.left_files }

  -- Where ids of conversations are unique and the keys of the runs that had expired have as many
  -- characters as that of another run: a purge changes neither that run's row, nor its
  -- conversations, their messages, its predictions, model versions, share links and report
  -- schedules, nor any file under its key. It writes to no account, key, billing or job row, and
  -- appends to the audit log one row in the name of who asked (the retention policy, if nobody did) if
  -- a run had expired, and no row if none had.
  pub purge_expired-kept :
      (db : Database)
      → IsKeyed conversation_key db.chats.conversations
      → All (IsOther run) (run_keys_of (expired_runs now db.runs))
      → Keeps db (purge_expired actor now db).0
  unfolding purge_expired
  purge_expired-kept db u h =
      let runs = expired_runs now db.runs in
      let (same, spared, log) =
        purge_these-kept actor now runs run db (apart (run_keys_of runs) h) in
      (same, purge_these-IsLeft runs db u h, spared, log)

-- The erasure of an account writes to no account, key, billing, audit or job row: the rows of the
-- account's jobs, with the results that they hold, are still there.
pub delete_everything_for-IsSpared :
    (owner : String) (db : Database)
    → IsSpared db (delete_everything_for owner db).0
      × ((delete_everything_for owner db).0.audit_log ≡ db.audit_log)
unfolding delete_everything_for
delete_everything_for-IsSpared owner db = remove_runs-IsSpared _ (some owner) db
