-- ===== src/Lifecycle/Erased.antt =====
-- What is gone after a purge or an erasure.
use autonomous_ai_analyst.Base.{
  ℕ, String, List, [], ◌∷◌, Bool, Option, none, ◌==◌, ◌≡◌, arith, select, select-delete_where, All,
  Bool-cases, inl, inr, ==→eq, subst,
}
use autonomous_ai_analyst.Owned.{get_owned, if_owned-all}
use autonomous_ai_analyst.Table.{
  get, delete, IsKeyed, get-delete_ne, get-delete_self, delete-none, delete-IsKeyed,
}
use autonomous_ai_analyst.Audit.{Actor, Action}
use autonomous_ai_analyst.Conversations.{about_run, delete_conversations_for_run}
use autonomous_ai_analyst.Predictions.{PredictionRecord, delete_predictions_for_run}
use autonomous_ai_analyst.Versions.{of_run, delete_model_versions_for_run}
use autonomous_ai_analyst.Share.{link_of_run, delete_share_links_for_run}
use autonomous_ai_analyst.Schedules.{schedule_of_run, delete_report_schedules_for_run}
use autonomous_ai_analyst.Runs.{RunRecord, run_id, run_owned_by, delete_run, expired_runs}
use autonomous_ai_analyst.Database.{Database}
use autonomous_ai_analyst.Lifecycle.Traces.{
  HasNoTrace, select-delete_where_none, remove_runs-HasNoTrace,
}
use autonomous_ai_analyst.Lifecycle.Purge.{
  remove_run, remove_runs, purge_expired, purge_these, audited, run_keys_of,
}

abbrev pub prediction_of : String → PredictionRecord → Bool
prediction_of run_key p = p.run_key == run_key

-- No table has a row that names the run, but for its jobs and its audit and billing records.
pub record IsGone (run : String) (db : Database) : Type 0 where
  pub no_run : get run_id run db.runs ≡ none
  pub no_conversation : select (about_run run) db.chats.conversations ≡ []
  pub no_prediction : select (prediction_of run) db.predictions ≡ []
  pub no_version : select (of_run run) db.versions ≡ []
  pub no_link : select (link_of_run run) db.links ≡ []
  pub no_schedule : select (schedule_of_run run) db.schedules ≡ []

delete_run-none :
    (run other : String) (owner : Option String) (runs : List RunRecord)
    → get run_id run runs ≡ none
    → get run_id run (delete_run other owner runs).0 ≡ none
unfolding delete_run
delete_run-none run other owner runs e = ground (arith, delete-none run_id run other runs e)

-- The owner filter of `delete_run` lets this run's row through, if there is one.
abbrev pub IsOwn : Option String → List RunRecord → String → Type 0
IsOwn owner runs run = get_owned run_id run_owned_by run owner runs ≡ get run_id run runs

delete_run_self :
    (run : String) (owner : Option String) (runs : List RunRecord)
    → IsKeyed run_id runs
    → IsOwn owner runs run
    → get run_id run (delete_run run owner runs).0 ≡ none
unfolding delete_run
delete_run_self run owner runs u h = ground (arith, get-delete_self run_id run runs u)

pub remove_run-IsGone :
    (run : String) (owner : Option String) (db : Database)
    → IsKeyed run_id db.runs
    → IsOwn owner db.runs run
    → IsGone run (remove_run run owner db).0
unfolding remove_run delete_conversations_for_run delete_predictions_for_run
    delete_model_versions_for_run delete_share_links_for_run delete_report_schedules_for_run
remove_run-IsGone run owner db u h = record {
  no_run = delete_run_self run owner db.runs u h;
  no_conversation = select-delete_where (about_run run) db.chats.conversations;
  no_prediction = select-delete_where (prediction_of run) db.predictions;
  no_version = select-delete_where (of_run run) db.versions;
  no_link = select-delete_where (link_of_run run) db.links;
  no_schedule = select-delete_where (schedule_of_run run) db.schedules;
}

remove_run-stays-IsGone :
    (run other : String) (owner : Option String) (db : Database)
    → IsGone run db
    → IsGone run (remove_run other owner db).0
unfolding remove_run delete_conversations_for_run delete_predictions_for_run
    delete_model_versions_for_run delete_share_links_for_run delete_report_schedules_for_run
remove_run-stays-IsGone run other owner db g = record {
  no_run = delete_run-none run other owner db.runs g.no_run;
  no_conversation =
      select-delete_where_none (about_run other) (about_run run) db.chats.conversations
        g.no_conversation;
  no_prediction =
      select-delete_where_none (prediction_of other) (prediction_of run) db.predictions
        g.no_prediction;
  no_version = select-delete_where_none (of_run other) (of_run run) db.versions g.no_version;
  no_link = select-delete_where_none (link_of_run other) (link_of_run run) db.links g.no_link;
  no_schedule =
      select-delete_where_none (schedule_of_run other) (schedule_of_run run) db.schedules
        g.no_schedule;
}

delete_run-IsKeyed :
    (other : String) (owner : Option String) (runs : List RunRecord)
    → IsKeyed run_id runs
    → IsKeyed run_id (delete_run other owner runs).0
unfolding delete_run
delete_run-IsKeyed other owner runs u = ground (arith, delete-IsKeyed run_id other runs u)

remove_run-IsKeyed :
    (other : String) (owner : Option String) (db : Database)
    → IsKeyed run_id db.runs
    → IsKeyed run_id (remove_run other owner db).0.runs
unfolding remove_run
remove_run-IsKeyed other owner db u = delete_run-IsKeyed other owner db.runs u

remove_runs-stays-IsGone :
    (run : String) (keys : List String) (owner : Option String) (db : Database)
    → IsGone run db
    → IsGone run (remove_runs keys owner db).0
unfolding remove_runs
remove_runs-stays-IsGone run [] owner db g = g
remove_runs-stays-IsGone run (k ∷ keys) owner db g =
    remove_runs-stays-IsGone run keys owner (remove_run k owner db).0
      (remove_run-stays-IsGone run k owner db g)

IsOwn-delete_run :
    (k other : String) (owner : Option String) (runs : List RunRecord)
    → IsKeyed run_id runs
    → IsOwn owner runs k
    → IsOwn owner (delete_run other owner runs).0 k
unfolding delete_run
IsOwn-delete_run k other owner runs u h = elim (Bool-cases (other == k)) [
  | inl same ↦ ground (
    arith,
    get-delete_self run_id other runs u,
    subst (λ j. get run_id j (delete run_id other runs) ≡ none) (==→eq other k same),
  )
  | inr ne ↦ ground (arith, get-delete_ne run_id k other runs ne)
]

IsOwn-remove_run :
    (k : String) (owner : Option String) (db : Database) (keys : List String)
    → IsKeyed run_id db.runs
    → All (IsOwn owner db.runs) keys
    → All (IsOwn owner (remove_run k owner db).0.runs) keys
unfolding remove_run
IsOwn-remove_run k owner db [] u h = tt
IsOwn-remove_run k owner db (j ∷ keys) u h =
    (IsOwn-delete_run j k owner db.runs u h.0, IsOwn-remove_run k owner db keys u h.1)

pub remove_runs-IsGone :
    (keys : List String) (owner : Option String) (db : Database)
    → IsKeyed run_id db.runs
    → All (IsOwn owner db.runs) keys
    → All (λ k. IsGone k (remove_runs keys owner db).0) keys
unfolding remove_runs
remove_runs-IsGone [] owner db u h = tt
remove_runs-IsGone (k ∷ keys) owner db u h = (
  remove_runs-stays-IsGone k keys owner (remove_run k owner db).0
      (remove_run-IsGone k owner db u h.0),
  remove_runs-IsGone keys owner (remove_run k owner db).0 (remove_run-IsKeyed k owner db u)
      (IsOwn-remove_run k owner db keys u h.1),
)

All-IsOwn-none : (runs : List RunRecord) (keys : List String) → All (IsOwn none runs) keys
All-IsOwn-none runs [] = tt
All-IsOwn-none runs (k ∷ keys) =
    (if_owned-all run_owned_by (get run_id k runs), All-IsOwn-none runs keys)

audited-IsGone :
    (k : String) (a : Action) (who : Actor) (t i : Option String) (now : ℕ) (db : Database)
    → IsGone k db
    → IsGone k (audited a who t i now db)
audited-IsGone k a who t i now db g = record {
  no_run = g.no_run;
  no_conversation = g.no_conversation;
  no_prediction = g.no_prediction;
  no_version = g.no_version;
  no_link = g.no_link;
  no_schedule = g.no_schedule;
}

All-IsGone-audited :
    (keys : List String) (a : Action) (who : Actor) (t i : Option String) (now : ℕ) (db : Database)
    → All (λ k. IsGone k db) keys
    → All (λ k. IsGone k (audited a who t i now db)) keys
All-IsGone-audited [] a who t i now db h = tt
All-IsGone-audited (k ∷ keys) a who t i now db h =
    (audited-IsGone k a who t i now db h.0, All-IsGone-audited keys a who t i now db h.1)

All-HasNoTrace-audited :
    (keys : List String) (a : Action) (who : Actor) (t i : Option String) (now : ℕ)
    (before db : Database)
    → All (λ k. HasNoTrace k before db) keys
    → All (λ k. HasNoTrace k before (audited a who t i now db)) keys
All-HasNoTrace-audited [] a who t i now before db h = tt
All-HasNoTrace-audited (k ∷ keys) a who t i now before db h = (
  record { no_message = h.0.no_message; no_artifact = h.0.no_artifact; no_bundle = h.0.no_bundle },
  All-HasNoTrace-audited keys a who t i now before db h.1,
)

purge_these-IsGone :
    (actor : Option Actor) (now : ℕ) (runs : List RunRecord) (db : Database)
    → IsKeyed run_id db.runs
    → All (λ k. IsGone k (purge_these actor now runs db).0) (run_keys_of runs)
      × All (λ k. HasNoTrace k db (purge_these actor now runs db).0) (run_keys_of runs)
unfolding purge_these
purge_these-IsGone actor now [] db u = (tt, tt)
purge_these-IsGone actor now (run ∷ runs) db u =
    let keys = run_keys_of (run ∷ runs) in
    (
      All-IsGone-audited keys _ _ _ _ now (remove_runs keys none db).0
          (remove_runs-IsGone keys none db u (All-IsOwn-none db.runs keys)),
      All-HasNoTrace-audited keys _ _ _ _ now db (remove_runs keys none db).0
          (remove_runs-HasNoTrace keys none db),
    )

-- After a purge a run that had expired has no row in the tables of runs, conversations, predictions,
-- model versions, share links and report schedules, no message in a conversation about it, and no
-- artifact or model bundle, but for a file that cannot be unlinked and an object in a bucket that is
-- out of reach. (Job, audit and billing rows are not among these.)
pub purge_expired-IsGone :
    (actor : Option Actor) (now : ℕ) (db : Database)
    → IsKeyed run_id db.runs
    → All (λ k. IsGone k (purge_expired actor now db).0) (run_keys_of (expired_runs now db.runs))
      × All
          (λ k. HasNoTrace k db (purge_expired actor now db).0)
          (run_keys_of (expired_runs now db.runs))
unfolding purge_expired
purge_expired-IsGone actor now db u = purge_these-IsGone actor now (expired_runs now db.runs) db u
