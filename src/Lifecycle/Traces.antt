-- ===== src/Lifecycle/Traces.antt =====
-- What the removal of runs leaves of the rows and files that do not carry their key in a column: the
-- messages of their conversations and their artifact files (backend/lifecycle.py).
use autonomous_ai_analyst.Base.{
  String, List, [], ◌∷◌, Bool, Option, ◌==◌, ◌≡◌, refl, arith, select, delete_where,
  select-delete_where, select-delete_where_other, All, Bool-cases, inl, inr, ==→eq, subst, eq_iff,
  true, false, map,
}
use autonomous_ai_analyst.Text.{◌+++◌}
use autonomous_ai_analyst.Conversations.{
  ConversationRecord, MessageRecord, about_run, in_conversation, delete_messages_of,
  delete_conversations_for_run,
}
use autonomous_ai_analyst.Versions.{ModelVersionRecord, of_run, delete_model_versions_for_run}
use autonomous_ai_analyst.Storage.{
  Place, Store, place, artifact_suffixes, purge_run, run_artifact_paths,
}
use autonomous_ai_analyst.Storage.Purging.{IsPurged, purge_run_complete, purge-keep}
use autonomous_ai_analyst.Database.{Database}
use autonomous_ai_analyst.Lifecycle.Purge.{remove_run, remove_runs}

-- A deletion brings nothing back.
pub select-delete_where_none {ℓ} :
    {A : Type ℓ} (p q : A → Bool) (xs : List A)
    → select q xs ≡ []
    → select q (delete_where p xs) ≡ []
select-delete_where_none p q [] e = refl
select-delete_where_none p q (x ∷ xs) e = ground (arith, select-delete_where_none p q xs)

-- No conversation of these has a message.
abbrev pub AreMute : List ConversationRecord → List MessageRecord → Type 0
AreMute cs messages = All (λ c. select (in_conversation c.conversation_id) messages ≡ []) cs

-- The files of these suffixes, each with its signature's.
abbrev pub ArePurged : String → List String → Store → Type 0
ArePurged run suffixes s =
    All (λ x. IsPurged s (place run x) × IsPurged s (place run (x +++ ".sig"))) suffixes

-- Of what the first database holds of the run, the second has no message and no artifact: neither
-- those that each run has nor the bundles of its versions.
pub record HasNoTrace (run : String) (db db' : Database) : Type 0 where
  pub no_message : AreMute (select (about_run run) db.chats.conversations) db'.chats.messages
  pub no_artifact : All (λ x. IsPurged db'.store (place run x)) artifact_suffixes
  pub no_bundle :
      ArePurged run
        (map (λ (v : ModelVersionRecord). v.artifact_suffix) (select (of_run run) db.versions))
        db'.store

messages-none :
    (id : String) (cs : List ConversationRecord) (messages : List MessageRecord)
    → select (in_conversation id) messages ≡ []
    → select (in_conversation id) (delete_messages_of cs messages) ≡ []
messages-none id [] messages e = e
messages-none id (c ∷ cs) messages e =
    messages-none id cs (delete_where (in_conversation c.conversation_id) messages)
      (select-delete_where_none (in_conversation c.conversation_id) (in_conversation id) messages e)

messages-AreMute :
    (cs : List ConversationRecord) (messages : List MessageRecord)
    → AreMute cs (delete_messages_of cs messages)
messages-AreMute [] messages = tt
messages-AreMute (c ∷ cs) messages =
    let rest = delete_where (in_conversation c.conversation_id) messages in
    (
      messages-none c.conversation_id cs rest
          (select-delete_where (in_conversation c.conversation_id) messages),
      messages-AreMute cs rest,
    )

stays-AreMute :
    (cs others : List ConversationRecord) (messages : List MessageRecord)
    → AreMute cs messages
    → AreMute cs (delete_messages_of others messages)
stays-AreMute [] others messages h = tt
stays-AreMute (c ∷ cs) others messages h =
    (messages-none c.conversation_id others messages h.0, stays-AreMute cs others messages h.1)

purge_run-keep :
    (q : Place) (run : String) (extra : List String) (s : Store)
    → IsPurged s q
    → IsPurged (purge_run run extra s).0 q
unfolding purge_run
purge_run-keep q run extra s h = purge-keep q (run_artifact_paths run extra) s h

stays-IsPurged :
    (run other : String) (extra suffixes : List String) (s : Store)
    → All (λ x. IsPurged s (place run x)) suffixes
    → All (λ x. IsPurged (purge_run other extra s).0 (place run x)) suffixes
stays-IsPurged run other extra [] s h = tt
stays-IsPurged run other extra (x ∷ xs) s h =
    (purge_run-keep (place run x) other extra s h.0, stays-IsPurged run other extra xs s h.1)

stays-ArePurged :
    (run other : String) (extra suffixes : List String) (s : Store)
    → ArePurged run suffixes s
    → ArePurged run suffixes (purge_run other extra s).0
stays-ArePurged run other extra [] s h = tt
stays-ArePurged run other extra (x ∷ xs) s h = (
  (
    purge_run-keep (place run x) other extra s h.0.0,
    purge_run-keep (place run (x +++ ".sig")) other extra s h.0.1,
  ),
  stays-ArePurged run other extra xs s h.1,
)

remove_run-HasNoTrace :
    (run : String) (owner : Option String) (db : Database)
    → HasNoTrace run db (remove_run run owner db).0
unfolding remove_run delete_conversations_for_run delete_model_versions_for_run
remove_run-HasNoTrace run owner db =
    let files = purge_run_complete run (delete_model_versions_for_run run db.versions).1 db.store in
    record {
      no_message =
          messages-AreMute (select (about_run run) db.chats.conversations) db.chats.messages;
      no_artifact = files.0;
      no_bundle = files.1;
    }

remove_run-stays-HasNoTrace :
    (run other : String) (owner : Option String) (before db : Database)
    → HasNoTrace run before db
    → HasNoTrace run before (remove_run other owner db).0
unfolding remove_run delete_conversations_for_run delete_model_versions_for_run
remove_run-stays-HasNoTrace run other owner before db h =
    let extra = (delete_model_versions_for_run other db.versions).1 in
    record {
      no_message =
          stays-AreMute (select (about_run run) before.chats.conversations)
            (select (about_run other) db.chats.conversations) db.chats.messages h.no_message;
      no_artifact = stays-IsPurged run other extra artifact_suffixes db.store h.no_artifact;
      no_bundle = stays-ArePurged run other extra _ db.store h.no_bundle;
    }

remove_runs-stays-HasNoTrace :
    (run : String) (keys : List String) (owner : Option String) (before db : Database)
    → HasNoTrace run before db
    → HasNoTrace run before (remove_runs keys owner db).0
unfolding remove_runs
remove_runs-stays-HasNoTrace run [] owner before db h = h
remove_runs-stays-HasNoTrace run (k ∷ keys) owner before db h =
    remove_runs-stays-HasNoTrace run keys owner before (remove_run k owner db).0
      (remove_run-stays-HasNoTrace run k owner before db h)

texts_apart : (a k run : String) → (k == run) ≡ false → (a == run) ≡ true → (a == k) ≡ false
texts_apart a k run ne e = ground (arith, eq_iff a run, eq_iff a k, eq_iff k run)

-- What the removal of one run leaves of another one's rows.
earlier-HasNoTrace :
    (run k : String) (owner : Option String) (db db' : Database)
    → (k == run) ≡ false
    → HasNoTrace run (remove_run k owner db).0 db'
    → HasNoTrace run db db'
unfolding remove_run delete_conversations_for_run delete_model_versions_for_run
earlier-HasNoTrace run k owner db db' ne h = record {
  no_message =
      subst (λ cs. AreMute cs db'.chats.messages)
        (select-delete_where_other (about_run k) (about_run run) db.chats.conversations
          (λ c e. texts_apart c.run_key k run ne e))
        h.no_message;
  no_artifact = h.no_artifact;
  no_bundle =
      subst (λ vs. ArePurged run (map (λ (v : ModelVersionRecord). v.artifact_suffix) vs) db'.store)
        (select-delete_where_other (of_run k) (of_run run) db.versions
          (λ v e. texts_apart v.run_key k run ne e))
        h.no_bundle;
}

earlier-All :
    (k : String) (owner : Option String) (db db' : Database) (keys : List String)
    → HasNoTrace k db db'
    → All (λ run. HasNoTrace run (remove_run k owner db).0 db') keys
    → All (λ run. HasNoTrace run db db') keys
earlier-All k owner db db' [] own h = tt
earlier-All k owner db db' (run ∷ keys) own h = (
  elim (Bool-cases (k == run)) [
    | inl same ↦ subst (λ r. HasNoTrace r db db') (==→eq k run same) own
    | inr ne ↦ earlier-HasNoTrace run k owner db db' ne h.0
  ],
  earlier-All k owner db db' keys own h.1,
)

pub remove_runs-HasNoTrace :
    (keys : List String) (owner : Option String) (db : Database)
    → All (λ run. HasNoTrace run db (remove_runs keys owner db).0) keys
unfolding remove_runs
remove_runs-HasNoTrace [] owner db = tt
remove_runs-HasNoTrace (k ∷ keys) owner db =
    let db' = (remove_run k owner db).0 in
    let own = remove_runs-stays-HasNoTrace k keys owner db db' (remove_run-HasNoTrace k owner db) in
    (
      own,
      earlier-All k owner db (remove_runs keys owner db').0 keys own
          (remove_runs-HasNoTrace keys owner db'),
    )
