-- ===== src/Lifecycle/Others.antt =====
-- What the removal of runs leaves of other runs' messages and artifact files (backend/lifecycle.py).
use autonomous_ai_analyst.Base.{
  String, List, [], ◌∷◌, Option, none, some, ◌==◌, ◌≡◌, refl, ◌∙◌, arith, select, delete_where,
  select-delete_where_other, All, All-map, Bool-cases, inl, inr, eq_iff, true, false, length, ==→eq,
  map, subst,
}
use autonomous_ai_analyst.Text.{◌+++◌, chars}
use autonomous_ai_analyst.Text.Laws.{concat_split}
use autonomous_ai_analyst.Table.{get, IsKeyed, delete_where-IsKeyed}
use autonomous_ai_analyst.Conversations.{
  ConversationRecord, MessageRecord, conversation_key, about_run, in_conversation,
  delete_messages_of, delete_conversations_for_run,
}
use autonomous_ai_analyst.Storage.{
  Place, Store, place, lies_at, removable, purge_place, purge_places, purge_run, run_artifact_paths,
  add_suffixes, artifact_suffixes,
}
use autonomous_ai_analyst.Database.{Database}
use autonomous_ai_analyst.Lifecycle.Purge.{remove_run, remove_runs}

-- The messages of the conversations about the run, and its files, are the same in both.
pub record IsLeft (run : String) (db db' : Database) : Type 0 where
  pub left_messages :
      All
        (λ c.
          select (in_conversation c.conversation_id) db'.chats.messages
          ≡ select (in_conversation c.conversation_id) db.chats.messages)
        (select (about_run run) db.chats.conversations)
  pub left_files :
      (suffix : String)
      → select (lies_at (place run suffix)) db'.store.files
        ≡ select (lies_at (place run suffix)) db.store.files

-- Another run key of the same size.
abbrev pub IsOther : String → String → Type 0
IsOther run k = ((k == run) ≡ false) × (length (chars k) ≡ length (chars run))

none-apart :
    (id : String) (cs : List ConversationRecord) (k : String)
    → get conversation_key id cs ≡ none
    → All (λ r. (r.conversation_id == id) ≡ false) (select (about_run k) cs)
none-apart id [] k e = tt
none-apart id (c ∷ cs) k e = elim (Bool-cases (about_run k c)) [
  | inl mine ↦ rw mine (ground (arith), none-apart id cs k (ground (arith)))
  | inr other ↦ rw other (none-apart id cs k (ground (arith)))
]

-- Of two runs' conversations, no two have one id.
some-apart :
    (id : String) (c : ConversationRecord) (cs : List ConversationRecord) (k : String)
    → IsKeyed conversation_key cs
    → get conversation_key id cs ≡ some c
    → about_run k c ≡ false
    → All (λ r. (r.conversation_id == id) ≡ false) (select (about_run k) cs)
some-apart id c [] k u e ne = tt
some-apart id c (x ∷ cs) k u e ne = elim (Bool-cases (x.conversation_id == id)) [
  | inl hit ↦
      let same : x ≡ c = ground (arith) in
      let off : about_run k x ≡ false = rw same ne in
      let gone : get conversation_key id cs ≡ none = rw (← ==→eq x.conversation_id id hit) u.0 in
      rw off (none-apart id cs k gone)
  | inr miss ↦
      let rest = some-apart id c cs k u.1 (ground (arith)) ne in
      elim (Bool-cases (about_run k x)) [
        | inl mine ↦ rw mine (miss, rest)
        | inr other ↦ rw other rest
      ]
]

kept-messages :
    (id : String) (cs : List ConversationRecord) (messages : List MessageRecord)
    → All (λ r. (r.conversation_id == id) ≡ false) cs
    → select (in_conversation id) (delete_messages_of cs messages)
      ≡ select (in_conversation id) messages
kept-messages id [] messages h = refl
kept-messages id (r ∷ cs) messages h =
    kept-messages id cs (delete_where (in_conversation r.conversation_id) messages) h.1
    ∙ select-delete_where_other (in_conversation r.conversation_id) (in_conversation id) messages
        (λ m e. ground (
          arith,
          eq_iff m.conversation_id id,
          eq_iff m.conversation_id r.conversation_id,
          eq_iff r.conversation_id id,
          h.0,
        ))

-- Each conversation is found under its id.
found-All :
    (cs : List ConversationRecord)
    → IsKeyed conversation_key cs
    → All (λ c. get conversation_key c.conversation_id cs ≡ some c) cs
found-All [] u = tt
found-All (x ∷ cs) u = (
  ground (arith, eq_iff x.conversation_id x.conversation_id),
  All-map (λ c. get conversation_key c.conversation_id cs ≡ some c)
      (λ c. get conversation_key c.conversation_id (x ∷ cs) ≡ some c) cs
      (λ c e. ground (arith, eq_iff x.conversation_id c.conversation_id, u.0, e))
      (found-All cs u.1),
)

selected-All :
    (run : String) (P Q : ConversationRecord → Type 0) (cs : List ConversationRecord)
    → ((c : ConversationRecord) → about_run run c ≡ true → P c → Q c)
    → All P cs
    → All Q (select (about_run run) cs)
selected-All run P Q [] f h = tt
selected-All run P Q (c ∷ cs) f h = elim (Bool-cases (about_run run c)) [
  | inl mine ↦ rw mine (f c mine h.0, selected-All run P Q cs f h.1)
  | inr other ↦ rw other (selected-All run P Q cs f h.1)
]

kept-file :
    (p q : Place) (s : Store)
    → (p.key == q.key) ≡ false
    → select (lies_at q) (purge_place p s).files ≡ select (lies_at q) s.files
kept-file p q s ne = elim (Bool-cases (removable p s.files)) [
  | inr stays ↦ rw stays refl
  | inl goes ↦ rw goes (
      select-delete_where_other (lies_at p) (lies_at q) s.files
        (λ f e. ground (arith, eq_iff f.name q.key, eq_iff f.name p.key, eq_iff p.key q.key, ne)))
]

kept-files :
    (q : Place) (ps : List Place) (s : Store)
    → All (λ (p : Place). (p.key == q.key) ≡ false) ps
    → select (lies_at q) (purge_places ps s).0.files ≡ select (lies_at q) s.files
unfolding purge_places
kept-files q [] s h = refl
kept-files q (p ∷ ps) s h = kept-files q ps (purge_place p s) h.1 ∙ kept-file p q s h.0

pub keys_apart : (k run s t : String) → IsOther run k → ((k +++ s) == (run +++ t)) ≡ false
keys_apart k run s t h = elim (Bool-cases ((k +++ s) == (run +++ t))) [
  | inr ne ↦ ne
  | inl same ↦
      let e = (concat_split k run s t h.1 (==→eq (k +++ s) (run +++ t) same)).0 in
      absurd (ground (arith, h.0, eq_iff k run, e))
]

places-apart :
    (k run suffix : String) (suffixes : List String)
    → IsOther run k
    → All (λ (p : Place). (p.key == (place run suffix).key) ≡ false) (map (place k) suffixes)
places-apart k run suffix [] h = tt
places-apart k run suffix (x ∷ xs) h = (keys_apart k run x suffix h, places-apart k run suffix xs h)

purge_run-left :
    (k run suffix : String) (extra : List String) (s : Store)
    → IsOther run k
    → select (lies_at (place run suffix)) (purge_run k extra s).0.files
      ≡ select (lies_at (place run suffix)) s.files
unfolding purge_run run_artifact_paths
purge_run-left k run suffix extra s h =
    let suffixes = add_suffixes extra artifact_suffixes in
    kept-files (place run suffix) (map (place k) suffixes) s (places-apart k run suffix suffixes h)

remove_run-IsLeft :
    (run k : String) (owner : Option String) (db : Database)
    → IsKeyed conversation_key db.chats.conversations
    → IsOther run k
    → IsLeft run db (remove_run k owner db).0
unfolding remove_run delete_conversations_for_run
remove_run-IsLeft run k owner db u h =
    let cs = db.chats.conversations in
    record {
      left_messages =
          selected-All run (λ c. get conversation_key c.conversation_id cs ≡ some c)
            (λ c.
              select (in_conversation c.conversation_id)
                (delete_messages_of (select (about_run k) cs) db.chats.messages)
              ≡ select (in_conversation c.conversation_id) db.chats.messages)
            cs
            (λ c mine e.
              kept-messages c.conversation_id (select (about_run k) cs) db.chats.messages (
                some-apart c.conversation_id c cs k u e (
                  ground
                    (arith, mine, h.0, eq_iff c.run_key run, eq_iff c.run_key k, eq_iff k run))))
            (found-All cs u);
      left_files = λ suffix. purge_run-left k run suffix _ db.store h;
    }

-- What a removal leaves of another run's conversations.
left_conversations :
    (run k : String) (owner : Option String) (db : Database)
    → IsOther run k
    → select (about_run run) (remove_run k owner db).0.chats.conversations
      ≡ select (about_run run) db.chats.conversations
unfolding remove_run delete_conversations_for_run
left_conversations run k owner db h =
    select-delete_where_other (about_run k) (about_run run) db.chats.conversations
      (λ c e. ground (arith, e, h.0, eq_iff c.run_key run, eq_iff c.run_key k, eq_iff k run))

remove_run-keyed :
    (k : String) (owner : Option String) (db : Database)
    → IsKeyed conversation_key db.chats.conversations
    → IsKeyed conversation_key (remove_run k owner db).0.chats.conversations
unfolding remove_run delete_conversations_for_run
remove_run-keyed k owner db u =
    delete_where-IsKeyed conversation_key (about_run k) db.chats.conversations u

same_trans :
    (cs : List ConversationRecord) (a b c : List MessageRecord)
    → All
        (λ c.
          select (in_conversation c.conversation_id) b
          ≡ select (in_conversation c.conversation_id) a)
        cs
    → All
        (λ r.
          select (in_conversation r.conversation_id) c
          ≡ select (in_conversation r.conversation_id) b)
        cs
    → All
        (λ r.
          select (in_conversation r.conversation_id) c
          ≡ select (in_conversation r.conversation_id) a)
        cs
same_trans [] a b c x y = tt
same_trans (r ∷ cs) a b c x y = (y.0 ∙ x.0, same_trans cs a b c x.1 y.1)

same_refl :
    (cs : List ConversationRecord) (messages : List MessageRecord)
    → All
        (λ r.
          select (in_conversation r.conversation_id) messages
          ≡ select (in_conversation r.conversation_id) messages)
        cs
same_refl [] messages = tt
same_refl (r ∷ cs) messages = (refl, same_refl cs messages)

pub IsLeft-refl : (run : String) (db : Database) → IsLeft run db db
IsLeft-refl run db = record {
  left_messages = same_refl (select (about_run run) db.chats.conversations) db.chats.messages;
  left_files = λ suffix. refl;
}

pub remove_runs-IsLeft :
    (run : String) (keys : List String) (owner : Option String) (db : Database)
    → IsKeyed conversation_key db.chats.conversations
    → All (IsOther run) keys
    → IsLeft run db (remove_runs keys owner db).0
unfolding remove_runs
remove_runs-IsLeft run [] owner db u h = IsLeft-refl run db
remove_runs-IsLeft run (k ∷ keys) owner db u h =
    let db1 = (remove_run k owner db).0 in
    let db2 = (remove_runs keys owner db1).0 in
    let x = remove_run-IsLeft run k owner db u h.0 in
    let y = remove_runs-IsLeft run keys owner db1 (remove_run-keyed k owner db u) h.1 in
    record {
      left_messages =
          same_trans (select (about_run run) db.chats.conversations) db.chats.messages
            db1.chats.messages db2.chats.messages x.left_messages
            (subst
              (λ cs.
                All
                  (λ c.
                    select (in_conversation c.conversation_id) db2.chats.messages
                    ≡ select (in_conversation c.conversation_id) db1.chats.messages)
                  cs)
              (left_conversations run k owner db h.0) y.left_messages);
      left_files = λ suffix. y.left_files suffix ∙ x.left_files suffix;
    }
