-- ===== src/Chat/Outcomes.antt =====
-- What a question leaves in the tables (`chat` of backend/routes/chat.py).
use autonomous_ai_analyst.Base.{
  ℕ, String, List, [], ◌∷◌, Bool, true, false, not, Option, none, some, inl, inr, refl, map, ltb,
  length, Bool-cases, sym,
}
use mathlib.Core.List.{append-nil, append_assoc}
use autonomous_ai_analyst.Text.{is_empty, strip, chars}
use autonomous_ai_analyst.Common.{Principal}
use autonomous_ai_analyst.Settings.{Settings}
use autonomous_ai_analyst.Http.{no_metadata, no_question, long_question}
use autonomous_ai_analyst.Conversations.{append_message}
use autonomous_ai_analyst.Auth.{require_owned_run}
use autonomous_ai_analyst.Storage.{place, exists_at}
use autonomous_ai_analyst.Usage.{record_usage}
use autonomous_ai_analyst.Database.{Database, of_result, ◌>>◌, raise_if}
use autonomous_ai_analyst.Agent.Loop.{Turn, AgentResult, run_agent}
use autonomous_ai_analyst.Chat.Turns.{ChatRequest, World, resolved_key}
use autonomous_ai_analyst.Chat.Handler.{
  sync, load_metadata, check_query, asked_turns, billed, cost_of, reply_of, store_answer, say,
  ask_model, answer_from, out_of_reach, no_snapshot, no_model, excuse, message, enter_conversation,
  check_ceilings, respond, converse, chat,
}
use autonomous_ai_analyst.Chat.Guards.{
  Outcome, Quiet, Answers, silent, guard, bind-Quiet, raise_if-Quiet, enter_conversation-Quiet,
  check_ceilings-Quiet,
}

module _ (settings : Settings) (world : World) (p : Principal) (now : ℕ) where
  excuse-Answers :
      (run_key query id reason : String)
      → Answers p (excuse settings world p now run_key query id reason)
  unfolding append_message
  excuse-Answers run_key query id reason db = record {
    question = message settings world p now id "user" query [] 0 0 db.chats;
    answer =
        message settings world p now id "assistant" reason [] 0 0
          (append_message (message settings world p now id "user" query [] 0 0 db.chats) db.chats);
    said = append_assoc db.chats.messages _ _;
    asked = (refl, refl, refl);
    replied = (refl, refl, refl);
    bill = [];
    spent = sym (append-nil db.usage);
    billed = refl;
  }

  stored-Answers :
      (run_key query id : String) (provider : String × String) (result : AgentResult)
      (trimmed : Bool)
      → Answers p (
          say settings world p now id "user" query [] 0 0
          >> store_answer settings world p now run_key provider
              (reply_of settings world p now run_key query id provider result trimmed)
              result)
  unfolding append_message record_usage
  stored-Answers run_key query id provider result trimmed db =
      let reply = reply_of settings world p now run_key query id provider result trimmed in
      let ask = message settings world p now id "user" query [] 0 0 db.chats in
      record {
        question = ask;
        answer =
            message settings world p now id "assistant" reply.answer
              (map world.step_json result.steps) result.input_tokens result.output_tokens
              (append_message ask db.chats);
        said = append_assoc db.chats.messages _ _;
        asked = (refl, refl, refl);
        replied = (refl, refl, refl);
        bill =
            billed settings world p now run_key provider id result
              (cost_of settings world p now provider result)
            ∷ [];
        spent = refl;
        billed = (refl, refl, refl, refl, refl, refl);
      }

  ask_model-Answers :
      (run_key query id : String) (provider : String × String) (asked : List Turn × Bool)
      → Answers p (
          say settings world p now id "user" query [] 0 0
          >> ask_model settings world p now run_key query id provider asked)
  unfolding append_message record_usage
  ask_model-Answers run_key query id provider (turns, trimmed) db =
      elim (Bool-cases (world.fails turns)) [
        | inl down ↦
            rw down (excuse-Answers run_key query id (out_of_reach settings world p now) db)
        | inr up ↦ rw up (
            stored-Answers run_key query id provider
              (run_agent world.execute world.dump_length world.complete turns none
                world.agent_max_steps).0
              trimmed db)
      ]

  answer_from-Answers :
      (run_key query id : String) (provider : String × String) (here : Bool)
      → Answers p (answer_from settings world p now run_key query id provider here)
  answer_from-Answers run_key query id provider false db =
      excuse-Answers run_key query id (no_snapshot settings world p now) db
  answer_from-Answers run_key query id provider true db =
      ask_model-Answers run_key query id provider
        (asked_turns settings world p now id
          (say settings world p now id "user" query [] 0 0 db).1.chats)
        db

  sync-Quiet : (run_key : String) → Quiet (sync settings world p now run_key)
  sync-Quiet run_key db = record { messages = refl; usage = refl }

  respond-Answers :
      (run_key query id : String) (provider : Option (String × String))
      → Answers p (respond settings world p now run_key query id provider)
  unfolding respond
  respond-Answers run_key query id none =
      excuse-Answers run_key query id (no_model settings world p now)
  respond-Answers run_key query id (some provider) =
      guard p (sync settings world p now run_key) _ (sync-Quiet run_key) λ u db.
        answer_from-Answers run_key query id provider
          (exists_at (place run_key "_data.csv") db.store.files) db

  converse-Answers :
      (id : Option String) (run_key query : String)
      → Answers p (converse settings world p now id run_key query)
  unfolding converse
  converse-Answers id run_key query =
      guard p (enter_conversation settings world p now id run_key)
        (λ c.
          check_ceilings settings world p now c
          >> respond settings world p now run_key query c.conversation_id world.provider)
        (enter_conversation-Quiet settings world p now id run_key)
        λ c.
          guard p (check_ceilings settings world p now c)
            (λ u. respond settings world p now run_key query c.conversation_id world.provider)
            (check_ceilings-Quiet settings world p now c)
            (λ u. respond-Answers run_key query c.conversation_id world.provider)

  load_metadata-Quiet : (run_key : String) → Quiet (load_metadata settings world p now run_key)
  load_metadata-Quiet run_key =
      bind-Quiet (sync settings world p now run_key)
        (λ u db. raise_if (not (exists_at (place run_key ".json") db.store.files)) no_metadata db)
        (sync-Quiet run_key)
        (λ u db.
          raise_if-Quiet (not (exists_at (place run_key ".json") db.store.files)) no_metadata db)

  check_query-Quiet : (query : String) → Quiet (check_query settings world p now query)
  check_query-Quiet query =
      bind-Quiet (raise_if (is_empty query) no_question)
        (λ u. raise_if (ltb 4000 (length (chars query))) long_question)
        (raise_if-Quiet (is_empty query) no_question)
        (λ u. raise_if-Quiet (ltb 4000 (length (chars query))) long_question)

  -- A question that is answered leaves two messages in its conversation, the question and the answer,
  -- and one row for its account if a model answered; one that is refused leaves no message and no row.
  pub chat-Outcome :
      (req : ChatRequest) (db : Database)
      → Outcome p db (chat settings world p now req db).0 (chat settings world p now req db).1
  unfolding chat
  chat-Outcome req =
      guard p (of_result (resolved_key req))
        (λ run_key.
          (λ db. (require_owned_run settings run_key p db, db))
          >> (load_metadata settings world p now run_key
              >> (check_query settings world p now (strip req.query)
                  >> converse settings world p now req.conversation_id run_key (strip req.query))))
        silent
        λ run_key.
          guard p (λ db. (require_owned_run settings run_key p db, db))
            (λ u.
              load_metadata settings world p now run_key
              >> (check_query settings world p now (strip req.query)
                  >> converse settings world p now req.conversation_id run_key (strip req.query)))
            silent
            λ u.
              guard p (load_metadata settings world p now run_key)
                (λ u.
                  check_query settings world p now (strip req.query)
                  >> converse settings world p now req.conversation_id run_key (strip req.query))
                (load_metadata-Quiet run_key)
                λ u.
                  guard p (check_query settings world p now (strip req.query))
                    (λ u.
                      converse settings world p now req.conversation_id run_key (strip req.query))
                    (check_query-Quiet (strip req.query))
                    (λ u. converse-Answers req.conversation_id run_key (strip req.query))
