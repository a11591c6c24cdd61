-- ===== src/Chat/Handler.antt =====
-- `chat` of backend/routes/chat.py and what it calls there. The system prompt is text for the model.
use autonomous_ai_analyst.Base.{
  ℕ, ◌/◌, String, List, [], map, Bool, true, false, not, Option, none, some, ◌==◌, leb, ltb, length,
  if◌then◌else◌,
}
use autonomous_ai_analyst.Text.{strip, is_empty, chars, ◌+++◌}
use autonomous_ai_analyst.Common.{Json, Principal}
use autonomous_ai_analyst.Settings.{Settings}
use autonomous_ai_analyst.Http.{
  raised, no_metadata, no_question, long_question, unknown_conversation, other_run, hourly_messages,
  token_budget, server_error,
}
use autonomous_ai_analyst.Auth.{owner_scope, require_owned_run}
use autonomous_ai_analyst.Limits.{check_llm_quota}
use autonomous_ai_analyst.Conversations.{
  ConversationRecord, MessageRecord, Chats, create_conversation, get_conversation, append_message,
  list_messages, count_recent_messages,
}
use autonomous_ai_analyst.Usage.{UsageRecord, record_usage}
use autonomous_ai_analyst.Storage.{place, exists_at}
use autonomous_ai_analyst.Storage.Mirror.{ensure_local}
use autonomous_ai_analyst.Database.{
  Call, pure, raise, of_result, gets, or_raise, ◌>>=◌, ◌>>◌, raise_if, modify,
}
use autonomous_ai_analyst.Agent.Loop.{Turn, AgentResult, run_agent}
use autonomous_ai_analyst.Agent.Trim.{trim_to_budget}
use autonomous_ai_analyst.Chat.Turns.{
  ChatRequest, World, resolved_key, turns_from_history, ChatReply,
}

module _ (settings : Settings) (world : World) (p : Principal) (now : ℕ) where
  abbrev pub sync : String → Call (Unit {0})
  sync run_key = modify λ db. record db { store = ensure_local world.size_of run_key [] db.store }

  abbrev pub message : String → String → String → List Json → ℕ → ℕ → Chats → MessageRecord
  message conversation_id role content steps input output chats = record {
    id = world.draw_id chats;
    conversation_id = conversation_id;
    role = role;
    content = content;
    steps = steps;
    input_tokens = input;
    output_tokens = output;
    created_at = now;
  }

  abbrev pub say : String → String → String → List Json → ℕ → ℕ → Call (Unit {0})
  say conversation_id role content steps input output = modify λ db. record db {
    chats =
        append_message (message conversation_id role content steps input output db.chats) db.chats;
  }

  -- `_load_metadata`: whether there is a metadata file.
  abbrev pub load_metadata : String → Call (Unit {0})
  load_metadata run_key = do
    sync run_key
    here ← gets (λ db. exists_at (place run_key ".json") db.store.files)
    raise_if (not here) no_metadata

  abbrev pub own_conversation : String → Option ConversationRecord → Call ConversationRecord
  own_conversation run_key none = raise unknown_conversation
  own_conversation run_key (some c) = if c.run_key == run_key then pure c else raise other_run

  abbrev pub with_new : Option Chats → Call ConversationRecord
  with_new none db = (raised server_error, db)
  with_new (some chats) db =
      let db' = record db { chats = chats } in
      or_raise (get_conversation world.new_id none chats) server_error db'

  abbrev pub new_conversation : String → Call ConversationRecord
  new_conversation run_key db =
      with_new (create_conversation world.new_id run_key none p.user_id now db.chats) db

  -- The conversation that a question belongs to.
  unfoldable pub enter_conversation : Option String → String → Call ConversationRecord
  enter_conversation none run_key = new_conversation run_key
  enter_conversation (some conversation_id) run_key =
      if is_empty conversation_id
      then new_conversation run_key
      else gets (λ db. get_conversation conversation_id (owner_scope settings p) db.chats)
        >>= own_conversation run_key

  -- The ceilings of the account and of the conversation.
  unfoldable pub check_ceilings : ConversationRecord → Call (Unit {0})
  check_ceilings conversation = do
    check_llm_quota settings p now
    recent ← gets (λ db. count_recent_messages conversation.conversation_id 60 now db.chats)
    raise_if (leb world.chat_max_messages_per_hour recent) hourly_messages
    raise_if (leb world.chat_token_budget conversation.total_tokens) token_budget

  -- `_degraded`
  abbrev pub degraded : String → String → String → String → ChatReply
  degraded run_key query conversation_id reason = record {
    run_key = run_key;
    conversation_id = conversation_id;
    query = query;
    answer = reason;
    llm_enabled = false;
    steps = [];
    input_tokens = 0;
    output_tokens = 0;
    stopped_at_step_limit = false;
    history_trimmed = false;
    estimated_cost = 0;
  }

  abbrev pub no_model : String
  no_model =
      "No language model is configured, so I cannot answer questions. Set GEMINI_API_KEY in backend/.env and restart. The dashboard, charts, and predictions all work without it."

  abbrev pub no_snapshot : String
  no_snapshot =
      "The data snapshot for this run is missing from disk, so I have nothing to compute on. Re-upload the dataset to restore it."

  abbrev pub out_of_reach : String
  out_of_reach =
      "The AI provider could not be reached (authentication, quota, or network issue). The dashboard, charts, and predictions are unaffected — try asking again shortly."

  abbrev trim_note : String
  trim_note = "\n\n_Note: earlier turns were dropped from context to stay within the token budget._"

  -- The two messages of a question that no model answers.
  abbrev pub excuse : String → String → String → String → Call ChatReply
  excuse run_key query conversation_id reason = do
    say conversation_id "user" query [] 0 0
    say conversation_id "assistant" reason [] 0 0
    pure (degraded run_key query conversation_id reason)

  -- The turns that the model is asked with, and whether they were trimmed.
  unfoldable pub asked_turns : String → Chats → List Turn × Bool
  asked_turns conversation_id chats =
      trim_to_budget world.turn_cost (turns_from_history (list_messages conversation_id 200 chats))
        (world.chat_token_budget / 2)

  abbrev pub billed : String → String × String → String → AgentResult → ℕ → UsageRecord
  billed run_key (name, model) conversation_id result cost = record {
    owner_id = p.user_id;
    run_key = some run_key;
    conversation_id = some conversation_id;
    provider = name;
    model = model;
    input_tokens = result.input_tokens;
    output_tokens = result.output_tokens;
    estimated_cost = cost;
    created_at = now;
  }

  abbrev pub bill : UsageRecord → Call (Unit {0})
  bill row = modify λ db. record db { usage = record_usage row db.usage }

  abbrev pub cost_of : String × String → AgentResult → ℕ
  cost_of provider result = world.estimate provider.1 result.input_tokens result.output_tokens

  abbrev pub reply_of : String → String → String → String × String → AgentResult → Bool → ChatReply
  reply_of run_key query conversation_id provider result trimmed = record {
    run_key = run_key;
    conversation_id = conversation_id;
    query = query;
    answer = if trimmed then result.answer +++ trim_note else result.answer;
    llm_enabled = true;
    steps = result.steps;
    input_tokens = result.input_tokens;
    output_tokens = result.output_tokens;
    stopped_at_step_limit = result.stopped_at_step_limit;
    history_trimmed = trimmed;
    estimated_cost = cost_of provider result;
  }

  -- The answer is stored and billed.
  abbrev pub store_answer : String → String × String → ChatReply → AgentResult → Call ChatReply
  store_answer run_key provider reply result = do
    say reply.conversation_id "assistant" reply.answer (map world.step_json result.steps)
        result.input_tokens result.output_tokens
    bill (billed run_key provider reply.conversation_id result (cost_of provider result))
    pure reply

  abbrev pub ask_model :
      String → String → String → String × String → List Turn × Bool → Call ChatReply
  ask_model run_key query conversation_id provider (turns, trimmed) =
      if world.fails turns
      then (do
        say conversation_id "assistant" out_of_reach [] 0 0
        pure (degraded run_key query conversation_id out_of_reach))
      else let result =
          (run_agent world.execute world.dump_length world.complete turns none
            world.agent_max_steps).0 in
        store_answer run_key provider
          (reply_of run_key query conversation_id provider result trimmed) result

  abbrev pub answer_from : String → String → String → String × String → Bool → Call ChatReply
  answer_from run_key query conversation_id provider here =
      if not here then excuse run_key query conversation_id no_snapshot else (do
        say conversation_id "user" query [] 0 0
        asked ← gets (λ db. asked_turns conversation_id db.chats)
        ask_model run_key query conversation_id provider asked)

  unfoldable pub respond : String → String → String → Option (String × String) → Call ChatReply
  respond run_key query conversation_id none = excuse run_key query conversation_id no_model
  respond run_key query conversation_id (some provider) = do
    sync run_key
    here ← gets (λ db. exists_at (place run_key "_data.csv") db.store.files)
    answer_from run_key query conversation_id provider here

  -- From the conversation on.
  unfoldable pub converse : Option String → String → String → Call ChatReply
  converse conversation_id run_key query = do
    conversation ← enter_conversation conversation_id run_key
    check_ceilings conversation
    respond run_key query conversation.conversation_id world.provider

  abbrev pub check_query : String → Call (Unit {0})
  check_query query = do
    raise_if (is_empty query) no_question
    raise_if (ltb 4000 (length (chars query))) long_question

  unfoldable pub chat : ChatRequest → Call ChatReply
  chat req = do
    run_key ← of_result (resolved_key req)
    (λ db. (require_owned_run settings run_key p db, db))
    load_metadata run_key
    check_query (strip req.query)
    converse req.conversation_id run_key (strip req.query)
