-- ===== src/Examples/Chat.antt =====
-- A question to the analyst at concrete inputs.
use autonomous_ai_analyst.Base.{
  List, ◌<◌, ◌≤◌, ◌⊎◌, ℕ, suc, String, [], ◌∷◌, ◌++◌, false, none, some, ◌≡◌, refl, greatest, arith,
}
use autonomous_ai_analyst.Http.{ok, raised, Result}
use autonomous_ai_analyst.Security.{validate_dataset_hash}
use autonomous_ai_analyst.Auth.{require_owned_run, owner_scope}
use autonomous_ai_analyst.Runs.{run_owner}
use autonomous_ai_analyst.Storage.Mirror.{ensure_local}
use autonomous_ai_analyst.Limits.{check_llm_quota}
use autonomous_ai_analyst.Usage.{count_llm_calls_since, spend_since, record_usage}
use autonomous_ai_analyst.Agent.Loop.{Turn, run_agent, run_rounds, answer_of}
use autonomous_ai_analyst.Agent.Trim.{trim_to_budget}
use autonomous_ai_analyst.Conversations.{
  create_conversation, get_conversation, count_recent_messages, MessageRecord, Chats,
  append_message, list_messages,
}
use autonomous_ai_analyst.Text.{◌+++◌}
use autonomous_ai_analyst.Storage.{metadata_dir}
use autonomous_ai_analyst.Database.{Database}
use autonomous_ai_analyst.Chat.Turns.{
  ChatReply, ChatRequest, World, asking, turns_from_history, resolved_key,
}
use autonomous_ai_analyst.Chat.Handler.{
  chat, converse, enter_conversation, check_ceilings, respond, asked_turns,
}
use autonomous_ai_analyst.Chat.Guards.{Outcome}
use autonomous_ai_analyst.Chat.Outcomes.{chat-Outcome}
use autonomous_ai_analyst.Chat.History.{asked_turns-append_message}
use autonomous_ai_analyst.Examples.Data.{settings, bob, digest, hashed}

abbrev message_of : ℕ → String → String → MessageRecord
message_of id role content = record {
  id = id;
  conversation_id = "c1";
  role = role;
  content = content;
  steps = [];
  input_tokens = 0;
  output_tokens = 0;
  created_at = 10;
}

abbrev chats : Chats
chats = record {
  conversations = [];
  messages = message_of 1 "user" "hello" ∷ message_of 2 "assistant" "hi" ∷ [];
}

abbrev world : World
world = record {
  provider = some ("gemini", "gemini-2.5-flash");
  fails = λ turns. false;
  complete = λ round turns offered. record {
    text = "Because.";
    tool_calls = [];
    input_tokens = 20;
    output_tokens = 4;
    finish_reason = none;
  };
  execute = λ call. [];
  dump_length = λ json. 0;
  turn_cost = λ turn. 1;
  step_json = λ step. [];
  estimate = λ model input output. 7;
  size_of = λ name. 1;
  agent_max_steps = 6;
  chat_max_messages_per_hour = 40;
  chat_token_budget = 1000;
  new_id = "c9";
  draw_id = λ chats. suc (greatest (λ (m : MessageRecord). m.id) chats.messages);
}

abbrev asked : Database
asked = record hashed {
  store = record {
    files =
        record { root = metadata_dir; name = digest +++ ".json"; size = 10; locked = false }
        ∷ record { root = metadata_dir; name = digest +++ "_data.csv"; size = 10; locked = false }
        ∷ [];
    bucket = none;
  };
}

asked_turns-append_message_example :
    ((2 < 200)
      × ((earlier : List Turn) × ((asked_turns settings world bob 100 "c1"
              (append_message (message_of 3 "user" "why") chats)).0
            ≡ earlier ++ asking "why" ∷ [])))
    ⊎ ((200 ≤ 2)
        × (asked_turns settings world bob 100 "c1"
              (append_message (message_of 3 "user" "why") chats)
            ≡ asked_turns settings world bob 100 "c1" chats))
asked_turns-append_message_example =
    asked_turns-append_message settings world bob 100 (message_of 3 "user" "why") chats refl
      (omega arith, (omega arith, tt))

abbrev question : ChatRequest
question = record {
  run_key = some digest;
  dataset_hash = none;
  query = "why";
  conversation_id = none;
}

chat-Outcome_example :
    Outcome bob asked
      (chat settings world bob 100 question asked).0
      (chat settings world bob 100 question asked).1
chat-Outcome_example = chat-Outcome settings world bob 100 question asked

abbrev answer_text : Result ChatReply → String
answer_text (ok reply) = reply.answer
answer_text (raised e) = "refused"

-- The question above is answered by the model.
model_answers : answer_text (chat settings world bob 100 question asked).0 ≡ "Because."
unfolding chat resolved_key validate_dataset_hash require_owned_run run_owner ensure_local converse
    enter_conversation create_conversation get_conversation check_ceilings check_llm_quota
    count_llm_calls_since spend_since count_recent_messages respond asked_turns trim_to_budget
    list_messages turns_from_history append_message run_agent run_rounds answer_of owner_scope
    record_usage
model_answers = refl
