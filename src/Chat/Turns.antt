-- ===== src/Chat/Turns.antt =====
-- A question as it is sent, its answer, and the turns that a conversation is replayed as
-- (backend/routes/chat.py). The model, the tools, the costs, the ids that are drawn and the JSON form of
-- a step are arguments.
use autonomous_ai_analyst.Base.{
  ℕ, String, List, [], ◌∷◌, ◌++◌, map, Bool, Option, none, some, ◌==◌, if◌then◌else◌,
}
use autonomous_ai_analyst.Text.{is_empty, head_chars, join, ◌+++◌}
use autonomous_ai_analyst.Common.{Json}
use autonomous_ai_analyst.Http.{Result, raised, no_run_key}
use autonomous_ai_analyst.Security.{validate_dataset_hash}
use autonomous_ai_analyst.Conversations.{MessageRecord, Chats}
use autonomous_ai_analyst.Agent.Loop.{
  ToolCall, Turn, user, assistant, LlmReply, AgentStep, get_field,
}

pub record ChatRequest : Type 0 where
  pub run_key : Option String
  pub dataset_hash : Option String
  pub query : String
  pub conversation_id : Option String

-- `fails` says where a call of the provider raises; `draw_id` is the id of the next message.
pub record World : Type 0 where
  pub provider : Option (String × String)
  pub fails : List Turn → Bool
  pub complete : ℕ → List Turn → Bool → LlmReply
  pub execute : ToolCall → Json
  pub dump_length : Json → ℕ
  pub turn_cost : Turn → ℕ
  pub step_json : AgentStep → Json
  pub estimate : String → ℕ → ℕ → ℕ
  pub size_of : String → ℕ
  pub agent_max_steps : ℕ
  pub chat_max_messages_per_hour : ℕ
  pub chat_token_budget : ℕ
  pub new_id : String
  pub draw_id : Chats → ℕ

-- `a or b` of two texts that may be missing.
abbrev pub or_else : Option String → Option String → Option String
or_else none b = b
or_else (some a) b = if is_empty a then b else some a

abbrev pub checked_key : Option String → Result String
checked_key none = raised no_run_key
checked_key (some key) = if is_empty key then raised no_run_key else validate_dataset_hash key

unfoldable pub resolved_key : ChatRequest → Result String
resolved_key req = checked_key (or_else req.run_key req.dataset_hash)

abbrev pub plain_turn : String → Turn
plain_turn text = record {
  role = user;
  text = text;
  tool_calls = [];
  tool_name = none;
  tool_result = none;
}

-- A user's turn.
abbrev pub asking : String → Turn
asking text = plain_turn text

abbrev pub shown_step : Json → String
shown_step step =
    get_field "tool" "None" step +++ (": " +++ head_chars 200 (get_field "summary" "" step))

abbrev pub recalled : String → List Json → String
recalled content [] = content
recalled content (step ∷ steps) =
    content
    +++ ("\n\n(Tools used previously — " +++ (join "; " (map shown_step (step ∷ steps)) +++ ")"))

abbrev pub turns_of : MessageRecord → List Turn
turns_of m =
    if m.role == "user"
    then asking m.content ∷ []
    else if m.role == "assistant"
    then record (plain_turn (recalled m.content m.steps)) { role = assistant } ∷ []
    else []

-- `_turns_from_history`
unfoldable pub turns_from_history : List MessageRecord → List Turn
turns_from_history [] = []
turns_from_history (m ∷ messages) = turns_of m ++ turns_from_history messages

pub record ChatReply : Type 0 where
  pub run_key : String
  pub conversation_id : String
  pub query : String
  pub answer : String
  pub llm_enabled : Bool
  pub steps : List AgentStep
  pub input_tokens : ℕ
  pub output_tokens : ℕ
  pub stopped_at_step_limit : Bool
  pub history_trimmed : Bool
  pub estimated_cost : ℕ
