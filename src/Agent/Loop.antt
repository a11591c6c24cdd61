-- ===== src/Agent/Loop.antt =====
-- `run_agent`, `_for_model` and `_empty_answer` of backend/analyst/agent.py. A JSON value stands for
-- its text. The language model, the tools and the length of a JSON dump are parameters.
use autonomous_ai_analyst.Base.{
  ℕ, zero, suc, ◌+◌, String, List, [], ◌∷◌, ◌++◌, map, Bool, true, false, not, Option, none, some,
  ◌==◌, select, eqb, ltb, if◌then◌else◌,
}
use autonomous_ai_analyst.Text.{strip, is_empty, head_chars, elem, ◌+++◌}
use autonomous_ai_analyst.Common.{Json}

pub record ToolCall : Type 0 where
  pub name : String
  pub arguments : Json

pub data Role : Type 0 where
  user assistant tool : Role

pub record Turn : Type 0 where
  pub role : Role
  pub text : String
  pub tool_calls : List ToolCall
  pub tool_name : Option String
  pub tool_result : Option Json

pub record LlmReply : Type 0 where
  pub text : String
  pub tool_calls : List ToolCall
  pub input_tokens : ℕ
  pub output_tokens : ℕ
  pub finish_reason : Option String

pub record AgentStep : Type 0 where
  pub tool : String
  pub arguments : Json
  pub ok : Bool
  pub summary : String
  pub payload : Json

pub record AgentResult : Type 0 where
  pub answer : String
  pub steps : List AgentStep
  pub input_tokens : ℕ
  pub output_tokens : ℕ
  pub stopped_at_step_limit : Bool

-- The local variables of `run_agent`, with `step_number`.
pub record Work : Type 0 where
  pub working : List Turn
  pub steps : List AgentStep
  pub input_tokens : ℕ
  pub output_tokens : ℕ
  pub step_number : ℕ

-- `d.get(key, default)`
abbrev pub get_field : String → String → Json → String
get_field key default [] = default
get_field key default ((k, v) ∷ d) = if k == key then v else get_field key default d

abbrev pub ui_only_keys : List String
ui_only_keys = "figures" ∷ "table" ∷ "matrix" ∷ "execution" ∷ "top_values" ∷ "by_segment" ∷ []

abbrev pub capped_summary : Json → String
capped_summary result = head_chars 4000 (get_field "summary" "" result)

abbrev pub without : List String → Json → Json
without keys = select λ (k, v). not (elem k keys)

-- A literal as such, since it is never empty.
abbrev pub empty_answer : Option String → List AgentStep → String
empty_answer reason (s ∷ steps) =
    "I ran the analysis below but did not produce a written summary. The results are shown above."
empty_answer none [] = "The model returned an empty response. Try rephrasing the question."
empty_answer (some reason) [] =
    if is_empty reason
    then "The model returned an empty response. Try rephrasing the question."
    else "The model returned no readable content (finish reason: " +++ (reason +++ ").")

unfoldable pub answer_of : LlmReply → List AgentStep → String
answer_of reply steps =
    let said = strip reply.text in
    if is_empty said then empty_answer reply.finish_reason steps else said

abbrev pub budget_turn : Turn
budget_turn = record {
  role = user;
  text =
      "You have used the tool budget for this question. Answer now using the results you already have, and say plainly what you could not check.";
  tool_calls = [];
  tool_name = none;
  tool_result = none;
}

abbrev pub is_none_left : {A : Type 0} → List A → Bool
is_none_left [] = true
is_none_left (x ∷ xs) = false

abbrev pub result_of : LlmReply → Bool → Work → AgentResult
result_of reply last_chance w = record {
  answer = answer_of reply w.steps;
  steps = w.steps;
  input_tokens = w.input_tokens;
  output_tokens = w.output_tokens;
  stopped_at_step_limit = if last_chance then not (is_none_left w.steps) else false;
}

-- The reply is counted.
abbrev pub heard : LlmReply → Work → Work
heard reply w = record w {
  input_tokens = w.input_tokens + reply.input_tokens;
  output_tokens = w.output_tokens + reply.output_tokens;
  step_number = suc w.step_number;
}

abbrev pub assistant_turn : LlmReply → Turn
assistant_turn reply = record {
  role = assistant;
  text = reply.text;
  tool_calls = reply.tool_calls;
  tool_name = none;
  tool_result = none;
}

abbrev pub start : List Turn → Work
start turns = record {
  working = turns;
  steps = [];
  input_tokens = 0;
  output_tokens = 0;
  step_number = 0;
}

-- `int(max_steps or settings.agent_max_steps)`
abbrev pub step_limit : Option ℕ → ℕ → ℕ
step_limit none default = default
step_limit (some n) default = if eqb n 0 then default else n

module _ (execute : ToolCall → Json) (dump_length : Json → ℕ) where
  abbrev pub for_model : Json → Json
  for_model result =
      let trimmed = without ui_only_keys result in
      if ltb 4000 (dump_length trimmed)
      then ("ok", get_field "ok" "false" result) ∷ ("summary", capped_summary result) ∷ []
      else trimmed

  abbrev pub step_of : ToolCall → AgentStep
  step_of call =
      let result = execute call in
      record {
        tool = call.name;
        arguments = call.arguments;
        ok = get_field "ok" "false" result == "true";
        summary = capped_summary result;
        payload = without ("ok" ∷ "summary" ∷ "error" ∷ []) result;
      }

  abbrev pub tool_turn : ToolCall → Turn
  tool_turn call = record {
    role = tool;
    text = "";
    tool_calls = [];
    tool_name = some call.name;
    tool_result = some (for_model (execute call));
  }

  -- The reply's calls are run, in order.
  abbrev pub worked : LlmReply → Work → Work
  worked reply w = record w {
    working = w.working ++ assistant_turn reply ∷ map tool_turn reply.tool_calls;
    steps = w.steps ++ map step_of reply.tool_calls;
  }

  module _ (complete : ℕ → List Turn → Bool → LlmReply) where
    -- The rounds that are left before the last chance. Answers the result, and the variables at its end.
    unfoldable pub run_rounds : ℕ → Work → AgentResult × Work
    run_rounds zero w =
        let asked = record w { working = w.working ++ budget_turn ∷ [] } in
        let reply = complete w.step_number asked.working false in
        (result_of reply true (heard reply asked), heard reply asked)
    run_rounds (suc n) w =
        let reply = complete w.step_number w.working true in
        let on = run_rounds n (worked reply (heard reply w)) in
        if is_none_left reply.tool_calls
        then (result_of reply false (heard reply w), heard reply w)
        else on

    unfoldable pub run_agent : List Turn → Option ℕ → ℕ → AgentResult × Work
    unfolding run_rounds
    run_agent turns max_steps agent_max_steps =
        run_rounds (step_limit max_steps agent_max_steps) (start turns)
