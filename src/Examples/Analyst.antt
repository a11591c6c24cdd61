-- ===== src/Examples/Analyst.antt =====
-- The analyst's loop, its trim and the check of a hash at concrete inputs.
use autonomous_ai_analyst.Base.{
  String, ℕ, suc, ◌+◌, ◌≤◌, List, [], ◌∷◌, Bool, true, false, none, some, ◌≡◌, ◌↔◌, ◌⊎◌, refl,
  length, count,
}
use autonomous_ai_analyst.Common.{Json}
use autonomous_ai_analyst.Text.{is_empty, chars, ◌+++◌}
use autonomous_ai_analyst.Http.{ok, raised, bad_dataset_hash}
use autonomous_ai_analyst.Security.{
  validate_dataset_hash, IsHashText, codes, validate_dataset_hash_iff,
}
use autonomous_ai_analyst.Examples.Data.{digest}
use autonomous_ai_analyst.Agent.{ToolCall, Turn, LlmReply, user, step_limit, run_agent}
use autonomous_ai_analyst.Agent.Bounds.{answered, is_tool, run_agent-bounded, run_agent-transcript}
use autonomous_ai_analyst.Agent.Trim.{total_of, trim_to_budget, IsTrimmed, trim_to_budget-IsTrimmed}

-- A model that asks for two tools in every round.
abbrev eager : ℕ → List Turn → Bool → LlmReply
eager n turns offered = record {
  text = "";
  tool_calls =
      record { name = "profile"; arguments = [] } ∷ record { name = "plot"; arguments = [] } ∷ [];
  input_tokens = 3;
  output_tokens = 1;
  finish_reason = none;
}

abbrev answers : ToolCall → Json
answers call = ("ok", "true") ∷ ("summary", call.name) ∷ []

abbrev size : Json → ℕ
size = length

abbrev said : String → Turn
said text = record {
  role = user;
  text = text;
  tool_calls = [];
  tool_name = none;
  tool_result = none;
}

abbrev turns : List Turn
turns = said "hello" ∷ said "again" ∷ []

run_agent-bounded_example :
    ((run_agent answers size eager turns (some 2) 8).1.step_number ≤ suc (step_limit (some 2) 8))
    × (is_empty (run_agent answers size eager turns (some 2) 8).0.answer ≡ false)
run_agent-bounded_example = run_agent-bounded answers size eager turns (some 2) 8

run_agent-transcript_example :
    (answered [] (run_agent answers size eager turns (some 2) 8).1.working ≡ true)
    × (length (run_agent answers size eager turns (some 2) 8).0.steps + count is_tool turns
        ≡ count is_tool (run_agent answers size eager turns (some 2) 8).1.working)
run_agent-transcript_example = run_agent-transcript answers size eager turns (some 2) 8 refl

abbrev budget : ℕ
budget = 4

trim_to_budget-IsTrimmed_example :
    ((trim_to_budget (λ t. 3) turns budget ≡ (turns, false))
      × ((budget ≡ 0) ⊎ (total_of (λ t. 3) turns ≤ budget)))
    ⊎ (((trim_to_budget (λ t. 3) turns budget).1 ≡ true)
        × IsTrimmed (λ t. 3) turns budget (trim_to_budget (λ t. 3) turns budget).0)
trim_to_budget-IsTrimmed_example = trim_to_budget-IsTrimmed (λ t. 3) turns budget

validate_dataset_hash_iff_example :
    ((validate_dataset_hash digest ≡ ok digest) ↔ IsHashText 64 (codes (chars digest)))
    × ((validate_dataset_hash digest ≡ ok digest)
        ⊎ (validate_dataset_hash digest ≡ raised bad_dataset_hash))
validate_dataset_hash_iff_example = validate_dataset_hash_iff digest

-- A line feed after the digits passes the check.
accepts_line_feed : validate_dataset_hash (digest +++ "\n") ≡ ok (digest +++ "\n")
unfolding validate_dataset_hash
accepts_line_feed = refl

refuses_path : validate_dataset_hash "../x" ≡ raised bad_dataset_hash
unfolding validate_dataset_hash
refuses_path = refl
