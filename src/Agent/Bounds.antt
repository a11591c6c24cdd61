-- ===== src/Agent/Bounds.antt =====
-- What the analyst's loop guarantees for every language model and all tools
-- (backend/analyst/agent.py).
use autonomous_ai_analyst.Base.{
  ℕ, zero, suc, ◌+◌, ◌≤◌, String, List, [], ◌∷◌, ◌++◌, map, Bool, true, false, not, ◌&&◌, Option,
  none, some, ◌==◌, ◌≡◌, refl, arith, eq_iff, Bool-cases, inl, inr, length, length-append, count,
  count-append,
}
use autonomous_ai_analyst.Text.{strip, is_empty}
use autonomous_ai_analyst.Common.{Json}
use autonomous_ai_analyst.Agent.Loop.{
  ToolCall, user, assistant, tool, Turn, LlmReply, AgentStep, Work, empty_answer, answer_of,
  budget_turn, is_none_left, heard, step_of, tool_turn, assistant_turn, worked, run_rounds, start,
  step_limit, run_agent,
}

empty_answer-said :
    (reason : Option String) (steps : List AgentStep) → is_empty (empty_answer reason steps) ≡ false
empty_answer-said reason (s ∷ steps) = refl
empty_answer-said none [] = refl
empty_answer-said (some reason) [] = elim (Bool-cases (is_empty reason)) [
  | inl e ↦ rw e refl
  | inr e ↦ rw e refl
]

answer_of-said :
    (reply : LlmReply) (steps : List AgentStep) → is_empty (answer_of reply steps) ≡ false
unfolding answer_of
answer_of-said reply steps = elim (Bool-cases (is_empty (strip reply.text))) [
  | inl e ↦ rw e (empty_answer-said reply.finish_reason steps)
  | inr e ↦ rw e e
]

-- The turns are a conversation in which these calls, and then those of each turn, are answered by one
-- tool turn each, in order and by name, and no other tool turn occurs.
abbrev pub is_tool : Turn → Bool
is_tool t = elim t.role [ tool ↦ true | user ↦ false | assistant ↦ false ]

abbrev pub names : Turn → ToolCall → Bool
names t call = elim t.tool_name [ none ↦ false | some n ↦ n == call.name ]

abbrev pub answered : List ToolCall → List Turn → Bool
answered [] [] = true
answered (c ∷ calls) [] = false
answered [] (t ∷ turns) = not (is_tool t) && answered t.tool_calls turns
answered (c ∷ calls) (t ∷ turns) = is_tool t && names t c && answered calls turns

answered-append :
    (calls : List ToolCall) (xs ys : List Turn)
    → answered calls xs ≡ true
    → answered [] ys ≡ true
    → answered calls (xs ++ ys) ≡ true
answered-append [] [] ys h k = k
answered-append (c ∷ calls) [] ys h k = cc
answered-append [] (x ∷ xs) ys h k = ground (arith, answered-append x.tool_calls xs ys)
answered-append (c ∷ calls) (x ∷ xs) ys h k = ground (arith, answered-append calls xs ys)

module _ (execute : ToolCall → Json) (dump_length : Json → ℕ)
    (complete : ℕ → List Turn → Bool → LlmReply) where
  rounds-Bounded :
      (n : ℕ) (w : Work)
      → ((run_rounds execute dump_length complete n w).1.step_number ≤ w.step_number + suc n)
        × (is_empty (run_rounds execute dump_length complete n w).0.answer ≡ false)
  unfolding run_rounds
  rounds-Bounded zero w = (
    omega arith,
    answer_of-said (complete w.step_number (w.working ++ budget_turn ∷ []) false) w.steps,
  )
  rounds-Bounded (suc n) w =
      let reply = complete w.step_number w.working true in
      let (b, said) = rounds-Bounded n (worked execute dump_length reply (heard reply w)) in
      elim (Bool-cases (is_none_left reply.tool_calls)) [
        | inl done ↦ rw done (omega arith, answer_of-said reply w.steps)
        | inr more ↦ rw more (omega (arith, b), said)
      ]

  calls-answered :
      (calls : List ToolCall) → answered calls (map (tool_turn execute dump_length) calls) ≡ true
  calls-answered [] = refl
  calls-answered (c ∷ calls) = ground (arith, eq_iff c.name c.name, calls-answered calls)

  calls-count :
      (calls : List ToolCall)
      → count is_tool (map (tool_turn execute dump_length) calls)
        ≡ length (map (step_of execute dump_length) calls)
  calls-count [] = refl
  calls-count (c ∷ calls) = ground (arith, calls-count calls)

  worked-answered :
      (reply : LlmReply) (w : Work)
      → answered [] w.working ≡ true
      → answered [] (worked execute dump_length reply w).working ≡ true
  worked-answered reply w h =
      answered-append [] w.working
        (assistant_turn reply ∷ map (tool_turn execute dump_length) reply.tool_calls) h
        (calls-answered reply.tool_calls)

  -- Each tool turn beyond the first `n` stands for one step.
  abbrev IsLogged : ℕ → Work → Type 0
  IsLogged n w = length w.steps + n ≡ count is_tool w.working

  worked-IsLogged :
      (n : ℕ) (reply : LlmReply) (w : Work)
      → IsLogged n w
      → IsLogged n (worked execute dump_length reply w)
  worked-IsLogged n reply w h = omega (
    arith,
    h,
    length-append w.steps (map (step_of execute dump_length) reply.tool_calls),
    count-append is_tool w.working
        (assistant_turn reply ∷ map (tool_turn execute dump_length) reply.tool_calls),
    count-assistant reply (map (tool_turn execute dump_length) reply.tool_calls),
    calls-count reply.tool_calls,
  )
    where
      count-assistant :
          (r : LlmReply) (ts : List Turn) → count is_tool (assistant_turn r ∷ ts) ≡ count is_tool ts
      count-assistant r ts = refl

  count-budget : count is_tool (budget_turn ∷ []) ≡ 0
  count-budget = refl

  rounds-transcript :
      (tools n : ℕ) (w : Work)
      → answered [] w.working ≡ true
      → IsLogged tools w
      → (answered [] (run_rounds execute dump_length complete n w).1.working ≡ true)
        × IsLogged tools (run_rounds execute dump_length complete n w).1
        × ((run_rounds execute dump_length complete n w).0.steps
            ≡ (run_rounds execute dump_length complete n w).1.steps)
  unfolding run_rounds
  rounds-transcript tools zero w h l = (
    answered-append [] w.working (budget_turn ∷ []) h refl,
    omega (arith, l, count-append is_tool w.working (budget_turn ∷ []), count-budget),
    refl,
  )
  rounds-transcript tools (suc n) w h l =
      let reply = complete w.step_number w.working true in
      let w' = worked execute dump_length reply (heard reply w) in
      let later =
        rounds-transcript tools n w' (worked-answered reply (heard reply w) h)
          (worked-IsLogged tools reply (heard reply w) l) in
      elim (Bool-cases (is_none_left reply.tool_calls)) [
        | inl done ↦ rw done (h, l, refl)
        | inr more ↦ rw more later
      ]

-- Whatever the model replies and the tools do, a question is answered by a text that is not empty,
-- after at most one more call of the model than the limit on the rounds with tools.
pub run_agent-bounded :
    (execute : ToolCall → Json) (dump_length : Json → ℕ)
    (complete : ℕ → List Turn → Bool → LlmReply) (turns : List Turn) (max_steps : Option ℕ)
    (agent_max_steps : ℕ)
    → ((run_agent execute dump_length complete turns max_steps agent_max_steps).1.step_number
        ≤ suc (step_limit max_steps agent_max_steps))
      × (is_empty (run_agent execute dump_length complete turns max_steps agent_max_steps).0.answer
          ≡ false)
unfolding run_agent
run_agent-bounded execute dump_length complete turns max_steps agent_max_steps =
    let (b, said) =
      rounds-Bounded execute dump_length complete (step_limit max_steps agent_max_steps)
        (start turns) in
    (omega (arith, b), said)

-- If the conversation that a question starts from answers each tool call by one tool turn, in order,
-- so does the one that the loop builds, and the steps reported are as many as the tool turns it added.
pub run_agent-transcript :
    (execute : ToolCall → Json) (dump_length : Json → ℕ)
    (complete : ℕ → List Turn → Bool → LlmReply) (turns : List Turn) (max_steps : Option ℕ)
    (agent_max_steps : ℕ)
    → answered [] turns ≡ true
    → (answered []
          (run_agent execute dump_length complete turns max_steps agent_max_steps).1.working
        ≡ true)
      × (length (run_agent execute dump_length complete turns max_steps agent_max_steps).0.steps
            + count is_tool turns
          ≡ count is_tool
              (run_agent execute dump_length complete turns max_steps agent_max_steps).1.working)
unfolding run_agent
run_agent-transcript execute dump_length complete turns max_steps agent_max_steps h =
    let (ok_after, logged, same) =
      rounds-transcript execute dump_length complete (count is_tool turns)
        (step_limit max_steps agent_max_steps) (start turns) h (omega arith) in
    (ok_after, rw same logged)
