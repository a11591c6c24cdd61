-- ===== src/Usage.antt =====
-- Billable model calls: `UsageRecord`, `record_usage`, `count_llm_calls_since` and `spend_since` of
-- backend/db.py. A cost is in millionths of a dollar.
pub mod Summary
pub mod Totals
use autonomous_ai_analyst.Base.{
  ℕ, ◌+◌, String, List, [], ◌∷◌, ◌++◌, Bool, ◌&&◌, Option, ◌==◌, leb, select, count,
}

pub record UsageRecord : Type 0 where
  pub owner_id : String
  pub run_key : Option String
  pub conversation_id : Option String
  pub provider : String
  pub model : String
  pub input_tokens : ℕ
  pub output_tokens : ℕ
  pub estimated_cost : ℕ
  pub created_at : ℕ

abbrev pub used_since : String → ℕ → UsageRecord → Bool
used_since owner_id since u = (u.owner_id == owner_id) && leb since u.created_at

unfoldable pub record_usage : UsageRecord → List UsageRecord → List UsageRecord
record_usage row usage = usage ++ row ∷ []

unfoldable pub count_llm_calls_since : String → ℕ → List UsageRecord → ℕ
count_llm_calls_since owner_id since = count (used_since owner_id since)

abbrev pub total_cost : List UsageRecord → ℕ
total_cost [] = 0
total_cost (u ∷ us) = u.estimated_cost + total_cost us

unfoldable pub spend_since : String → ℕ → List UsageRecord → ℕ
spend_since owner_id since usage = total_cost (select (used_since owner_id since) usage)
