-- ===== src/Usage/Summary.antt =====
-- `usage_summary` of backend/db.py: tokens and costs in total and for each model.
use autonomous_ai_analyst.Base.{
  ℕ, ◌+◌, ◌-◌, String, List, [], ◌∷◌, Bool, ◌&&◌, Option, ◌==◌, leb, select, total, length,
  if◌then◌else◌,
}
use autonomous_ai_analyst.Common.{days, owned_by}
use autonomous_ai_analyst.Table.{order_by, descending}
use autonomous_ai_analyst.Usage.{UsageRecord}

pub record ModelUsage : Type 0 where
  pub model : String
  pub provider : String
  pub calls : ℕ
  pub input_tokens : ℕ
  pub output_tokens : ℕ
  pub estimated_cost : ℕ

pub record UsageSummary : Type 0 where
  pub window_days : ℕ
  pub calls : ℕ
  pub input_tokens : ℕ
  pub output_tokens : ℕ
  pub estimated_cost : ℕ
  pub by_model : List ModelUsage

abbrev recent : Option String → ℕ → UsageRecord → Bool
recent owner_id cutoff u = leb cutoff u.created_at && owned_by owner_id u.owner_id

abbrev pub recent_rows : Option String → ℕ → ℕ → List UsageRecord → List UsageRecord
recent_rows owner_id since_days now = select (recent owner_id (now - days since_days))

-- What `setdefault` puts in.
abbrev pub empty_usage : UsageRecord → ModelUsage
empty_usage u = record {
  model = u.model;
  provider = u.provider;
  calls = 0;
  input_tokens = 0;
  output_tokens = 0;
  estimated_cost = 0;
}

abbrev pub with_call : UsageRecord → ModelUsage → ModelUsage
with_call u entry = record entry {
  calls = entry.calls + 1;
  input_tokens = entry.input_tokens + u.input_tokens;
  output_tokens = entry.output_tokens + u.output_tokens;
  estimated_cost = entry.estimated_cost + u.estimated_cost;
}

-- One row, in the entry of its model.
unfoldable pub tally : UsageRecord → List ModelUsage → List ModelUsage
tally u [] = with_call u (empty_usage u) ∷ []
tally u (entry ∷ entries) =
    if entry.model == u.model then with_call u entry ∷ entries else entry ∷ tally u entries

unfoldable pub by_model : List UsageRecord → List ModelUsage → List ModelUsage
by_model [] entries = entries
by_model (u ∷ rows) entries = by_model rows (tally u entries)

abbrev pub most_expensive : List ModelUsage → List ModelUsage
most_expensive = order_by (descending λ (e : ModelUsage). e.estimated_cost)

unfoldable pub usage_summary : Option String → ℕ → ℕ → List UsageRecord → UsageSummary
usage_summary owner_id since_days now usage =
    let rows = recent_rows owner_id since_days now usage in
    record {
      window_days = since_days;
      calls = length rows;
      input_tokens = total (λ (u : UsageRecord). u.input_tokens) rows;
      output_tokens = total (λ (u : UsageRecord). u.output_tokens) rows;
      estimated_cost = total (λ (u : UsageRecord). u.estimated_cost) rows;
      by_model = most_expensive (by_model rows []);
    }
