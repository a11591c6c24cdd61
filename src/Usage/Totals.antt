-- ===== src/Usage/Totals.antt =====
-- What the usage summary (`usage_summary` of backend/db.py) adds up to.
use autonomous_ai_analyst.Base.{
  ℕ, ◌+◌, ◌≤◌, String, List, [], ◌∷◌, Bool, true, false, Option, ◌≡◌, refl, ap, ◌∙◌, ◌==◌, select,
  count, total, length, if◌then◌else◌, arith, Bool-cases, inl, inr, subst, ==→eq, eq→==,
}
use autonomous_ai_analyst.Table.{
  descending, IsOrdered, total-order_by, count-order_by, order_by-descending,
}
use autonomous_ai_analyst.Usage.{UsageRecord}
use autonomous_ai_analyst.Usage.Summary.{
  ModelUsage, UsageSummary, recent_rows, empty_usage, with_call, tally, by_model, most_expensive,
  usage_summary,
}

-- A column of the entries that sums up a column of the rows.
module _ (summed : ModelUsage → ℕ) (column : UsageRecord → ℕ)
    (fresh : (u : UsageRecord) → summed (empty_usage u) ≡ 0)
    (adds : (u : UsageRecord) (e : ModelUsage)
      → (e.model == u.model) ≡ true
      → summed (with_call u e) ≡ summed e + column u) where
  tally-total :
      (u : UsageRecord) (es : List ModelUsage)
      → total summed (tally u es) ≡ total summed es + column u
  unfolding tally
  tally-total u [] = omega (arith, adds u (empty_usage u) (eq→== u.model u.model refl), fresh u)
  tally-total u (e ∷ es) = elim (Bool-cases (e.model == u.model)) [
    | inl same ↦ rw same (omega (arith, adds u e same))
    | inr other ↦ rw other (omega (arith, tally-total u es))
  ]

  by_model-total :
      (rows : List UsageRecord) (es : List ModelUsage)
      → total summed (by_model rows es) ≡ total summed es + total column rows
  unfolding by_model
  by_model-total [] es = omega arith
  by_model-total (u ∷ rows) es = omega (arith, by_model-total rows (tally u es), tally-total u es)

  summary-total :
      (rows : List UsageRecord)
      → total summed (most_expensive (by_model rows [])) ≡ total column rows
  summary-total rows = omega (
    arith,
    by_model-total rows [],
    total-order_by (descending λ (e : ModelUsage). e.estimated_cost) summed (by_model rows []),
  )

-- A column where the row is of one model, and 0 elsewhere.
module _ {A : Type 0} (model_of : A → String) (model : String) where
  abbrev pub only : (A → ℕ) → A → ℕ
  only column a = if model_of a == model then column a else 0

abbrev pub entry_model : ModelUsage → String
entry_model e = e.model

abbrev pub row_model : UsageRecord → String
row_model u = u.model

module _ (model : String) where
  fresh_only :
      (summed : ModelUsage → ℕ)
      → ((u : UsageRecord) → summed (empty_usage u) ≡ 0)
      → (u : UsageRecord) → only entry_model model summed (empty_usage u) ≡ 0
  fresh_only summed fresh u = ground (arith, fresh u)

  adds_only :
      (summed : ModelUsage → ℕ) (column : UsageRecord → ℕ)
      → ((u : UsageRecord) (e : ModelUsage) → summed (with_call u e) ≡ summed e + column u)
      → (u : UsageRecord) (e : ModelUsage) → (e.model == u.model) ≡ true
      → only entry_model model summed (with_call u e)
        ≡ only entry_model model summed e + only row_model model column u
  adds_only summed column adds u e same =
      let together = ap (λ m. m == model) (==→eq e.model u.model same) in
      elim (Bool-cases (u.model == model)) [
        | inl mine ↦ let also = together ∙ mine in rw (mine, also) (adds u e)
        | inr other ↦ let also = together ∙ other in rw (other, also) refl
      ]

  abbrev pub is_of : ModelUsage → Bool
  is_of e = e.model == model

  select_length_head :
      (e f : ModelUsage) (es : List ModelUsage)
      → e.model ≡ f.model
      → count is_of (e ∷ es) ≡ count is_of (f ∷ es)
  select_length_head e f es same =
      ap (λ m. length (if m == model then e ∷ select is_of es else select is_of es)) same
      ∙ ground arith

  tally-other :
      (u : UsageRecord) (es : List ModelUsage)
      → (u.model == model) ≡ false
      → count is_of (tally u es) ≡ count is_of es
  unfolding tally
  tally-other u [] other = rw other refl
  tally-other u (e ∷ es) other = elim (Bool-cases (e.model == u.model)) [
    | inl same ↦ rw same (select_length_head (with_call u e) e es refl)
    | inr apart ↦ rw apart (ground (arith, tally-other u es other))
  ]

  -- No model gets a second entry.
  tally-once :
      (u : UsageRecord) (es : List ModelUsage) → count is_of es ≤ 1 → count is_of (tally u es) ≤ 1
  unfolding tally
  tally-once u [] h = ground arith
  tally-once u (e ∷ es) h = elim (Bool-cases (e.model == u.model)) [
    | inl same ↦ rw same (ground (arith, select_length_head (with_call u e) e es refl))
    | inr apart ↦ elim (Bool-cases (u.model == model)) [
      | inl mine ↦
          let foreign : (e.model == model) ≡ false =
            subst (λ m. (e.model == m) ≡ false) (==→eq u.model model mine) apart in
          rw apart (ground (arith, foreign, tally-once u es (ground (arith, foreign, h))))
      | inr other ↦ rw apart (ground (arith, tally-other u es other))
    ]
  ]

  by_model-once :
      (rows : List UsageRecord) (es : List ModelUsage)
      → count is_of es ≤ 1
      → count is_of (by_model rows es) ≤ 1
  unfolding by_model
  by_model-once [] es h = h
  by_model-once (u ∷ rows) es h = by_model-once rows (tally u es) (tally-once u es h)

abbrev entry_calls : ModelUsage → ℕ
entry_calls e = e.calls

abbrev entry_input : ModelUsage → ℕ
entry_input e = e.input_tokens

abbrev entry_output : ModelUsage → ℕ
entry_output e = e.output_tokens

abbrev entry_cost : ModelUsage → ℕ
entry_cost e = e.estimated_cost

-- The summary is that of a list of rows: its totals, those of the entries, and those of each model.
pub record IsSummary (s : UsageSummary) (rows : List UsageRecord) : Type 0 where
  pub calls : total entry_calls s.by_model ≡ s.calls
  pub input : total entry_input s.by_model ≡ s.input_tokens
  pub output : total entry_output s.by_model ≡ s.output_tokens
  pub cost : total entry_cost s.by_model ≡ s.estimated_cost
  pub all : s.calls ≡ length rows
  pub model_calls :
      (model : String)
      → total (only entry_model model entry_calls) s.by_model
        ≡ total (only row_model model λ u. 1) rows
  pub model_input :
      (model : String)
      → total (only entry_model model entry_input) s.by_model
        ≡ total (only row_model model λ (u : UsageRecord). u.input_tokens) rows
  pub model_output :
      (model : String)
      → total (only entry_model model entry_output) s.by_model
        ≡ total (only row_model model λ (u : UsageRecord). u.output_tokens) rows
  pub model_cost :
      (model : String)
      → total (only entry_model model entry_cost) s.by_model
        ≡ total (only row_model model λ (u : UsageRecord). u.estimated_cost) rows
  pub once : (model : String) → count (is_of model) s.by_model ≤ 1
  pub ordered : IsOrdered (descending entry_cost) s.by_model

total-ones : (rows : List UsageRecord) → total (λ u. 1) rows ≡ length rows
total-ones [] = refl
total-ones (u ∷ rows) = omega (arith, total-ones rows)

-- The calls, tokens and cost of the entries of a usage summary add up to its totals, over all and
-- for each model; each model has one entry, and the most expensive stand first. The calls are those
-- in the window.
pub usage_summary-IsSummary :
    (owner_id : Option String) (since_days now : ℕ) (usage : List UsageRecord)
    → IsSummary
        (usage_summary owner_id since_days now usage)
        (recent_rows owner_id since_days now usage)
unfolding usage_summary
usage_summary-IsSummary owner_id since_days now usage =
    let rows = recent_rows owner_id since_days now usage in
    let cost = λ (u : UsageRecord). u.estimated_cost in
    record {
      calls = summary-total entry_calls (λ u. 1) (λ u. refl) (λ u e h. refl) rows ∙ total-ones rows;
      input =
          summary-total entry_input (λ (u : UsageRecord). u.input_tokens) (λ u. refl)
            (λ u e h. refl) rows;
      output =
          summary-total entry_output (λ (u : UsageRecord). u.output_tokens) (λ u. refl)
            (λ u e h. refl) rows;
      cost = summary-total entry_cost cost (λ u. refl) (λ u e h. refl) rows;
      all = refl;
      model_calls = λ model.
          summary-total (only entry_model model entry_calls) (only row_model model λ u. 1)
            (fresh_only model entry_calls λ u. refl)
            (adds_only model entry_calls (λ u. 1) λ u e. refl) rows;
      model_input = λ model.
          summary-total (only entry_model model entry_input)
            (only row_model model λ (u : UsageRecord). u.input_tokens)
            (fresh_only model entry_input λ u. refl)
            (adds_only model entry_input (λ (u : UsageRecord). u.input_tokens) λ u e. refl) rows;
      model_output = λ model.
          summary-total (only entry_model model entry_output)
            (only row_model model λ (u : UsageRecord). u.output_tokens)
            (fresh_only model entry_output λ u. refl)
            (adds_only model entry_output (λ (u : UsageRecord). u.output_tokens) λ u e. refl) rows;
      model_cost = λ model.
          summary-total (only entry_model model entry_cost) (only row_model model cost)
            (fresh_only model entry_cost λ u. refl) (adds_only model entry_cost cost λ u e. refl)
            rows;
      once = λ model. omega (
        arith,
        count-order_by (descending entry_cost) (is_of model) (by_model rows []),
        by_model-once model rows [] (omega arith),
      );
      ordered = order_by-descending entry_cost (by_model rows []);
    }
