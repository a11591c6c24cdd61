-- ===== src/Registry/Margin.antt =====
-- When a challenger is enough better: `better` of backend/registry.py.
use autonomous_ai_analyst.Base.{
  ℕ, ◌*◌, ◌≤◌, ◌<◌, String, Bool, true, false, some, ◌≡◌, ◌↔◌, arith, Bool-cases, inl, inr,
  if◌then◌else◌, ltb, ltb→lt, lt→ltb,
}
use autonomous_ai_analyst.Base.Int.{ℤ, ◌-ℤ◌, abs, pos_part, ◌<ℤ◌}
use autonomous_ai_analyst.Text.{elem}
use autonomous_ai_analyst.Registry.Rules.{better, lower_is_better_metrics, margin_unit}

-- Strictly better on the metric, in the direction in which the metric improves.
abbrev pub IsBetter : String → ℤ → ℤ → Type 0
IsBetter metric challenger champion =
    if elem metric lower_is_better_metrics then challenger <ℤ champion else champion <ℤ challenger

-- The part of a difference that can clear a margin is positive exactly if the difference is.
gain-pos : (h c : ℤ) → 0 < pos_part (h -ℤ c) → c <ℤ h
unfolding ◌-ℤ◌
gain-pos h c e = ground arith

pos-gain : (h c : ℤ) → c <ℤ h → 0 < pos_part (h -ℤ c)
unfolding ◌-ℤ◌
pos-gain h c e = ground arith

no_gain : (h c : ℤ) → c <ℤ h → pos_part (c -ℤ h) ≡ 0
unfolding ◌-ℤ◌
no_gain h c e = ground arith

abbrev clears : ℤ → ℕ → ℤ → Bool
clears champion margin improvement =
    ltb (abs champion * margin) (pos_part improvement * margin_unit)

clears-pos : (h : ℤ) (margin : ℕ) (d : ℤ) → clears h margin d ≡ true → 0 < pos_part d
clears-pos h margin d e = ground arith

clears_less :
    (h d : ℤ) (small large : ℕ) → small ≤ large → clears h large d ≡ true → clears h small d ≡ true
clears_less h d small large le e = grind (arith, ltb→lt, lt→ltb)

clears_none : (h : ℤ) (margin : ℕ) (d : ℤ) → pos_part d ≡ 0 → clears h margin d ≡ false
clears_none h margin d e = ground arith

clears_zero : (h d : ℤ) → 0 < pos_part d → clears h 0 d ≡ true
clears_zero h d e = ground arith

-- A challenger that clears a margin clears every smaller one, is strictly better in the metric's
-- direction, and could not be replaced in turn by the champion that it beat, at any such margin.
pub better_margin :
    (metric : String) (challenger champion : ℤ) (small large : ℕ)
    → small ≤ large
    → (better metric (some challenger) (some champion) large).promote ≡ true
    → ((better metric (some challenger) (some champion) small).promote ≡ true)
      × IsBetter metric challenger champion
      × ((better metric (some champion) (some challenger) small).promote ≡ false)
unfolding better
better_margin metric c h small large le e =
    elim (Bool-cases (elem metric lower_is_better_metrics)) [
      | inl lower ↦
          let e' : clears h large (h -ℤ c) ≡ true = rw lower at e in
          let beats = gain-pos h c (clears-pos h large (h -ℤ c) e') in
          rw lower (
            clears_less h (h -ℤ c) small large le e',
            beats,
            clears_none c small (c -ℤ h) (no_gain h c beats),
          )
      | inr higher ↦
          let e' : clears h large (c -ℤ h) ≡ true = rw higher at e in
          let beats = gain-pos c h (clears-pos h large (c -ℤ h) e') in
          rw higher (
            clears_less h (c -ℤ h) small large le e',
            beats,
            clears_none c small (h -ℤ c) (no_gain c h beats),
          )
    ]

-- With no margin a challenger is promoted exactly if it is strictly better in the metric's direction.
pub better_zero :
    (metric : String) (challenger champion : ℤ)
    → ((better metric (some challenger) (some champion) 0).promote ≡ true)
      ↔ IsBetter metric challenger champion
unfolding better
better_zero metric c h = elim (Bool-cases (elem metric lower_is_better_metrics)) [
  | inl lower ↦
      rw lower (
        λ e. gain-pos h c (clears-pos h 0 (h -ℤ c) e),
        λ b. clears_zero h (h -ℤ c) (pos-gain h c b),
      )
  | inr higher ↦
      rw higher (
        λ e. gain-pos c h (clears-pos h 0 (c -ℤ h) e),
        λ b. clears_zero h (c -ℤ h) (pos-gain c h b),
      )
]
