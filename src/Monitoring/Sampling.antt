-- ===== src/Monitoring/Sampling.antt =====
-- Which rows of a batch are logged (`log_prediction_batch` of backend/monitoring.py).
use autonomous_ai_analyst.Base.{
  ℕ, zero, suc, ◌+◌, ◌*◌, ◌/◌, ◌≤◌, ◌<◌, min, List, [], ◌∷◌, map, ◌≡◌, refl, ltb, ltb→lt, length,
  arith, Bool-cases, inl, inr,
}
use autonomous_ai_analyst.Monitoring.Watch.{range_from, positions}

-- Numbers from `low` on and below `total`, each greater than the one before.
abbrev pub IsSpread : ℕ → ℕ → List ℕ → Type 0
IsSpread total low [] = Unit
IsSpread total low (p ∷ ps) = (low ≤ p) × (p < total) × IsSpread total (p + 1) ps

le_quotient : (a c q : ℕ) → 1 ≤ c → c * q ≤ a → q ≤ a / c
le_quotient a c q pos h = grind arith

quotient_lt : (a c q : ℕ) → 1 ≤ c → a < c * q → a / c < q
quotient_lt a c q pos h = grind arith

-- From one index to the next the quotient grows by at least 1 if there are more rows than indices.
module _ (total cap : ℕ) (some_cap : 1 ≤ cap) (more : cap < total) where
  position_step : (index : ℕ) → (index * total) / cap + 1 ≤ ((index + 1) * total) / cap
  position_step index =
      le_quotient ((index + 1) * total) cap ((index * total) / cap + 1) some_cap (omega arith)

  position_below : (index : ℕ) → index < cap → (index * total) / cap < total
  position_below index h = quotient_lt (index * total) cap total some_cap (grind arith)

  sampled-IsSpread :
      (start n low : ℕ)
      → start + n ≤ cap
      → low ≤ (start * total) / cap
      → IsSpread total low (map (λ index. (index * total) / cap) (range_from start n))
  sampled-IsSpread start zero low h k = tt
  sampled-IsSpread start (suc n) low h k = (
    k,
    position_below start (omega arith),
    sampled-IsSpread (start + 1) n ((start * total) / cap + 1) (omega arith) (position_step start),
  )

range_from-IsSpread :
    (total start n low : ℕ)
    → start + n ≤ total
    → low ≤ start
    → IsSpread total low (range_from start n)
range_from-IsSpread total start zero low h k = tt
range_from-IsSpread total start (suc n) low h k = (
  k,
  omega arith,
  range_from-IsSpread total (start + 1) n (start + 1) (omega arith) (omega arith),
)

pub positions-IsSpread : (total cap : ℕ) → 1 ≤ cap → IsSpread total 0 (positions total cap)
unfolding positions
positions-IsSpread total cap some_cap = elim (Bool-cases (ltb cap total)) [
  | inl more ↦ rw more (
      sampled-IsSpread total cap some_cap (ltb→lt cap total more) 0 cap 0 (omega arith)
        (omega arith))
  | inr all ↦ rw all (range_from-IsSpread total 0 total 0 (omega arith) (omega arith))
]

length-range_from : (start n : ℕ) → length (range_from start n) ≡ n
length-range_from start zero = refl
length-range_from start (suc n) = omega (arith, length-range_from (start + 1) n)

length-map_position : (f : ℕ → ℕ) (ns : List ℕ) → length (map f ns) ≡ length ns
length-map_position f [] = refl
length-map_position f (n ∷ ns) = omega (arith, length-map_position f ns)

pub length-positions : (total cap : ℕ) → length (positions total cap) ≡ min total cap
unfolding positions
length-positions total cap = elim (Bool-cases (ltb cap total)) [
  | inl more ↦ rw more (
      omega (
        arith,
        ltb→lt cap total more,
        length-range_from 0 cap,
        length-map_position (λ index. (index * total) / cap) (range_from 0 cap),
      ))
  | inr all ↦ rw all (ground (arith, length-range_from 0 total))
]

-- Of `n` rows that are logged, the one with index `i` is the row at `i / n` of the batch.
abbrev pub IsEven : ℕ → ℕ → ℕ → List ℕ → Type 0
IsEven total n index [] = Unit
IsEven total n index (p ∷ ps) =
    (n * p ≤ index * total) × (index * total < n * (p + 1)) × IsEven total n (index + 1) ps

sampled-IsEven :
    (total cap start n : ℕ)
    → 1 ≤ cap
    → IsEven total cap start (map (λ index. (index * total) / cap) (range_from start n))
sampled-IsEven total cap start zero pos = tt
sampled-IsEven total cap start (suc n) pos =
    (omega arith, omega arith, sampled-IsEven total cap (start + 1) n pos)

range_from-IsEven : (total start n : ℕ) → 1 ≤ total → IsEven total total start (range_from start n)
range_from-IsEven total start zero pos = tt
range_from-IsEven total start (suc n) pos =
    (omega arith, omega arith, range_from-IsEven total (start + 1) n pos)

every_row : (total : ℕ) → IsEven total total 0 (range_from 0 total)
every_row zero = tt
every_row (suc n) = range_from-IsEven (suc n) 0 (suc n) (omega arith)

pub positions-IsEven :
    (total cap : ℕ) → 1 ≤ cap → IsEven total (min total cap) 0 (positions total cap)
unfolding positions
positions-IsEven total cap some_cap = elim (Bool-cases (ltb cap total)) [
  | inl more ↦
      let fewer : min total cap ≡ cap = omega (arith, ltb→lt cap total more) in
      rw (fewer, more) (sampled-IsEven total cap 0 cap some_cap)
  | inr all ↦ let whole : min total cap ≡ total = ground arith in rw (whole, all) (every_row total)
]
