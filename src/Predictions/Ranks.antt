-- ===== src/Predictions/Ranks.antt =====
-- What the statistics of the prediction log say (`prediction_stats` of backend/db.py).
use autonomous_ai_analyst.Base.{
  ℕ, zero, suc, ◌+◌, ◌-◌, ◌*◌, ◌≤◌, ◌<◌, min, String, List, [], ◌∷◌, map, Bool, true, Option, none,
  some, ◌≡◌, ◌/◌, subst, refl, ap, ◌∙◌, ◌==◌, eqb, leb, ==→eq, ltb, select, count, total, get_elem?,
  length, All, arith, Bool-cases, inl, inr, ◌⊎◌, if◌then◌else◌,
}
use autonomous_ai_analyst.Table.{
  ascending, IsOrdered, order_by-ascending, length-order_by, count-order_by, total-order_by,
}
use autonomous_ai_analyst.Predictions.{PredictionRecord}
use autonomous_ai_analyst.Predictions.Stats.{
  PredictionStats, bump, counted, rank, percentile, sorted, day_of, day, latency, version_of,
  stats_of, in_window, prediction_stats,
}

abbrev same_number : ℕ → ℕ
same_number n = n

none_below : (v : ℕ) (ys : List ℕ) → All (λ y. leb v y ≡ true) ys → count (λ y. ltb y v) ys ≡ 0
none_below v [] h = refl
none_below v (y ∷ ys) h = ground (arith, h.0, none_below v ys h.1)

All-get_elem? :
    (y v : ℕ) (ys : List ℕ) (i : ℕ) → All (λ z. leb y z ≡ true) ys → get_elem? ys i ≡ some v → y ≤ v
All-get_elem? y v [] i h e = absurd (ground arith)
All-get_elem? y v (z ∷ ys) zero h e = ground (arith, h.0)
All-get_elem? y v (z ∷ ys) (suc i) h e = All-get_elem? y v ys i h.1 e

-- In an ordered list, i + 1 items are at most the item at i, and at most i are less.
ranked :
    (ys : List ℕ) (i v : ℕ)
    → IsOrdered (ascending same_number) ys
    → get_elem? ys i ≡ some v
    → (i + 1 ≤ count (λ y. leb y v) ys) × (count (λ y. ltb y v) ys ≤ i)
ranked [] i v d e = absurd (ground arith)
ranked (y ∷ ys) zero v d e =
    let same : y ≡ v = ground (arith, e) in
    subst (λ w. (1 ≤ count (λ y. leb y w) (y ∷ ys)) × (count (λ y. ltb y w) (y ∷ ys) ≤ 0)) same
      (ground (arith, none_below y ys d.0))
ranked (y ∷ ys) (suc i) v d e =
    let below = All-get_elem? y v ys i d.0 e in
    let (most, least) = ranked ys i v d.1 e in
    (ground (arith, below, most), ground (arith, below, least))

get_elem?-some : (ys : List ℕ) (i : ℕ) → i < length ys → (v : ℕ) × (get_elem? ys i ≡ some v)
get_elem?-some [] i h = absurd (omega arith)
get_elem?-some (y ∷ ys) zero h = (y, refl)
get_elem?-some (y ∷ ys) (suc i) h = get_elem?-some ys i (omega arith)

-- `v` is the nearest rank: at least the share of the items is at most `v`, and less than it is below.
pub record IsPercentile (ns : List ℕ) (percent v : ℕ) : Type 0 where
  pub at_most : percent * length ns ≤ 100 * count (λ n. leb n v) ns
  pub below : 100 * count (λ n. ltb n v) ns < percent * length ns

percentile-ordered :
    (y : ℕ) (ys : List ℕ) (percent : ℕ)
    → 1 ≤ percent
    → percent ≤ 100
    → IsOrdered (ascending same_number) (y ∷ ys)
    → (v : ℕ) × (percentile (y ∷ ys) percent ≡ some v) × IsPercentile (y ∷ ys) percent v
unfolding percentile
percentile-ordered y ys percent low high d =
    let n = length (y ∷ ys) in
    let most : percent * n ≤ 100 * n = grind arith in
    let least : n ≤ percent * n = grind arith in
    let i = min (n - 1) (rank percent n - 1) in
    let place : i + 1 ≡ rank percent n = omega (arith, most, least) in
    let (v, there) = get_elem?-some (y ∷ ys) i (omega (arith, most, least)) in
    let (more, less) = ranked (y ∷ ys) i v d there in
    (
      v,
      there,
      record { at_most = omega (arith, place, more); below = omega (arith, place, less, least) },
    )

percentile-rearranged :
    (ms ns : List ℕ) (percent : ℕ)
    → 1 ≤ percent
    → percent ≤ 100
    → 1 ≤ length ns
    → length ms ≡ length ns
    → ((p : ℕ → Bool) → count p ms ≡ count p ns)
    → IsOrdered (ascending same_number) ms
    → (v : ℕ) × (percentile ms percent ≡ some v) × IsPercentile ns percent v
percentile-rearranged [] ns percent low high more size same d = absurd (omega arith)
percentile-rearranged (m ∷ ms) ns percent low high more size same d =
    let (v, found, is) = percentile-ordered m ms percent low high d in
    (
      v,
      found,
      record {
        at_most =
            subst (λ k. percent * k ≤ 100 * count (λ n. leb n v) ns) size
              (subst (λ k. percent * length (m ∷ ms) ≤ 100 * k) (same λ n. leb n v) is.at_most);
        below =
            subst (λ k. 100 * count (λ n. ltb n v) ns < percent * k) size
              (subst (λ k. 100 * k < percent * length (m ∷ ms)) (same λ n. ltb n v) is.below);
      },
    )

sorted-IsPercentile :
    (ns : List ℕ) (percent : ℕ)
    → 1 ≤ percent
    → percent ≤ 100
    → 1 ≤ length ns
    → (v : ℕ) × (percentile (sorted ns) percent ≡ some v) × IsPercentile ns percent v
sorted-IsPercentile ns percent low high more =
    percentile-rearranged (sorted ns) ns percent low high more
      (length-order_by (ascending same_number) ns)
      (λ p. count-order_by (ascending same_number) p ns) (order_by-ascending same_number ns)

bump-total :
    {K : Type 0} (same : K → K → Bool) (key : K) (counts : List (K × ℕ))
    → total (λ (k, n). n) (bump same key counts) ≡ total (λ (k, n). n) counts + 1
unfolding bump
bump-total same key [] = refl
bump-total same key ((k, n) ∷ counts) = elim (Bool-cases (same k key)) [
  | inl found ↦ rw found (omega arith)
  | inr other ↦ rw other (omega (arith, bump-total same key counts))
]

counted-total :
    {A K : Type 0} (same : K → K → Bool) (key : A → K) (rows : List A) (counts : List (K × ℕ))
    → total (λ (k, n). n) (counted same key rows counts) ≡ total (λ (k, n). n) counts + length rows
unfolding counted
counted-total same key [] counts = omega arith
counted-total same key (a ∷ rows) counts =
    omega (
      arith,
      counted-total same key rows (bump same (key a) counts),
      bump-total same (key a) counts,
    )

-- What is counted under one name.
abbrev pub under : String → String × ℕ → ℕ
under name (k, n) = if k == name then n else 0

bump-under :
    (name key : String) (counts : List (String × ℕ))
    → total (under name) (bump ◌==◌ key counts)
      ≡ total (under name) counts + (if key == name then 1 else 0)
unfolding bump
bump-under name key [] = omega arith
bump-under name key ((k, n) ∷ counts) = elim (Bool-cases (k == key)) [
  | inl found ↦
      let together = ap (λ s. s == name) (==→eq k key found) in
      rw found (elim (Bool-cases (key == name)) [
        | inl mine ↦ let also = together ∙ mine in rw (mine, also) (omega arith)
        | inr other ↦ let also = together ∙ other in rw (other, also) (omega arith)
      ])
  | inr other ↦ rw other (omega (arith, bump-under name key counts))
]

counted-under :
    {A : Type 0} (name : String) (key : A → String) (rows : List A) (counts : List (String × ℕ))
    → total (under name) (counted ◌==◌ key rows counts)
      ≡ total (under name) counts + count (λ a. key a == name) rows
unfolding counted
counted-under name key [] counts = omega arith
counted-under name key (a ∷ rows) counts =
    ground (
      arith,
      counted-under name key rows (bump ◌==◌ (key a) counts),
      bump-under name (key a) counts,
    )

-- What is counted on one day.
abbrev pub on_day : ℕ → ℕ × ℕ → ℕ
on_day d (k, n) = if eqb k d then n else 0

bump-on_day :
    (d key : ℕ) (counts : List (ℕ × ℕ))
    → total (on_day d) (bump eqb key counts)
      ≡ total (on_day d) counts + (if eqb key d then 1 else 0)
unfolding bump
bump-on_day d key [] = omega arith
bump-on_day d key ((k, n) ∷ counts) = ground (arith, bump-on_day d key counts)

counted-on_day :
    (d : ℕ) (rows : List PredictionRecord) (counts : List (ℕ × ℕ))
    → total (on_day d) (counted eqb day_of rows counts)
      ≡ total (on_day d) counts
        + count (λ (p : PredictionRecord). eqb (p.created_at / 86400) d) rows
unfolding counted
counted-on_day d [] counts = omega arith
counted-on_day d (p ∷ rows) counts =
    ground
      (arith, counted-on_day d rows (bump eqb (day_of p) counts), bump-on_day d (day_of p) counts)

-- The statistics are those of a list of rows.
pub record IsStatsOf (stats : PredictionStats) (rows : List PredictionRecord) : Type 0 where
  pub all : stats.count ≡ length rows
  pub days : total (λ (d, n). n) stats.per_day ≡ length rows
  pub each_day :
      (d : ℕ)
      → total (on_day d) stats.per_day
        ≡ count (λ (p : PredictionRecord). eqb (p.created_at / 86400) d) rows
  pub in_order : IsOrdered (ascending day) stats.per_day
  pub models : total (λ (v, n). n) stats.versions ≡ length rows
  pub model :
      (name : String) → total (under name) stats.versions ≡ count (λ p. version_of p == name) rows
  pub median :
      ((rows ≡ []) × (stats.p50 ≡ none))
      ⊎ ((v : ℕ) × (stats.p50 ≡ some v) × IsPercentile (map latency rows) 50 v)
  pub tail :
      ((rows ≡ []) × (stats.p95 ≡ none))
      ⊎ ((v : ℕ) × (stats.p95 ≡ some v) × IsPercentile (map latency rows) 95 v)

stats_of-IsStatsOf : (rows : List PredictionRecord) → IsStatsOf (stats_of rows) rows
stats_of-IsStatsOf [] = record {
  all = refl;
  days = refl;
  each_day = λ d. refl;
  in_order = tt;
  models = refl;
  model = λ name. refl;
  median = inl (refl, refl);
  tail = inl (refl, refl);
}
stats_of-IsStatsOf (p ∷ ps) =
    let rows = p ∷ ps in
    record {
      all = refl;
      days = omega (
        arith,
        total-order_by (ascending day) (λ (d, n). n) (counted eqb day_of rows []),
        counted-total eqb day_of rows [],
      );
      each_day = λ d. omega (
        arith,
        total-order_by (ascending day) (on_day d) (counted eqb day_of rows []),
        counted-on_day d rows [],
      );
      in_order = order_by-ascending day (counted eqb day_of rows []);
      models = omega (arith, counted-total ◌==◌ version_of rows []);
      model = λ name. omega (arith, counted-under name version_of rows []);
      median =
          inr (sorted-IsPercentile (map latency rows) 50 (omega arith) (omega arith) (omega arith));
      tail =
          inr (sorted-IsPercentile (map latency rows) 95 (omega arith) (omega arith) (omega arith));
    }

-- The statistics count each row of the window once, under the day of its creation and under its
-- version, and their latencies are nearest ranks: half of the rows, and 95 of 100, were served within
-- them, and no smaller number of milliseconds would do.
pub prediction_stats-IsStatsOf :
    (run_key : String) (owner_id : Option String) (since : Option ℕ) (log : List PredictionRecord)
    → IsStatsOf
        (prediction_stats run_key owner_id since log)
        (select (in_window run_key owner_id since) log)
unfolding prediction_stats
prediction_stats-IsStatsOf run_key owner_id since log =
    stats_of-IsStatsOf (select (in_window run_key owner_id since) log)
