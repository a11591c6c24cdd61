-- ===== src/Predictions/Stats.antt =====
-- `prediction_stats` and `_percentile` of backend/db.py. A day is a number of days since the epoch, and
-- a fraction is in hundredths.
use autonomous_ai_analyst.Base.{
  ℕ, ◌+◌, ◌-◌, ◌*◌, ◌/◌, min, String, List, [], ◌∷◌, map, Bool, ◌&&◌, Option, none, some, ◌==◌, eqb,
  select, first, get_elem?, length, if◌then◌else◌,
}
use autonomous_ai_analyst.Text.{is_empty}
use autonomous_ai_analyst.Common.{owned_by}
use autonomous_ai_analyst.Table.{order_by, ascending}
use autonomous_ai_analyst.Predictions.{PredictionRecord, not_before}

pub record PredictionStats : Type 0 where
  pub count : ℕ
  pub first_at : Option ℕ
  pub last_at : Option ℕ
  pub p50 : Option ℕ
  pub p95 : Option ℕ
  pub slowest : Option ℕ
  pub per_day : List (ℕ × ℕ)
  pub versions : List (String × ℕ)

-- `counts[key] = counts.get(key, 0) + 1`
unfoldable pub bump : {K : Type 0} → (K → K → Bool) → K → List (K × ℕ) → List (K × ℕ)
bump same key [] = (key, 1) ∷ []
bump same key ((k, n) ∷ counts) =
    if same k key then (k, n + 1) ∷ counts else (k, n) ∷ bump same key counts

unfoldable pub counted :
    {A K : Type 0} → (K → K → Bool) → (A → K) → List A → List (K × ℕ) → List (K × ℕ)
counted same key [] counts = counts
counted same key (a ∷ rows) counts = counted same key rows (bump same (key a) counts)

-- `math.ceil(fraction * n)`
abbrev pub rank : ℕ → ℕ → ℕ
rank percent n = (percent * n + 99) / 100

-- `_percentile`
unfoldable pub percentile : List ℕ → ℕ → Option ℕ
percentile [] percent = none
percentile (x ∷ xs) percent =
    let n = length (x ∷ xs) in get_elem? (x ∷ xs) (min (n - 1) (rank percent n - 1))

abbrev pub sorted : List ℕ → List ℕ
sorted = order_by (ascending λ n. n)

abbrev last_of : List ℕ → Option ℕ
last_of ns = get_elem? ns (length ns - 1)

-- `row.model_version or "unversioned"`
abbrev pub version_name : Option String → String
version_name none = "unversioned"
version_name (some version) = if is_empty version then "unversioned" else version

abbrev pub day_of : PredictionRecord → ℕ
day_of p = p.created_at / 86400

abbrev pub latency : PredictionRecord → ℕ
latency p = p.latency_ms

abbrev created : PredictionRecord → ℕ
created p = p.created_at

abbrev pub version_of : PredictionRecord → String
version_of p = version_name p.model_version

abbrev pub day : ℕ × ℕ → ℕ
day (d, n) = d

abbrev pub stats_of : List PredictionRecord → PredictionStats
stats_of [] = record {
  count = 0;
  first_at = none;
  last_at = none;
  p50 = none;
  p95 = none;
  slowest = none;
  per_day = [];
  versions = [];
}
stats_of (p ∷ ps) =
    let rows = p ∷ ps in
    let latencies = sorted (map latency rows) in
    let timestamps = sorted (map created rows) in
    record {
      count = length rows;
      first_at = first timestamps;
      last_at = last_of timestamps;
      p50 = percentile latencies 50;
      p95 = percentile latencies 95;
      slowest = last_of latencies;
      per_day = order_by (ascending day) (counted eqb day_of rows []);
      versions = counted ◌==◌ version_of rows [];
    }

abbrev pub in_window : String → Option String → Option ℕ → PredictionRecord → Bool
in_window run_key owner_id since p =
    (p.run_key == run_key) && owned_by owner_id p.owner_id && not_before since p.created_at

unfoldable pub prediction_stats :
    String → Option String → Option ℕ → List PredictionRecord → PredictionStats
prediction_stats run_key owner_id since log =
    stats_of (select (in_window run_key owner_id since) log)
