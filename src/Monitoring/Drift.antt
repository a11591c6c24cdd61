-- ===== src/Monitoring/Drift.antt =====
-- The comparison of what a model is asked with what it was trained on: `compare` of
-- backend/ml/drift.py and the functions it calls. A PSI and a rate are in millionths. What pandas and
-- numpy measure on a logged column is `Values`; of an entry, the rates, the vectors and the text of
-- its detail are left out.
use autonomous_ai_analyst.Base.{
  ℕ, String, List, [], ◌∷◌, map, Bool, true, false, not, ◌&&◌, ◌||◌, Option, none, some, eqb, ltb,
  leb, if◌then◌else◌, select, take, length,
}
use autonomous_ai_analyst.Text.{◌+++◌, join}
use autonomous_ai_analyst.Table.{order_by}

pub data Verdict : Type 0 where
  stable : Verdict
  moderate : Verdict
  material : Verdict
  insufficient : Verdict
  unavailable : Verdict

abbrev moderate_threshold : ℕ
moderate_threshold = 100000

abbrev material_threshold : ℕ
material_threshold = 250000

-- `_verdict`
unfoldable pub verdict : ℕ → Verdict
verdict psi =
    if leb material_threshold psi
    then material
    else if leb moderate_threshold psi
    then moderate
    else stable

-- `_SEVERITY`
unfoldable pub severity : Verdict → ℕ
severity stable = 0
severity unavailable = 0
severity insufficient = 0
severity moderate = 1
severity material = 2

abbrev pub worse : Verdict → Verdict → Verdict
worse best v = if ltb (severity best) (severity v) then v else best

-- `max` returns the first of the greatest.
abbrev pub worst_from : Verdict → List Verdict → Verdict
worst_from best [] = best
worst_from best (v ∷ vs) = worst_from (worse best v) vs

-- `_worst`
unfoldable pub worst : List Verdict → Verdict
worst [] = stable
worst (v ∷ vs) = worst_from v vs

-- What the training left of a column: the edges of its bins and its constant, as text, or its
-- categories.
pub data Spec : Type 0 where
  numeric : ℕ → Option String → Spec
  categorical : ℕ → Spec

pub record Reference : Type 0 where
  pub columns : List (String × Spec)

-- A logged column: how many of its values are there as numbers and as texts, whether the numbers are
-- all close to a constant, the PSI against the reference, and what was never seen in training.
pub record Values : Type 0 where
  pub numbers : ℕ
  pub close_to : String → Bool
  pub texts : ℕ
  pub psi : ℕ
  pub unseen_labels : ℕ
  pub unseen_rate : ℕ

pub record Frame : Type 0 where
  pub rows : ℕ
  pub column : String → Option Values

pub record Entry : Type 0 where
  pub column : String
  pub psi : Option ℕ
  pub verdict : Verdict

abbrev unmeasured : String → Verdict → Entry
unmeasured name v = record { column = name; psi = none; verdict = v }

-- Whether a column that was constant at training time no longer is.
abbrev constant_moved : Option String → Values → Bool
constant_moved none values = not (eqb values.numbers 0)
constant_moved (some constant) values = not (eqb values.numbers 0) && not (values.close_to constant)

-- `_compare_numeric`
unfoldable pub compare_numeric : String → ℕ → Option String → Values → Entry
compare_numeric name edges constant values =
    if ltb edges 2
    then unmeasured name (if constant_moved constant values then material else stable)
    else if eqb values.numbers 0
    then unmeasured name unavailable
    else record { column = name; psi = some values.psi; verdict = verdict values.psi }

abbrev is_stable : Verdict → Bool
is_stable stable = true
is_stable v = false

-- A category that is new raises a stable verdict.
abbrev escalated : Values → Verdict
escalated values =
    let v = verdict values.psi in
    if ltb 0 values.unseen_labels && leb 50000 values.unseen_rate && is_stable v
    then moderate
    else v

-- `_compare_categorical`
unfoldable pub compare_categorical : String → ℕ → Values → Entry
compare_categorical name categories values =
    if eqb categories 0 || eqb values.texts 0
    then unmeasured name unavailable
    else record { column = name; psi = some values.psi; verdict = escalated values }

-- `_compare_column`
unfoldable pub compare_column : Frame → String × Spec → Entry
compare_column frame (name, spec) = elim (frame.column name) [
  | none ↦ unmeasured name unavailable
  | some values ↦ elim spec [
    | numeric edges constant ↦ compare_numeric name edges constant values
    | categorical categories ↦ compare_categorical name categories values
  ]
]

pub record DriftReport : Type 0 where
  pub status : Verdict
  pub reason : String
  pub rows_compared : ℕ
  pub columns : List Entry

abbrev pub is_measured : Entry → Bool
is_measured e = elim e.psi [ none ↦ false | some psi ↦ true ]

abbrev pub has_moved : Entry → Bool
has_moved e = elim e.verdict [ moderate ↦ true | material ↦ true | _ ↦ false ]

abbrev pub entry_verdict : Entry → Verdict
entry_verdict e = e.verdict

abbrev pub entry_column : Entry → String
entry_column e = e.column

abbrev moved_columns : List Entry → List String
moved_columns entries = map entry_column (select has_moved entries)

-- `sorted(columns, key=(psi is None, -(psi or 0.0)))`
abbrev pub psi_first : Option ℕ → Option ℕ → Bool
psi_first (some a) (some b) = leb b a
psi_first (some a) none = true
psi_first none (some b) = false
psi_first none none = true

abbrev pub worst_first : Entry → Entry → Bool
worst_first x y = psi_first x.psi y.psi

-- `show` is the decimal text of a number.
module _ (show : ℕ → String) where
  abbrev shown : List String → String
  shown moved = join ", " (take 5 moved) +++ (if ltb 5 (length moved) then ", …" else "")

  -- `_explain`
  unfoldable pub explain : Verdict → List Entry → String
  explain status entries =
      let moved = moved_columns entries in
      elim status [
        | stable ↦
            "All "
            +++ show (length entries)
            +++ " comparable feature(s) are within the stable band (PSI < 0.1)."
        | material ↦
            show (length moved)
            +++ " feature(s) have moved materially since training ("
            +++ shown moved
            +++ "). Predictions are still being served; this is a reason to check them, not evidence that they are wrong."
        | _ ↦
            show (length moved)
            +++ " feature(s) have moved moderately since training ("
            +++ shown moved
            +++ ")."
      ]

  abbrev no_reference : Frame → DriftReport
  no_reference frame = record {
    status = unavailable;
    reason =
        "This run has no reference distribution to compare against. It was trained before prediction monitoring existed and its chart payloads could not be read as one; re-train it to enable drift detection.";
    rows_compared = frame.rows;
    columns = [];
  }

  abbrev too_few : ℕ → ℕ → String
  too_few rows min_rows =
      show rows
      +++ (if eqb rows 1 then " prediction logged; " else " predictions logged; ")
      +++ show min_rows
      +++ " are needed before a distribution comparison means anything."

  abbrev pub judge_measured : List Entry → Verdict × String
  judge_measured [] = (unavailable, "None of the reference columns appeared in the logged inputs.")
  judge_measured (e ∷ es) =
      let status = worst (map entry_verdict (e ∷ es)) in (status, explain status (e ∷ es))

  -- The status and its reason.
  abbrev pub judged : ℕ → ℕ → List Entry → Verdict × String
  judged rows min_rows measured =
      if ltb rows min_rows then (insufficient, too_few rows min_rows) else judge_measured measured

  abbrev pub report_on : ℕ → ℕ → List Entry → DriftReport
  report_on rows min_rows entries =
      let (status, reason) = judged rows min_rows (select is_measured entries) in
      record {
        status = status;
        reason = reason;
        rows_compared = rows;
        columns = order_by worst_first entries;
      }

  abbrev pub compare_with : Frame → ℕ → List (String × Spec) → DriftReport
  compare_with frame min_rows [] = no_reference frame
  compare_with frame min_rows (c ∷ cs) =
      report_on frame.rows min_rows (map (compare_column frame) (c ∷ cs))

  unfoldable pub compare : Option Reference → Frame → ℕ → DriftReport
  compare none frame min_rows = no_reference frame
  compare (some reference) frame min_rows = compare_with frame min_rows reference.columns
