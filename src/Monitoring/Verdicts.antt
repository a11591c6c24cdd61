-- ===== src/Monitoring/Verdicts.antt =====
-- What the verdict of a comparison says (`compare` of backend/ml/drift.py).
use autonomous_ai_analyst.Base.{
  ℕ, max, String, List, [], ◌∷◌, map, Option, none, some, ◌≡◌, refl, sym, ◌∙◌, ltb, ltb→lt,
  greatest, Option-cases, if◌then◌else◌, select, arith, Bool-cases, inl, inr,
}
use autonomous_ai_analyst.Table.{greatest-order_by}
use autonomous_ai_analyst.Monitoring.Drift.{
  Verdict, severity, worse, worst_from, worst, Reference, Spec, Frame, Entry, is_measured,
  entry_verdict, worst_first, judge_measured, report_on, compare_with, compare, compare_column,
}

-- What an entry counts for: nothing where no PSI was measured.
abbrev pub counted : Entry → ℕ
counted e = elim e.psi [ none ↦ 0 | some psi ↦ severity e.verdict ]

severity-worse : (a b : Verdict) → severity (worse a b) ≡ max (severity a) (severity b)
severity-worse a b = elim (Bool-cases (ltb (severity a) (severity b))) [
  | inl less ↦ rw less (omega (arith, ltb→lt (severity a) (severity b) less))
  | inr more ↦ rw more (ground arith)
]

severity-worst_from :
    (best : Verdict) (vs : List Verdict)
    → severity (worst_from best vs) ≡ max (severity best) (greatest severity vs)
severity-worst_from best [] = omega arith
severity-worst_from best (v ∷ vs) =
    omega (arith, severity-worst_from (worse best v) vs, severity-worse best v)

severity-worst : (vs : List Verdict) → severity (worst vs) ≡ greatest severity vs
unfolding worst severity
severity-worst [] = refl
severity-worst (v ∷ vs) = severity-worst_from v vs

select-greatest :
    (es : List Entry)
    → greatest severity (map entry_verdict (select is_measured es)) ≡ greatest counted es
select-greatest [] = refl
select-greatest (e ∷ es) = elim (Option-cases e.psi) [
  | inl absent ↦ rw absent (ground (arith, select-greatest es))
  | inr (psi, there) ↦ rw there (ground (arith, select-greatest es))
]

judge_measured-severity :
    (show : ℕ → String) (es : List Entry)
    → severity (judge_measured show es).0 ≡ greatest severity (map entry_verdict es)
unfolding severity
judge_measured-severity show [] = refl
judge_measured-severity show (e ∷ es) = severity-worst (map entry_verdict (e ∷ es))

-- What a report's status and columns have to do with each other.
abbrev pub expected : ℕ → ℕ → List Entry → ℕ
expected rows min_rows columns = if ltb rows min_rows then 0 else greatest counted columns

report_on-severity :
    (show : ℕ → String) (rows min_rows : ℕ) (entries : List Entry)
    → severity (report_on show rows min_rows entries).status
      ≡ expected rows min_rows (report_on show rows min_rows entries).columns
unfolding severity
report_on-severity show rows min_rows entries = elim (Bool-cases (ltb rows min_rows)) [
  | inl few ↦ rw few refl
  | inr enough ↦ rw enough (
      judge_measured-severity show (select is_measured entries)
      ∙ select-greatest entries
      ∙ sym (greatest-order_by worst_first counted entries))
]

compare_with-severity :
    (show : ℕ → String) (frame : Frame) (min_rows : ℕ) (columns : List (String × Spec))
    → severity (compare_with show frame min_rows columns).status
      ≡ expected frame.rows min_rows (compare_with show frame min_rows columns).columns
unfolding severity
compare_with-severity show frame min_rows [] = ground arith
compare_with-severity show frame min_rows (c ∷ cs) =
    report_on-severity show frame.rows min_rows (map (compare_column frame) (c ∷ cs))

-- The severity of a comparison is 0 with fewer rows than are needed, and else that of the worst
-- column whose PSI was measured.
pub compare-severity :
    (show : ℕ → String) (reference : Option Reference) (frame : Frame) (min_rows : ℕ)
    → severity (compare show reference frame min_rows).status
      ≡ expected frame.rows min_rows (compare show reference frame min_rows).columns
unfolding compare severity
compare-severity show none frame min_rows = compare_with-severity show frame min_rows []
compare-severity show (some reference) frame min_rows =
    compare_with-severity show frame min_rows reference.columns
