-- ===== src/Registry/Suffixes.antt =====
-- The suffixes of the bundles of a run's versions (`suffix_for` of backend/registry.py): no two
-- versions share one, and none is that of a signature.
use Prim.Native.Char.{Char, code}
use autonomous_ai_analyst.Base.{
  ℕ, ◌+◌, ◌≤◌, ◌<◌, String, List, [], ◌∷◌, ◌++◌, false, Option, some, ◌≡◌, ◌≢◌, ◌⊎◌, refl, sym, ap,
  ◌∙◌, arith, inl, inr, eqb, Bool-cases, Option-cases, All, select, first, max, eq→==,
}
use autonomous_ai_analyst.Text.{chars, ◌+++◌}
use autonomous_ai_analyst.Text.Laws.{chars-concat, concat_split, concat_cancel_right}
use autonomous_ai_analyst.Table.{descending, All-order_by}
use autonomous_ai_analyst.Versions.{
  ModelVersionRecord, of_run, champion_version, highest_version, next_model_version,
}
use autonomous_ai_analyst.Versions.Champions.{serves}
use autonomous_ai_analyst.Registry.Decimal.{decimal, decimal_injective}
use autonomous_ai_analyst.Registry.Rules.{suffix_for, legacy_suffix, resolve, served}

legacy_apart : (s : String) → legacy_suffix ≢ "_v" +++ s
legacy_apart s e =
    absurd (ground (arith, eq→== "_m" "_v" (concat_split "_m" "_v" "odel.pkl" s refl e).0))

pub suffix_for_injective : (m n : ℕ) → suffix_for m ≡ suffix_for n → m ≡ n
unfolding suffix_for
suffix_for_injective m n e = elim (Bool-cases (eqb m 1)) [
  | inl one ↦ elim (Bool-cases (eqb n 1)) [
    | inl one' ↦ ground (arith, one, one')
    | inr more ↦ absurd (legacy_apart (decimal n +++ legacy_suffix) (ground (arith, e, one, more)))
  ]
  | inr more ↦ elim (Bool-cases (eqb n 1)) [
    | inl one ↦
        absurd (legacy_apart (decimal m +++ legacy_suffix) (sym (ground (arith, e, one, more))))
    | inr more' ↦
        let both : "_v" +++ (decimal m +++ legacy_suffix) ≡ "_v" +++ (decimal n +++ legacy_suffix) =
          ground (arith, e, more, more') in
        decimal_injective m n (
          concat_cancel_right (decimal m) (decimal n) legacy_suffix
            (concat_split "_v" "_v" (decimal m +++ legacy_suffix) (decimal n +++ legacy_suffix) refl
              both).1)
  ]
]

-- The code of the last character.
last_code : ℕ → List Char → ℕ
last_code d [] = d
last_code d (c ∷ cs) = last_code (code c) cs

last_code-append :
    (d : ℕ) (xs ys : List Char) → last_code d (xs ++ ys) ≡ last_code (last_code d xs) ys
unfolding last_code
last_code-append d [] ys = refl
last_code-append d (x ∷ xs) ys = last_code-append (code x) xs ys

last_code-concat :
    (d : ℕ) (s t : String)
    → last_code d (chars (s +++ t)) ≡ last_code (last_code d (chars s)) (chars t)
last_code-concat d s t =
    ap (last_code d) (chars-concat s t) ∙ last_code-append d (chars s) (chars t)

suffix_for-last : (n : ℕ) → last_code 0 (chars (suffix_for n)) ≡ 108
unfolding suffix_for last_code
suffix_for-last n = elim (Bool-cases (eqb n 1)) [
  | inl one ↦ rw one refl
  | inr more ↦ rw more (
      last_code-concat 0 "_v" (decimal n +++ legacy_suffix)
      ∙ last_code-concat (last_code 0 (chars "_v")) (decimal n) legacy_suffix)
]

pub suffix_for-sig : (m n : ℕ) → suffix_for m ≢ suffix_for n +++ ".sig"
unfolding last_code
suffix_for-sig m n e =
    let end : last_code 0 (chars (suffix_for n +++ ".sig")) ≡ 103 =
      last_code-concat 0 (suffix_for n) ".sig" in
    absurd (omega (arith, sym (suffix_for-last m) ∙ ap (λ s. last_code 0 (chars s)) e ∙ end))

-- The row's bundle has the suffix of its version, and versions count from 1.
abbrev pub IsNamed : ModelVersionRecord → Type 0
IsNamed v = (v.artifact_suffix ≡ suffix_for v.version) × (1 ≤ v.version)

-- A version of the run that is named and below the next one.
abbrev IsPast : String → List ModelVersionRecord → ModelVersionRecord → Type 0
IsPast run vs v = IsNamed v × (v.version < next_model_version run vs)

highest-bounds :
    (run : String) (owner : Option String) (h : ℕ) (vs : List ModelVersionRecord)
    → All IsNamed vs
    → highest_version (select (of_run run) vs) ≤ h
    → All (λ v. IsNamed v × (v.version < h + 1)) (select (serves run owner) vs)
highest-bounds run owner h [] named b = tt
highest-bounds run owner h (v ∷ vs) named b = elim (Bool-cases (of_run run v)) [
  | inr other ↦
      let off : serves run owner v ≡ false = ground (arith, other) in
      rw off (highest-bounds run owner h vs named.1 (ground (arith, b, other)))
  | inl mine ↦
      let bound : max v.version (highest_version (select (of_run run) vs)) ≤ h =
        ground (arith, b, mine) in
      let rest = highest-bounds run owner h vs named.1 (omega (arith, bound)) in
      elim (Bool-cases (serves run owner v)) [
        | inl champ ↦ rw champ ((named.0, omega (arith, bound)), rest)
        | inr plain ↦ rw plain rest
      ]
]

first-All :
    (P : ModelVersionRecord → Type 0) (vs : List ModelVersionRecord) {c : ModelVersionRecord}
    → All P vs
    → first vs ≡ some c
    → P c
first-All P [] h e = absurd (ground arith)
first-All P (v ∷ vs) {c} h e = let same : v ≡ c = ground (arith, e) in rw (← same) h.0

pub champion-IsPast :
    (run : String) (owner : Option String) (vs : List ModelVersionRecord) (c : ModelVersionRecord)
    → All IsNamed vs
    → champion_version run owner vs ≡ some c
    → IsNamed c × (c.version < next_model_version run vs)
unfolding champion_version next_model_version
champion-IsPast run owner vs c named e =
    let bounded =
      highest-bounds run owner (highest_version (select (of_run run) vs)) vs named (omega arith) in
    first-All (λ v. IsNamed v × (v.version < highest_version (select (of_run run) vs) + 1)) _
      (All-order_by (descending λ (v : ModelVersionRecord). v.version) _
        (select (serves run owner) vs) bounded)
      e

-- What a run is served has the suffix of a version: of one below its next, or of the first.
pub resolve-suffix :
    (run : String) (owner : Option String) (vs : List ModelVersionRecord)
    → All IsNamed vs
    → (m : ℕ) × ((resolve run owner vs).artifact_suffix ≡ suffix_for m)
      × ((m < next_model_version run vs) ⊎ (m ≡ 1))
unfolding resolve suffix_for
resolve-suffix run owner vs named = elim (Option-cases (champion_version run owner vs)) [
  | inl empty ↦ (1, ap (λ c. (served c).artifact_suffix) empty, inr refl)
  | inr (c, e) ↦
      let ((named_so, _), past) = champion-IsPast run owner vs c named e in
      (c.version, ap (λ c. (served c).artifact_suffix) e ∙ named_so, inl past)
]
