-- ===== src/Retraining/Names.antt =====
-- Names of bundle files: those of a run's next version are apart from those of its earlier ones and
-- of other runs' (`_write_bundle` of backend/retraining.py).
use autonomous_ai_analyst.Base.{
  ℕ, ◌<◌, String, ◌==◌, ◌≡◌, ◌≢◌, false, sym, arith, inl, inr, length, Bool-cases, ==→eq,
}
use autonomous_ai_analyst.Text.{◌+++◌, chars}
use autonomous_ai_analyst.Text.Laws.{concat-ne_self, concat_split, concat_cancel_right}
use autonomous_ai_analyst.Registry.{suffix_for}
use autonomous_ai_analyst.Registry.Suffixes.{suffix_for_injective, suffix_for-sig}

pub apart : (s : String) → (s == s +++ "x") ≡ false
apart s = elim (Bool-cases (s == s +++ "x")) [
  | inl same ↦
      absurd
        (concat-ne_self s "x" (λ h. absurd (omega (arith, h))) (sym (==→eq s (s +++ "x") same)))
  | inr other ↦ other
]

pub differ : (s t : String) → s ≢ t → (s == t) ≡ false
differ s t h = elim (Bool-cases (s == t)) [
  | inl same ↦ absurd (h (==→eq s t same))
  | inr other ↦ other
]

-- The files of the next version are apart from those that are served.
pub names_apart :
    (run_key any : String) (n m : ℕ)
    → ((run_key ≡ any) → m < n)
    → length (chars run_key) ≡ length (chars any)
    → ((run_key +++ suffix_for n) ≢ (any +++ suffix_for m))
      × ((run_key +++ (suffix_for n +++ ".sig")) ≢ (any +++ suffix_for m))
      × ((run_key +++ suffix_for n) ≢ (any +++ (suffix_for m +++ ".sig")))
      × ((run_key +++ (suffix_for n +++ ".sig")) ≢ (any +++ (suffix_for m +++ ".sig")))
names_apart run_key any n m past sized = (
  (λ e.
      let both = concat_split run_key any (suffix_for n) (suffix_for m) sized e in
      absurd (omega (arith, past both.0, suffix_for_injective n m both.1))),
  (λ e. suffix_for-sig m n (sym (concat_split run_key any _ _ sized e).1)),
  (λ e. suffix_for-sig n m (concat_split run_key any _ _ sized e).1),
  (λ e.
      let both =
        concat_split run_key any (suffix_for n +++ ".sig") (suffix_for m +++ ".sig") sized e in
      let same = concat_cancel_right (suffix_for n) (suffix_for m) ".sig" both.1 in
      absurd (omega (arith, past both.0, suffix_for_injective n m same))),
)
