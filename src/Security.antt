-- ===== src/Security.antt =====
-- The check on what becomes a file name: `DATASET_HASH_RE` and `validate_dataset_hash` of
-- backend/utils/security.py.
use Prim.Native.Char.{Char, code}
use mathlib.Core.List.{append-nil}
use autonomous_ai_analyst.Base.{
  ℕ, zero, suc, String, List, [], ◌∷◌, ◌++◌, Bool, true, false, ◌&&◌, ◌||◌, ◌≡◌, ◌↔◌, ◌⊎◌, refl, ap,
  inl, inr, arith, eqb, leb, length, All, sym, subst, ◌∙◌, Bool-cases, if◌then◌else◌,
}
use autonomous_ai_analyst.Text.{chars}
use autonomous_ai_analyst.Http.{Result, ok, raised, bad_dataset_hash}

-- `[a-f0-9]`
abbrev pub is_hex : ℕ → Bool
is_hex c = (leb 97 c && leb c 102) || (leb 48 c && leb c 57)

-- `$` without `re.MULTILINE`: at the end, and before a line feed at the end.
abbrev pub at_end : List ℕ → Bool
at_end [] = true
at_end (c ∷ []) = eqb c 10
at_end (c ∷ d ∷ cs) = false

-- `^[a-f0-9]{n}$`
abbrev pub hex_then_end : ℕ → List ℕ → Bool
hex_then_end zero cs = at_end cs
hex_then_end (suc n) [] = false
hex_then_end (suc n) (c ∷ cs) = is_hex c && hex_then_end n cs

-- The code points of a text.
abbrev pub codes : List Char → List ℕ
codes [] = []
codes (c ∷ cs) = code c ∷ codes cs

unfoldable pub validate_dataset_hash : String → Result String
validate_dataset_hash dataset_hash =
    if hex_then_end 64 (codes (chars dataset_hash))
    then ok dataset_hash
    else raised bad_dataset_hash

-- A hash as it may be: digits, then nothing or one line feed.
abbrev pub IsHashText : ℕ → List ℕ → Type 0
IsHashText n cs =
    (digits : List ℕ) × All (λ c. is_hex c ≡ true) digits
    × (length digits ≡ n)
    × ((cs ≡ digits) ⊎ (cs ≡ digits ++ 10 ∷ []))

end-IsHashText : (cs : List ℕ) → at_end cs ≡ true → IsHashText 0 cs
end-IsHashText [] e = ([], tt, refl, inl refl)
end-IsHashText (c ∷ []) e = ([], tt, refl, inr (ground (arith)))
end-IsHashText (c ∷ d ∷ cs) e = cc

hex-IsHashText : (n : ℕ) (cs : List ℕ) → hex_then_end n cs ≡ true → IsHashText n cs
hex-IsHashText zero cs e = end-IsHashText cs e
hex-IsHashText (suc n) [] e = cc
hex-IsHashText (suc n) (c ∷ cs) e =
    let (digits, all, len, shape) = hex-IsHashText n cs (ground (arith)) in
    (
      c ∷ digits,
      (ground (arith), all),
      ap suc len,
      elim shape [ inl same ↦ inl (ap (◌∷◌ c) same) | inr more ↦ inr (ap (◌∷◌ c) more) ],
    )

digits-accepted :
    (n : ℕ) (digits tail : List ℕ)
    → All (λ c. is_hex c ≡ true) digits
    → length digits ≡ n
    → at_end tail ≡ true
    → hex_then_end n (digits ++ tail) ≡ true
digits-accepted zero [] tail h e t = t
digits-accepted zero (c ∷ digits) tail h e t = absurd (omega arith)
digits-accepted (suc n) [] tail h e t = absurd (omega arith)
digits-accepted (suc n) (c ∷ digits) tail h e t =
    ground (arith, h.0, digits-accepted n digits tail h.1 (omega arith) t)

hash-accepted : (n : ℕ) (cs : List ℕ) → IsHashText n cs → hex_then_end n cs ≡ true
hash-accepted n cs (digits, all, len, shape) = elim shape [
  | inl same ↦
      subst (λ t. hex_then_end n t ≡ true) (append-nil digits ∙ sym same)
        (digits-accepted n digits [] all len refl)
  | inr more ↦
      subst (λ t. hex_then_end n t ≡ true) (sym more)
        (digits-accepted n digits (10 ∷ []) all len refl)
]

-- What can become a file name: the texts accepted are 64 lowercase hexadecimal digits, alone or with
-- one line feed after them, and are passed on as they are; all others are refused.
pub validate_dataset_hash_iff :
    (dataset_hash : String)
    → ((validate_dataset_hash dataset_hash ≡ ok dataset_hash)
        ↔ IsHashText 64 (codes (chars dataset_hash)))
      × ((validate_dataset_hash dataset_hash ≡ ok dataset_hash)
          ⊎ (validate_dataset_hash dataset_hash ≡ raised bad_dataset_hash))
unfolding validate_dataset_hash
validate_dataset_hash_iff s = elim (Bool-cases (hex_then_end 64 (codes (chars s)))) [
  | inl accepted ↦ (
    (λ e. hex-IsHashText 64 (codes (chars s)) accepted, λ h. ground (arith)),
    inl (ground (arith)),
  )
  | inr refused ↦ (
    (
      λ e. absurd (ground (arith)),
      λ h. absurd (ground (arith, hash-accepted 64 (codes (chars s)) h)),
    ),
    inr (ground (arith)),
  )
]
