-- ===== src/Registry/Decimal.antt =====
-- The decimal text of a number (`f"{version}"`), and that it determines the number.
use Prim.Native.Char.{Char, code}
use mathlib.Core.List.{reverse, reverse-reverse}
use autonomous_ai_analyst.Base.{
  ℕ, zero, suc, ◌+◌, ◌*◌, ◌/◌, ◌%◌, ◌<◌, ◌≤◌, ◌-◌, List, [], ◌∷◌, String, ◌≡◌, refl, sym, ap, ◌∙◌,
  arith, eqb, if◌then◌else◌, Bool-cases, true, false, inl, inr,
}
use autonomous_ai_analyst.Text.{chars, of_chars}
use autonomous_ai_analyst.Text.Laws.{chars-of_chars}

abbrev digit : ℕ → Char
digit zero = "0"
digit (suc zero) = "1"
digit (suc (suc zero)) = "2"
digit (suc (suc (suc zero))) = "3"
digit (suc (suc (suc (suc zero)))) = "4"
digit (suc (suc (suc (suc (suc zero))))) = "5"
digit (suc (suc (suc (suc (suc (suc zero)))))) = "6"
digit (suc (suc (suc (suc (suc (suc (suc zero))))))) = "7"
digit (suc (suc (suc (suc (suc (suc (suc (suc zero)))))))) = "8"
digit (suc (suc (suc (suc (suc (suc (suc (suc (suc _))))))))) = "9"

-- The digits from the last to the first. A number has no more digits than itself plus one.
digits : ℕ → ℕ → List Char
digits zero n = []
digits (suc fuel) n =
    let rest = digits fuel (n / 10) in digit (n % 10) ∷ (if eqb (n / 10) 0 then [] else rest)

abbrev digit_value : Char → ℕ
digit_value c = code c - 48

value : List Char → ℕ
value [] = 0
value (c ∷ cs) = digit_value c + 10 * value cs

digit_value-digit : (n : ℕ) → n < 10 → digit_value (digit n) ≡ n
digit_value-digit zero h = refl
digit_value-digit (suc zero) h = refl
digit_value-digit (suc (suc zero)) h = refl
digit_value-digit (suc (suc (suc zero))) h = refl
digit_value-digit (suc (suc (suc (suc zero)))) h = refl
digit_value-digit (suc (suc (suc (suc (suc zero))))) h = refl
digit_value-digit (suc (suc (suc (suc (suc (suc zero)))))) h = refl
digit_value-digit (suc (suc (suc (suc (suc (suc (suc zero))))))) h = refl
digit_value-digit (suc (suc (suc (suc (suc (suc (suc (suc zero)))))))) h = refl
digit_value-digit (suc (suc (suc (suc (suc (suc (suc (suc (suc n))))))))) h = omega arith

small_quotient : (n : ℕ) → eqb (n / 10) 0 ≡ true → n / 10 ≡ 0
small_quotient n h = ground arith

large_quotient : (n : ℕ) → eqb (n / 10) 0 ≡ false → 1 ≤ n / 10
large_quotient n h = ground arith

value-digits : (fuel n : ℕ) → n < fuel → value (digits fuel n) ≡ n
unfolding digits value
value-digits zero n h = absurd (omega arith)
value-digits (suc fuel) n h = elim (Bool-cases (eqb (n / 10) 0)) [
  | inl small ↦
      rw small (omega (arith, digit_value-digit (n % 10) (omega arith), small_quotient n small))
  | inr more ↦ rw more (
      omega (
        arith,
        digit_value-digit (n % 10) (omega arith),
        value-digits fuel (n / 10) (omega (arith, large_quotient n more)),
      ))
]

unfoldable pub decimal : ℕ → String
unfolding digits
decimal n = of_chars (reverse (digits (suc n) n))

read : String → ℕ
read s = value (reverse (chars s))

read-decimal : (n : ℕ) → read (decimal n) ≡ n
unfolding read decimal
read-decimal n =
    ap (λ cs. value (reverse cs)) (chars-of_chars (reverse (digits (suc n) n)))
    ∙ ap value (reverse-reverse (digits (suc n) n))
    ∙ value-digits (suc n) n (omega arith)

pub decimal_injective : (m n : ℕ) → decimal m ≡ decimal n → m ≡ n
decimal_injective m n e = sym (read-decimal m) ∙ ap read e ∙ read-decimal n
