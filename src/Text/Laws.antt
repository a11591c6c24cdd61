-- ===== src/Text/Laws.antt =====
-- Laws of the texts of Text.antt: taking a text apart and putting it together.
use Prim.Native.Char.{Char}
use autonomous_ai_analyst.Base.{
  String, List, [], ◌∷◌, ◌++◌, ◌≡◌, ◌≢◌, refl, ap, arith, length, length-append, sym, ◌∙◌,
}
use autonomous_ai_analyst.Text.{chars, of_chars, ◌+++◌}

pub chars-of_chars : (cs : List Char) → chars (of_chars cs) ≡ cs
chars-of_chars [] = refl
chars-of_chars (c ∷ cs) = ap (◌∷◌ c) (chars-of_chars cs)

pub of_chars-chars : (s : String) → of_chars (chars s) ≡ s
of_chars-chars String.[] = refl
of_chars-chars (String.◌∷◌ c s) = ap (String.◌∷◌ c) (of_chars-chars s)

pub chars_injective : (s t : String) → chars s ≡ chars t → s ≡ t
chars_injective s t e = rw (← of_chars-chars s) (rw e (of_chars-chars t))

pub chars-concat : (s t : String) → chars (s +++ t) ≡ chars s ++ chars t
chars-concat s t = chars-of_chars (chars s ++ chars t)

-- A suffix of at least one character makes another text.
pub concat-ne_self : (s t : String) → length (chars t) ≢ 0 → s +++ t ≢ s
concat-ne_self s t h e =
    let size : length (chars s ++ chars t) ≡ length (chars s) =
      ap length (rw (← chars-concat s t) (ap chars e)) in
    h (omega (arith, length-append (chars s) (chars t)))

append_split :
    (xs ys vs ws : List Char) → length xs ≡ length ys → xs ++ vs ≡ ys ++ ws → (xs ≡ ys) × (vs ≡ ws)
append_split [] [] vs ws n e = (refl, e)
append_split [] (y ∷ ys) vs ws n e = absurd (omega (arith, n))
append_split (x ∷ xs) [] vs ws n e = absurd (omega (arith, n))
append_split (x ∷ xs) (y ∷ ys) vs ws n e =
    let rest = append_split xs ys vs ws (omega (arith, n)) (cc) in
    let same : x ≡ y = cc in (rw same (ap (◌∷◌ y) rest.0), rest.1)

-- Two texts with beginnings of the same size are the same in both parts, or not at all.
pub concat_split :
    (a b s t : String) → length (chars a) ≡ length (chars b) → a +++ s ≡ b +++ t → (a ≡ b) × (s ≡ t)
concat_split a b s t n e =
    let (front, back) =
      append_split (chars a) (chars b) (chars s) (chars t) n
        (sym (chars-concat a s) ∙ ap chars e ∙ chars-concat b t) in
    (chars_injective a b front, chars_injective s t back)

-- Two texts with one ending are the same in front of it, or not at all.
pub concat_cancel_right : (s t u : String) → s +++ u ≡ t +++ u → s ≡ t
concat_cancel_right s t u e =
    let size : length (chars s ++ chars u) ≡ length (chars t ++ chars u) =
      ap length (sym (chars-concat s u) ∙ ap chars e ∙ chars-concat t u) in
    (concat_split s t u u
      (omega (arith, size, length-append (chars s) (chars u), length-append (chars t) (chars u)))
      e).0
