-- ===== src/Text.antt =====
-- Python's text methods that the program uses: `strip`, `split(",")`, `join`, membership and slices
-- of a text, on the native texts taken apart into their characters. `lower` is Unicode's and not
-- modelled here: where the program folds case it is an argument.
pub mod Laws
use Prim.Native.Char.{Char, code}
use autonomous_ai_analyst.Base.{
  ℕ, String, List, [], ◌∷◌, ◌++◌, Bool, true, false, ◌||◌, ◌&&◌, leb, eqb, take, ◌==◌,
  if◌then◌else◌,
}
use mathlib.Core.List.{reverse}

abbrev pub chars : String → List Char
chars String.[] = []
chars (String.◌∷◌ c s) = c ∷ chars s

abbrev pub of_chars : List Char → String
of_chars [] = String.[]
of_chars (c ∷ cs) = String.◌∷◌ c (of_chars cs)

-- `str.isspace` of one character.
abbrev pub is_space : Char → Bool
is_space c =
    let n = code c in
    (leb 9 n && leb n 13)
    || (leb 28 n && leb n 32)
    || eqb n 133
    || eqb n 160
    || eqb n 5760
    || (leb 8192 n && leb n 8202)
    || eqb n 8232
    || eqb n 8233
    || eqb n 8239
    || eqb n 8287
    || eqb n 12288

abbrev lstrip : List Char → List Char
lstrip [] = []
lstrip (c ∷ cs) = let rest = lstrip cs in if is_space c then rest else c ∷ cs

-- `s.strip()`
abbrev pub strip : String → String
strip s = of_chars (reverse (lstrip (reverse (lstrip (chars s)))))

-- `bytes.isspace` of one byte.
abbrev is_ascii_space : Char → Bool
is_ascii_space c = let n = code c in (leb 9 n && leb n 13) || eqb n 32

abbrev lstrip_bytes : List Char → List Char
lstrip_bytes [] = []
lstrip_bytes (c ∷ cs) = let rest = lstrip_bytes cs in if is_ascii_space c then rest else c ∷ cs

-- `b.strip()`, for bytes.
abbrev pub strip_bytes : String → String
strip_bytes s = of_chars (reverse (lstrip_bytes (reverse (lstrip_bytes (chars s)))))

-- `not s`, for a text.
abbrev pub is_empty : String → Bool
is_empty String.[] = true
is_empty (String.◌∷◌ _ _) = false

-- `s[:n]`
abbrev pub head_chars : ℕ → String → String
head_chars n s = of_chars (take n (chars s))

abbrev pub has_char : ℕ → List Char → Bool
has_char n [] = false
has_char n (c ∷ cs) = eqb (code c) n || has_char n cs

-- `"@" in s`, by the code of the character.
abbrev pub contains_char : ℕ → String → Bool
contains_char n s = has_char n (chars s)

abbrev pub starts_with_char : ℕ → List Char → Bool
starts_with_char n [] = false
starts_with_char n (c ∷ cs) = eqb (code c) n

-- `s.startswith("@")` and `s.endswith("@")`
abbrev pub starts_with : ℕ → String → Bool
starts_with n s = starts_with_char n (chars s)

abbrev pub ends_with : ℕ → String → Bool
ends_with n s = starts_with_char n (reverse (chars s))

abbrev split_onto : ℕ → List Char → List Char → List String
split_onto n word [] = of_chars (reverse word) ∷ []
split_onto n word (c ∷ cs) =
    let here = of_chars (reverse word) ∷ split_onto n [] cs in
    let on = split_onto n (c ∷ word) cs in if eqb (code c) n then here else on

-- `s.split(",")`, by the code of the separator.
abbrev pub split : ℕ → String → List String
split n s = split_onto n [] (chars s)

infixr 65 ◌+++◌
-- `s + t`
abbrev pub ◌+++◌ : String → String → String
s +++ t = of_chars (chars s ++ chars t)

-- `sep.join(words)`
abbrev pub join : String → List String → String
join sep [] = String.[]
join sep (w ∷ []) = w
join sep (w ∷ v ∷ ws) = w +++ (sep +++ join sep (v ∷ ws))

-- `word in words`
abbrev pub elem : String → List String → Bool
elem w [] = false
elem w (v ∷ vs) = v == w || elem w vs
