-- ===== src/Hashing/Parts.antt =====
-- What a run key of backend/utils/hashing.py determines: `"\x1f".join(parts)` can be taken apart
-- where the parts hold no separator, and its last part whatever the others hold.
use Prim.Native.Char.{Char}
use mathlib.Core.List.{append_assoc}
use autonomous_ai_analyst.Base.{
  ℕ, String, List, [], ◌∷◌, ◌++◌, true, false, ◌≡◌, refl, sym, subst, ap, ◌∙◌, arith, length, All,
}
use autonomous_ai_analyst.Text.{chars, has_char, contains_char, ◌+++◌, join}
use autonomous_ai_analyst.Text.Laws.{chars-concat, chars_injective}
use autonomous_ai_analyst.Hashing.Keys.{
  RunConfig, separator, text_or, knobs_after, owner_part, parts, run_cache_key,
}

-- The code of the separator.
abbrev mark : ℕ
mark = 31

abbrev mark_char : Char
mark_char = "\u{1f}"

abbrev pub IsPlain : String → Type 0
IsPlain s = contains_char mark s ≡ false

has_char-append : (x y : List Char) → has_char mark (x ++ mark_char ∷ y) ≡ true
has_char-append [] y = refl
has_char-append (c ∷ x) y = ground (arith, has_char-append x y)

headed : (c : Char) (a : List Char) → mark_char ≡ c → has_char mark (c ∷ a) ≡ false → ⊥
headed c a e h = let f : true ≡ false = subst (λ d. has_char mark (d ∷ a) ≡ false) (sym e) h in cc

-- Two readings of one text up to its first separator.
first_part :
    (a b x y : List Char)
    → has_char mark a ≡ false
    → has_char mark b ≡ false
    → a ++ mark_char ∷ x ≡ b ++ mark_char ∷ y
    → (a ≡ b) × (x ≡ y)
first_part [] [] x y h k e = (refl, cc)
first_part [] (c ∷ b) x y h k e = absurd (headed c b (cc) k)
first_part (c ∷ a) [] x y h k e = absurd (headed c a (cc) h)
first_part (c ∷ a) (d ∷ b) x y h k e = ground (arith, first_part a b x y)

-- Two readings of one text from its last separator on.
last_part :
    (x y a b : List Char)
    → has_char mark a ≡ false
    → has_char mark b ≡ false
    → x ++ mark_char ∷ a ≡ y ++ mark_char ∷ b
    → a ≡ b
last_part [] [] a b h k e = cc
last_part [] (c ∷ y) a b h k e = ground (arith, has_char-append y b)
last_part (c ∷ x) [] a b h k e = ground (arith, has_char-append x a)
last_part (c ∷ x) (d ∷ y) a b h k e = last_part x y a b h k (ground arith)

-- A part is read back from the front of the joined text, the last one from its end.
chars-join :
    (w v : String) (ws : List String)
    → chars (join separator (w ∷ v ∷ ws)) ≡ chars w ++ mark_char ∷ chars (join separator (v ∷ ws))
chars-join w v ws =
    chars-concat w (separator +++ join separator (v ∷ ws))
    ∙ ap (λ cs. chars w ++ cs) (chars-concat separator (join separator (v ∷ ws)))

join-split :
    (w v : String) (ws : List String)
    → (before : List Char) × (chars (join separator (w ∷ ws ++ v ∷ []))
        ≡ before ++ mark_char ∷ chars v)
join-split w v [] = (chars w, chars-join w v [])
join-split w v (u ∷ ws) =
    let (before, e) = join-split u v ws in
    (
      chars w ++ mark_char ∷ before,
      chars-join w u (ws ++ v ∷ [])
          ∙ ap (λ cs. chars w ++ mark_char ∷ cs) e
          ∙ sym (append_assoc (chars w) (mark_char ∷ before) (mark_char ∷ chars v)),
    )

join_injective :
    (w v : String) (ws vs : List String)
    → length ws ≡ length vs
    → All IsPlain (w ∷ ws)
    → All IsPlain (v ∷ vs)
    → join separator (w ∷ ws) ≡ join separator (v ∷ vs)
    → w ∷ ws ≡ v ∷ vs
join_injective w v [] [] l h k e = ap (λ s. s ∷ []) e
join_injective w v [] (v' ∷ vs) l h k e = absurd (omega arith)
join_injective w v (w' ∷ ws) [] l h k e = absurd (omega arith)
join_injective w v (w' ∷ ws) (v' ∷ vs) l h k e =
    let (here, rest) =
      first_part (chars w) (chars v) (chars (join separator (w' ∷ ws)))
        (chars (join separator (v' ∷ vs))) h.0 k.0
        (sym (chars-join w w' ws) ∙ ap chars e ∙ chars-join v v' vs) in
    let tail =
      join_injective w' v' ws vs (omega arith) h.1 k.1
        (chars_injective (join separator (w' ∷ ws)) (join separator (v' ∷ vs)) rest) in
    ap (λ s. s ∷ w' ∷ ws) (chars_injective w v here) ∙ ap (◌∷◌ v) tail

-- The owner behind a key: `owner=` in front of the last part.
append_cancel : (a x y : List Char) → a ++ x ≡ a ++ y → x ≡ y
append_cancel [] x y e = e
append_cancel (c ∷ a) x y e = append_cancel a x y (cc)

plain_owner : (s : String) → IsPlain s → has_char mark (chars ("owner=" +++ s)) ≡ false
plain_owner s h = subst (λ cs. has_char mark cs ≡ false) (sym (chars-concat "owner=" s)) h

module _ (lower sha256 : String → String)
    (collision_free : (s t : String) → sha256 s ≡ sha256 t → s ≡ t) (c d : RunConfig) where
  -- With a hash that has no collisions, two configurations with one run key have one owner, if the
  -- owners' ids hold no separator.
  pub run_cache_key_owner :
      IsPlain (text_or c.owner_id "local")
      → IsPlain (text_or d.owner_id "local")
      → run_cache_key lower sha256 c ≡ run_cache_key lower sha256 d
      → text_or c.owner_id "local" ≡ text_or d.owner_id "local"
  unfolding run_cache_key
  run_cache_key_owner h k e =
      let owner = text_or c.owner_id "local" in
      let other = text_or d.owner_id "local" in
      let (x, p) = join-split c.dataset_hash (owner_part c) (knobs_after lower c) in
      let (y, q) = join-split d.dataset_hash (owner_part d) (knobs_after lower d) in
      let joined =
        collision_free (join separator (parts lower c)) (join separator (parts lower d)) e in
      let last =
        last_part x y (chars (owner_part c)) (chars (owner_part d)) (plain_owner owner h)
          (plain_owner other k) (sym p ∙ ap chars joined ∙ q) in
      chars_injective owner other (
        append_cancel (chars "owner=") (chars owner) (chars other)
          (sym (chars-concat "owner=" owner) ∙ last ∙ chars-concat "owner=" other))

  -- If no part holds a separator, they agree in every part.
  pub run_cache_key-parts :
      All IsPlain (parts lower c)
      → All IsPlain (parts lower d)
      → run_cache_key lower sha256 c ≡ run_cache_key lower sha256 d
      → parts lower c ≡ parts lower d
  unfolding run_cache_key
  run_cache_key-parts h k e =
      join_injective c.dataset_hash d.dataset_hash (knobs_after lower c ++ owner_part c ∷ [])
        (knobs_after lower d ++ owner_part d ∷ []) refl h k
        (collision_free (join separator (parts lower c)) (join separator (parts lower d)) e)
