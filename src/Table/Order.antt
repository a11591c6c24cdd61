-- ===== src/Table/Order.antt =====
-- `order_by(...)`: an insertion sort that leaves rows which compare equal in insertion order. The
-- result is a rearrangement of the rows, and ordered.
use autonomous_ai_analyst.Base.{
  ℕ, suc, ◌+◌, length, refl, List, [], ◌∷◌, ◌≡◌, Bool, true, false, leb, count, total, greatest,
  max, ap, ◌++◌, ◌∙◌, if◌then◌else◌, arith, All, Bool-cases, inl, inr,
}

-- `le x y` says that `x` may stand before `y`.
module _ {A : Type 0} (le : A → A → Bool) where
  abbrev insert_row : A → List A → List A
  insert_row x [] = x ∷ []
  insert_row x (y ∷ ys) = if le y x then y ∷ insert_row x ys else x ∷ y ∷ ys

  abbrev order_onto : List A → List A → List A
  order_onto sorted [] = sorted
  order_onto sorted (x ∷ xs) = order_onto (insert_row x sorted) xs

  abbrev pub order_by : List A → List A
  order_by = order_onto []

  abbrev pub IsOrdered : List A → Type 0
  IsOrdered [] = Unit
  IsOrdered (x ∷ xs) = All (λ y. le x y ≡ true) xs × IsOrdered xs

  All-insert_row {κ} :
      (P : A → Type κ) (x : A) (ys : List A) → P x → All P ys → All P (insert_row x ys)
  All-insert_row P x [] p a = (p, tt)
  All-insert_row P x (y ∷ ys) p a = elim (Bool-cases (le y x)) [
    | inl below ↦ rw below (a.0, All-insert_row P x ys p a.1)
    | inr above ↦ rw above (p, a)
  ]

  All-order_onto {κ} :
      (P : A → Type κ) (sorted xs : List A) → All P sorted → All P xs → All P (order_onto sorted xs)
  All-order_onto P sorted [] a b = a
  All-order_onto P sorted (x ∷ xs) a b =
      All-order_onto P (insert_row x sorted) xs (All-insert_row P x sorted b.0 a) b.1

  pub All-order_by {κ} : (P : A → Type κ) (xs : List A) → All P xs → All P (order_by xs)
  All-order_by P xs a = All-order_onto P [] xs tt a

  insert_row-All {κ} :
      (P : A → Type κ) (x : A) (ys : List A) → All P (insert_row x ys) → P x × All P ys
  insert_row-All P x [] a = (a.0, tt)
  insert_row-All P x (y ∷ ys) a = elim (Bool-cases (le y x)) [
    | inl below ↦
        let a' : All P (y ∷ insert_row x ys) = rw below at a in
        let (px, rest) = insert_row-All P x ys a'.1 in (px, (a'.0, rest))
    | inr above ↦ let a' : All P (x ∷ y ∷ ys) = rw above at a in (a'.0, a'.1)
  ]

  order_onto-All {κ} :
      (P : A → Type κ) (sorted xs : List A) → All P (order_onto sorted xs) → All P sorted × All P xs
  order_onto-All P sorted [] a = (a, tt)
  order_onto-All P sorted (x ∷ xs) a =
      let (b, rest) = order_onto-All P (insert_row x sorted) xs a in
      let (px, c) = insert_row-All P x sorted b in (c, (px, rest))

  -- Ordering leaves no row out.
  pub order_by-All {κ} : (P : A → Type κ) (xs : List A) → All P (order_by xs) → All P xs
  order_by-All P xs a = (order_onto-All P [] xs a).1

  insert_row-length : (x : A) (ys : List A) → length (insert_row x ys) ≡ suc (length ys)
  insert_row-length x [] = refl
  insert_row-length x (y ∷ ys) = ground (arith, insert_row-length x ys)

  order_onto-length :
      (sorted xs : List A) → length (order_onto sorted xs) ≡ length sorted + length xs
  order_onto-length sorted [] = omega arith
  order_onto-length sorted (x ∷ xs) =
      omega (arith, order_onto-length (insert_row x sorted) xs, insert_row-length x sorted)

  pub length-order_by : (xs : List A) → length (order_by xs) ≡ length xs
  length-order_by xs = omega (arith, order_onto-length [] xs)

  insert_row-count :
      (p : A → Bool) (x : A) (ys : List A) → count p (insert_row x ys) ≡ count p (x ∷ ys)
  insert_row-count p x [] = refl
  insert_row-count p x (y ∷ ys) = ground (arith, insert_row-count p x ys)

  order_onto-count :
      (p : A → Bool) (sorted xs : List A)
      → count p (order_onto sorted xs) ≡ count p sorted + count p xs
  order_onto-count p sorted [] = omega arith
  order_onto-count p sorted (x ∷ xs) =
      ground (arith, order_onto-count p (insert_row x sorted) xs, insert_row-count p x sorted)

  pub count-order_by : (p : A → Bool) (xs : List A) → count p (order_by xs) ≡ count p xs
  count-order_by p xs = omega (arith, order_onto-count p [] xs)

  insert_row-total :
      (column : A → ℕ) (x : A) (ys : List A)
      → total column (insert_row x ys) ≡ column x + total column ys
  insert_row-total column x [] = refl
  insert_row-total column x (y ∷ ys) = ground (arith, insert_row-total column x ys)

  order_onto-total :
      (column : A → ℕ) (sorted xs : List A)
      → total column (order_onto sorted xs) ≡ total column sorted + total column xs
  order_onto-total column sorted [] = omega arith
  order_onto-total column sorted (x ∷ xs) =
      omega
        (arith, order_onto-total column (insert_row x sorted) xs, insert_row-total column x sorted)

  pub total-order_by : (column : A → ℕ) (xs : List A) → total column (order_by xs) ≡ total column xs
  total-order_by column xs = omega (arith, order_onto-total column [] xs)

  insert_row-last :
      (x : A) (ys : List A) → All (λ y. le y x ≡ true) ys → insert_row x ys ≡ ys ++ x ∷ []
  insert_row-last x [] below = refl
  insert_row-last x (y ∷ ys) below = rw below.0 (ap (◌∷◌ y) (insert_row-last x ys below.1))

  order_onto-append :
      (sorted xs : List A) (x : A)
      → order_onto sorted (xs ++ x ∷ []) ≡ insert_row x (order_onto sorted xs)
  order_onto-append sorted [] x = refl
  order_onto-append sorted (y ∷ xs) x = order_onto-append (insert_row y sorted) xs x

  -- A row that may stand after all others is put at the end.
  pub order_by-append :
      (xs : List A) (x : A)
      → All (λ y. le y x ≡ true) xs
      → order_by (xs ++ x ∷ []) ≡ order_by xs ++ x ∷ []
  order_by-append xs x below =
      order_onto-append [] xs x
      ∙ insert_row-last x (order_by xs) (All-order_by (λ y. le y x ≡ true) xs below)

  insert_row-greatest :
      (column : A → ℕ) (x : A) (ys : List A)
      → greatest column (insert_row x ys) ≡ max (column x) (greatest column ys)
  insert_row-greatest column x [] = refl
  insert_row-greatest column x (y ∷ ys) = ground (arith, insert_row-greatest column x ys)

  order_onto-greatest :
      (column : A → ℕ) (sorted xs : List A)
      → greatest column (order_onto sorted xs) ≡ max (greatest column sorted) (greatest column xs)
  order_onto-greatest column sorted [] = omega arith
  order_onto-greatest column sorted (x ∷ xs) = omega (
    arith,
    order_onto-greatest column (insert_row x sorted) xs,
    insert_row-greatest column x sorted,
  )

  pub greatest-order_by :
      (column : A → ℕ) (xs : List A) → greatest column (order_by xs) ≡ greatest column xs
  greatest-order_by column xs = omega (arith, order_onto-greatest column [] xs)

  module _ (le_total : (x y : A) → le x y ≡ false → le y x ≡ true)
      (le_through : (x y z : A) → le x y ≡ true → le y z ≡ true → le x z ≡ true) where
    All-le_through :
        (x y : A) (zs : List A)
        → le x y ≡ true
        → All (λ z. le y z ≡ true) zs
        → All (λ z. le x z ≡ true) zs
    All-le_through x y [] h a = tt
    All-le_through x y (z ∷ zs) h a = (le_through x y z h a.0, All-le_through x y zs h a.1)

    insert_row-IsOrdered : (x : A) (ys : List A) → IsOrdered ys → IsOrdered (insert_row x ys)
    insert_row-IsOrdered x [] d = (tt, tt)
    insert_row-IsOrdered x (y ∷ ys) d = elim (Bool-cases (le y x)) [
      | inl below ↦
          rw below
            (All-insert_row (λ z. le y z ≡ true) x ys below d.0, insert_row-IsOrdered x ys d.1)
      | inr above ↦ let h = le_total y x above in rw above ((h, All-le_through x y ys h d.0), d)
    ]

    order_onto-IsOrdered :
        (sorted xs : List A) → IsOrdered sorted → IsOrdered (order_onto sorted xs)
    order_onto-IsOrdered sorted [] d = d
    order_onto-IsOrdered sorted (x ∷ xs) d =
        order_onto-IsOrdered (insert_row x sorted) xs (insert_row-IsOrdered x sorted d)

    pub order_by-IsOrdered : (xs : List A) → IsOrdered (order_by xs)
    order_by-IsOrdered xs = order_onto-IsOrdered [] xs tt

module _ {A : Type 0} (column : A → ℕ) where
  -- `order_by(column)` and `order_by(column.desc())`.
  abbrev pub ascending : A → A → Bool
  ascending x y = leb (column x) (column y)

  abbrev pub descending : A → A → Bool
  descending x y = leb (column y) (column x)

  pub order_by-ascending : (xs : List A) → IsOrdered ascending (order_by ascending xs)
  order_by-ascending =
      order_by-IsOrdered ascending (λ x y h. ground arith) (λ x y z h k. ground arith)

  pub order_by-descending : (xs : List A) → IsOrdered descending (order_by descending xs)
  order_by-descending =
      order_by-IsOrdered descending (λ x y h. ground arith) (λ x y z h k. ground arith)
