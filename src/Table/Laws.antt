-- ===== src/Table/Laws.antt =====
-- What the operations on a table do to a lookup, to the key constraint, and to a property that
-- every row has.
use autonomous_ai_analyst.Base.{
  String, List, [], ◌∷◌, ◌++◌, none, some, ◌≡◌, refl, subst, ◌∙◌, ◌==◌, Bool, false, ◌≢◌, inl, inr,
  arith, eq_iff, Bool-cases, delete_where, All,
}
use mathlib.Core.Option.{some-injective}
use autonomous_ai_analyst.Table.Rows.{get, update, delete, add, IsKeyed}

module _ {A : Type 0} (key : A → String) where
  -- A row that a lookup finds has the key that was asked for.
  pub key-get : (k : String) (t : List A) {r : A} → get key k t ≡ some r → key r ≡ k
  key-get k [] e = ground arith
  key-get k (x ∷ t) {r} e = ground (arith, eq_iff (key x) k, key-get k t {r = r})

  pub get-append :
      (k : String) (t u : List A)
      → get key k (t ++ u) ≡ elim (get key k t) [ none ↦ get key k u | some r ↦ some r ]
  get-append k [] u = refl
  get-append k (x ∷ t) u = ground (arith, get-append k t u)

  pub get-update_self :
      (k : String) (f : A → A) (t : List A) {r : A}
      → key (f r) ≡ key r
      → get key k t ≡ some r
      → get key k (update key k f t) ≡ some (f r)
  get-update_self k f [] h e = ground arith
  get-update_self k f (x ∷ t) {r} h e =
      ground (arith, eq_iff (key x) k, eq_iff (key (f x)) k, get-update_self k f t {r = r} h)

  pub get-update_ne :
      (j k : String) (f : A → A) (t : List A)
      → ((r : A) → key (f r) ≡ key r)
      → (k == j) ≡ false
      → get key j (update key k f t) ≡ get key j t
  get-update_ne j k f [] h ne = refl
  get-update_ne j k f (x ∷ t) h ne = ground (
    arith,
    h x,
    eq_iff (key x) k,
    eq_iff (key x) j,
    eq_iff k j,
    eq_iff (key (f x)) j,
    get-update_ne j k f t h ne,
  )

  pub update_absent :
      (k : String) (f : A → A) (t : List A) → get key k t ≡ none → update key k f t ≡ t
  update_absent k f [] e = refl
  update_absent k f (x ∷ t) e = ground (arith, update_absent k f t)

  pub get-delete_where :
      (k : String) (p : A → Bool) (t : List A)
      → get key k t ≡ none
      → get key k (delete_where p t) ≡ none
  get-delete_where k p [] e = refl
  get-delete_where k p (x ∷ t) e = ground (arith, get-delete_where k p t)

  pub delete-none :
      (j k : String) (t : List A) → get key j t ≡ none → get key j (delete key k t) ≡ none
  delete-none j k [] e = refl
  delete-none j k (x ∷ t) e = ground (arith, delete-none j k t)

  -- With the key constraint a deleted key is gone.
  pub get-delete_self :
      (k : String) (t : List A) → IsKeyed key t → get key k (delete key k t) ≡ none
  get-delete_self k [] u = refl
  get-delete_self k (x ∷ t) u = ground (arith, eq_iff (key x) k, get-delete_self k t u.1)

  pub get-delete_ne :
      (j k : String) (t : List A) → (k == j) ≡ false → get key j (delete key k t) ≡ get key j t
  get-delete_ne j k [] ne = refl
  get-delete_ne j k (x ∷ t) ne =
      ground (arith, eq_iff (key x) k, eq_iff (key x) j, eq_iff k j, get-delete_ne j k t ne)

  pub add-eq : (r : A) (t : List A) {u : List A} → add key r t ≡ some u → u ≡ t ++ r ∷ []
  add-eq r t e = ground arith

  pub append-IsKeyed :
      (t : List A) (r : A) → get key (key r) t ≡ none → IsKeyed key t → IsKeyed key (t ++ r ∷ [])
  append-IsKeyed [] r e u = ground arith
  append-IsKeyed (x ∷ t) r e u = ground (
    arith,
    get-append (key x) t (r ∷ []),
    eq_iff (key r) (key x),
    eq_iff (key x) (key r),
    append-IsKeyed t r,
  )

  pub add-IsKeyed :
      (r : A) (t : List A) {u : List A} → IsKeyed key t → add key r t ≡ some u → IsKeyed key u
  add-IsKeyed r t k e = ground (arith, append-IsKeyed t r)

  -- A new row is found under its key.
  pub get-add_self :
      (r : A) (t : List A) {u : List A} → add key r t ≡ some u → get key (key r) u ≡ some r
  get-add_self r t e = ground (arith, get-append (key r) t (r ∷ []), eq_iff (key r) (key r))

  pub get-add_ne :
      (k : String) (r : A) (t : List A) {u : List A}
      → (key r == k) ≡ false
      → add key r t ≡ some u
      → get key k u ≡ get key k t
  get-add_ne k r t ne e = ground (arith, get-append k t (r ∷ []))

  pub update-IsKeyed :
      (k : String) (f : A → A) (t : List A)
      → ((r : A) → key (f r) ≡ key r)
      → IsKeyed key t
      → IsKeyed key (update key k f t)
  update-IsKeyed k f [] h u = tt
  update-IsKeyed k f (x ∷ t) h u = elim (Bool-cases (key x == k)) [
    | inl hit ↦ rw hit (rw (h x) u.0, u.1)
    | inr miss ↦ rw miss (
      get-update_ne (key x) k f t h (ground (arith, eq_iff (key x) k, eq_iff k (key x))) ∙ u.0,
      update-IsKeyed k f t h u.1,
    )
  ]

  pub delete_where-IsKeyed :
      (p : A → Bool) (t : List A) → IsKeyed key t → IsKeyed key (delete_where p t)
  delete_where-IsKeyed p [] u = tt
  delete_where-IsKeyed p (x ∷ t) u =
      ground (arith, get-delete_where (key x) p t, delete_where-IsKeyed p t)

  pub delete-IsKeyed : (k : String) (t : List A) → IsKeyed key t → IsKeyed key (delete key k t)
  delete-IsKeyed k [] u = tt
  delete-IsKeyed k (x ∷ t) u = ground (arith, delete-none (key x) k t, delete-IsKeyed k t)

  -- A key that is not found is the key of no row.
  pub get-All_other :
      (k : String) (t : List A) → get key k t ≡ none → All (λ r. (key r == k) ≡ false) t
  get-All_other k [] e = tt
  get-All_other k (x ∷ t) e = elim (Bool-cases (key x == k)) [
    | inl hit ↦ absurd (ground (arith, rw hit at e))
    | inr miss ↦ (miss, get-All_other k t (rw miss at e))
  ]

  -- Every row of the table is found under its key.
  pub All-present : (t : List A) → All (λ r. get key (key r) t ≢ none) t
  All-present t = go t λ k e. e
    where
      go :
          (u : List A)
          → ((k : String) → get key k t ≡ none → get key k u ≡ none)
          → All (λ r. get key (key r) t ≢ none) u
      go [] h = tt
      go (x ∷ u) h = (
        λ e. ground (arith, h (key x) e, eq_iff (key x) (key x)),
        go u (λ k e. ground (arith, h k e)),
      )

  -- With the key constraint it is that row which is found.
  pub All-found : (t : List A) → IsKeyed key t → All (λ r. get key (key r) t ≡ some r) t
  All-found t u = go t u (λ k r e. e)
    where
      go :
          (v : List A)
          → IsKeyed key v
          → ((k : String) (r : A) → get key k v ≡ some r → get key k t ≡ some r)
          → All (λ r. get key (key r) t ≡ some r) v
      go [] w h = tt
      go (x ∷ v) w h = (
        h (key x) x (ground (arith, eq_iff (key x) (key x))),
        go v w.1 (λ k r e. h k r (
            ground (
              arith,
              eq_iff (key x) k,
              key-get k v {r = r} e,
              subst (λ j. get key j v ≡ none) {x = key x} {y = k},
              w.0,
            ))),
      )

  module _ {κ} (P : A → Type κ) where
    pub All-get : (k : String) (t : List A) {r : A} → All P t → get key k t ≡ some r → P r
    All-get k [] a e = cc
    All-get k (x ∷ t) a e = elim (Bool-cases (key x == k)) [
      | inl hit ↦ subst P (some-injective _ _ (rw hit at e)) a.0
      | inr miss ↦ All-get k t a.1 (rw miss at e)
    ]

    pub All-update :
        (k : String) (f : A → A) (t : List A)
        → ((r : A) → P r → P (f r))
        → All P t
        → All P (update key k f t)
    All-update k f [] h a = tt
    All-update k f (x ∷ t) h a = elim (Bool-cases (key x == k)) [
      | inl hit ↦ rw hit (h x a.0, a.1)
      | inr miss ↦ rw miss (a.0, All-update k f t h a.1)
    ]

    pub All-delete : (k : String) (t : List A) → All P t → All P (delete key k t)
    All-delete k [] a = tt
    All-delete k (x ∷ t) a = elim (Bool-cases (key x == k)) [
      | inl hit ↦ rw hit a.1
      | inr miss ↦ rw miss (a.0, All-delete k t a.1)
    ]
