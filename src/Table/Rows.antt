-- ===== src/Table/Rows.antt =====
-- The operations on a table with a primary key of type text.
use autonomous_ai_analyst.Base.{
  String, List, [], ◌∷◌, ◌++◌, Option, none, some, ◌≡◌, ◌==◌, if◌then◌else◌,
}

module _ {A : Type 0} (key : A → String) where
  -- `session.get(Record, k)`
  abbrev pub get : String → List A → Option A
  get k [] = none
  get k (r ∷ t) = if key r == k then some r else get k t

  -- Assigning to the columns of the row that `session.get` returned.
  abbrev pub update : String → (A → A) → List A → List A
  update k f [] = []
  update k f (r ∷ t) = if key r == k then f r ∷ t else r ∷ update k f t

  -- `session.delete(row)` for the row with key `k`.
  abbrev pub delete : String → List A → List A
  delete k [] = []
  delete k (r ∷ t) = if key r == k then t else r ∷ delete k t

  -- `session.add(row)` of a new row. A key that is taken is an integrity error, after which
  -- `session_scope` rolls back and raises: `none`.
  abbrev pub add : A → List A → Option (List A)
  add r t = elim (get (key r) t) [ none ↦ some (t ++ r ∷ []) | some _ ↦ none ]

  -- No two rows share a key: what the primary key's constraint keeps.
  abbrev pub IsKeyed : List A → Type 0
  IsKeyed [] = Unit
  IsKeyed (r ∷ t) = (get (key r) t ≡ none) × IsKeyed t
