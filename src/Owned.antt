-- ===== src/Owned.antt =====
-- The owner check that the reads of backend/db.py share: `row is None or (owner_id is not None and
-- row.owner_id != owner_id)` answers as if there were no row.
use autonomous_ai_analyst.Base.{
  String, List, Option, none, some, ◌==◌, ◌≡◌, refl, ◌↔◌, false, arith, eq_iff, if◌then◌else◌,
}
use autonomous_ai_analyst.Common.{owned_by}
use autonomous_ai_analyst.Table.{get}

module _ {A : Type 0} (owner_of : A → String) where
  abbrev pub if_owned : Option String → Option A → Option A
  if_owned owner_id none = none
  if_owned owner_id (some row) = if owned_by owner_id (owner_of row) then some row else none

  pub if_owned_iff :
      (owner : String) (o : Option A) (r : A)
      → (if_owned (some owner) o ≡ some r) ↔ ((o ≡ some r) × (owner_of r ≡ owner))
  if_owned_iff owner none r = (λ e. cc, λ e. cc (e.0))
  if_owned_iff owner (some row) r = (
    λ e. ground (arith, eq_iff (owner_of row) owner),
    λ e. ground (arith, eq_iff (owner_of row) owner),
  )

  -- A row of another owner is answered just like a row that is not there.
  pub if_owned-foreign :
      (owner : String) (r : A)
      → (owner_of r == owner) ≡ false
      → if_owned (some owner) (some r) ≡ none
  if_owned-foreign owner r e = ground arith

  pub if_owned-all : (o : Option A) → if_owned none o ≡ o
  if_owned-all none = refl
  if_owned-all (some row) = refl

module _ {A : Type 0} (key : A → String) (owner_of : A → String) where
  abbrev pub get_owned : String → Option String → List A → Option A
  get_owned k owner_id t = if_owned owner_of owner_id (get key k t)
