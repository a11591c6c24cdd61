-- ===== src/Runs.antt =====
-- The run registry: `RunRecord` and the run helpers of backend/db.py.
use mathlib.Core.Option
use autonomous_ai_analyst.Base.{
  ℕ, String, List, Bool, true, false, Option, none, some, ◌==◌, leb, select, count, take,
}
use autonomous_ai_analyst.Common.{owned_by}
use autonomous_ai_analyst.Owned.{get_owned}
use autonomous_ai_analyst.Table.{get, update, add, delete, order_by, descending}

-- The columns that `_register_run` (backend/routes/upload.py) writes: all but `created_at`.
pub record RunFields : Type 0 where
  pub run_key : String
  pub dataset_hash : String
  pub filename : Option String
  pub mode : String
  pub target : Option String
  pub problem_type : Option String
  pub selected_model : Option String
  pub health_verdict : Option String
  pub row_count : ℕ
  pub column_count : ℕ
  pub pipeline_version : Option String
  pub owner_id : String
  pub expires_at : Option ℕ

pub record RunRecord : Type 0 where
  pub fields : RunFields
  pub open fields use *
  pub created_at : ℕ

abbrev pub run_id : RunRecord → String
run_id r = r.run_key

abbrev pub run_owned_by : RunRecord → String
run_owned_by r = r.owner_id

-- An existing row keeps its time of creation, and takes every other column anew.
unfoldable pub upsert_run : RunFields → ℕ → List RunRecord → List RunRecord
upsert_run fields now runs = elim (get run_id fields.run_key runs) [
  | none ↦ elim (add run_id (record { fields = fields; created_at = now }) runs) [
    | none ↦ runs
    | some runs' ↦ runs'
  ]
  | some _ ↦ update run_id fields.run_key (λ row. record row { fields = fields }) runs
]

-- Newest first.
unfoldable pub list_runs : ℕ → Option String → List RunRecord → List RunRecord
list_runs limit owner_id runs = take limit (
    order_by (descending λ (r : RunRecord). r.created_at)
      (select (λ (r : RunRecord). owned_by owner_id r.owner_id) runs))

unfoldable pub get_run : String → Option String → List RunRecord → Option RunRecord
get_run run_key owner_id runs = get_owned run_id run_owned_by run_key owner_id runs

unfoldable pub run_owner : String → List RunRecord → Option String
run_owner run_key runs = Option.map (λ (r : RunRecord). r.owner_id) (get run_id run_key runs)

unfoldable pub count_runs : String → List RunRecord → ℕ
count_runs owner_id = count (λ (r : RunRecord). r.owner_id == owner_id)

abbrev pub is_expired : ℕ → Option ℕ → Bool
is_expired moment none = false
is_expired moment (some expires_at) = leb expires_at moment

unfoldable pub expired_runs : ℕ → List RunRecord → List RunRecord
expired_runs moment = select (λ (r : RunRecord). is_expired moment r.expires_at)

unfoldable pub set_run_expiry : String → Option ℕ → List RunRecord → List RunRecord
set_run_expiry run_key expires_at =
    update run_id run_key
      (λ row. record row { fields = record (row.fields) { expires_at = expires_at } })

-- The new table, and whether the run was there for this owner.
unfoldable pub delete_run : String → Option String → List RunRecord → List RunRecord × Bool
delete_run run_key owner_id runs = elim (get_owned run_id run_owned_by run_key owner_id runs) [
  | none ↦ (runs, false)
  | some _ ↦ (delete run_id run_key runs, true)
]
