-- ===== src/Versions/Records.antt =====
-- `ModelVersionRecord` and the version helpers of backend/db.py. A score is a fixed-point number.
use autonomous_ai_analyst.Base.{
  ℕ, ◌+◌, max, String, List, [], ◌∷◌, map, Bool, true, false, not, ◌&&◌, Option, none, some, ◌==◌,
  select, delete_where, first, if◌then◌else◌,
}
use autonomous_ai_analyst.Base.Int.{ℤ}
use autonomous_ai_analyst.Common.{Json, merge, owned_by}
use autonomous_ai_analyst.Table.{get, update, add, order_by, ascending, descending}

pub data Source : Type 0 where
  initial retrain : Source

pub record ModelVersionRecord : Type 0 where
  pub version_id : String
  pub run_key : String
  pub owner_id : String
  pub version : ℕ
  pub created_at : ℕ
  pub artifact_suffix : String
  pub selected_model : Option String
  pub metric_name : Option String
  pub metric_value : Option ℤ
  pub rows_trained : ℕ
  pub is_champion : Bool
  pub promoted_at : Option ℕ
  pub superseded_at : Option ℕ
  pub source : Source
  pub notes : Json

abbrev pub version_key : ModelVersionRecord → String
version_key v = v.version_id

abbrev pub of_run : String → ModelVersionRecord → Bool
of_run run_key v = v.run_key == run_key

-- `none`: the id is taken.
unfoldable pub add_model_version :
    ModelVersionRecord → List ModelVersionRecord → Option (List ModelVersionRecord)
add_model_version = add version_key

-- Oldest first.
unfoldable pub list_model_versions :
    String → Option String → List ModelVersionRecord → List ModelVersionRecord
list_model_versions run_key owner_id versions =
    order_by (ascending λ (v : ModelVersionRecord). v.version)
      (select (λ v. of_run run_key v && owned_by owner_id v.owner_id) versions)

unfoldable pub champion_version :
    String → Option String → List ModelVersionRecord → Option ModelVersionRecord
champion_version run_key owner_id versions = first (
    order_by (descending λ (v : ModelVersionRecord). v.version)
      (select (λ v. of_run run_key v && v.is_champion && owned_by owner_id v.owner_id) versions))

abbrev pub highest_version : List ModelVersionRecord → ℕ
highest_version [] = 0
highest_version (v ∷ vs) = max v.version (highest_version vs)

unfoldable pub next_model_version : String → List ModelVersionRecord → ℕ
next_model_version run_key versions = highest_version (select (of_run run_key) versions) + 1

abbrev pub demoted : ℕ → ModelVersionRecord → ModelVersionRecord
demoted moment v = record v { is_champion = false; superseded_at = some moment }

-- The loop over the run's incumbents, which passes over the version that is promoted.
abbrev pub demote_incumbent : String → String → ℕ → ModelVersionRecord → ModelVersionRecord
demote_incumbent run_key version_id moment v =
    if of_run run_key v && v.is_champion && not (v.version_id == version_id)
    then demoted moment v
    else v

-- `if notes:` passes over a dict with no entry too.
abbrev pub crowned : Json → ℕ → ModelVersionRecord → ModelVersionRecord
crowned notes moment v = record v {
  is_champion = true;
  promoted_at = some moment;
  superseded_at = none;
  notes = merge v.notes notes;
}

-- The new table and the promoted row; `none` if there is no such version.
unfoldable pub promote_model_version :
    String
    → Json
    → ℕ
    → List ModelVersionRecord
    → Option (List ModelVersionRecord × ModelVersionRecord)
promote_model_version version_id notes moment versions =
    elim (get version_key version_id versions) [
      | none ↦ none
      | some target ↦ some (
        update version_key version_id (crowned notes moment)
            (map (demote_incumbent target.run_key version_id moment) versions),
        crowned notes moment target,
      )
    ]

-- The new table, and the suffixes of the artifacts that the rows named.
unfoldable pub delete_model_versions_for_run :
    String → List ModelVersionRecord → List ModelVersionRecord × List String
delete_model_versions_for_run run_key versions = (
  delete_where (of_run run_key) versions,
  map (λ (v : ModelVersionRecord). v.artifact_suffix) (select (of_run run_key) versions),
)
