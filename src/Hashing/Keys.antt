-- ===== src/Hashing/Keys.antt =====
-- `run_cache_key` of backend/utils/hashing.py. SHA-256 and `str.lower` are arguments, and so is the
-- text of the tuning budget (`f"{…:g}"`).
use autonomous_ai_analyst.Base.{
  String, List, [], ◌∷◌, ◌++◌, Bool, true, false, Option, none, some, if◌then◌else◌,
}
use autonomous_ai_analyst.Text.{strip, is_empty, ◌+++◌, join}

pub record RunConfig : Type 0 where
  pub dataset_hash : String
  pub mode : String
  pub manual_model : Option String
  pub target_column : Option String
  pub pipeline_version : String
  pub tuning_budget : String
  pub use_smote : Bool
  pub owner_id : String

-- `"\x1f"`
abbrev pub separator : String
separator = "\u{1f}"

-- `value or default`
abbrev pub text_or : String → String → String
text_or value default = if is_empty value then default else value

-- `(value or "").strip()`
abbrev pub stripped : Option String → String
stripped none = ""
stripped (some value) = strip value

abbrev pub bool_text : Bool → String
bool_text true = "True"
bool_text false = "False"

abbrev pub owner_part : RunConfig → String
owner_part c = "owner=" +++ text_or c.owner_id "local"

module _ (lower : String → String) where
  abbrev pub knobs_after : RunConfig → List String
  knobs_after c =
      lower (text_or c.mode "auto")
      ∷ stripped c.manual_model
      ∷ stripped c.target_column
      ∷ c.pipeline_version
      ∷ ("tune=" +++ c.tuning_budget)
      ∷ ("smote=" +++ bool_text c.use_smote)
      ∷ []

  abbrev pub parts : RunConfig → List String
  parts c = c.dataset_hash ∷ (knobs_after c ++ owner_part c ∷ [])

  unfoldable pub run_cache_key : (String → String) → RunConfig → String
  run_cache_key sha256 c = sha256 (join separator (parts c))
