-- ===== src/Retraining/Refit.antt =====
-- `retrain` of backend/retraining.py. What the calls on pandas, scikit-learn and the modules of
-- backend/ml/ return or raise in one retraining is an argument; the history in the metadata file,
-- which is best effort, is left out.
use autonomous_ai_analyst.Base.{
  ℕ, String, List, [], ◌∷◌, ◌++◌, Bool, true, false, not, ◌&&◌, Option, none, some, ◌==◌,
  if◌then◌else◌, map,
}
use autonomous_ai_analyst.Base.Int.{ℤ}
use autonomous_ai_analyst.Text.{◌+++◌, is_empty, elem}
use autonomous_ai_analyst.Common.{Json}
use autonomous_ai_analyst.Versions.{ModelVersionRecord, champion_version, next_model_version}
use autonomous_ai_analyst.Registry.{Trained, Comparison, better, register_challenger, suffix_for}
use autonomous_ai_analyst.Storage.{File, Store, Place, place, lies_at, exists_at, publish_run}
use autonomous_ai_analyst.Pipeline.Work.{
  Fault, rejected, crashed, pipeline, Attempt, ok, raised, Work, pure, raise, attempt, ◌>>=◌, ◌>>◌,
}

-- What the run's metadata says of its configuration.
pub record RunMetadata : Type 0 where
  pub target : Option String
  pub mode : String
  pub selected_model : Option String
  pub selection_metric : Option String

-- `train_models` on the new data: what it selected, and the columns of its holdout.
pub record Refitted : Type 0 where
  pub selected_model : String
  pub selection_metric : String
  pub holdout_columns : List String

-- A bundle that `load_bundle` returns.
pub record Bundle : Type 0 where
  pub has_pipeline : Bool
  pub feature_columns : List String

-- `train` takes the model that the run is pinned to; `load` is none where loading raises.
pub record Lab : Type 0 where
  pub prepare : Attempt (Unit {0})
  pub train : Option String → Attempt Refitted
  pub challenger_score : String → Option ℤ
  pub load : String → Option Bundle
  pub champion_score : String → Option ℤ
  pub dump_bundle : Attempt (Unit {0})

pub record Frame : Type 0 where
  pub columns : List String
  pub rows : ℕ

-- `_manual_model`
abbrev pub manual_model : RunMetadata → Option String
manual_model metadata = if metadata.mode == "manual" then metadata.selected_model else none

abbrev pub lacks : Option String → List String → Bool
lacks none columns = false
lacks (some target) columns = not (is_empty target) && not (elem target columns)

-- No column of the first list is missing in the second.
abbrev covers : List String → List String → Bool
covers [] columns = true
covers (expected ∷ rest) columns = elem expected columns && covers rest columns

-- `_score_champion`
abbrev bundle_score : Lab → List String → String → Option Bundle → Option ℤ
bundle_score lab holdout_columns metric none = none
bundle_score lab holdout_columns metric (some bundle) =
    if bundle.has_pipeline && covers bundle.feature_columns holdout_columns
    then lab.champion_score metric
    else none

unfoldable pub score_champion : Lab → ModelVersionRecord → List String → String → Option ℤ
score_champion lab champion holdout_columns metric =
    bundle_score lab holdout_columns metric (lab.load champion.artifact_suffix)

pub record Decision : Type 0 where
  pub promoted : Bool
  pub comparison : Comparison
  pub challenger : ModelVersionRecord
  pub champion_before : ModelVersionRecord
  pub rows_supplied : ℕ
  pub selected_model : String

abbrev pub text_or : Option String → String → String
text_or none default = default
text_or (some text) default = if is_empty text then default else text

abbrev pub no_champion : Fault
no_champion =
    rejected
      "This run has no registered champion to compare against. Re-upload the dataset to train it under version tracking first."
      pipeline

abbrev pub no_target : String → Fault
no_target shown =
    rejected
      ("Retraining needs labelled data: the target column " +++ shown
        +++ " is not in the file supplied. A model cannot be scored against outcomes that are not there.")
      pipeline

abbrev pub or_reject : {A : Type 0} → Option A → Fault → Work A
or_reject none e = raise e
or_reject (some a) e = pure a

abbrev pub raise_if : Bool → Fault → Work (Unit {0})
raise_if true e = raise e
raise_if false e = pure tt

abbrev pub enrolled :
    Option (List ModelVersionRecord × ModelVersionRecord) → Work ModelVersionRecord
enrolled none db = (raised (crashed "integrity error"), db)
enrolled (some (versions, row)) db = (ok row, record db { versions = versions })

-- One call: the version's id, the run and its owner, the configured margin, the sizes of files that
-- are written, the stored form of a comparison, the `repr` of a text, and the moment.
pub record Call : Type 0 where
  pub version_id : String
  pub run_key : String
  pub owner_id : String
  pub margin : ℕ
  pub size_of : String → ℕ
  pub notes : Comparison → Json
  pub repr : String → String
  pub now : ℕ

module _ (call : Call) (frame : Frame) (metadata : RunMetadata) (lab : Lab) where
  abbrev pub file_at : Place → File
  file_at p = record { root = p.root; name = p.key; size = call.size_of p.key; locked = false }

  -- A file that is written over is there with its new size.
  abbrev pub rewritten : Place → File → File
  rewritten p f = if lies_at p f then record f { size = call.size_of p.key } else f

  -- A file that is written: a new one, or in place of the one that is there.
  abbrev pub written : String → Store → Store
  written suffix s =
      let p = place call.run_key suffix in
      record s {
        files =
            if exists_at p s.files then map (rewritten p) s.files else s.files ++ file_at p ∷ [];
      }

  abbrev pub store_bundle : ℕ → Work (Unit {0})
  store_bundle version db = (
    ok tt,
    record db {
      store = written (suffix_for version +++ ".sig") (written (suffix_for version) db.store);
    },
  )

  -- `_write_bundle`, for a bundle and its signature.
  unfoldable pub write_bundle : ℕ → Work (Unit {0})
  write_bundle version = attempt lab.dump_bundle >> store_bundle version

  abbrev pub trained_as : Refitted → Option ℤ → Trained
  trained_as refitted score = record {
    selected_model = some refitted.selected_model;
    metric_name = some (text_or metadata.selection_metric refitted.selection_metric);
    metric_value = score;
    row_count = frame.rows;
  }

  unfoldable pub register : ℕ → Refitted → Option ℤ → Comparison → Work ModelVersionRecord
  register version refitted score comparison db =
      enrolled
        (register_challenger call.version_id call.run_key call.owner_id version
          (trained_as refitted score) comparison (call.notes comparison) call.now db.versions)
        db

  abbrev publish : ModelVersionRecord → Work (Unit {0})
  publish row db = (
    ok tt,
    record db { store = (publish_run call.run_key (row.artifact_suffix ∷ []) db.store).0 },
  )

  unfoldable pub publish_if : Bool → ModelVersionRecord → Work (Unit {0})
  publish_if true row = publish row
  publish_if false row = pure tt

  abbrev pub next_version : Work ℕ
  next_version db = (ok (next_model_version call.run_key db.versions), db)

  abbrev pub compare_with : ModelVersionRecord → Refitted → Comparison
  compare_with champion refitted =
      let metric = text_or metadata.selection_metric refitted.selection_metric in
      better metric (lab.challenger_score metric)
        (score_champion lab champion refitted.holdout_columns metric) call.margin

  abbrev pub decision : ModelVersionRecord → Refitted → ModelVersionRecord → Decision
  decision champion refitted row = record {
    promoted = (compare_with champion refitted).promote;
    comparison = compare_with champion refitted;
    challenger = row;
    champion_before = champion;
    rows_supplied = frame.rows;
    selected_model = refitted.selected_model;
  }

  -- From the registration on.
  unfoldable pub conclude : ModelVersionRecord → Refitted → ModelVersionRecord → Work Decision
  conclude champion refitted row = do
    publish_if (compare_with champion refitted).promote row
    pure (decision champion refitted row)

  abbrev pub score : Refitted → Option ℤ
  score refitted =
      lab.challenger_score (text_or metadata.selection_metric refitted.selection_metric)

  unfoldable pub enter : ModelVersionRecord → Refitted → ℕ → Work Decision
  enter champion refitted version = do
    write_bundle version
    row ← register version refitted (score refitted) (compare_with champion refitted)
    conclude champion refitted row

  -- From the comparison on.
  unfoldable pub decide : ModelVersionRecord → Refitted → Work Decision
  decide champion refitted = next_version >>= enter champion refitted

  abbrev pub champion_before : Work (Option ModelVersionRecord)
  champion_before db = (ok (champion_version call.run_key (some call.owner_id) db.versions), db)

  abbrev pub missing_target : Fault
  missing_target = no_target (call.repr (text_or metadata.target ""))

  unfoldable pub refit : ModelVersionRecord → Work Decision
  refit champion = do
    raise_if (lacks metadata.target frame.columns) missing_target
    attempt lab.prepare
    refitted ← attempt (lab.train (manual_model metadata))
    decide champion refitted

  unfoldable pub retrain : Work Decision
  retrain = do found ← champion_before; champion ← or_reject found no_champion; refit champion
