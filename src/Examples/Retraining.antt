-- ===== src/Examples/Retraining.antt =====
-- One retraining that wins, at concrete inputs.
use autonomous_ai_analyst.Base.{[], ◌∷◌, true, some, none, arith, ◌≡◌, ◌⊎◌, false, refl}
use autonomous_ai_analyst.Base.Int.{pos, ◌-ℤ◌}
use autonomous_ai_analyst.Versions.{
  champion_version, next_model_version, add_model_version, promote_model_version,
}
use autonomous_ai_analyst.Registry.{suffix_for, better, register_challenger}
use autonomous_ai_analyst.Registry.Decimal.{decimal}
use autonomous_ai_analyst.Storage.{publish_run}
use autonomous_ai_analyst.Database.{Database}
use autonomous_ai_analyst.Pipeline.Work.{ok, ◌>>=◌, ◌>>◌}
use autonomous_ai_analyst.Retraining.Refit.{
  RunMetadata, Refitted, Lab, Frame, Call, score_champion, write_bundle, register, publish_if,
  conclude, enter, decide, refit, retrain,
}
use autonomous_ai_analyst.Retraining.Served.{IsUnchanged}
use autonomous_ai_analyst.Retraining.Decision.{Replaced, retrain-Decided}
use autonomous_ai_analyst.Examples.Data.{database, version_of}

abbrev call : Call
call = record {
  version_id = "v3";
  run_key = "rb";
  owner_id = "bob";
  margin = 50000;
  size_of = λ name. 7;
  notes = λ comparison. [];
  repr = λ text. text;
  now = 40;
}

abbrev frame : Frame
frame = record { columns = "price" ∷ "area" ∷ []; rows = 30 }

abbrev metadata : RunMetadata
metadata = record {
  target = some "price";
  mode = "auto";
  selected_model = some "forest";
  selection_metric = some "rmse";
}

abbrev refitted : Refitted
refitted = record {
  selected_model = "boost";
  selection_metric = "rmse";
  holdout_columns = "area" ∷ [];
}

abbrev lab : Lab
lab = record {
  prepare = ok tt;
  train = λ pinned. ok refitted;
  challenger_score = λ metric. some (pos 17);
  load = λ suffix. some (record { has_pipeline = true; feature_columns = "area" ∷ [] });
  champion_score = λ metric. some (pos 20);
  dump_bundle = ok tt;
}

abbrev before : Database
before = record database {
  versions =
      version_of "v1" "rb" 1 true
      ∷ record (version_of "v2" "rb" 2 false) { artifact_suffix = "_v2_model.pkl" }
      ∷ [];
}

abbrev after : Database
after = (retrain call frame metadata lab before).1

-- The retraining has ended with a promotion.
retrain-Decided_example :
    ((true ≡ false) × IsUnchanged "rb" (some "bob") before after)
    ⊎ ((true ≡ true) × Replaced call frame metadata lab "rb" none (some "bob") before after)
unfolding retrain refit decide enter conclude publish_if register write_bundle score_champion
    register_challenger champion_version next_model_version add_model_version promote_model_version
    publish_run better suffix_for decimal ◌-ℤ◌ ◌>>=◌ ◌>>◌
retrain-Decided_example =
    retrain-Decided call frame metadata lab "rb" none (some "bob") before (refl, (refl, tt))
      ((refl, omega arith), ((refl, omega arith), tt)) refl refl
