-- ===== src/Examples/Models.antt =====
-- Model versions and the registry at concrete inputs.
use autonomous_ai_analyst.Base.{ℕ, List, [], ◌∷◌, true, false, none, some, ◌≡◌, refl, arith}
use autonomous_ai_analyst.Base.Int.{pos}
use autonomous_ai_analyst.Versions.{ModelVersionRecord, add_model_version, promote_model_version}
use autonomous_ai_analyst.Versions.Champions.{champions, promote-champions}
use autonomous_ai_analyst.Registry.{
  Trained, Comparison, suffix_for, challenger_row, register_challenger, resolve,
}
use autonomous_ai_analyst.Registry.History.{
  RegistryCall, trains, retrains, promotes, Single, run_registry, run_registry-Single,
}
use autonomous_ai_analyst.Registry.Serving.{promoted_challenger_serves}
use autonomous_ai_analyst.Examples.Data.{version_of, database}

abbrev versions : List ModelVersionRecord
versions = database.versions

abbrev demoted_first : ModelVersionRecord
demoted_first = record (version_of "v1" "rb" 1 true) {
  is_champion = false;
  superseded_at = some 30;
}

abbrev second : ModelVersionRecord
second = record (version_of "v2" "rb" 2 false) { is_champion = true; promoted_at = some 30 }

promote-champions_example :
    (champions "rb" none (demoted_first ∷ second ∷ []) ≡ second ∷ [])
    × (second.version_id ≡ "v2")
    × (second.artifact_suffix ≡ "_model.pkl")
    × (champions "ra" none (demoted_first ∷ second ∷ []) ≡ champions "ra" none versions)
unfolding promote_model_version
promote-champions_example =
    promote-champions "v2" [] 30 versions (version_of "v2" "rb" 2 false) second
      (demoted_first ∷ second ∷ []) "ra" none (refl, (refl, tt)) refl refl refl

abbrev trained : Trained
trained = record {
  selected_model = some "boost";
  metric_name = some "rmse";
  metric_value = some (pos 17);
  row_count = 20;
}

abbrev won : Comparison
won = record {
  promote = true;
  metric = "rmse";
  challenger = some (pos 17);
  champion = some (pos 20);
  improvement = some (pos 3);
  required = some 1000000;
  margin = 50000;
  lower_is_better = some true;
}

abbrev lost : Comparison
lost = record won { promote = false }

abbrev loser : ModelVersionRecord
loser = challenger_row "v3" "rb" "bob" 3 trained lost [] 30

abbrev winner : ModelVersionRecord
winner = record (challenger_row "v3" "rb" "bob" 3 trained won [] 30) {
  is_champion = true;
  promoted_at = some 30;
}

abbrev after : List ModelVersionRecord
after = demoted_first ∷ version_of "v2" "rb" 2 false ∷ winner ∷ []

promoted_challenger_serves_example :
    (resolve "rb" (some "bob") after ≡ record {
      versioned = true;
      version_id = some "v3";
      version = some 3;
      artifact_suffix = suffix_for 3;
      selected_model = some "boost";
      promoted_at = some 30;
    })
    × (resolve "ra" none after ≡ resolve "ra" none versions)
unfolding register_challenger add_model_version promote_model_version
promoted_challenger_serves_example =
    promoted_challenger_serves "v3" "rb" "bob" 3 trained won [] 30 versions after winner "ra"
      (some "bob") none refl (refl, (refl, tt)) refl refl refl

abbrev registry_calls : List (ℕ × RegistryCall)
registry_calls =
    (10, trains "v1" "rb" "bob" trained)
    ∷ (20, retrains "v2" "rb" "bob" 2 trained won [])
    ∷ (30, retrains "v3" "rb" "bob" 3 trained lost [])
    ∷ (40, promotes "v1" [])
    ∷ []

run_registry-Single_example : Single (run_registry registry_calls [])
run_registry-Single_example =
    run_registry-Single registry_calls [] (record { keyed = tt; one = λ run. omega arith })
