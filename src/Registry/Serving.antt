-- ===== src/Registry/Serving.antt =====
-- What a run is served after a registration: `register_initial`, `register_challenger` and
-- `resolve` of backend/registry.py together.
use autonomous_ai_analyst.Base.{
  ℕ, String, List, [], ◌∷◌, map, true, false, Option, none, some, ◌==◌, ◌≡◌, refl, ap, ◌∙◌, arith,
  select-append, Option-cases, inl, inr, first, if◌then◌else◌,
}
use mathlib.Core.List.{append-nil}
use autonomous_ai_analyst.Common.{Json, owned_by}
use autonomous_ai_analyst.Table.{
  get, update, add, IsKeyed, add-eq, add-IsKeyed, get-add_self, order_by, descending,
}
use autonomous_ai_analyst.Versions.{
  ModelVersionRecord, version_key, add_model_version, champion_version, promote_model_version,
  crowned, demote_incumbent,
}
use autonomous_ai_analyst.Versions.Champions.{champions, serves, champions-crowned, champions-other}
use autonomous_ai_analyst.Registry.Rules.{
  Trained, Comparison, served, resolve, register_challenger, challenger_row, suffix_for,
}

-- What a run is served is decided by its champions.
resolve-champions :
    (run : String) (owner : Option String) (vs ws : List ModelVersionRecord)
    → champions run owner ws ≡ champions run owner vs
    → resolve run owner ws ≡ resolve run owner vs
unfolding resolve champion_version
resolve-champions run owner vs ws e =
    ap (λ cs. served (first (order_by (descending λ (v : ModelVersionRecord). v.version) cs))) e

resolve_sole :
    (run : String) (mine : Option String) (row : ModelVersionRecord) (ws : List ModelVersionRecord)
    → champions run mine ws ≡ row ∷ []
    → resolve run mine ws ≡ served (some row)
unfolding resolve champion_version
resolve_sole run mine row ws e =
    ap (λ cs. served (first (order_by (descending λ (v : ModelVersionRecord). v.version) cs))) e

champions-challenger :
    (run : String) (owner : Option String) (row : ModelVersionRecord)
    (vs ws : List ModelVersionRecord)
    → row.is_champion ≡ false
    → add_model_version row vs ≡ some ws
    → champions run owner ws ≡ champions run owner vs
unfolding add_model_version
champions-challenger run owner row vs ws e a = rw (add-eq version_key row vs a) (
    select-append (serves run owner) vs (row ∷ [])
    ∙ ground (arith, append-nil (champions run owner vs)))

-- A challenger that does not clear the comparison changes nothing that anybody is served: every run
-- resolves as before, for every owner.
pub refused_challenger_serves :
    (id run owner : String) (version : ℕ) (t : Trained) (c : Comparison) (notes : Json) (now : ℕ)
    (vs ws : List ModelVersionRecord) (row : ModelVersionRecord) (any : String)
    (scope : Option String)
    → c.promote ≡ false
    → register_challenger id run owner version t c notes now vs ≡ some (ws, row)
    → resolve any scope ws ≡ resolve any scope vs
unfolding register_challenger
refused_challenger_serves id run owner version t c notes now vs ws row any scope no_promotion e =
    elim (Option-cases (add_model_version (challenger_row id run owner version t c notes now) vs)) [
      | inl taken ↦ ground arith
      | inr (added, a) ↦
          resolve-champions any scope vs ws
            (ground (arith, champions-challenger any scope _ vs added refl a))
    ]

-- Once a challenger is promoted, its run is served from it, under its own version and artifact, both
-- to the owner's scope and with no scope, and no other run is served anything else than before.
pub promoted_challenger_serves :
    (id run owner : String) (version : ℕ) (t : Trained) (c : Comparison) (notes : Json) (now : ℕ)
    (vs ws : List ModelVersionRecord) (row : ModelVersionRecord) (other : String)
    (mine scope : Option String)
    → owned_by mine owner ≡ true
    → IsKeyed version_key vs
    → c.promote ≡ true
    → register_challenger id run owner version t c notes now vs ≡ some (ws, row)
    → (run == other) ≡ false
    → (resolve run mine ws ≡ record {
      versioned = true;
      version_id = some id;
      version = some version;
      artifact_suffix = suffix_for version;
      selected_model = t.selected_model;
      promoted_at = some now;
    })
      × (resolve other scope ws ≡ resolve other scope vs)
unfolding register_challenger add_model_version promote_model_version
promoted_challenger_serves id run owner version t c notes now vs ws row other mine scope own u p e
      ne =
    elim (Option-cases (add_model_version new vs)) [
      | inl taken ↦ ground arith
      | inr (added, a) ↦
          let there : get version_key id added ≡ some new =
            get-add_self version_key new vs (open_add a) in
          let keyed : IsKeyed version_key added = add-IsKeyed version_key new vs u (open_add a) in
          let table =
            update version_key id (crowned notes now) (map (demote_incumbent run id now) added) in
          let same : ws ≡ table = ground (arith, there) in
          let sole : champions run mine table ≡ crowned notes now new ∷ [] =
            champions-crowned run mine id notes now added new keyed there refl
            ∙ ap (λ b. if b then crowned notes now new ∷ [] else []) own in
          let others =
            champions-other run none id notes now other scope added new ne keyed there refl
            ∙ champions-challenger other scope new vs added refl a in
          (
            rw same (resolve_sole run mine (crowned notes now new) table sole),
            resolve-champions other scope vs ws (rw same others),
          )
    ]
  where
    new : ModelVersionRecord
    new = challenger_row id run owner version t c notes now

    open_add :
        {added : List ModelVersionRecord}
        → add_model_version new vs ≡ some added
        → add version_key new vs ≡ some added
    open_add a = a
