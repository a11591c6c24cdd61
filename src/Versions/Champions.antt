-- ===== src/Versions/Champions.antt =====
-- Promotion: which rows are champions afterwards.
use autonomous_ai_analyst.Base.{
  ℕ, String, List, [], ◌∷◌, map, Bool, false, ◌&&◌, Option, none, some, ◌==◌, ◌≡◌, refl, arith,
  select, if◌then◌else◌, Bool-cases, inl, inr, eq_iff, ==→eq, subst,
}
use autonomous_ai_analyst.Common.{Json, owned_by}
use autonomous_ai_analyst.Table.{get, update, IsKeyed, key-get}
use autonomous_ai_analyst.Versions.Records.{
  ModelVersionRecord, version_key, of_run, demote_incumbent, crowned, promote_model_version,
}

-- The test of `champion_version`'s query.
abbrev pub serves : String → Option String → ModelVersionRecord → Bool
serves run owner v = of_run run v && v.is_champion && owned_by owner v.owner_id

abbrev pub champions : String → Option String → List ModelVersionRecord → List ModelVersionRecord
champions run owner = select (serves run owner)

module _ (run : String) (owner : Option String) (id : String) (notes : Json) (moment : ℕ) where
  -- Where the promoted id is not, the run is left without a champion.
  champions-demoted :
      (vs : List ModelVersionRecord)
      → get version_key id vs ≡ none
      → champions run owner (map (demote_incumbent run id moment) vs) ≡ []
  champions-demoted [] e = refl
  champions-demoted (v ∷ vs) e = ground (arith, champions-demoted vs)

  pub champions-crowned :
      (vs : List ModelVersionRecord) (t : ModelVersionRecord)
      → IsKeyed version_key vs
      → get version_key id vs ≡ some t
      → t.run_key ≡ run
      → champions run owner
          (update version_key id (crowned notes moment) (map (demote_incumbent run id moment) vs))
        ≡ (if owned_by owner t.owner_id then crowned notes moment t ∷ [] else [])
  champions-crowned [] t u e r = cc
  champions-crowned (v ∷ vs) t u e r = elim (Bool-cases (v.version_id == id)) [
    | inl hit ↦
        let absent : get version_key id vs ≡ none =
          subst (λ k. get version_key k vs ≡ none) (==→eq v.version_id id hit) u.0 in
        ground (arith, eq_iff v.run_key run, champions-demoted vs absent)
    | inr miss ↦ ground (arith, champions-crowned vs t u.1)
  ]

  champions-map_demote :
      (other : String) (scope : Option String) (vs : List ModelVersionRecord)
      → (run == other) ≡ false
      → champions other scope (map (demote_incumbent run id moment) vs) ≡ champions other scope vs
  champions-map_demote other scope [] ne = refl
  champions-map_demote other scope (v ∷ vs) ne = ground (
    arith,
    eq_iff v.run_key run,
    eq_iff v.run_key other,
    eq_iff run other,
    champions-map_demote other scope vs ne,
  )

  -- Another run's champions are not touched.
  pub champions-other :
      (other : String) (scope : Option String) (vs : List ModelVersionRecord)
      (t : ModelVersionRecord)
      → (run == other) ≡ false
      → IsKeyed version_key vs
      → get version_key id vs ≡ some t
      → t.run_key ≡ run
      → champions other scope
          (update version_key id (crowned notes moment) (map (demote_incumbent run id moment) vs))
        ≡ champions other scope vs
  champions-other other scope [] t ne u e r = cc
  champions-other other scope (v ∷ vs) t ne u e r = elim (Bool-cases (v.version_id == id)) [
    | inl hit ↦ ground (
      arith,
      eq_iff v.run_key run,
      eq_iff v.run_key other,
      eq_iff run other,
      champions-map_demote other scope vs ne,
    )
    | inr miss ↦ ground (
      arith,
      eq_iff v.run_key run,
      eq_iff v.run_key other,
      eq_iff run other,
      champions-other other scope vs t ne u.1,
    )
  ]

-- A promotion that finds its version leaves that version as the only champion of its run, with its
-- artifact, whatever champions the run had; and it leaves the champions of every other run alone,
-- for every owner's view of them.
pub promote-champions :
    (id : String) (notes : Json) (moment : ℕ) (vs : List ModelVersionRecord)
    (t row : ModelVersionRecord) (ws : List ModelVersionRecord) (other : String)
    (scope : Option String)
    → IsKeyed version_key vs
    → get version_key id vs ≡ some t
    → promote_model_version id notes moment vs ≡ some (ws, row)
    → (t.run_key == other) ≡ false
    → (champions t.run_key none ws ≡ row ∷ [])
      × (row.version_id ≡ id)
      × (row.artifact_suffix ≡ t.artifact_suffix)
      × (champions other scope ws ≡ champions other scope vs)
unfolding promote_model_version
promote-champions id notes moment vs t row ws other scope u e p ne = ground (
  arith,
  champions-crowned t.run_key none id notes moment vs t u e,
  champions-other t.run_key none id notes moment other scope vs t ne u e,
  key-get version_key id vs e,
)
