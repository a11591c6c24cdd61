-- ===== src/Registry/History.antt =====
-- Histories of the model versions: any sequence of the registry's registrations
-- (backend/registry.py), promotions and deletions (backend/db.py).
use mathlib.Core.Option.{some-injective}
use autonomous_ai_analyst.Base.{
  ℕ, ◌≤◌, String, List, [], ◌∷◌, ◌++◌, map, Bool, true, false, ◌&&◌, Option, none, some, ◌==◌, ◌≡◌,
  ◌⊎◌, refl, sym, subst, ap, ◌∙◌, arith, ==→eq, Bool-cases, Option-cases, inl, inr, select,
  select-append, length, length-append, delete_where,
}
use autonomous_ai_analyst.Common.{Json}
use autonomous_ai_analyst.Table.{
  get, update, add, IsKeyed, add-eq, add-IsKeyed, update-IsKeyed, delete_where-IsKeyed, ascending,
  length-order_by,
}
use autonomous_ai_analyst.Versions.{
  ModelVersionRecord, version_key, of_run, add_model_version, list_model_versions,
  promote_model_version, delete_model_versions_for_run, crowned, demote_incumbent,
}
use autonomous_ai_analyst.Versions.Champions.{champions, serves, champions-crowned, champions-other}
use autonomous_ai_analyst.Registry.Rules.{
  Trained, Comparison, register_initial, register_challenger, challenger_row, first_row,
}

-- Version ids are unique, and no run has two champions.
pub record Single (vs : List ModelVersionRecord) : Type 0 where
  pub keyed : IsKeyed version_key vs
  pub one : (run : String) → length (champions run none vs) ≤ 1

get-map_demote :
    (k run id : String) (now : ℕ) (vs : List ModelVersionRecord)
    → get version_key k vs ≡ none
    → get version_key k (map (demote_incumbent run id now) vs) ≡ none
get-map_demote k run id now [] e = refl
get-map_demote k run id now (v ∷ vs) e = ground (arith, get-map_demote k run id now vs)

demote-IsKeyed :
    (run id : String) (now : ℕ) (vs : List ModelVersionRecord)
    → IsKeyed version_key vs
    → IsKeyed version_key (map (demote_incumbent run id now) vs)
demote-IsKeyed run id now [] u = tt
demote-IsKeyed run id now (v ∷ vs) u =
    ground (arith, get-map_demote v.version_id run id now vs, demote-IsKeyed run id now vs)

promote-Single :
    (id : String) (notes : Json) (now : ℕ) (vs ws : List ModelVersionRecord)
    (row : ModelVersionRecord)
    → Single vs
    → promote_model_version id notes now vs ≡ some (ws, row)
    → Single ws
unfolding promote_model_version
promote-Single id notes now vs ws row s e = elim (Option-cases (get version_key id vs)) [
  | inl missing ↦ absurd (ground (arith))
  | inr (t, found) ↦
      let table =
        update version_key id (crowned notes now) (map (demote_incumbent t.run_key id now) vs) in
      let same : ws ≡ table = ground (arith, found) in
      subst Single (sym same) (record {
        keyed =
            update-IsKeyed version_key id (crowned notes now)
              (map (demote_incumbent t.run_key id now) vs) (λ v. refl)
              (demote-IsKeyed t.run_key id now vs s.keyed);
        one = λ run. elim (Bool-cases (t.run_key == run)) [
          | inl hit ↦
              subst (λ r. length (champions r none table) ≤ 1) (==→eq t.run_key run hit)
                (rw (champions-crowned t.run_key none id notes now vs t s.keyed found refl)
                  (omega arith))
          | inr other ↦
              rw
                (champions-other t.run_key none id notes now run none vs t other s.keyed found refl)
                (s.one run)
        ];
      })
]

append-one :
    (row : ModelVersionRecord) (vs : List ModelVersionRecord) (run : String)
    → (row.is_champion ≡ false) ⊎ (champions row.run_key none vs ≡ [])
    → length (champions run none vs) ≤ 1
    → length (champions run none (vs ++ row ∷ [])) ≤ 1
append-one row vs run h b = elim (Bool-cases (serves run none row)) [
  | inr unserved ↦ ground (
    arith,
    select-append (serves run none) vs (row ∷ []),
    length-append (champions run none vs) (select (serves run none) (row ∷ [])),
  )
  | inl served ↦ elim h [
    | inl plain ↦ absurd (ground (arith))
    | inr empty ↦
        let here : row.run_key ≡ run = ==→eq row.run_key run (ground (arith)) in
        let nobody : champions run none vs ≡ [] =
          subst (λ r. champions r none vs ≡ []) here empty in
        ground (
          arith,
          select-append (serves run none) vs (row ∷ []),
          length-append (champions run none vs) (select (serves run none) (row ∷ [])),
          ap length nobody,
        )
  ]
]

-- A row that is added is no champion, or its run has none.
add-Single :
    (row : ModelVersionRecord) (vs ws : List ModelVersionRecord)
    → Single vs
    → (row.is_champion ≡ false) ⊎ (champions row.run_key none vs ≡ [])
    → add version_key row vs ≡ some ws
    → Single ws
add-Single row vs ws s h e = record {
  keyed = add-IsKeyed version_key row vs s.keyed e;
  one = λ run. rw (add-eq version_key row vs {u = ws} e) (append-one row vs run h (s.one run));
}

delete-one :
    (p q : ModelVersionRecord → Bool) (vs : List ModelVersionRecord)
    → length (select p (delete_where q vs)) ≤ length (select p vs)
delete-one p q [] = omega arith
delete-one p q (v ∷ vs) = ground (arith, delete-one p q vs)

no-champions :
    (run : String) (vs : List ModelVersionRecord)
    → length (select (λ v. of_run run v && true) vs) ≡ 0
    → champions run none vs ≡ []
no-champions run [] e = refl
no-champions run (v ∷ vs) e = ground (arith, no-champions run vs)

none-champions :
    (run : String) (vs : List ModelVersionRecord)
    → list_model_versions run none vs ≡ []
    → champions run none vs ≡ []
unfolding list_model_versions
none-champions run vs e = no-champions run vs (
    sym (
      length-order_by (ascending λ (v : ModelVersionRecord). v.version)
        (select (λ v. of_run run v && true) vs))
    ∙ ap length e)

-- A call on the version table, with the moment at which it runs.
pub data RegistryCall : Type 0 where
  trains : String → String → String → Trained → RegistryCall
  retrains : String → String → String → ℕ → Trained → Comparison → Json → RegistryCall
  promotes : String → Json → RegistryCall
  erases : String → RegistryCall

abbrev pub table_or_same :
    List ModelVersionRecord
    → Option (List ModelVersionRecord × ModelVersionRecord)
    → List ModelVersionRecord
table_or_same vs none = vs
table_or_same vs (some (ws, row)) = ws

unfoldable pub apply_registry : ℕ × RegistryCall → List ModelVersionRecord → List ModelVersionRecord
apply_registry (now, trains id run owner trained) vs =
    table_or_same vs (register_initial id run owner trained now vs)
apply_registry (now, retrains id run owner version trained comparison notes) vs =
    table_or_same vs (register_challenger id run owner version trained comparison notes now vs)
apply_registry (now, promotes id notes) vs =
    table_or_same vs (promote_model_version id notes now vs)
apply_registry (now, erases run) vs = (delete_model_versions_for_run run vs).0

unfoldable pub run_registry :
    List (ℕ × RegistryCall) → List ModelVersionRecord → List ModelVersionRecord
run_registry [] vs = vs
run_registry (c ∷ cs) vs = run_registry cs (apply_registry c vs)

or_same-Single :
    (vs : List ModelVersionRecord) (o : Option (List ModelVersionRecord × ModelVersionRecord))
    → Single vs
    → ((ws : List ModelVersionRecord) (row : ModelVersionRecord) → o ≡ some (ws, row) → Single ws)
    → Single (table_or_same vs o)
or_same-Single vs none s h = s
or_same-Single vs (some (ws, row)) s h = h ws row refl

-- What follows an addition: the promotion of the row, or nothing.
abbrev or_added :
    List ModelVersionRecord × ModelVersionRecord
    → Option (List ModelVersionRecord × ModelVersionRecord)
    → Option (List ModelVersionRecord × ModelVersionRecord)
or_added fallback o = elim o [ none ↦ some fallback | some promoted ↦ some promoted ]

settled-Single :
    (id : String) (notes : Json) (now : ℕ) (row : ModelVersionRecord)
    (added ws : List ModelVersionRecord) (last : ModelVersionRecord)
    → Single added
    → or_added (added, row) (promote_model_version id notes now added) ≡ some (ws, last)
    → Single ws
settled-Single id notes now row added ws last s e =
    elim (Option-cases (promote_model_version id notes now added)) [
      | inl none_there ↦ subst Single (ap (λ p. p.0) (some-injective _ _ (rw none_there at e))) s
      | inr ((us, r), done) ↦ promote-Single id notes now added ws last s (done ∙ (rw done at e))
    ]

retrain-Single :
    (id run owner : String) (version : ℕ) (t : Trained) (c : Comparison) (notes : Json) (now : ℕ)
    (vs ws : List ModelVersionRecord) (last : ModelVersionRecord)
    → Single vs
    → register_challenger id run owner version t c notes now vs ≡ some (ws, last)
    → Single ws
unfolding register_challenger add_model_version
retrain-Single id run owner version t c notes now vs ws last s e =
    let row = challenger_row id run owner version t c notes now in
    elim (Option-cases (add version_key row vs)) [
      | inl taken ↦ absurd (ground (arith))
      | inr (added, a) ↦
          let s' = add-Single row vs added s (inl refl) a in
          elim (Bool-cases c.promote) [
            | inl won ↦ settled-Single id notes now row added ws last s' (ground (arith))
            | inr lost ↦ let same : added ≡ ws = ground (arith) in subst Single same s'
          ]
    ]

list-cases : {A : Type 0} (xs : List A) → (xs ≡ []) ⊎ ((x : A) × (ys : List A) × (xs ≡ x ∷ ys))
list-cases [] = inl refl
list-cases (x ∷ xs) = inr (x, xs, refl)

train-Single :
    (id run owner : String) (t : Trained) (now : ℕ) (vs ws : List ModelVersionRecord)
    (last : ModelVersionRecord)
    → Single vs
    → register_initial id run owner t now vs ≡ some (ws, last)
    → Single ws
unfolding register_initial add_model_version
train-Single id run owner t now vs ws last s e =
    elim (list-cases (list_model_versions run none vs)) [
      | inr (v, existing, some_there) ↦ let same : vs ≡ ws = ground (arith) in subst Single same s
      | inl none_there ↦ elim (Option-cases (add version_key (first_row id run owner t now) vs)) [
        | inl taken ↦ absurd (ground (arith))
        | inr (added, a) ↦
            settled-Single id [] now (first_row id run owner t now) added ws last
              (add-Single (first_row id run owner t now) vs added s
                (inr (none-champions run vs none_there)) a)
              (ground (arith))
      ]
    ]

apply-Single :
    (c : ℕ × RegistryCall) (vs : List ModelVersionRecord) → Single vs → Single (apply_registry c vs)
unfolding apply_registry delete_model_versions_for_run
apply-Single (now, trains id run owner t) vs s =
    or_same-Single vs (register_initial id run owner t now vs) s
      (λ ws row. train-Single id run owner t now vs ws row s)
apply-Single (now, retrains id run owner version t c notes) vs s =
    or_same-Single vs (register_challenger id run owner version t c notes now vs) s
      (λ ws row. retrain-Single id run owner version t c notes now vs ws row s)
apply-Single (now, promotes id notes) vs s =
    or_same-Single vs (promote_model_version id notes now vs) s
      (λ ws row. promote-Single id notes now vs ws row s)
apply-Single (now, erases run) vs s = record {
  keyed = delete_where-IsKeyed version_key (of_run run) vs s.keyed;
  one = λ other. omega (arith, delete-one (serves other none) (of_run run) vs, s.one other);
}

-- Through any sequence of first trainings, retrainings, promotions and deletions no run ever has two
-- champions, and version ids stay unique.
pub run_registry-Single :
    (cs : List (ℕ × RegistryCall)) (vs : List ModelVersionRecord)
    → Single vs
    → Single (run_registry cs vs)
unfolding run_registry
run_registry-Single [] vs s = s
run_registry-Single (c ∷ cs) vs s =
    run_registry-Single cs (apply_registry c vs) (apply-Single c vs s)
