-- ===== src/Retraining/Decision.antt =====
-- What is served after a retraining (`retrain` of backend/retraining.py).
use autonomous_ai_analyst.Base.{
  ℕ, String, List, true, false, Option, none, some, ◌≡◌, ◌⊎◌, inl, inr, refl, sym, subst, ap, arith,
  ◌∙◌, ◌==◌, Bool-cases, ◌<◌, ◌≤◌, All, length,
}
use autonomous_ai_analyst.Base.Int.{ℤ}
use autonomous_ai_analyst.Text.{◌+++◌, chars}
use autonomous_ai_analyst.Common.{owned_by}
use autonomous_ai_analyst.Table.{IsKeyed}
use autonomous_ai_analyst.Versions.{
  ModelVersionRecord, version_key, champion_version, next_model_version,
}
use autonomous_ai_analyst.Registry.{register_challenger, resolve, suffix_for}
use autonomous_ai_analyst.Registry.Serving.{refused_challenger_serves, promoted_challenger_serves}
use autonomous_ai_analyst.Registry.Suffixes.{IsNamed, champion-IsPast, resolve-suffix}
use autonomous_ai_analyst.Storage.{place, exists_at}
use autonomous_ai_analyst.Database.{Database}
use autonomous_ai_analyst.Pipeline.Work.{Attempt, ok, raised, pure, attempt, ◌>>=◌, ◌>>◌}
use autonomous_ai_analyst.Retraining.Refit.{
  RunMetadata, Refitted, Lab, Frame, Decision, Call, write_bundle, register, publish_if, decide,
  refit, retrain, lacks, no_champion, missing_target, manual_model, or_reject, raise_if, trained_as,
  compare_with, conclude, enter, score, decision,
}
use autonomous_ai_analyst.Retraining.Served.{IsSameFile, IsKept, IsUnchanged, IsKept-files}
use autonomous_ai_analyst.Retraining.Names.{apart, differ, names_apart}
use autonomous_ai_analyst.Retraining.Steps.{
  bind, next, next_still, raise_if-still, publish_if-keeps, register-raised, register-ok,
  write_bundle-versions, write_bundle-ok, write_bundle-other,
}

module _ (call : Call) (frame : Frame) (metadata : RunMetadata) (lab : Lab) (any : String)
    (mine scope : Option String) where
  -- The new version is served from a bundle that is on the disk, other runs as before, and what had
  -- been served is still there.
  pub record Replaced (db db' : Database) : Type 0 where
    pub version_id : (resolve call.run_key mine db'.versions).version_id ≡ some call.version_id
    pub on_disk :
        exists_at
          (place call.run_key (resolve call.run_key mine db'.versions).artifact_suffix)
          db'.store.files
        ≡ true
    pub kept : IsKept any scope db db'
    pub others :
        ((call.run_key == any) ≡ true)
        ⊎ (resolve any scope db'.versions ≡ resolve any scope db.versions)

  abbrev pub Decided : Database → Attempt Decision → Database → Type 0
  Decided db (raised e) db' = IsUnchanged any scope db db'
  Decided db (ok d) db' =
      ((d.comparison.promote ≡ false) × IsUnchanged any scope db db')
      ⊎ ((d.comparison.promote ≡ true) × Replaced db db')

  -- Ids of versions are unique, each row has the suffix of its version, the keys of the two runs have
  -- one size, and `mine` is a scope of the owner.
  record IsSound (db : Database) : Type 0 where
    keyed : IsKeyed version_key db.versions
    named : All IsNamed db.versions
    sized : length (chars call.run_key) ≡ length (chars any)
    own : owned_by mine call.owner_id ≡ true

  -- Writing the bundle of the next version keeps what is served.
  write_bundle-IsKept :
      (db : Database)
      → IsSound db
      → 2 ≤ next_model_version call.run_key db.versions
      → IsKept any scope db
          (write_bundle call frame metadata lab (next_model_version call.run_key db.versions) db).1
  write_bundle-IsKept db sound late =
      let n = next_model_version call.run_key db.versions in
      let (m, suffix, below) = resolve-suffix any scope db.versions sound.named in
      let past : (call.run_key ≡ any) → m < n = λ run. elim below [
        | inl under ↦ subst (λ r. m < next_model_version r db.versions) (sym run) under
        | inr first_one ↦ omega (arith, first_one, late)
      ] in
      let (a, b, c, d) = names_apart call.run_key any n m past sound.sized in
      let kept : IsSameFile any scope (suffix_for m) db
            (write_bundle call frame metadata lab n db).1
          × IsSameFile any scope (suffix_for m +++ ".sig") db
              (write_bundle call frame metadata lab n db).1 =
        (
          write_bundle-other call frame metadata lab (place any (suffix_for m)) n db (differ _ _ a)
              (differ _ _ b),
          write_bundle-other call frame metadata lab (place any (suffix_for m +++ ".sig")) n db
              (differ _ _ c) (differ _ _ d),
        ) in
      subst
        (λ name.
          IsSameFile any scope name db (write_bundle call frame metadata lab n db).1
          × IsSameFile any scope (name +++ ".sig") db (write_bundle call frame metadata lab n db).1)
        (sym suffix) kept

  -- A challenger that has been entered in a table, by the comparison that it was entered with.
  entered :
      (n : ℕ) (t : Refitted) (sc : Option ℤ) (d : Decision) (before after : Database)
      (vs : List ModelVersionRecord) (row : ModelVersionRecord)
      → IsSound before
      → register_challenger call.version_id call.run_key call.owner_id n
          (trained_as call frame metadata lab t sc)
          d.comparison
          (call.notes d.comparison)
          call.now
          before.versions
        ≡ some (vs, row)
      → after.versions ≡ vs
      → exists_at (place call.run_key (suffix_for n)) after.store.files ≡ true
      → IsKept any scope before after
      → Decided before (ok d) after
  entered n t sc d before after vs row sound e same there kept =
      elim (Bool-cases d.comparison.promote) [
        | inr lost ↦ inl (
          lost,
          (
            rw same (
                refused_challenger_serves call.version_id call.run_key call.owner_id n
                  (trained_as call frame metadata lab t sc) d.comparison (call.notes d.comparison)
                  call.now before.versions vs row any scope lost e),
            kept,
          ),
        )
        | inl won ↦
            let facts = λ (other : String) (ne : (call.run_key == other) ≡ false).
              promoted_challenger_serves call.version_id call.run_key call.owner_id n
                (trained_as call frame metadata lab t sc) d.comparison (call.notes d.comparison)
                call.now before.versions vs row other mine scope sound.own sound.keyed won e ne in
            let new = (facts (call.run_key +++ "x") (apart call.run_key)).0 in
            let suffix : (resolve call.run_key mine after.versions).artifact_suffix ≡ suffix_for n =
              rw same (ap (λ s. s.artifact_suffix) new) in
            inr (
              won,
              record {
                version_id = rw same (ap (λ s. s.version_id) new);
                on_disk =
                    subst (λ name. exists_at (place call.run_key name) after.store.files ≡ true)
                      (sym suffix) there;
                kept = kept;
                others = elim (Bool-cases (call.run_key == any)) [
                  | inl own ↦ inl own
                  | inr ne ↦ inr (rw same (facts any ne).1)
                ];
              },
            )
      ]

  conclude-Decided :
      (champion : ModelVersionRecord) (t : Refitted) (n : ℕ) (db db' : Database)
      (vs : List ModelVersionRecord) (row : ModelVersionRecord)
      → IsSound db
      → register_challenger call.version_id call.run_key call.owner_id n
          (trained_as call frame metadata lab t (score call frame metadata lab t))
          (compare_with call frame metadata lab champion t)
          (call.notes (compare_with call frame metadata lab champion t))
          call.now
          db.versions
        ≡ some (vs, row)
      → db'.versions ≡ vs
      → exists_at (place call.run_key (suffix_for n)) db'.store.files ≡ true
      → IsKept any scope db db'
      → Decided db
          (conclude call frame metadata lab champion t row db').0
          (conclude call frame metadata lab champion t row db').1
  unfolding conclude
  conclude-Decided champion t n db db' vs row sound e same there kept =
      let c = compare_with call frame metadata lab champion t in
      let (versions, files, fine) = publish_if-keeps call frame metadata lab c.promote row db' in
      next (Decided db) (publish_if call frame metadata lab c.promote row)
        (pure (decision call frame metadata lab champion t row)) db' (λ f h. absurd (ground arith))
        λ u h.
          entered n t (score call frame metadata lab t)
            (decision call frame metadata lab champion t row) db
            (publish_if call frame metadata lab c.promote row db').1 vs row sound e
            (versions ∙ same)
            (subst (λ fs. exists_at (place call.run_key (suffix_for n)) fs ≡ true) (sym files)
              there)
            (IsKept-files any scope db db' (publish_if call frame metadata lab c.promote row db').1
              files kept)

  enter-Decided :
      (champion : ModelVersionRecord) (t : Refitted) (n : ℕ) (db : Database)
      → IsSound db
      → IsKept any scope db (write_bundle call frame metadata lab n db).1
      → Decided db
          (enter call frame metadata lab champion t n db).0
          (enter call frame metadata lab champion t n db).1
  unfolding enter
  enter-Decided champion t n db sound kept =
      let c = compare_with call frame metadata lab champion t in
      let sc = score call frame metadata lab t in
      let db1 = (write_bundle call frame metadata lab n db).1 in
      let same = write_bundle-versions call frame metadata lab n db in
      next (Decided db) (write_bundle call frame metadata lab n)
        (register call frame metadata lab n t sc c >>= conclude call frame metadata lab champion t)
        db (λ e h. (ap (resolve any scope) same, kept))
        λ u stored.
          bind (Decided db) (register call frame metadata lab n t sc c)
            (conclude call frame metadata lab champion t) db1
            (λ e h.
              let left = register-raised call frame metadata lab n t sc c db1 e h in
              subst (IsUnchanged any scope db) (sym left) (ap (resolve any scope) same, kept))
            λ row h.
              let (vs, entry, left) = register-ok call frame metadata lab n t sc c db1 row h in
              conclude-Decided champion t n db (register call frame metadata lab n t sc c db1).1 vs
                row sound
                (subst
                  (λ table.
                    register_challenger call.version_id call.run_key call.owner_id n
                      (trained_as call frame metadata lab t sc) c (call.notes c) call.now table
                    ≡ some (vs, row))
                  same entry)
                (ap (λ d. d.versions) left)
                (subst (λ d. exists_at (place call.run_key (suffix_for n)) d.store.files ≡ true)
                  (sym left) (write_bundle-ok call frame metadata lab n db u stored))
                (IsKept-files any scope db db1 (register call frame metadata lab n t sc c db1).1
                  (ap (λ d. d.store.files) left) kept)

  decide-Decided :
      (champion : ModelVersionRecord) (t : Refitted) (db : Database)
      → IsSound db
      → 2 ≤ next_model_version call.run_key db.versions
      → Decided db
          (decide call frame metadata lab champion t db).0
          (decide call frame metadata lab champion t db).1
  unfolding decide ◌>>=◌
  decide-Decided champion t db sound late =
      enter-Decided champion t (next_model_version call.run_key db.versions) db sound
        (write_bundle-IsKept db sound late)

  IsUnchanged-self : (db : Database) → IsUnchanged any scope db db
  IsUnchanged-self db = (refl, (refl, refl))

  trained-Decided :
      (champion : ModelVersionRecord) (db : Database)
      → IsSound db
      → 2 ≤ next_model_version call.run_key db.versions
      → let m =
          attempt (lab.train (manual_model metadata)) >>= decide call frame metadata lab champion in
        Decided db (m db).0 (m db).1
  trained-Decided champion db sound late =
      bind (Decided db) (attempt (lab.train (manual_model metadata)))
        (decide call frame metadata lab champion) db (λ e h. IsUnchanged-self db)
        λ t h. decide-Decided champion t db sound late

  refit-Decided :
      (champion : ModelVersionRecord) (db : Database)
      → IsSound db
      → 2 ≤ next_model_version call.run_key db.versions
      → Decided db
          (refit call frame metadata lab champion db).0
          (refit call frame metadata lab champion db).1
  unfolding refit
  refit-Decided champion db sound late =
      let m =
        attempt (lab.train (manual_model metadata)) >>= decide call frame metadata lab champion in
      next_still (Decided db)
        (raise_if (lacks metadata.target frame.columns) (missing_target call frame metadata lab))
        (attempt lab.prepare >> m) db (raise_if-still _ (missing_target call frame metadata lab) db)
        (λ e. IsUnchanged-self db)
        (next (Decided db) (attempt lab.prepare) m db (λ e h. IsUnchanged-self db)
          λ u h. trained-Decided champion db sound late)

  chosen-Decided :
      (found : Option ModelVersionRecord) (db : Database)
      → champion_version call.run_key (some call.owner_id) db.versions ≡ found
      → IsSound db
      → let m = or_reject found no_champion >>= refit call frame metadata lab in
        Decided db (m db).0 (m db).1
  unfolding ◌>>=◌
  chosen-Decided none db e sound = IsUnchanged-self db
  chosen-Decided (some champion) db e sound =
      let ((_, counted), past) =
        champion-IsPast call.run_key (some call.owner_id) db.versions champion sound.named e in
      refit-Decided champion db sound (omega (arith, counted, past))

  -- For a table of versions with unique ids, each row under the suffix of its version, and any run
  -- whose key has as many characters as that of the run retrained: a retraining that fails or loses
  -- changes nothing that anybody is served, neither the version that a run resolves to nor the files
  -- of its bundle and signature. One that wins is served to its owner, and with no scope, from a
  -- bundle that is on the disk; other runs resolve as before; and the bundles that had been served
  -- are still there as they were.
  pub retrain-Decided :
      (db : Database)
      → IsKeyed version_key db.versions
      → All IsNamed db.versions
      → length (chars call.run_key) ≡ length (chars any)
      → owned_by mine call.owner_id ≡ true
      → Decided db (retrain call frame metadata lab db).0 (retrain call frame metadata lab db).1
  unfolding retrain ◌>>=◌
  retrain-Decided db keyed named sized own =
      chosen-Decided (champion_version call.run_key (some call.owner_id) db.versions) db refl
        (record { keyed = keyed; named = named; sized = sized; own = own })
