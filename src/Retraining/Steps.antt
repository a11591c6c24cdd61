-- ===== src/Retraining/Steps.antt =====
-- The steps of a retraining one by one (backend/retraining.py): what each writes and leaves.
use autonomous_ai_analyst.Base.{
  ℕ, String, List, [], ◌∷◌, Bool, true, false, Option, none, some, ◌≡◌, refl, sym, subst, arith,
  ◌∙◌, ◌==◌, map, select, select-append, eq_iff,
}
use mathlib.Core.List.{append-nil}
use autonomous_ai_analyst.Base.Int.{ℤ}
use autonomous_ai_analyst.Text.{◌+++◌}
use autonomous_ai_analyst.Versions.{ModelVersionRecord}
use autonomous_ai_analyst.Registry.{Comparison, register_challenger, suffix_for}
use autonomous_ai_analyst.Storage.{Store, File, Place, place, lies_at, exists_at, publish_run}
use autonomous_ai_analyst.Storage.Mirror.{exists_at-append, exists_at-downloaded, downloaded}
use autonomous_ai_analyst.Database.{Database}
use autonomous_ai_analyst.Pipeline.Work.{Fault, Attempt, ok, raised, go_on, Work, ◌>>=◌, ◌>>◌}
use autonomous_ai_analyst.Retraining.Refit.{
  RunMetadata, Refitted, Lab, Frame, Call, enrolled, written, rewritten, file_at, write_bundle,
  store_bundle, register, publish_if, raise_if, trained_as,
}

-- A property of what a call gives and leaves is that of its parts.
go_on-case :
    {A B : Type 0} (P : Attempt B → Database → Type 0) (r : Attempt A) (f : A → Work B)
    (db : Database)
    → ((e : Fault) → r ≡ raised e → P (raised e) db)
    → ((a : A) → r ≡ ok a → P (f a db).0 (f a db).1)
    → P (go_on r f db).0 (go_on r f db).1
go_on-case P (ok a) f db h k = k a refl
go_on-case P (raised e) f db h k = h e refl

pub bind :
    {A B : Type 0} (P : Attempt B → Database → Type 0) (m : Work A) (f : A → Work B) (db : Database)
    → ((e : Fault) → (m db).0 ≡ raised e → P (raised e) (m db).1)
    → ((a : A) → (m db).0 ≡ ok a → P (f a (m db).1).0 (f a (m db).1).1)
    → P ((m >>= f) db).0 ((m >>= f) db).1
unfolding ◌>>=◌
bind P m f db h k = go_on-case P (m db).0 f (m db).1 h k

pub next :
    {A B : Type 0} (P : Attempt B → Database → Type 0) (m : Work A) (k : Work B) (db : Database)
    → ((e : Fault) → (m db).0 ≡ raised e → P (raised e) (m db).1)
    → ((a : A) → (m db).0 ≡ ok a → P (k (m db).1).0 (k (m db).1).1)
    → P ((m >> k) db).0 ((m >> k) db).1
unfolding ◌>>◌
next P m k db h g = bind P m (λ _. k) db h g

pub next_still :
    {A B : Type 0} (P : Attempt B → Database → Type 0) (m : Work A) (k : Work B) (db : Database)
    → (m db).1 ≡ db
    → ((e : Fault) → P (raised e) db)
    → P (k db).0 (k db).1
    → P ((m >> k) db).0 ((m >> k) db).1
next_still P m k db same h g =
    next P m k db (λ e f. subst (P (raised e)) (sym same) (h e))
      λ a f. subst (λ d. P (k d).0 (k d).1) (sym same) g

pub raise_if-still : (b : Bool) (e : Fault) (db : Database) → (raise_if b e db).1 ≡ db
raise_if-still true e db = refl
raise_if-still false e db = refl

enrolled-raised :
    (r : Option (List ModelVersionRecord × ModelVersionRecord)) (db : Database) (e : Fault)
    → (enrolled r db).0 ≡ raised e
    → (enrolled r db).1 ≡ db
enrolled-raised none db e h = refl
enrolled-raised (some (vs, row)) db e h = absurd (ground arith)

enrolled-ok :
    (r : Option (List ModelVersionRecord × ModelVersionRecord)) (db : Database)
    (row : ModelVersionRecord)
    → (enrolled r db).0 ≡ ok row
    → (vs : List ModelVersionRecord) × (r ≡ some (vs, row))
      × ((enrolled r db).1 ≡ record db { versions = vs })
enrolled-ok none db row h = absurd (ground arith)
enrolled-ok (some (vs, row')) db row h = (vs, ground arith, refl)

module _ (call : Call) (frame : Frame) (metadata : RunMetadata) (lab : Lab) where
  exists_at-rewritten :
      (p q : Place) (files : List File)
      → exists_at q (map (rewritten call frame metadata lab p) files) ≡ exists_at q files
  exists_at-rewritten p q [] = refl
  exists_at-rewritten p q (f ∷ fs) = ground (arith, exists_at-rewritten p q fs)

  exists_at_written :
      (suffix : String) (s : Store)
      → exists_at (place call.run_key suffix) (written call frame metadata lab suffix s).files
        ≡ true
  exists_at_written suffix s =
      let p = place call.run_key suffix in
      ground (arith, exists_at-rewritten p p s.files, exists_at-downloaded call.size_of p s.files)

  written-keeps :
      (p : Place) (suffix : String) (s : Store)
      → exists_at p s.files ≡ true
      → exists_at p (written call frame metadata lab suffix s).files ≡ true
  written-keeps p suffix s h =
      let q = place call.run_key suffix in
      ground (
        arith,
        exists_at-rewritten q p s.files,
        exists_at-append p s.files (downloaded call.size_of q ∷ []),
      )

  rewritten-other :
      (p q : Place) (files : List File)
      → (p.key == q.key) ≡ false
      → select (lies_at q) (map (rewritten call frame metadata lab p) files)
        ≡ select (lies_at q) files
  rewritten-other p q [] ne = refl
  rewritten-other p q (f ∷ fs) ne = ground (
    arith,
    rewritten-other p q fs ne,
    eq_iff f.name q.key,
    eq_iff f.name p.key,
    eq_iff p.key q.key,
  )

  -- A file at another place stays as it is.
  written-other :
      (q : Place) (suffix : String) (s : Store)
      → ((place call.run_key suffix).key == q.key) ≡ false
      → select (lies_at q) (written call frame metadata lab suffix s).files
        ≡ select (lies_at q) s.files
  written-other q suffix s ne =
      let p = place call.run_key suffix in
      ground (
        arith,
        rewritten-other p q s.files ne,
        select-append (lies_at q) s.files (file_at call frame metadata lab p ∷ []),
        append-nil (select (lies_at q) s.files),
        ne,
      )

  pub write_bundle-other :
      (q : Place) (n : ℕ) (db : Database)
      → ((place call.run_key (suffix_for n)).key == q.key) ≡ false
      → ((place call.run_key (suffix_for n +++ ".sig")).key == q.key) ≡ false
      → select (lies_at q) (write_bundle call frame metadata lab n db).1.store.files
        ≡ select (lies_at q) db.store.files
  unfolding write_bundle ◌>>◌ ◌>>=◌
  write_bundle-other q n db bundle signature =
      go_on-case (λ r db'. select (lies_at q) db'.store.files ≡ select (lies_at q) db.store.files)
        lab.dump_bundle (λ _. store_bundle call frame metadata lab n) db (λ e h. refl)
        (λ a h.
          written-other q (suffix_for n +++ ".sig")
            (written call frame metadata lab (suffix_for n) db.store) signature
          ∙ written-other q (suffix_for n) db.store bundle)

  publish_run-files :
      (extra : List String) (s : Store) → (publish_run call.run_key extra s).0.files ≡ s.files
  unfolding publish_run
  publish_run-files extra s = ground arith

  pub publish_if-keeps :
      (b : Bool) (row : ModelVersionRecord) (db : Database)
      → ((publish_if call frame metadata lab b row db).1.versions ≡ db.versions)
        × ((publish_if call frame metadata lab b row db).1.store.files ≡ db.store.files)
        × ((publish_if call frame metadata lab b row db).0 ≡ ok tt)
  unfolding publish_if
  publish_if-keeps true row db = (refl, publish_run-files (row.artifact_suffix ∷ []) db.store, refl)
  publish_if-keeps false row db = (refl, refl, refl)

  -- What `register` gives and leaves.
  pub register-raised :
      (n : ℕ) (t : Refitted) (sc : Option ℤ) (c : Comparison) (db : Database) (e : Fault)
      → (register call frame metadata lab n t sc c db).0 ≡ raised e
      → (register call frame metadata lab n t sc c db).1 ≡ db
  unfolding register
  register-raised n t sc c db e h = enrolled-raised _ db e h

  pub register-ok :
      (n : ℕ) (t : Refitted) (sc : Option ℤ) (c : Comparison) (db : Database)
      (row : ModelVersionRecord)
      → (register call frame metadata lab n t sc c db).0 ≡ ok row
      → (vs : List ModelVersionRecord) × (register_challenger call.version_id call.run_key
            call.owner_id n
            (trained_as call frame metadata lab t sc)
            c
            (call.notes c)
            call.now
            db.versions
          ≡ some (vs, row))
        × ((register call frame metadata lab n t sc c db).1 ≡ record db { versions = vs })
  unfolding register
  register-ok n t sc c db row h = enrolled-ok _ db row h

  pub write_bundle-versions :
      (n : ℕ) (db : Database) → (write_bundle call frame metadata lab n db).1.versions ≡ db.versions
  unfolding write_bundle ◌>>◌ ◌>>=◌
  write_bundle-versions n db =
      go_on-case (λ r db'. db'.versions ≡ db.versions) lab.dump_bundle
        (λ _. store_bundle call frame metadata lab n) db (λ e h. refl) (λ a h. refl)

  pub write_bundle-ok :
      (n : ℕ) (db : Database) (u : Unit {0})
      → (write_bundle call frame metadata lab n db).0 ≡ ok u
      → exists_at
          (place call.run_key (suffix_for n))
          (write_bundle call frame metadata lab n db).1.store.files
        ≡ true
  unfolding write_bundle ◌>>◌ ◌>>=◌
  write_bundle-ok n db u =
      go_on-case
        (λ r db'. r ≡ ok u → exists_at (place call.run_key (suffix_for n)) db'.store.files ≡ true)
        lab.dump_bundle (λ _. store_bundle call frame metadata lab n) db
        (λ e h k. absurd (ground arith))
        (λ a h k.
          written-keeps (place call.run_key (suffix_for n)) (suffix_for n +++ ".sig")
            (written call frame metadata lab (suffix_for n) db.store)
            (exists_at_written (suffix_for n) db.store))
