-- ===== src/Retraining/Served.antt =====
-- What a run is served: the version that it resolves to, and the files of its bundle
-- (`resolve` of backend/registry.py, backend/retraining.py).
use autonomous_ai_analyst.Base.{String, Option, ◌≡◌, ap, ◌∙◌, select}
use autonomous_ai_analyst.Text.{◌+++◌}
use autonomous_ai_analyst.Registry.{resolve}
use autonomous_ai_analyst.Storage.{place, lies_at}
use autonomous_ai_analyst.Database.{Database}

module _ (any : String) (scope : Option String) where
  abbrev pub suffix_served : Database → String
  suffix_served db = (resolve any scope db.versions).artifact_suffix

  abbrev pub IsSameFile : String → Database → Database → Type 0
  IsSameFile suffix db db' =
      select (lies_at (place any suffix)) db'.store.files
      ≡ select (lies_at (place any suffix)) db.store.files

  -- The bundle that had been served, and its signature, are on the disk as they were.
  abbrev pub IsKept : Database → Database → Type 0
  IsKept db db' =
      IsSameFile (suffix_served db) db db' × IsSameFile (suffix_served db +++ ".sig") db db'

  -- The same version is served, from the same files.
  abbrev pub IsUnchanged : Database → Database → Type 0
  IsUnchanged db db' =
      (resolve any scope db'.versions ≡ resolve any scope db.versions) × IsKept db db'

  pub IsKept-files : (db a b : Database) → b.store.files ≡ a.store.files → IsKept db a → IsKept db b
  IsKept-files db a b e (x, y) = (
    ap (select (lies_at (place any (suffix_served db)))) e ∙ x,
    ap (select (lies_at (place any (suffix_served db +++ ".sig")))) e ∙ y,
  )
