-- ===== src/Storage/Files.antt =====
-- The artifact files of a run, and `publish_run` and `purge_run` of
-- backend/utils/storage.py. A locked file is one whose `unlink` raises; a bucket that is not
-- reachable fails every call.
use Prim.Native.Char.{Char, code}
use autonomous_ai_analyst.Base.{
  ℕ, ◌+◌, String, List, [], ◌∷◌, ◌++◌, Bool, true, false, not, ◌&&◌, ◌||◌, Option, none, some, ◌==◌,
  eqb, delete_where, if◌then◌else◌, map,
}
use autonomous_ai_analyst.Text.{chars, ◌+++◌, elem}

pub data Root : Type 0 where
  metadata_dir model_dir : Root

abbrev pub same_root : Root → Root → Bool
same_root metadata_dir metadata_dir = true
same_root model_dir model_dir = true
same_root metadata_dir model_dir = false
same_root model_dir metadata_dir = false

pub record File : Type 0 where
  pub root : Root
  pub name : String
  pub size : ℕ
  pub locked : Bool

-- `none` is the local backend, whose put, get and delete do nothing.
pub record Bucket : Type 0 where
  pub keys : List String
  pub reachable : Bool

pub record Store : Type 0 where
  pub files : List File
  pub bucket : Option Bucket

-- A storage key, and the directory that the file of this name is in.
pub record Place : Type 0 where
  pub root : Root
  pub key : String

abbrev pub lies_at : Place → File → Bool
lies_at p f = same_root f.root p.root && (f.name == p.key)

-- `ARTIFACT_SUFFIXES`
abbrev pub artifact_suffixes : List String
artifact_suffixes = ".json" ∷ "_data.csv" ∷ "_model.pkl" ∷ "_model.pkl.sig" ∷ []

abbrev pub add_suffix : String → List String → List String
add_suffix suffix suffixes = if elem suffix suffixes then suffixes else suffixes ++ suffix ∷ []

-- Each extra bundle is followed by its signature.
abbrev pub add_suffixes : List String → List String → List String
add_suffixes [] suffixes = suffixes
add_suffixes (suffix ∷ extra) suffixes =
    add_suffixes extra (add_suffix (suffix +++ ".sig") (add_suffix suffix suffixes))

abbrev begins_with : List Char → List Char → Bool
begins_with [] cs = true
begins_with (p ∷ ps) [] = false
begins_with (p ∷ ps) (c ∷ cs) = eqb (code p) (code c) && begins_with ps cs

abbrev has_infix : List Char → List Char → Bool
has_infix ps [] = begins_with ps []
has_infix ps (c ∷ cs) = begins_with ps (c ∷ cs) || has_infix ps cs

-- `"_model.pkl" in suffix`
abbrev root_of : String → Root
root_of suffix = if has_infix (chars "_model.pkl") (chars suffix) then model_dir else metadata_dir

abbrev pub place : String → String → Place
place run_key suffix = record { root = root_of suffix; key = run_key +++ suffix }

unfoldable pub run_artifact_paths : String → List String → List Place
run_artifact_paths run_key extra_model_suffixes =
    map (place run_key) (add_suffixes extra_model_suffixes artifact_suffixes)

-- `path.exists()`
abbrev pub exists_at : Place → List File → Bool
exists_at p [] = false
exists_at p (f ∷ fs) = lies_at p f || exists_at p fs

-- A file is there and its `unlink` raises.
abbrev pub locked_at : Place → List File → Bool
locked_at p [] = false
locked_at p (f ∷ fs) = (lies_at p f && f.locked) || locked_at p fs

abbrev pub remove_key : String → Option Bucket → Option Bucket
remove_key key none = none
remove_key key (some b) =
    if b.reachable then some (record b { keys = delete_where (λ k. k == key) b.keys }) else some b

abbrev pub removable : Place → List File → Bool
removable p files = exists_at p files && not (locked_at p files)

-- One round of `purge_run`'s loop.
abbrev pub purge_place : Place → Store → Store
purge_place p s = record {
  files = if removable p s.files then delete_where (lies_at p) s.files else s.files;
  bucket = remove_key p.key s.bucket;
}

abbrev pub removed_at : Place → Store → ℕ
removed_at p s = if removable p s.files then 1 else 0

unfoldable pub purge_places : List Place → Store → Store × ℕ
purge_places [] s = (s, 0)
purge_places (p ∷ ps) s =
    let (s', removed) = purge_places ps (purge_place p s) in (s', removed_at p s + removed)

-- The new store, and how many files were removed.
unfoldable pub purge_run : String → List String → Store → Store × ℕ
unfolding run_artifact_paths purge_places
purge_run run_key extra_model_suffixes =
    purge_places (run_artifact_paths run_key extra_model_suffixes)

abbrev pub put_place : Place → List File → Bucket → Bucket × ℕ
put_place p files b =
    if exists_at p files && b.reachable
    then (record b { keys = p.key ∷ delete_where (λ k. k == p.key) b.keys }, 1)
    else (b, 0)

unfoldable pub publish_places : List Place → List File → Bucket → Bucket × ℕ
publish_places [] files b = (b, 0)
publish_places (p ∷ ps) files b =
    let (b', one) = put_place p files b in
    let (b'', more) = publish_places ps files b' in (b'', one + more)

-- The new store, and how many files were mirrored.
unfoldable pub publish_run : String → List String → Store → Store × ℕ
unfolding run_artifact_paths publish_places
publish_run run_key extra_model_suffixes s = elim s.bucket [
  | none ↦ (s, 0)
  | some b ↦
      let (b', published) =
        publish_places (run_artifact_paths run_key extra_model_suffixes) s.files b in
      (record s { bucket = some b' }, published)
]
