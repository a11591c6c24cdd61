-- ===== src/Examples/Files.antt =====
-- Artifacts, run keys and uploads at concrete inputs.
use autonomous_ai_analyst.Base.{
  String, List, [], ◌∷◌, true, false, none, some, ◌≡◌, ◌⊎◌, refl, ◌==◌, if◌then◌else◌, All,
  Bool-cases, inl, inr,
}
use autonomous_ai_analyst.Text.{strip}
use autonomous_ai_analyst.Storage.Files.{
  File, Bucket, metadata_dir, model_dir, exists_at, publish_run, run_artifact_paths,
}
use autonomous_ai_analyst.Storage.Mirror.{ensure_local, ensure_local-publish_run}
use autonomous_ai_analyst.Artifacts.Files.{ok}
use autonomous_ai_analyst.Artifacts.Signing.{Config, dump_bundle, load_bundle}
use autonomous_ai_analyst.Artifacts.RoundTrip.{load_bundle-dump_bundle}
use autonomous_ai_analyst.Hashing.Keys.{RunConfig, run_cache_key}
use autonomous_ai_analyst.Hashing.Parts.{run_cache_key_owner}
use autonomous_ai_analyst.Uploads.Reading.{
  UploadFile, Chunk, bytes, Caps, Temp, stored, read_upload_to_temp, check_name_and_type,
  read_chunks, Upload, too_many_rows,
}
use autonomous_ai_analyst.Uploads.Caps.{Leaves, read_upload_to_temp-Leaves}

abbrev config : Config
config = record { artifact_signing_key = none; key_file = "key"; token = "0a" }

-- A stand-in for HMAC-SHA256 that tells one text from all others.
abbrev hmac : String → String → String
hmac key text = if text == "model" then "1" else ""

hmac-hex : (key text : String) → strip (hmac key text) ≡ hmac key text
hmac-hex key text = elim (Bool-cases (text == "model")) [
  | inl same ↦ rw same
  | inr other ↦ rw other
]

abbrev unchanged : String → String
unchanged s = s

load_bundle-dump_bundle_example :
    let (r, disk) = dump_bundle config hmac unchanged "model" "m.pkl" [] in
    (r ≡ ok tt) × (load_bundle config hmac some "m.pkl" disk ≡ (ok "model", disk))
load_bundle-dump_bundle_example =
    load_bundle-dump_bundle config hmac unchanged some "m.pkl" refl (λ e. cc) (λ e. cc) hmac-hex
      "model" [] refl

abbrev file_of : String → File
file_of name = record { root = metadata_dir; name = name; size = 1; locked = false }

abbrev published_files : List File
published_files = file_of "rb.json" ∷ record (file_of "rb_model.pkl") { root = model_dir } ∷ []

abbrev bucket : Bucket
bucket = record { keys = []; reachable = true }

ensure_local-publish_run_example :
    let published =
      publish_run "rb" [] (record { files = published_files; bucket = some bucket }) in
    let fetched =
      ensure_local (λ k. 5) "rb" [] (record (published.0) { files = file_of "other.json" ∷ [] }) in
    All
      (λ p. (exists_at p published_files ≡ false) ⊎ (exists_at p fetched.files ≡ true))
      (run_artifact_paths "rb" [])
ensure_local-publish_run_example =
    ensure_local-publish_run (λ k. 5) "rb" [] published_files (file_of "other.json" ∷ []) bucket
      refl

abbrev run_config : String → String → RunConfig
run_config mode owner = record {
  dataset_hash = "d";
  mode = mode;
  manual_model = none;
  target_column = some " price ";
  pipeline_version = "9";
  tuning_budget = "0";
  use_smote = false;
  owner_id = owner;
}

-- With the identity for SHA-256, and two spellings of one configuration.
run_cache_key_owner_example : ◌≡◌ {A = String} "bob" "bob"
unfolding run_cache_key
run_cache_key_owner_example =
    run_cache_key_owner unchanged unchanged (λ s t e. e) (run_config "" "bob")
      (run_config "auto" "bob") refl refl refl

abbrev caps : Caps
caps = record { max_upload_bytes = 10; max_upload_rows = 1 }

abbrev upload : UploadFile
upload = record { filename = some "sales.csv"; content_type = some "text/csv; charset=utf-8" }

abbrev chunks : List Chunk
chunks = bytes (97 ∷ 10 ∷ []) ∷ bytes (49 ∷ []) ∷ []

abbrev on_disk : Temp
on_disk = ("old", []) ∷ []

read_upload_to_temp-Leaves_example :
    let (r, temp) = read_upload_to_temp unchanged (λ b. "s") caps upload "new" chunks on_disk in
    Leaves unchanged (λ b. "s") caps upload "new" chunks on_disk r temp
read_upload_to_temp-Leaves_example =
    read_upload_to_temp-Leaves unchanged (λ b. "s") caps upload "new" chunks on_disk

accepted : read_upload_to_temp unchanged (λ b. "s") caps upload "new" chunks on_disk ≡ (
  stored (record { path = "new"; sha256 = "s"; size = 3; line_count = 1 }),
  ("new", 97 ∷ 10 ∷ 49 ∷ []) ∷ on_disk,
)
unfolding read_upload_to_temp check_name_and_type read_chunks
accepted = refl

-- A third row, and a byte over the cap.
too_long :
    read_upload_to_temp unchanged
      (λ b. "s")
      caps
      upload
      "new"
      (bytes (10 ∷ 10 ∷ 10 ∷ []) ∷ bytes (10 ∷ []) ∷ [])
      on_disk
    ≡ (Upload.raised too_many_rows, on_disk)
unfolding read_upload_to_temp check_name_and_type read_chunks
too_long = refl
