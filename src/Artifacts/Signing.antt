-- ===== src/Artifacts/Signing.antt =====
-- The functions of backend/utils/artifacts.py. The key of a call is that of the settings or of the
-- key file; `token` is the next value of `secrets.token_hex`. HMAC-SHA256 and joblib are arguments:
-- `hmac key bytes` is the hex digest, `loads` is none where `joblib.load` raises.
use autonomous_ai_analyst.Base.{
  ℕ, ◌+◌, String, List, [], ◌∷◌, Bool, true, false, Option, none, some, ◌==◌, if◌then◌else◌,
}
use autonomous_ai_analyst.Text.{strip, strip_bytes, is_empty, ◌+++◌}
use autonomous_ai_analyst.Artifacts.Files.{
  Disk, read_file, write_file, unlink, Fault, unsigned, integrity_failed, not_readable, Io, done,
  raise, or_raise, ◌>>=◌, ◌>>◌, read, write,
}

pub record Config : Type 0 where
  pub artifact_signing_key : Option String
  pub key_file : String
  pub token : String

-- `(settings.artifact_signing_key or "").strip()`
abbrev pub configured_key : Config → String
configured_key config = elim config.artifact_signing_key [ none ↦ "" | some key ↦ strip key ]

-- The key file is read if it is there, and written once if it is not.
abbrev pub local_key : Config → Option String → Disk → String × Disk
local_key config (some bytes) disk = (strip_bytes bytes, disk)
local_key config none disk = (config.token, write_file config.key_file config.token disk)

unfoldable pub signing_key : Config → Disk → String × Disk
signing_key config disk =
    if is_empty (configured_key config)
    then local_key config (read_file config.key_file disk) disk
    else (configured_key config, disk)

pub data KeySource : Type 0 where
  configured generated : KeySource

unfoldable pub key_source : Config → KeySource
key_source config = if is_empty (configured_key config) then generated else configured

pub data Reason : Type 0 where
  other_worker object_storage shared_database : Reason

pub record SigningStatus : Type 0 where
  pub source : KeySource
  pub portable : Bool
  pub reasons : List Reason

abbrev add_reason : Bool → Reason → List Reason → List Reason
add_reason true reason reasons = reason ∷ reasons
add_reason false reason reasons = reasons

abbrev has_none : List Reason → Bool
has_none [] = true
has_none (_ ∷ _) = false

abbrev is_portable : KeySource → List Reason → Bool
is_portable configured reasons = true
is_portable generated reasons = has_none reasons

-- Its arguments: the queue runs out of process, the storage is not local, the database is not
-- SQLite.
unfoldable pub signing_status : Config → Bool → Bool → Bool → SigningStatus
unfolding key_source
signing_status config out_of_process remote_storage remote_database =
    let reasons =
      add_reason out_of_process other_worker (
        add_reason remote_storage object_storage (add_reason remote_database shared_database [])) in
    let source = key_source config in
    record { source = source; portable = is_portable source reasons; reasons = reasons }

abbrev pub signature_path : String → String
signature_path artifact_path = artifact_path +++ ".sig"

module _ (config : Config) (hmac : String → String → String) where
  -- The key comes first, then the file is opened.
  unfoldable pub digest_file : String → Io String
  digest_file path disk =
      let (key, disk') = signing_key config disk in
      (read path >>= λ bytes. done (hmac key bytes)) disk'

  unfoldable pub sign_artifact : String → Io String
  sign_artifact artifact_path = do
    signature ← digest_file artifact_path
    write (signature_path artifact_path) signature
    done signature

  abbrev pub raise_unless : Bool → Fault → Io (Unit {0})
  raise_unless true e = done tt
  raise_unless false e = raise e

  unfoldable pub verify_artifact : String → Io (Unit {0})
  verify_artifact artifact_path disk =
      (or_raise (read_file (signature_path artifact_path) disk) unsigned >>= λ sidecar.
      digest_file artifact_path >>= λ actual.
      raise_unless (strip sidecar == actual) integrity_failed)
        disk

  module _ {A : Type 0} (dumps : A → String) where
    unfoldable pub dump_bundle : A → String → Io (Unit {0})
    dump_bundle bundle artifact_path = do
      write artifact_path (dumps bundle)
      sign_artifact artifact_path
      done tt

  unfoldable pub load_bundle : {A : Type 0} → (String → Option A) → String → Io A
  load_bundle loads artifact_path = do
    verify_artifact artifact_path
    bytes ← read artifact_path
    or_raise (loads bytes) not_readable

abbrev remove_one : String → Option String → Disk × ℕ → Disk × ℕ
remove_one path none (disk, removed) = (disk, removed)
remove_one path (some _) (disk, removed) = (unlink path disk, removed + 1)

unfoldable pub remove_artifact : String → Disk → Disk × ℕ
remove_artifact artifact_path disk =
    let (disk', removed) = remove_one artifact_path (read_file artifact_path disk) (disk, 0) in
    remove_one (signature_path artifact_path) (read_file (signature_path artifact_path) disk')
      (disk', removed)
