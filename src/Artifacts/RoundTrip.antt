-- ===== src/Artifacts/RoundTrip.antt =====
-- `dump_bundle` followed by `load_bundle` (backend/utils/artifacts.py), with and without a change of
-- the file between them.
use autonomous_ai_analyst.Base.{
  String, Option, none, some, ◌≡◌, ◌≢◌, refl, sym, ◌∙◌, arith, Bool-cases, inl, inr,
}
use autonomous_ai_analyst.Text.{strip, strip_bytes, is_empty}
use autonomous_ai_analyst.Artifacts.Files.{
  Disk, read_file, write_file, ok, raised, integrity_failed, read_file-write_file_self,
  read_file-write_file_other,
}
use autonomous_ai_analyst.Artifacts.Signing.{
  Config, configured_key, local_key, signing_key, signature_path, digest_file, sign_artifact,
  dump_bundle, load_bundle,
}
use autonomous_ai_analyst.Artifacts.Loading.{
  signature_path-ne, signing_key_stable, signing_key-write, load_bundle_signed, load_bundle_forged,
}

-- Making the key leaves every other file alone.
read_file-local_key :
    (config : Config) (path : String) (disk : Disk) (found : Option String)
    → path ≢ config.key_file
    → read_file path (local_key config found disk).1 ≡ read_file path disk
read_file-local_key config path disk none apart =
    read_file-write_file_other config.key_file path config.token disk (λ e. apart (sym e))
read_file-local_key config path disk (some key) apart = refl

read_file-signing_key :
    (config : Config) (path : String) (disk : Disk)
    → path ≢ config.key_file
    → read_file path (signing_key config disk).1 ≡ read_file path disk
unfolding signing_key
read_file-signing_key config path disk apart =
    elim (Bool-cases (is_empty (configured_key config))) [
      | inl absent ↦
          rw absent (read_file-local_key config path disk (read_file config.key_file disk) apart)
      | inr set ↦ rw set
    ]

module _ (config : Config) (hmac : String → String → String) {A : Type 0} (dumps : A → String)
    (loads : String → Option A) (path : String)
    (canonical : strip_bytes config.token ≡ config.token) (file_apart : path ≢ config.key_file)
    (signature_apart : signature_path path ≢ config.key_file) where
  -- The key and the disk once the bundle's bytes lie there.
  abbrev keyed : A → Disk → String × Disk
  keyed bundle disk = signing_key config (write_file path (dumps bundle) disk)

  abbrev signature : A → Disk → String
  signature bundle disk = hmac (keyed bundle disk).0 (dumps bundle)

  abbrev dumped : A → Disk → Disk
  dumped bundle disk =
      write_file (signature_path path) (signature bundle disk) (keyed bundle disk).1

  read_file-keyed :
      (bundle : A) (disk : Disk) → read_file path (keyed bundle disk).1 ≡ some (dumps bundle)
  read_file-keyed bundle disk =
      read_file-signing_key config path (write_file path (dumps bundle) disk) file_apart
      ∙ read_file-write_file_self path (dumps bundle) disk

  dump_bundle_lem :
      (bundle : A) (disk : Disk)
      → dump_bundle config hmac dumps bundle path disk ≡ (ok tt, dumped bundle disk)
  unfolding dump_bundle sign_artifact digest_file
  dump_bundle_lem bundle disk = ground (arith, read_file-keyed bundle disk)

  settled :
      (bundle : A) (disk : Disk)
      → signing_key config (dumped bundle disk) ≡ ((keyed bundle disk).0, dumped bundle disk)
  settled bundle disk =
      signing_key-write config canonical (signature_path path) (signature bundle disk)
        (keyed bundle disk).0 (keyed bundle disk).1 signature_apart
        (signing_key_stable config canonical (write_file path (dumps bundle) disk))

  read_file-dumped :
      (bundle : A) (disk : Disk) → read_file path (dumped bundle disk) ≡ some (dumps bundle)
  read_file-dumped bundle disk =
      read_file-write_file_other (signature_path path) path (signature bundle disk)
        (keyed bundle disk).1 (λ e. signature_path-ne path (sym e))
      ∙ read_file-keyed bundle disk

  module _ (hex : (key bytes : String) → strip (hmac key bytes) ≡ hmac key bytes) where
    -- A bundle that is dumped and signed loads as the same bundle and changes nothing, under the
    -- configured key or one that is made on the way, if joblib reads back what it wrote, a digest and a
    -- fresh key have no space at their ends, and neither file is the key file.
    pub load_bundle-dump_bundle :
        (bundle : A) (disk : Disk)
        → loads (dumps bundle) ≡ some bundle
        → let (r, disk') = dump_bundle config hmac dumps bundle path disk in
          (r ≡ ok tt) × (load_bundle config hmac loads path disk' ≡ (ok bundle, disk'))
    load_bundle-dump_bundle bundle disk readable = rw (dump_bundle_lem bundle disk) (
      refl,
      load_bundle_signed config hmac loads path (keyed bundle disk).0 (dumps bundle)
          (signature bundle disk) (dumped bundle disk) bundle (settled bundle disk)
          (read_file-dumped bundle disk)
          (read_file-write_file_self (signature_path path) (signature bundle disk)
            (keyed bundle disk).1)
          (hex (keyed bundle disk).0 (dumps bundle)) readable,
    )

    -- Under the same conditions, with other bytes in the place of a signed bundle whose MAC is another
    -- one under every key, loading raises the integrity error and changes nothing.
    pub load_bundle-write_file :
        (bundle : A) (bytes : String) (disk : Disk)
        → ((key : String) → hmac key bytes ≢ hmac key (dumps bundle))
        → let disk' = write_file path bytes (dump_bundle config hmac dumps bundle path disk).1 in
          load_bundle config hmac loads path disk' ≡ (raised integrity_failed, disk')
    load_bundle-write_file bundle bytes disk differs = rw (dump_bundle_lem bundle disk) (
        load_bundle_forged config hmac loads path (keyed bundle disk).0 bytes
          (signature bundle disk) (write_file path bytes (dumped bundle disk))
          (signing_key-write config canonical path bytes (keyed bundle disk).0 (dumped bundle disk)
            file_apart (settled bundle disk))
          (read_file-write_file_self path bytes (dumped bundle disk))
          (read_file-write_file_other path (signature_path path) bytes (dumped bundle disk)
              (signature_path-ne path)
            ∙ read_file-write_file_self (signature_path path) (signature bundle disk)
                (keyed bundle disk).1)
          λ e.
            differs (keyed bundle disk).0
              (sym (sym (hex (keyed bundle disk).0 (dumps bundle)) ∙ e)))
