-- ===== src/Artifacts/Loading.antt =====
-- What `load_bundle` of backend/utils/artifacts.py gives back, and what it refuses.
use autonomous_ai_analyst.Base.{
  String, Option, none, some, ◌≡◌, ◌≢◌, refl, sym, ap, arith, ◌==◌, eq_iff, Bool-cases,
  Option-cases, inl, inr, ==→eq,
}
use autonomous_ai_analyst.Text.{strip, strip_bytes, is_empty}
use autonomous_ai_analyst.Text.Laws.{concat-ne_self}
use autonomous_ai_analyst.Artifacts.Files.{
  Disk, read_file, write_file, ok, raised, integrity_failed, read_file-write_file_self,
  read_file-write_file_other,
}
use autonomous_ai_analyst.Artifacts.Signing.{
  Config, configured_key, local_key, signing_key, signature_path, digest_file, verify_artifact,
  load_bundle,
}

pub signature_path-ne : (path : String) → path ≢ signature_path path
signature_path-ne path e = concat-ne_self path ".sig" (λ h. absurd (omega (arith, h))) (sym e)

-- The next process, or the next call, signs with the same key: `signing_key` makes one at most once.
module _ (config : Config) (canonical : strip_bytes config.token ≡ config.token) where
  local_key_stable :
      (disk : Disk) (found : Option String)
      → read_file config.key_file disk ≡ found
      → local_key config
          (read_file config.key_file (local_key config found disk).1)
          (local_key config found disk).1
        ≡ local_key config found disk
  local_key_stable disk none e =
      rw (read_file-write_file_self config.key_file config.token disk, canonical)
  local_key_stable disk (some bytes) e = rw e

  pub signing_key_stable :
      (disk : Disk) → signing_key config (signing_key config disk).1 ≡ signing_key config disk
  unfolding signing_key
  signing_key_stable disk = elim (Bool-cases (is_empty (configured_key config))) [
    | inl absent ↦ rw absent (local_key_stable disk (read_file config.key_file disk) refl)
    | inr set ↦ rw set
  ]

  -- Other files do not matter to the key.
  local_key-write :
      (path bytes key : String) (disk : Disk) (found : Option String)
      → path ≢ config.key_file
      → read_file config.key_file disk ≡ found
      → local_key config found disk ≡ (key, disk)
      → local_key config
          (read_file config.key_file (write_file path bytes disk))
          (write_file path bytes disk)
        ≡ (key, write_file path bytes disk)
  local_key-write path bytes key disk none apart e h =
      let same : write_file config.key_file config.token disk ≡ disk = ap (λ p. p.1) h in
      cc (read_file-write_file_self config.key_file config.token disk, e, same)
  local_key-write path bytes key disk (some k) apart e h =
      rw (read_file-write_file_other path config.key_file bytes disk apart, e)
        (ap (λ (t : String). (t, write_file path bytes disk)) (ap (λ p. p.0) h))

  pub signing_key-write :
      (path bytes key : String) (disk : Disk)
      → path ≢ config.key_file
      → signing_key config disk ≡ (key, disk)
      → signing_key config (write_file path bytes disk) ≡ (key, write_file path bytes disk)
  unfolding signing_key
  signing_key-write path bytes key disk apart h =
      elim (Bool-cases (is_empty (configured_key config))) [
        | inl absent ↦ rw absent (
            local_key-write path bytes key disk (read_file config.key_file disk) apart refl
              (rw absent at h))
        | inr set ↦
            rw set
              (ap (λ (t : String). (t, write_file path bytes disk)) (ap (λ p. p.0) (rw set at h)))
      ]

module _ (config : Config) (hmac : String → String → String) where
  pub digest_file_settled :
      (path key bytes : String) (disk : Disk)
      → signing_key config disk ≡ (key, disk)
      → read_file path disk ≡ some bytes
      → digest_file config hmac path disk ≡ (ok (hmac key bytes), disk)
  unfolding digest_file
  digest_file_settled path key bytes disk settled there = ground (arith)

  module _ {A : Type 0} (loads : String → Option A) where
    -- A settled disk on which the file and its signature lie.
    pub load_bundle_signed :
        (path key bytes sidecar : String) (disk : Disk) (b : A)
        → signing_key config disk ≡ (key, disk)
        → read_file path disk ≡ some bytes
        → read_file (signature_path path) disk ≡ some sidecar
        → strip sidecar ≡ hmac key bytes
        → loads bytes ≡ some b
        → load_bundle config hmac loads path disk ≡ (ok b, disk)
    unfolding load_bundle verify_artifact
    load_bundle_signed path key bytes sidecar disk b settled there signed genuine readable =
        ground (
          arith,
          digest_file_settled path key bytes disk settled there,
          eq_iff (strip sidecar) (hmac key bytes),
        )

    pub load_bundle_forged :
        (path key bytes sidecar : String) (disk : Disk)
        → signing_key config disk ≡ (key, disk)
        → read_file path disk ≡ some bytes
        → read_file (signature_path path) disk ≡ some sidecar
        → strip sidecar ≢ hmac key bytes
        → load_bundle config hmac loads path disk ≡ (raised integrity_failed, disk)
    unfolding load_bundle verify_artifact
    load_bundle_forged path key bytes sidecar disk settled there signed forged = ground (
      arith,
      digest_file_settled path key bytes disk settled there,
      eq_iff (strip sidecar) (hmac key bytes),
    )

    -- What `load_bundle` has seen before it deserialises.
    pub load_bundle-ok :
        (path : String) (disk : Disk) (b : A)
        → (load_bundle config hmac loads path disk).0 ≡ ok b
        → let (key, disk') = signing_key config disk in
          (sidecar : String) × (bytes : String) × (read_file (signature_path path) disk
            ≡ some sidecar)
          × (read_file path disk' ≡ some bytes)
          × (strip sidecar ≡ hmac key bytes)
          × (loads bytes ≡ some b)
          × ((load_bundle config hmac loads path disk).1 ≡ disk')
    unfolding load_bundle verify_artifact digest_file
    load_bundle-ok path disk b h = elim (Option-cases (read_file (signature_path path) disk)) [
      | inl absent ↦ absurd (ground arith)
      | inr (sidecar, signed) ↦ elim (Option-cases (read_file path (signing_key config disk).1)) [
        | inl absent ↦ absurd (ground arith)
        | inr (bytes, there) ↦
            elim (Bool-cases (strip sidecar == hmac (signing_key config disk).0 bytes)) [
              | inl genuine ↦ (
                sidecar,
                bytes,
                signed,
                there,
                ==→eq (strip sidecar) (hmac (signing_key config disk).0 bytes) genuine,
                ground arith,
                ground arith,
              )
              | inr forged ↦ absurd (ground arith)
            ]
      ]
    ]
