-- ===== src/Artifacts/Files.antt =====
-- The files that backend/utils/artifacts.py reads and writes, and calls on them that may raise.
use autonomous_ai_analyst.Base.{
  String, List, [], ◌∷◌, Option, none, some, ◌≡◌, ◌≢◌, refl, arith, ◌==◌, eq_iff, if◌then◌else◌,
}

-- Paths with the bytes of the file there.
abbrev pub Disk : Type 0
Disk = List (String × String)

pub read_file : String → Disk → Option String
read_file path [] = none
read_file path ((other, bytes) ∷ disk) = if other == path then some bytes else read_file path disk

pub write_file : String → String → Disk → Disk
write_file path bytes [] = (path, bytes) ∷ []
write_file path bytes ((other, old) ∷ disk) =
    if other == path then (other, bytes) ∷ disk else (other, old) ∷ write_file path bytes disk

unfoldable pub unlink : String → Disk → Disk
unlink path [] = []
unlink path ((other, bytes) ∷ disk) =
    if other == path then unlink path disk else (other, bytes) ∷ unlink path disk

pub read_file-write_file :
    (path other bytes : String) (disk : Disk)
    → read_file other (write_file path bytes disk)
      ≡ (if path == other then some bytes else read_file other disk)
unfolding read_file write_file
read_file-write_file path other bytes [] = refl
read_file-write_file path other bytes ((p, old) ∷ disk) = ground (
  arith,
  eq_iff p path,
  eq_iff p other,
  eq_iff path other,
  read_file-write_file path other bytes disk,
)

pub read_file-write_file_self :
    (path bytes : String) (disk : Disk) → read_file path (write_file path bytes disk) ≡ some bytes
read_file-write_file_self path bytes disk =
    ground (arith, read_file-write_file path path bytes disk, eq_iff path path)

pub read_file-write_file_other :
    (path other bytes : String) (disk : Disk)
    → path ≢ other
    → read_file other (write_file path bytes disk) ≡ read_file other disk
read_file-write_file_other path other bytes disk h =
    ground (arith, read_file-write_file path other bytes disk, eq_iff path other)

-- What a call raises: `ArtifactError` in its two forms, `FileNotFoundError`, and what `joblib.load`
-- raises on bytes that it cannot read.
pub data Fault : Type 0 where
  unsigned integrity_failed file_missing not_readable : Fault

pub data Outcome (A : Type 0) : Type 0 where
  ok : A → Outcome A
  raised : Fault → Outcome A

abbrev pub Io : Type 0 → Type 0
Io A = Disk → Outcome A × Disk

module _ {A : Type 0} where
  abbrev pub done : A → Io A
  done a disk = (ok a, disk)

  abbrev pub raise : Fault → Io A
  raise e disk = (raised e, disk)

  abbrev pub or_raise : Option A → Fault → Io A
  or_raise none e = raise e
  or_raise (some a) e = done a

infixl 5 ◌>>=◌ ◌>>◌
abbrev pub ◌>>=◌ : {A B : Type 0} → Io A → (A → Io B) → Io B
◌>>=◌ m f disk = let (r, disk') = m disk in elim r [ ok a ↦ f a disk' | raised e ↦ raise e disk' ]

abbrev pub ◌>>◌ : {A B : Type 0} → Io A → Io B → Io B
m >> k = m >>= λ _. k

-- `path.read_bytes()` and `path.write_bytes(bytes)`
abbrev pub read : String → Io String
read path disk = or_raise (read_file path disk) file_missing disk

abbrev pub write : String → String → Io (Unit {0})
write path bytes disk = (ok tt, write_file path bytes disk)
