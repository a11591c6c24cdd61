-- ===== src/Uploads/Reading.antt =====
-- `StoredUpload`, `_check_name_and_type` and `read_upload_to_temp` of backend/utils/uploads.py, with
-- the allowed types of backend/config.py. A byte is a number, a file the bytes written to it.
-- `str.lower`, SHA-256 and the name that `NamedTemporaryFile` picks are arguments; the chunks are
-- what `file.read(CHUNK_SIZE)` returns one after the other, or the failure of a call.
use autonomous_ai_analyst.Base.{
  ℕ, ◌+◌, String, List, [], ◌∷◌, ◌++◌, Bool, not, ◌&&◌, Option, none, some, ◌==◌, eqb, ltb,
  if◌then◌else◌, length, count, last, select,
}
use autonomous_ai_analyst.Text.{strip, is_empty, elem, split, chars, of_chars, ◌+++◌}
use mathlib.Core.List.{reverse}
use Prim.Native.Char.{Char, code}

-- The `HTTPException`s of the module, and their statuses.
pub data UploadError : Type 0 where
  bad_extension bad_content_type too_large too_many_rows unreadable empty_file : UploadError

unfoldable pub upload_status_code : UploadError → ℕ
upload_status_code too_large = 413
upload_status_code too_many_rows = 413
upload_status_code _ = 400

abbrev pub allowed_extensions : List String
allowed_extensions = ".csv" ∷ ".txt" ∷ ".tsv" ∷ []

abbrev pub allowed_content_types : List String
allowed_content_types =
    "text/csv" ∷ "text/plain" ∷ "text/tab-separated-values" ∷ "application/csv"
    ∷ "application/vnd.ms-excel" ∷ "application/octet-stream" ∷ []

-- `Path(p).name`: the last part that is neither empty nor a dot.
abbrev last_or_empty : List String → String
last_or_empty [] = ""
last_or_empty (part ∷ parts) = last part parts

abbrev pub path_name : String → String
path_name p = last_or_empty (select (λ part. not (is_empty part) && not (part == ".")) (split 47 p))

-- The characters from the last full stop on, and those before it, both reversed.
abbrev before_dot : List Char → List Char → Option (List Char × List Char)
before_dot seen [] = none
before_dot seen (c ∷ cs) =
    let on = before_dot (c ∷ seen) cs in if eqb (code c) 46 then some (c ∷ seen, cs) else on

-- There is no suffix where the stop is the first or the last character.
abbrev suffix_of : Option (List Char × List Char) → String
suffix_of none = ""
suffix_of (some (tail, stem)) =
    if eqb (length tail) 1 then "" else if eqb (length stem) 0 then "" else of_chars tail

-- `Path(p).suffix`
abbrev pub path_suffix : String → String
path_suffix p = suffix_of (before_dot [] (reverse (chars (path_name p))))

-- `(content_type or "").split(";")[0].strip().lower()`
abbrev first_or_empty : List String → String
first_or_empty [] = ""
first_or_empty (part ∷ _) = part

abbrev text_of : Option String → String
text_of none = ""
text_of (some s) = s

pub record UploadFile : Type 0 where
  pub filename : Option String
  pub content_type : Option String

unfoldable pub check_name_and_type : (String → String) → UploadFile → Option UploadError
check_name_and_type lower file =
    if not (elem (lower (path_suffix (text_of file.filename))) allowed_extensions)
    then some bad_extension
    else if elem (lower (strip (first_or_empty (split 59 (text_of file.content_type)))))
        allowed_content_types
    then none
    else some bad_content_type

pub data Chunk : Type 0 where
  bytes : List ℕ → Chunk
  failed : Chunk

pub record Caps : Type 0 where
  pub max_upload_bytes : ℕ
  pub max_upload_rows : ℕ

-- The loop's variables, and what it has written.
pub record Progress : Type 0 where
  pub total : ℕ
  pub newlines : ℕ
  pub written : List ℕ

pub data Reading : Type 0 where
  finished : Progress → Reading
  refused : UploadError → Reading

abbrev pub newline : ℕ → Bool
newline b = eqb b 10

abbrev pub advance : List ℕ → Progress → Progress
advance chunk p = record {
  total = p.total + length chunk;
  newlines = p.newlines + count newline chunk;
  written = p.written ++ chunk;
}

module _ (caps : Caps) where
  -- The tests of one round, on the sums with the chunk, and the rounds after it.
  abbrev pub admit : Progress → Reading → Reading
  admit p rest =
      if ltb caps.max_upload_bytes p.total
      then refused too_large
      else if ltb (caps.max_upload_rows + 2) p.newlines
      then refused too_many_rows
      else rest

  unfoldable pub read_chunks : List Chunk → Progress → Reading
  read_chunks [] p = finished p
  read_chunks (failed ∷ _) p = refused unreadable
  read_chunks (bytes [] ∷ _) p = finished p
  read_chunks (bytes (b ∷ chunk) ∷ chunks) p =
      admit (advance (b ∷ chunk) p) (read_chunks chunks (advance (b ∷ chunk) p))

-- Paths with the bytes there.
abbrev pub Temp : Type 0
Temp = List (String × List ℕ)

abbrev pub unlink : String → Temp → Temp
unlink path [] = []
unlink path ((other, content) ∷ temp) =
    if other == path then temp else (other, content) ∷ unlink path temp

abbrev pub content_at : String → Temp → Option (List ℕ)
content_at path [] = none
content_at path ((other, content) ∷ temp) =
    if other == path then some content else content_at path temp

pub record StoredUpload : Type 0 where
  pub path : String
  pub sha256 : String
  pub size : ℕ
  pub line_count : ℕ

unfoldable pub cleanup : StoredUpload → Temp → Temp
cleanup stored = unlink stored.path

abbrev move_onto : String → Option (List ℕ) → String → Temp → Temp
move_onto path none destination temp = temp
move_onto path (some content) destination temp =
    (destination, content) ∷ unlink destination (unlink path temp)

-- `relocate`, for a file that is there.
unfoldable pub relocate : String → StoredUpload → Temp → StoredUpload × Temp
relocate directory stored temp =
    let destination = directory +++ ("/" +++ (stored.sha256 +++ ("_" +++ path_name stored.path))) in
    (
      record stored { path = destination },
      move_onto stored.path (content_at stored.path temp) destination temp,
    )

pub data Upload : Type 0 where
  stored : StoredUpload → Upload
  raised : UploadError → Upload

module _ (lower : String → String) (sha256 : List ℕ → String) (caps : Caps) where
  -- `finished` closes the file; an empty one is cleaned up, and so is one that was refused.
  abbrev pub finish : String → Reading → Temp → Upload × Temp
  finish path (refused e) temp = (raised e, unlink path ((path, []) ∷ temp))
  finish path (finished p) temp =
      if eqb p.total 0 then (raised empty_file, unlink path ((path, p.written) ∷ temp)) else (
        stored (record {
          path = path;
          sha256 = sha256 p.written;
          size = p.total;
          line_count = p.newlines;
        }),
        (path, p.written) ∷ temp,
      )

  abbrev pub nothing_read : Progress
  nothing_read = record { total = 0; newlines = 0; written = [] }

  abbrev pub receive : Option UploadError → String → List Chunk → Temp → Upload × Temp
  receive (some e) path chunks temp = (raised e, temp)
  receive none path chunks temp = finish path (read_chunks caps chunks nothing_read) temp

  unfoldable pub read_upload_to_temp : UploadFile → String → List Chunk → Temp → Upload × Temp
  read_upload_to_temp file = receive (check_name_and_type lower file)
