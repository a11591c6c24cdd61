-- ===== src/Uploads/Caps.antt =====
-- What an upload of backend/utils/uploads.py leaves on disk, and when it is accepted.
use autonomous_ai_analyst.Base.{
  ℕ, ◌+◌, ◌≤◌, ◌<◌, String, List, [], ◌∷◌, ◌++◌, none, ◌≡◌, refl, sym, subst, arith, ap, ◌∙◌,
  eq_iff, eqb, Bool-cases, Option-cases, inl, inr, length, count, length-append, count-append,
}
use mathlib.Core.List.{append_assoc, append-nil}
use autonomous_ai_analyst.Uploads.Reading.{
  UploadFile, check_name_and_type, Chunk, bytes, failed, Caps, Progress, Reading, finished, refused,
  newline, advance, admit, read_chunks, Temp, unlink, Upload, stored, raised, finish, nothing_read,
  read_upload_to_temp,
}

-- What the client sends: the chunks up to the first empty one.
abbrev pub sent : List Chunk → List ℕ
sent [] = []
sent (failed ∷ chunks) = []
sent (bytes [] ∷ chunks) = []
sent (bytes (b ∷ chunk) ∷ chunks) = (b ∷ chunk) ++ sent chunks

-- No call of `read` fails before the last chunk.
abbrev pub IsReadable : List Chunk → Type 0
IsReadable [] = Unit
IsReadable (failed ∷ chunks) = ⊥
IsReadable (bytes [] ∷ chunks) = Unit
IsReadable (bytes (b ∷ chunk) ∷ chunks) = IsReadable chunks

-- The sums are those of the bytes written so far.
pub record Counts (p : Progress) : Type 0 where
  pub total_is : p.total ≡ length p.written
  pub newlines_is : p.newlines ≡ count newline p.written

advance-Counts : (chunk : List ℕ) (p : Progress) → Counts p → Counts (advance chunk p)
advance-Counts chunk p h = record {
  total_is = omega (arith, h.total_is, length-append p.written chunk);
  newlines_is = omega (arith, h.newlines_is, count-append newline p.written chunk);
}

module _ (caps : Caps) where
  pub record WithinCaps (content : List ℕ) : Type 0 where
    pub size_in : length content ≤ caps.max_upload_bytes
    pub lines_in : count newline content ≤ caps.max_upload_rows + 2

  admit-finished :
      (p : Progress) (rest : Reading) (q : Progress)
      → admit caps p rest ≡ finished q
      → (p.total ≤ caps.max_upload_bytes)
        × (p.newlines ≤ caps.max_upload_rows + 2)
        × (rest ≡ finished q)
  admit-finished p rest q h = ground arith

  ended :
      (p q : Progress)
      → Counts p
      → WithinCaps p.written
      → finished p ≡ finished q
      → (q.written ≡ p.written ++ []) × Counts q × WithinCaps q.written × Unit {0}
  ended p q c w h =
      let same : p ≡ q = cc in
      subst (λ r. (r.written ≡ p.written ++ []) × Counts r × WithinCaps r.written × Unit {0}) same
        (sym (append-nil p.written), c, w, tt)

  read_chunks_sound :
      (chunks : List Chunk) (p q : Progress)
      → Counts p
      → WithinCaps p.written
      → read_chunks caps chunks p ≡ finished q
      → (q.written ≡ p.written ++ sent chunks) × Counts q × WithinCaps q.written × IsReadable chunks
  unfolding read_chunks
  read_chunks_sound [] p q c w h = ended p q c w h
  read_chunks_sound (failed ∷ chunks) p q c w h = cc
  read_chunks_sound (bytes [] ∷ chunks) p q c w h = ended p q c w h
  read_chunks_sound (bytes (b ∷ chunk) ∷ chunks) p q c w h =
      let p' = advance (b ∷ chunk) p in
      let (small, few, rest) = admit-finished p' (read_chunks caps chunks p') q h in
      let c' = advance-Counts (b ∷ chunk) p c in
      let (all, c'', w'', r) =
        read_chunks_sound chunks p' q c'
          (record {
            size_in = omega (arith, c'.total_is);
            lines_in = omega (arith, c'.newlines_is);
          })
          rest in
      (all ∙ append_assoc p.written (b ∷ chunk) (sent chunks), c'', w'', r)

  -- The sums of a run that is within the caps.
  advance_nil : (p : Progress) → advance [] p ≡ p
  advance_nil p = ground (arith, append-nil p.written)

  advance-advance :
      (xs ys : List ℕ) (p : Progress) → advance ys (advance xs p) ≡ advance (xs ++ ys) p
  advance-advance xs ys p =
      ground (arith, append_assoc p.written xs ys, length-append xs ys, count-append newline xs ys)

  admit_within :
      (p : Progress) (rest : Reading)
      → p.total ≤ caps.max_upload_bytes
      → p.newlines ≤ caps.max_upload_rows + 2
      → admit caps p rest ≡ rest
  admit_within p rest h k = ground arith

  read_chunks_complete :
      (chunks : List Chunk) (p : Progress)
      → IsReadable chunks
      → p.total + length (sent chunks) ≤ caps.max_upload_bytes
      → p.newlines + count newline (sent chunks) ≤ caps.max_upload_rows + 2
      → read_chunks caps chunks p ≡ finished (advance (sent chunks) p)
  unfolding read_chunks
  read_chunks_complete [] p r h k = ap finished (sym (advance_nil p))
  read_chunks_complete (failed ∷ chunks) p r h k = absurd r
  read_chunks_complete (bytes [] ∷ chunks) p r h k = ap finished (sym (advance_nil p))
  read_chunks_complete (bytes (b ∷ chunk) ∷ chunks) p r h k =
      let p' = advance (b ∷ chunk) p in
      let sizes = length-append (b ∷ chunk) (sent chunks) in
      let lines = count-append newline (b ∷ chunk) (sent chunks) in
      admit_within p' (read_chunks caps chunks p') (omega arith) (omega arith)
      ∙ read_chunks_complete chunks p' r (omega arith) (omega arith)
      ∙ ap finished (advance-advance (b ∷ chunk) (sent chunks) p)

-- What the call has done when it returns or raises.
module _ (lower : String → String) (sha256 : List ℕ → String) (caps : Caps) (file : UploadFile)
    (path : String) (chunks : List Chunk) (temp : Temp) where
  abbrev pub Leaves : Upload → Temp → Type 0
  Leaves (raised e) temp' = temp' ≡ temp
  Leaves (stored s) temp' =
      (temp' ≡ (path, sent chunks) ∷ temp)
      × (s.path ≡ path)
      × (s.size ≡ length (sent chunks))
      × (s.line_count ≡ count newline (sent chunks))
      × (s.sha256 ≡ sha256 (sent chunks))
      × (0 < s.size)
      × WithinCaps caps (sent chunks)

  unlink_new : (content : List ℕ) → unlink path ((path, content) ∷ temp) ≡ temp
  unlink_new content = ground (arith, eq_iff path path)

  Leaves-finish :
      (r : Reading)
      → read_chunks caps chunks (nothing_read lower sha256 caps) ≡ r
      → Leaves (finish lower sha256 caps path r temp).0 (finish lower sha256 caps path r temp).1
  Leaves-finish (refused e) h = unlink_new []
  Leaves-finish (finished p) h =
      let (all, c, w, r) =
        read_chunks_sound caps chunks (nothing_read lower sha256 caps) p
          (record { total_is = refl; newlines_is = refl })
          (record { size_in = omega arith; lines_in = omega arith }) h in
      elim (Bool-cases (eqb p.total 0)) [
        | inl none_sent ↦ rw none_sent (unlink_new p.written)
        | inr some_sent ↦ rw some_sent (
          ap (λ w'. (path, w') ∷ temp) all,
          refl,
          c.total_is ∙ ap length all,
          c.newlines_is ∙ ap (count newline) all,
          ap sha256 all,
          ground arith,
          subst (WithinCaps caps) all w,
        )
      ]

  -- An upload that is accepted leaves one new file with exactly the bytes sent, not empty and within
  -- both caps, whose size, lines and hash are those reported. One that is refused leaves the files as
  -- they were.
  pub read_upload_to_temp-Leaves :
      let (r, temp') = read_upload_to_temp lower sha256 caps file path chunks temp in Leaves r temp'
  unfolding read_upload_to_temp
  read_upload_to_temp-Leaves = elim (Option-cases (check_name_and_type lower file)) [
    | inl fine ↦
        rw fine (Leaves-finish (read_chunks caps chunks (nothing_read lower sha256 caps)) refl)
    | inr (e, bad) ↦ rw bad
  ]

  -- An upload of an allowed type that can be read, is not empty and is within the caps is accepted.
  pub read_upload_to_temp_accepts :
      check_name_and_type lower file ≡ none
      → IsReadable chunks
      → WithinCaps caps (sent chunks)
      → 0 < length (sent chunks)
      → read_upload_to_temp lower sha256 caps file path chunks temp ≡ (
        stored (record {
          path = path;
          sha256 = sha256 (sent chunks);
          size = length (sent chunks);
          line_count = count newline (sent chunks);
        }),
        (path, sent chunks) ∷ temp,
      )
  unfolding read_upload_to_temp
  read_upload_to_temp_accepts fine readable within some_sent =
      let p = nothing_read lower sha256 caps in
      rw
        (
          fine,
          read_chunks_complete caps chunks p readable (omega (arith, within.size_in))
              (omega (arith, within.lines_in)),
        )
        (ground arith)
