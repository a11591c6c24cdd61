-- ===== src/Sandbox/Envelope.antt =====
-- The child's answer on its way through stdout: what `main` of backend/analyst/runner.py writes, and
-- `_parse_response` of backend/analyst/sandbox.py reads.
use autonomous_ai_analyst.Base.{
  String, List, [], ◌∷◌, ◌++◌, Option, none, some, ◌≡◌, sym, ap, ◌∙◌, subst,
}
use Prim.Native.Char.{Char}
use autonomous_ai_analyst.Text.{strip, chars, of_chars, ◌+++◌}
use autonomous_ai_analyst.Text.Laws.{chars-of_chars, of_chars-chars, chars-concat}
use autonomous_ai_analyst.Sandbox.Runner.{result_marker, Payload, emit}
use autonomous_ai_analyst.Sandbox.Parent.{after_last, parse_response}

abbrev marker : List Char
marker = chars result_marker

abbrev line_feed : Char
line_feed = "\n"

abbrev pub IsUnmarked : String → Type 0
IsUnmarked s = after_last marker (chars s) ≡ none

-- The marker does not overlap itself, so the text after it is found whole.
after_last-marker :
    (cs : List Char) → after_last marker cs ≡ none → after_last marker (marker ++ cs) ≡ some cs
after_last-marker cs h = rw h

-- Whatever stands before it.
after_last-append :
    (x y tail : List Char)
    → after_last marker y ≡ some tail
    → after_last marker (x ++ y) ≡ some tail
after_last-append [] y tail h = h
after_last-append (c ∷ x) y tail h = rw (after_last-append x y tail h)

strip-line_feed : (s : String) → strip (of_chars (line_feed ∷ chars s)) ≡ strip s
strip-line_feed s = rw (chars-of_chars (chars s))

chars-emit :
    (noise json : String)
    → chars (noise +++ emit json) ≡ chars noise ++ line_feed ∷ (marker ++ line_feed ∷ chars json)
unfolding emit
chars-emit noise json =
    chars-concat noise ("\n" +++ (result_marker +++ ("\n" +++ json)))
    ∙ ap (λ cs. chars noise ++ cs)
        (chars-concat "\n" (result_marker +++ ("\n" +++ json))
          ∙ ap (λ cs. line_feed ∷ cs)
              (chars-concat result_marker ("\n" +++ json)
                ∙ ap (λ cs. marker ++ cs) (chars-concat "\n" json)))

after_last-emit :
    (noise json : String)
    → IsUnmarked json
    → after_last marker (chars (noise +++ emit json)) ≡ some (line_feed ∷ chars json)
after_last-emit noise json h =
    subst (λ cs. after_last marker cs ≡ some (line_feed ∷ chars json)) (sym (chars-emit noise json))
      (after_last-append (chars noise) (line_feed ∷ (marker ++ line_feed ∷ chars json))
        (line_feed ∷ chars json)
        (after_last-append (line_feed ∷ []) (marker ++ line_feed ∷ chars json)
          (line_feed ∷ chars json) (after_last-marker (line_feed ∷ chars json) (rw h))))

module _ (loads : String → Option Payload) where
  -- The last marker of the output decides.
  parse_response_tail :
      (stdout : String) (tail : List Char)
      → after_last marker (chars stdout) ≡ some tail
      → parse_response loads stdout ≡ loads (strip (of_chars tail))
  unfolding parse_response
  parse_response_tail stdout tail h = rw h

  -- What the child writes last is read back as its answer, whatever stands before it, if the text of
  -- the answer does not hold the marker.
  pub parse_response-emit :
      (noise json : String)
      → IsUnmarked json
      → parse_response loads (noise +++ emit json) ≡ loads (strip json)
  parse_response-emit noise json h =
      parse_response_tail (noise +++ emit json) (line_feed ∷ chars json)
        (after_last-emit noise json h)
      ∙ ap loads (strip-line_feed json)

  -- If the text of the answer holds the marker, only what follows its last occurrence is parsed.
  pub parse_response_cut :
      (noise before after : String)
      → IsUnmarked after
      → parse_response loads (noise +++ emit (before +++ (result_marker +++ after)))
        ≡ loads (strip after)
  parse_response_cut noise before after h =
      let json = before +++ (result_marker +++ after) in
      let apart : chars json ≡ chars before ++ (marker ++ chars after) =
        chars-concat before (result_marker +++ after)
        ∙ ap (λ cs. chars before ++ cs) (chars-concat result_marker after) in
      let found : after_last marker (chars json) ≡ some (chars after) =
        subst (λ cs. after_last marker cs ≡ some (chars after)) (sym apart)
          (after_last-append (chars before) (marker ++ chars after) (chars after)
            (after_last-marker (chars after) h)) in
      let whole : after_last marker (chars (noise +++ emit json)) ≡ some (chars after) =
        subst (λ cs. after_last marker cs ≡ some (chars after)) (sym (chars-emit noise json))
          (after_last-append (chars noise) (line_feed ∷ (marker ++ line_feed ∷ chars json))
            (chars after) (rw found)) in
      parse_response_tail (noise +++ emit json) (chars after) whole
      ∙ ap (λ s. loads (strip s)) (of_chars-chars after)
