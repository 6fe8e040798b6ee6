-- ===== src/Parsers.antt =====
-- api/services/ingestion.py and api/adapters/parsers/txt.py: the windows of a text and the packing of
-- its paragraphs. A text is the list of its code points; the encoder of tiktoken is a parameter.
pub mod Windows
pub mod Packing
pub mod Examples
use embedbase.Prelude.{
  Bool, List, Option, [], drop, false, filter_by, if◌then◌else◌, is_nil, leb, length, map, none,
  not, some, suc, take, true, zero, ℕ, ◌&&◌, ◌++◌, ◌+◌, ◌-◌, ◌||◌, ◌∷◌,
}

abbrev pub Text : Type 0
Text = List ℕ

abbrev pub is_any : ℕ → List ℕ → Bool
is_any c [] = false
is_any c (d ∷ ds) = (leb c d && leb d c) || is_any c ds

-- the code points that `strip()` takes away
abbrev pub is_space : ℕ → Bool
is_space c =
    (leb 9 c && leb c 13)
    || (leb 28 c && leb c 32)
    || is_any c (133 ∷ 160 ∷ 5760 ∷ [])
    || (leb 8192 c && leb c 8202)
    || is_any c (8232 ∷ 8233 ∷ 8239 ∷ 8287 ∷ 12288 ∷ [])

abbrev pub strip_left : Text → Text
strip_left [] = []
strip_left (c ∷ text) = let rest = strip_left text in if is_space c then rest else c ∷ text

abbrev pub strip_right : Text → Text
strip_right [] = []
strip_right (c ∷ text) =
    let rest = strip_right text in if is_space c && is_nil rest then [] else c ∷ rest

abbrev pub strip : Text → Text
strip text = strip_right (strip_left text)

-- `"\n\n".join`
abbrev pub join_paragraphs : List Text → Text
join_paragraphs [] = []
join_paragraphs (p ∷ []) = p
join_paragraphs (p ∷ q ∷ ps) = p ++ 10 ∷ 10 ∷ join_paragraphs (q ∷ ps)

abbrev line_kept : Text → Bool → Text
line_kept piece true = piece ++ 10 ∷ []
line_kept piece false = piece

-- `split("\n\n")`: the piece read so far, and whether a newline follows it
abbrev pub split_from : Text → Bool → Text → List Text
split_from piece newline [] = line_kept piece newline ∷ []
split_from piece newline (c ∷ text) =
    let cut = newline && is_any c (10 ∷ []) in
    let rest =
      split_from
        (if cut
          then []
          else if is_any c (10 ∷ [])
          then piece
          else line_kept piece newline ++ c ∷ [])
        (is_any c (10 ∷ []) && not newline) text in
    if cut then piece ∷ rest else rest

-- the paragraphs of a text: stripped, and none of them empty
unfoldable pub paragraphs_of : Text → List Text
paragraphs_of text = filter_by (λ p. not (is_nil p)) (map strip (split_from [] false text))

-- the tokens of the windows, from the next start on; a round drops one token at least
unfoldable pub windows_from : {A : Type 0} → ℕ → ℕ → ℕ → List A → List (List A)
windows_from zero max_tokens step tokens = []
windows_from (suc fuel) max_tokens step tokens =
    let rest = windows_from fuel max_tokens step (drop step tokens) in
    if is_nil tokens
    then []
    else if leb (length tokens) max_tokens
    then take max_tokens tokens ∷ []
    else take max_tokens tokens ∷ rest

-- what `flush` of `_segment` appends to `segments`
abbrev pub flush : List Text → List Text
flush [] = []
flush (p ∷ buf) = join_paragraphs (p ∷ buf) ∷ []

abbrev pub add_segments : List Text → Option (List Text) → Option (List Text)
add_segments segments none = none
add_segments segments (some rest) = some (segments ++ rest)

abbrev pub add_windows : Option (List Text) → Option (List Text) → Option (List Text)
add_windows none rest = none
add_windows (some windows) rest = add_segments windows rest

module _ {Token : Type 0} (encode : Text → List Token) (decode : List Token → Text) where
  -- `none` where the function raises ValueError
  unfoldable pub sliding_window : ℕ → ℕ → Text → Option (List Text)
  sliding_window max_tokens overlap_tokens text =
      let tokens = encode text in
      if is_nil (strip text)
      then some []
      else if leb max_tokens overlap_tokens
      then none
      else if leb (length tokens) max_tokens
      then some (text ∷ [])
      else some (
          filter_by (λ w. not (is_nil w))
            (map (λ w. strip (decode w))
              (windows_from (length tokens) max_tokens (max_tokens - overlap_tokens) tokens)))

  -- The loop over the paragraphs, with what it appends to `segments`.
  abbrev pub segment_from : ℕ → ℕ → List Text → ℕ → List Text → Option (List Text)
  segment_from max_tokens overlap buf buf_tokens [] = some (flush buf)
  segment_from max_tokens overlap buf buf_tokens (para ∷ paragraphs) =
      let tokens = length (encode para) in
      let too_long = leb (suc max_tokens) tokens in
      let full = leb (suc max_tokens) (buf_tokens + tokens) in
      let rest =
        segment_from max_tokens overlap
          (if too_long then [] else if full then para ∷ [] else buf ++ para ∷ [])
          (if too_long then 0 else if full then tokens else buf_tokens + tokens) paragraphs in
      if too_long
      then add_segments (flush buf) (add_windows (sliding_window max_tokens overlap para) rest)
      else if full
      then add_segments (flush buf) rest
      else rest

  unfoldable pub segment : ℕ → ℕ → Text → Option (List Text)
  segment max_tokens overlap text = segment_from max_tokens overlap [] 0 (paragraphs_of text)
