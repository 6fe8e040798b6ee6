-- ===== src/Parsers/Packing.antt =====
-- api/adapters/parsers/txt.py: the segments of a text, against its paragraphs.
use embedbase.Parsers.{
  Text, add_segments, add_windows, flush, paragraphs_of, segment, segment_from, sliding_window,
  strip, windows_from,
}
use embedbase.Prelude.{
  Bool, Bool-cases, List, Option, [], all_of, ap, append-nil, append_assoc, ap₂, arith, filter_by,
  inl, inr, is_nil, leb, length, map, not, refl, some, suc, sym, true, ℕ, ◌++◌, ◌+◌, ◌-◌, ◌<◌, ◌∙◌,
  ◌∷◌, ◌≡◌, ◌≤◌,
}

-- a segment that packs paragraphs, or a paragraph that is cut into windows
pub data Piece : Type 0 where
  packed : List Text → Piece
  windowed : Text → Piece

abbrev pub members : List Piece → List Text
members [] = []
members (packed buf ∷ pieces) = buf ++ members pieces
members (windowed para ∷ pieces) = para ∷ members pieces

module _ {Token : Type 0} (encode : Text → List Token) (decode : List Token → Text) where
  abbrev pub tokens_in : List Text → ℕ
  tokens_in [] = 0
  tokens_in (p ∷ ps) = length (encode p) + tokens_in ps

  abbrev pub fits : ℕ → Piece → Bool
  fits max_tokens (packed buf) = leb (tokens_in buf) max_tokens
  fits max_tokens (windowed para) = leb (suc max_tokens) (length (encode para))

  abbrev pub render : ℕ → ℕ → List Piece → Option (List Text)
  render max_tokens overlap [] = some []
  render max_tokens overlap (packed buf ∷ pieces) =
      add_segments (flush buf) (render max_tokens overlap pieces)
  render max_tokens overlap (windowed para ∷ pieces) =
      add_windows (sliding_window encode decode max_tokens overlap para)
        (render max_tokens overlap pieces)

  tokens_in-snoc :
      (buf : List Text) (p : Text) → tokens_in (buf ++ p ∷ []) ≡ tokens_in buf + length (encode p)
  tokens_in-snoc [] p = omega arith
  tokens_in-snoc (q ∷ buf) p = omega (arith, tokens_in-snoc buf p)

  -- what the loop appends, told by pieces
  record Told (max_tokens overlap : ℕ) (paragraphs : List Text) (segments : Option (List Text))
      : Type 0 where
    pieces : List Piece
    rendered : segments ≡ render max_tokens overlap pieces
    in_order : members pieces ≡ paragraphs
    all_fit : all_of (fits max_tokens) pieces ≡ true

  segment_from-Told :
      (max_tokens overlap : ℕ) (buf : List Text) (buf_tokens : ℕ) (paragraphs : List Text)
      → buf_tokens ≡ tokens_in buf
      → tokens_in buf ≤ max_tokens
      → Told max_tokens overlap
          (buf ++ paragraphs)
          (segment_from encode decode max_tokens overlap buf buf_tokens paragraphs)
  segment_from-Told max_tokens overlap buf buf_tokens [] counted small = record {
    pieces = packed buf ∷ [];
    rendered = ap some (sym (append-nil (flush buf)));
    in_order = refl;
    all_fit = ground (arith, small);
  }
  segment_from-Told max_tokens overlap buf buf_tokens (para ∷ paragraphs) counted small =
      elim (Bool-cases (leb (suc max_tokens) (length (encode para)))) [
        | inl long ↦
            let rest = segment_from-Told max_tokens overlap [] 0 paragraphs refl (omega arith) in
            record {
              pieces = packed buf ∷ windowed para ∷ rest.pieces;
              rendered = rw long (
                  ap
                    (λ later.
                      add_segments (flush buf)
                        (add_windows (sliding_window encode decode max_tokens overlap para) later))
                    rest.rendered);
              in_order = ap (λ ps. buf ++ para ∷ ps) rest.in_order;
              all_fit = ground (arith, small, long, rest.all_fit);
            }
        | inr short ↦ elim (Bool-cases (leb (suc max_tokens) (buf_tokens + length (encode para)))) [
          | inl full ↦
              let rest =
                segment_from-Told max_tokens overlap (para ∷ []) (length (encode para)) paragraphs
                  (omega arith) (ground (arith, short)) in
              record {
                pieces = packed buf ∷ rest.pieces;
                rendered = rw (short, full) (ap (add_segments (flush buf)) rest.rendered);
                in_order = ap (λ ps. buf ++ ps) rest.in_order;
                all_fit = ground (arith, small, rest.all_fit);
              }
          | inr room ↦
              let rest =
                segment_from-Told max_tokens overlap (buf ++ para ∷ [])
                  (buf_tokens + length (encode para)) paragraphs
                  (omega (arith, tokens_in-snoc buf para, counted))
                  (ground (arith, tokens_in-snoc buf para, counted, room)) in
              record {
                pieces = rest.pieces;
                rendered = rw (short, room) rest.rendered;
                in_order = rest.in_order ∙ append_assoc buf (para ∷ []) paragraphs;
                all_fit = rest.all_fit;
              }
        ]
      ]

  sliding_window-some :
      (max_tokens overlap : ℕ) (para : Text)
      → overlap < max_tokens
      → (windows : List Text) × (sliding_window encode decode max_tokens overlap para
          ≡ some windows)
  unfolding sliding_window
  sliding_window-some max_tokens overlap para small = elim (Bool-cases (is_nil (strip para))) [
    | inl blank ↦ ([], rw blank refl)
    | inr text ↦ elim (Bool-cases (leb max_tokens overlap)) [
      | inl wide ↦ absurd (ground (arith, small, wide))
      | inr narrow ↦ elim (Bool-cases (leb (length (encode para)) max_tokens)) [
        | inl one ↦ (para ∷ [], rw (text, narrow, one) refl)
        | inr many ↦ (
          filter_by (λ w. not (is_nil w))
              (map (λ w. strip (decode w))
                (windows_from (length (encode para)) max_tokens (max_tokens - overlap)
                  (encode para))),
          rw (text, narrow, many) refl,
        )
      ]
    ]
  ]

  render-some :
      (max_tokens overlap : ℕ) (pieces : List Piece)
      → overlap < max_tokens
      → (segments : List Text) × (render max_tokens overlap pieces ≡ some segments)
  render-some max_tokens overlap [] small = ([], refl)
  render-some max_tokens overlap (packed buf ∷ pieces) small =
      let (rest, e) = render-some max_tokens overlap pieces small in
      (flush buf ++ rest, ap (add_segments (flush buf)) e)
  render-some max_tokens overlap (windowed para ∷ pieces) small =
      let (rest, e) = render-some max_tokens overlap pieces small in
      let (windows, w) = sliding_window-some max_tokens overlap para small in
      (windows ++ rest, ap₂ add_windows w e)

  -- Where the overlap is smaller than a window, a text has segments, and they are those of some pieces: each packs paragraphs whose numbers of tokens
  -- add up to at most max_tokens, or cuts one paragraph with more tokens than that into windows, and
  -- the paragraphs of the pieces, in order, are those of the text.
  pub segment-pieces :
      (max_tokens overlap : ℕ) (text : Text)
      → overlap < max_tokens
      → (pieces : List Piece) × (segments : List Text) × (segment encode decode max_tokens overlap
            text
          ≡ some segments)
        × (render max_tokens overlap pieces ≡ some segments)
        × (members pieces ≡ paragraphs_of text)
        × (all_of (fits max_tokens) pieces ≡ true)
  unfolding segment
  segment-pieces max_tokens overlap text small =
      let told =
        segment_from-Told max_tokens overlap [] 0 (paragraphs_of text) refl (omega arith) in
      let (segments, e) = render-some max_tokens overlap told.pieces small in
      (told.pieces, segments, told.rendered ∙ e, e, told.in_order, told.all_fit)
