-- ===== src/Parsers/Examples.antt =====
-- The theorems on texts with an encoder that makes each code point a token.
use embedbase.Parsers.{Text, paragraphs_of, segment, sliding_window, windows_from}
use embedbase.Parsers.Packing.{Piece, fits, members, render, segment-pieces}
use embedbase.Parsers.Windows.{rejoin, windows_from-cut}
use embedbase.Prelude.{List, [], all_of, arith, leb, length, refl, some, true, ℕ, ◌-◌, ◌∷◌, ◌≡◌}

abbrev each : Text → List ℕ
each text = text

abbrev five : List ℕ
five = 1 ∷ 2 ∷ 3 ∷ 4 ∷ 5 ∷ []

-- a short paragraph and one of five tokens
abbrev two_paragraphs : Text
two_paragraphs = 97 ∷ 98 ∷ 10 ∷ 10 ∷ 99 ∷ 100 ∷ 101 ∷ 102 ∷ 103 ∷ []

windows_from-cut_example :
    (all_of (λ w. leb (length w) 3) (windows_from 5 3 (3 - 1) five) ≡ true)
    × (rejoin 1 (windows_from 5 3 (3 - 1) five) ≡ five)
windows_from-cut_example = windows_from-cut 5 3 1 five (omega arith) (omega arith)

segment-pieces_example :
    (pieces : List Piece) × (segments : List Text) × (segment each each 4 1 two_paragraphs
      ≡ some segments)
    × (render each each 4 1 pieces ≡ some segments)
    × (members pieces ≡ paragraphs_of two_paragraphs)
    × (all_of (fits each each 4) pieces ≡ true)
segment-pieces_example = segment-pieces each each 4 1 two_paragraphs (omega arith)

segmented :
    segment each each 4 1 two_paragraphs
    ≡ some ((97 ∷ 98 ∷ []) ∷ (99 ∷ 100 ∷ 101 ∷ 102 ∷ []) ∷ (102 ∷ 103 ∷ []) ∷ [])
unfolding segment paragraphs_of sliding_window windows_from
segmented = refl
