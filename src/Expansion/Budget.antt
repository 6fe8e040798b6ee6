-- ===== src/Expansion/Budget.antt =====
-- `_fit_budget` and `_page_range` (api/services/expansion.py). The slice `ordered[lo : hi + 1]` of
-- the loop is the list held; `lo += 1` drops its first chunk and `hi -= 1` its last.
use embedbase.Chunks.{SearchResult}
use embedbase.Prelude.{
  Bool, List, Option, [], any_of, count, if◌then◌else◌, leb, length, ltb, max, min, nat_eq, none,
  not, some, suc, zero, ℕ, ◌&&◌, ◌*◌, ◌+◌, ◌-◌, ◌||◌, ◌∷◌,
}

abbrev pub Ordered : Type 0 → Type 0
Ordered S = List (ℕ × SearchResult S)

abbrev pub text_len : {S : Type 0} → SearchResult S → ℕ
text_len chunk = count chunk.text

abbrev lengths : {S : Type 0} → Ordered S → ℕ
lengths [] = 0
lengths ((idx, chunk) ∷ rest) = text_len chunk + lengths rest

-- `size()`: two characters for each gap
abbrev pub size : {S : Type 0} → Ordered S → ℕ
size span = lengths span + 2 * (length span - 1)

abbrev pub in_hits : List ℕ → ℕ → Bool
in_hits hits idx = any_of (λ h. nat_eq h idx) hits

-- the last chunk of the slice whose first is `x`, and the slice without it
abbrev pub last_from : {S : Type 0} → (ℕ × SearchResult S) → Ordered S → (ℕ × SearchResult S)
last_from x [] = x
last_from x (y ∷ rest) = last_from y rest

abbrev pub but_last : {S : Type 0} → (ℕ × SearchResult S) → Ordered S → Ordered S
but_last x [] = []
but_last x (y ∷ rest) = x ∷ but_last y rest

pub data Side : Type 0 where
  drop_left drop_right keep_both : Side

-- the two tests of the loop's body
abbrev pub choose_side : Bool → Bool → ℕ → ℕ → Side
choose_side left_droppable right_droppable left_len right_len =
    if not left_droppable && not right_droppable
    then keep_both
    else if left_droppable && (not right_droppable || leb right_len left_len)
    then drop_left
    else drop_right

abbrev pub side_of : {S : Type 0} → List ℕ → (ℕ × SearchResult S) → (ℕ × SearchResult S) → Side
side_of hits x y =
    choose_side (not (in_hits hits x.0)) (not (in_hits hits y.0)) (text_len x.1) (text_len y.1)

abbrev pub trim_side : {S : Type 0} → (ℕ × SearchResult S) → Ordered S → Side → Option (Ordered S)
trim_side x rest keep_both = none
trim_side x rest drop_left = some rest
trim_side x rest drop_right = some (but_last x rest)

-- One round of the loop: the slice after it, or `none` where the loop ends.
abbrev pub trim : {S : Type 0} → List ℕ → ℕ → Ordered S → Option (Ordered S)
trim hits char_budget [] = none
trim hits char_budget (x ∷ []) = none
trim hits char_budget (x ∷ y ∷ rest) =
    if ltb char_budget (size (x ∷ y ∷ rest))
    then trim_side x (y ∷ rest) (side_of hits x (last_from y rest))
    else none

-- The loop, on fuel: a round shortens the slice, so its length is enough.
abbrev pub trim_loop : {S : Type 0} → ℕ → List ℕ → ℕ → Ordered S → Ordered S
trim_loop zero hits char_budget span = span
trim_loop (suc fuel) hits char_budget span = elim (trim hits char_budget span) [
  | none ↦ span
  | some next ↦ trim_loop fuel hits char_budget next
]

abbrev pub chunks_of : {S : Type 0} → Ordered S → List (SearchResult S)
chunks_of [] = []
chunks_of ((idx, chunk) ∷ rest) = chunk ∷ chunks_of rest

unfoldable pub fit_budget : {S : Type 0} → Ordered S → List ℕ → ℕ → List (SearchResult S)
fit_budget ordered hit_indexes char_budget =
    chunks_of (trim_loop (length ordered) hit_indexes char_budget ordered)

-- the pages of the chunks that have one
abbrev pub pages_of : {S : Type 0} → List (SearchResult S) → List ℕ
pages_of [] = []
pages_of (c ∷ chunks) =
    let rest : List ℕ = pages_of chunks in
    elim c.metadata.page_number [ none ↦ rest | some p ↦ p ∷ rest ]

abbrev pub min_from : ℕ → List ℕ → ℕ
min_from m [] = m
min_from m (p ∷ pages) = min_from (min m p) pages

abbrev pub max_from : ℕ → List ℕ → ℕ
max_from m [] = m
max_from m (p ∷ pages) = max_from (max m p) pages

abbrev pub range_of : List ℕ → Option (ℕ × ℕ)
range_of [] = none
range_of (p ∷ pages) =
    let lo = min_from p pages in
    let hi = max_from p pages in if nat_eq lo hi then none else some (lo, hi)

-- The label "lo-hi" is kept as its two numbers.
unfoldable pub page_range : {S : Type 0} → List (SearchResult S) → Option (ℕ × ℕ)
page_range chunks = range_of (pages_of chunks)
