-- ===== src/Search/Rerank.antt =====
-- api/adapters/reranker/reorder.py: `rerank_by_scores`. The finite floats are a parameter with the
-- test `le` of their order and their zero; a score function answers scores, or raises.
use embedbase.Chunks.{SearchResult, renumber}
use embedbase.Prelude.{
  Bool, List, Option, String, [], drop, if◌then◌else◌, length, ltb, map, nat_eq, none, some, take,
  ℕ, ◌++◌, ◌∷◌,
}
use embedbase.Search.Sorting.{sorted_desc}

-- one score of a provider: a finite number, NaN or an infinity, or something that `float()` refuses
pub data Raw (S : Type 0) : Type 0 where
  finite : S → Raw S
  not_finite : Raw S
  not_numeric : Raw S

-- an entry of `coerced`: `none` is a float that is not finite
abbrev pub coerced_by : {S : Type 0} → Raw S → Option (List (Option S)) → Option (List (Option S))
coerced_by (finite s) rest = elim rest [ none ↦ none | some ss ↦ some (some s ∷ ss) ]
coerced_by not_finite rest = elim rest [ none ↦ none | some ss ↦ some (none ∷ ss) ]
coerced_by not_numeric rest = none

abbrev pub coerced : {S : Type 0} → List (Raw S) → Option (List (Option S))
coerced [] = some []
coerced (r ∷ raw) = coerced_by r (coerced raw)

module _ {S : Type 0} (le : S → S → Bool) (zero_score : S) where
  abbrev pub lower : Option S → S → S
  lower none s = s
  lower (some m) s = if le m s then m else s

  -- `min(finite)`, or `none` where no score is finite
  abbrev pub lowest : List (Option S) → Option S
  lowest [] = none
  lowest (none ∷ ss) = lowest ss
  lowest (some s ∷ ss) = some (lower (lowest ss) s)

  abbrev pub floor_of : Option S → S
  floor_of none = zero_score
  floor_of (some m) = m

  abbrev pub fill_in : S → List (Option S) → List S
  fill_in low [] = []
  fill_in low (none ∷ ss) = low ∷ fill_in low ss
  fill_in low (some s ∷ ss) = s ∷ fill_in low ss

  -- `_finite_scores`: `none` is the error of `float()`
  unfoldable pub finite_scores : List (Raw S) → Option (List S)
  finite_scores raw = elim (coerced raw) [
    | none ↦ none
    | some ss ↦ some (fill_in (floor_of (lowest ss)) ss)
  ]

  -- `zip(head, scores)`
  abbrev pub zipped : List (SearchResult S) → List S → List (SearchResult S × S)
  zipped [] ss = []
  zipped (r ∷ head) [] = []
  zipped (r ∷ head) (s ∷ ss) = (r, s) ∷ zipped head ss

  -- `result.score = score`
  abbrev pub surfaced : List (SearchResult S × S) → List (SearchResult S)
  surfaced [] = []
  surfaced ((r, s) ∷ ranked) = record r { score = s } ∷ surfaced ranked

  abbrev pub score_of : SearchResult S × S → S
  score_of pair = pair.1

  abbrev pub ranked_head : List (SearchResult S) → List S → List (SearchResult S)
  ranked_head head scores = surfaced (sorted_desc le score_of (zipped head scores))

  -- the part after the count of the scores
  abbrev pub reordered : List (SearchResult S) → ℕ → Option (List S) → List (SearchResult S)
  reordered results top_n none = results
  reordered results top_n (some scores) =
      renumber 1 (ranked_head (take top_n results) scores ++ drop top_n results)

  -- `none` is an exception of the score function
  abbrev pub scored : List (SearchResult S) → ℕ → Option (List (Raw S)) → List (SearchResult S)
  scored results top_n none = results
  scored results top_n (some raw) =
      if nat_eq (length raw) (length (take top_n results))
      then reordered results top_n (finite_scores raw)
      else results

  unfoldable pub rerank_by_scores :
      String
      → List (SearchResult S)
      → ℕ
      → (String → List String → Option (List (Raw S)))
      → List (SearchResult S)
  rerank_by_scores query results top_n score_fn =
      if ltb (length results) 2
      then results
      else scored results top_n
          (score_fn query (map (λ (r : SearchResult S). r.text) (take top_n results)))
