-- ===== src/Search/Laws.antt =====
-- What reranking (api/adapters/reranker/reorder.py) and ranking by BM25 (api/services/search.py) do
-- to the candidates.
use embedbase.Chunks.{SearchResult, renumber}
use embedbase.Prelude.{
  Bool, Bool-cases, List, Option, String, [], ap, arith, drop, false, filter_by, inl, inr, length,
  ltb, map, nat_eq, none, refl, some, suc, sym, take, true, ℕ, ◌++◌, ◌∙◌, ◌∷◌, ◌≡◌,
}
use embedbase.Prelude.Dict.{Dict}
use embedbase.Search.Ranking.{bm25_score, rank_by_bm25}
use embedbase.Search.Rerank.{
  Raw, coerced, fill_in, finite, finite_scores, ranked_head, rerank_by_scores, score_of, scored,
  surfaced, zipped,
}
use embedbase.Search.Sorting.{
  IsDescending, length-sorted_desc, sorted_desc, sorted_desc-IsDescending,
}

-- the answers of a score function that rerank nothing: an error, a wrong count, a score that is no
-- number
pub data Unusable {S : Type 0} (head : List (SearchResult S)) : Option (List (Raw S)) → Type 0 where
  raised : Unusable head none
  miscounted :
      (raw : List (Raw S)) → nat_eq (length raw) (length head) ≡ false → Unusable head (some raw)
  not_numbers : (raw : List (Raw S)) → coerced raw ≡ none → Unusable head (some raw)

-- how many results have an id that passes a test
abbrev pub count_ids : {S : Type 0} → (String → Bool) → List (SearchResult S) → ℕ
count_ids p results = length (filter_by (λ r. p r.chunk_id) results)

abbrev pub finite_of : {S : Type 0} → S → Raw S
finite_of s = finite s

module _ {S : Type 0} (le : S → S → Bool) (zero_score : S) where
  -- Where the score function raises, answers a wrong number of scores or one that is no number, the
  -- candidates come back as they were.
  pub rerank_by_scores-degrades :
      (query : String) (results : List (SearchResult S)) (top_n : ℕ)
      (score_fn : String → List String → Option (List (Raw S)))
      → Unusable
          (take top_n results)
          (score_fn query (map (λ (r : SearchResult S). r.text) (take top_n results)))
      → rerank_by_scores le zero_score query results top_n score_fn ≡ results
  unfolding rerank_by_scores finite_scores
  rerank_by_scores-degrades query results top_n score_fn h =
      elim (Bool-cases (ltb (length results) 2)) [
        | inl e ↦ rw (e, rerank_by_scores) refl
        | inr e ↦
            rw (e, rerank_by_scores)
              (unused (score_fn query (map (λ (r : SearchResult S). r.text) (take top_n results)))
                h)
      ]
    where
      unused :
          (answer : Option (List (Raw S)))
          → Unusable (take top_n results) answer
          → scored le zero_score results top_n answer ≡ results
      unused _ raised = refl
      unused _ (miscounted raw e) = ground arith
      unused _ (not_numbers raw e) = ground arith

  surfaced-IsDescending :
      (ps : List (SearchResult S × S))
      → IsDescending le (score_of le zero_score) ps
      → IsDescending le (λ (r : SearchResult S). r.score) (surfaced le zero_score ps)
  surfaced-IsDescending [] d = tt
  surfaced-IsDescending (p ∷ []) d = tt
  surfaced-IsDescending (p ∷ q ∷ ps) d = (d.0, surfaced-IsDescending (q ∷ ps) d.1)

  length-map_finite : (scores : List S) → length (map finite_of scores) ≡ length scores
  length-map_finite [] = refl
  length-map_finite (s ∷ scores) = ap (λ n. suc n) (length-map_finite scores)

  coerced-map : (scores : List S) → coerced (map finite_of scores) ≡ some (map some scores)
  coerced-map [] = refl
  coerced-map (s ∷ scores) = rw (coerced-map scores) refl

  fill_in-map : (low : S) (scores : List S) → fill_in le zero_score low (map some scores) ≡ scores
  fill_in-map low [] = refl
  fill_in-map low (s ∷ scores) = ap (λ ss. s ∷ ss) (fill_in-map low scores)

  finite_scores-map :
      (scores : List S) → finite_scores le zero_score (map finite_of scores) ≡ some scores
  unfolding finite_scores
  finite_scores-map scores = rw (finite_scores, coerced-map scores) (ap some (fill_in-map _ scores))

  -- the candidates of the head with their scores
  abbrev pub given : List (SearchResult S) → List S → List (SearchResult S)
  given (r ∷ head) (s ∷ scores) = record r { score = s } ∷ given head scores
  given [] scores = []
  given (r ∷ head) [] = []

  surfaced-zipped :
      (q : SearchResult S → Bool) (head : List (SearchResult S)) (scores : List S)
      → length (filter_by q (surfaced le zero_score (zipped le zero_score head scores)))
        ≡ length (filter_by q (given head scores))
  surfaced-zipped q [] scores = refl
  surfaced-zipped q (r ∷ head) [] = refl
  surfaced-zipped q (r ∷ head) (s ∷ scores) = ground (arith, surfaced-zipped q head scores)

  -- a test on a candidate with its score
  abbrev on_pair : (SearchResult S → Bool) → SearchResult S × S → Bool
  on_pair q (r, s) = q (record r { score = s })

  counted_pairs :
      (q : SearchResult S → Bool) (ps : List (SearchResult S × S))
      → length (filter_by q (surfaced le zero_score ps)) ≡ length (filter_by (on_pair q) ps)
  counted_pairs q [] = refl
  counted_pairs q ((r, s) ∷ ps) = ground (arith, counted_pairs q ps)

  -- Where the order of the scores is total, there are two candidates or more, and the score function
  -- answers one finite score for each of the first `top_n`: the result is a head, then the other
  -- candidates in their order, all ranked from 1 on; the scores of the head never rise from one
  -- result to the next, and as many of its results pass any given test as of the first `top_n`
  -- candidates, each with the score that the score function gave it.
  pub rerank_by_scores-order :
      (query : String) (results : List (SearchResult S)) (top_n : ℕ)
      (score_fn : String → List String → Option (List (Raw S))) (scores : List S)
      → ((a b : S) → le a b ≡ false → le b a ≡ true)
      → ltb (length results) 2 ≡ false
      → score_fn query (map (λ (r : SearchResult S). r.text) (take top_n results))
        ≡ some (map finite_of scores)
      → nat_eq (length scores) (length (take top_n results)) ≡ true
      → (head : List (SearchResult S)) × (rerank_by_scores le zero_score query results top_n
            score_fn
          ≡ renumber 1 (head ++ drop top_n results))
        × IsDescending le (λ (r : SearchResult S). r.score) head
        × ((q : SearchResult S → Bool)
            → length (filter_by q head) ≡ length (filter_by q (given (take top_n results) scores)))
  unfolding rerank_by_scores
  rerank_by_scores-order query results top_n score_fn scores total many answer counted =
      let pairs = zipped le zero_score (take top_n results) scores in
      let by_score = score_of le zero_score in
      let count : nat_eq (length (map finite_of scores)) (length (take top_n results)) ≡ true =
        ap (λ n. nat_eq n (length (take top_n results))) (length-map_finite scores) ∙ counted in
      (
        ranked_head le zero_score (take top_n results) scores,
        rw (rerank_by_scores, many, answer, count, finite_scores-map scores) refl,
        surfaced-IsDescending (sorted_desc le by_score pairs)
            (sorted_desc-IsDescending le by_score total pairs),
        λ q.
            counted_pairs q (sorted_desc le by_score pairs)
            ∙ length-sorted_desc le by_score (on_pair q) pairs
            ∙ sym (counted_pairs q pairs)
            ∙ surfaced-zipped q (take top_n results) scores,
      )

  -- Where the order of the scores is total, ranking by BM25 puts no result before a neighbour of a
  -- higher score, and keeps the number of ids that pass any given test.
  pub rank_by_bm25-order :
      (results : List (SearchResult S)) (scores : Dict S)
      → ((a b : S) → le a b ≡ false → le b a ≡ true)
      → (p : String → Bool)
      → IsDescending le
          (bm25_score le zero_score scores)
          (rank_by_bm25 le zero_score results scores)
        × (count_ids p (rank_by_bm25 le zero_score results scores) ≡ count_ids p results)
  unfolding rank_by_bm25
  rank_by_bm25-order results scores total p = (
    sorted_desc-IsDescending le (bm25_score le zero_score scores) total results,
    length-sorted_desc le (bm25_score le zero_score scores) (λ (r : SearchResult S). p r.chunk_id)
        results,
  )
