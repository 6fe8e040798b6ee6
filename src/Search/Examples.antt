-- ===== src/Search/Examples.antt =====
-- The theorems on reranking and ranking at two candidates, with numbers as scores.
use embedbase.Chunks.{SearchResult, renumber}
use embedbase.Expansion.Emitted.{ranks}
use embedbase.Expansion.Spans.{range_from}
use embedbase.Prelude.{
  Bool, List, Option, String, [], any_of, arith, drop, false, filter_by, leb, length, nat_eq, none,
  refl, some, take, true, ℕ, ◌&&◌, ◌++◌, ◌+◌, ◌/◌, ◌==◌, ◌∷◌, ◌≡◌,
}
use embedbase.Search.Fusion.{gathered, merge_collections_rrf, merge_collections_rrf-fused}
use embedbase.Search.Laws.{count_ids, given, rerank_by_scores-order}
use embedbase.Search.Rerank.{Raw, finite, rerank_by_scores}
use embedbase.Search.Sorting.{IsDescending}

abbrev candidate : String → ℕ → SearchResult ℕ
candidate chunk_id score = record {
  chunk_id = chunk_id;
  text = chunk_id;
  score = score;
  rank = 0;
  source = none;
  metadata = record {
    document_id = none;
    chunk_index = none;
    page_number = none;
    filename = none;
    tags = [];
  };
}

abbrev pool : List (SearchResult ℕ)
pool = candidate "a" 3 ∷ candidate "b" 2 ∷ candidate "c" 1 ∷ []

abbrev scores_of : String → List String → Option (List (Raw ℕ))
scores_of query texts = some (finite 4 ∷ finite 9 ∷ [])

abbrev fails : String → List String → Option (List (Raw ℕ))
fails query texts = none

leb_total : (a b : ℕ) → leb a b ≡ false → leb b a ≡ true
leb_total a b h = ground arith

rerank_by_scores-order_example :
    (head : List (SearchResult ℕ)) × (rerank_by_scores leb 0 "q" pool 2 scores_of
      ≡ renumber 1 (head ++ drop 2 pool))
    × IsDescending leb (λ (r : SearchResult ℕ). r.score) head
    × ((q : SearchResult ℕ → Bool)
        → length (filter_by q head) ≡ length (filter_by q (given leb 0 (take 2 pool) (4 ∷ 9 ∷ []))))
rerank_by_scores-order_example =
    rerank_by_scores-order leb 0 "q" pool 2 scores_of (4 ∷ 9 ∷ []) leb_total refl refl refl

abbrev other_pool : List (SearchResult ℕ)
other_pool = candidate "d" 9 ∷ []

abbrev rrf_score : ℕ → ℕ
rrf_score rank = 1000 / (60 + rank)

abbrev both_pools : List (List (SearchResult ℕ))
both_pools = pool ∷ other_pool ∷ []

merge_collections_rrf-fused_example :
    IsDescending leb
      (λ (x : SearchResult ℕ). x.score)
      (merge_collections_rrf leb rrf_score both_pools)
    × (ranks (merge_collections_rrf leb rrf_score both_pools)
        ≡ range_from 1 (length (merge_collections_rrf leb rrf_score both_pools)))
    × ((p : String → Bool)
        → count_ids p (merge_collections_rrf leb rrf_score both_pools)
          ≡ count_ids p (gathered both_pools))
    × (any_of
          (λ (x : SearchResult ℕ). x.chunk_id == "b" && nat_eq x.score 16)
          (merge_collections_rrf leb rrf_score both_pools)
        ≡ true)
merge_collections_rrf-fused_example =
    merge_collections_rrf-fused leb rrf_score leb_total [] (other_pool ∷ []) (candidate "a" 3 ∷ [])
      (candidate "c" 1 ∷ []) (candidate "b" 2) (λ k score. k == "b" && nat_eq score 16) refl refl
