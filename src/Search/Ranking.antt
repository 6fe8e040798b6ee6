-- ===== src/Search/Ranking.antt =====
-- api/services/search.py: the metadata filters, the ranking of candidates, and the signal that more
-- is available. The BM25 scores of the store are an argument, absent for a chunk without a match.
use embedbase.Chunks.{SearchResult, renumber}
use embedbase.Prelude.{
  Bool, List, Option, String, [], all_of, contains, false, filter_by, if◌then◌else◌, is_nil, map,
  none, not, some, true, ◌&&◌, ◌==◌, ◌∷◌,
}
use embedbase.Prelude.Dict.{Dict, get}
use embedbase.Search.Sorting.{sorted_desc}

pub record SearchFilters : Type 0 where
  pub filename : Option String
  pub tags : Option (List String)

abbrev pub empty_text : Option String → Bool
empty_text none = true
empty_text (some t) = t == ""

abbrev pub tags_of : Option (List String) → List String
tags_of none = []
tags_of (some tags) = tags

abbrev pub has_filename : Option String → Option String → Bool
has_filename none wanted = false
has_filename (some have) none = false
has_filename (some have) (some wanted) = have == wanted

unfoldable pub matches : {S : Type 0} → SearchResult S → SearchFilters → Bool
matches result filters =
    if empty_text filters.filename && is_nil (tags_of filters.tags)
    then true
    else if not (empty_text filters.filename)
        && not (has_filename result.metadata.filename filters.filename)
    then false
    else if not (is_nil (tags_of filters.tags))
    then all_of (λ t. contains result.metadata.tags t) (tags_of filters.tags)
    else true

unfoldable pub apply_filters :
    {S : Type 0} → List (SearchResult S) → Option SearchFilters → List (SearchResult S)
unfolding matches
apply_filters results none = results
apply_filters results (some filters) = filter_by (λ r. matches r filters) results

pub data SearchMode : Type 0 where
  hybrid semantic bm25 semantic_only : SearchMode

module _ {S : Type 0} (le : S → S → Bool) (zero_score : S) where
  -- `scores.get(chunk_id, 0.0)`
  abbrev pub score_or : Option S → S
  score_or none = zero_score
  score_or (some s) = s

  abbrev pub bm25_score : Dict S → SearchResult S → S
  bm25_score scores r = score_or (get scores r.chunk_id)

  unfoldable pub rank_by_bm25 : List (SearchResult S) → Dict S → List (SearchResult S)
  rank_by_bm25 results scores = sorted_desc le (bm25_score scores) results

  abbrev pub with_scores : Dict S → List (SearchResult S) → List (SearchResult S)
  with_scores scores [] = []
  with_scores scores (r ∷ results) =
      record r { score = bm25_score scores r } ∷ with_scores scores results

  abbrev pub ranked_by : List (SearchResult S) → Dict S → List (SearchResult S) × SearchMode
  ranked_by candidates [] = (candidates, semantic_only)
  ranked_by candidates (e ∷ scores) =
      (with_scores (e ∷ scores) (renumber 1 (rank_by_bm25 candidates (e ∷ scores))), bm25)

  -- `bm25_scores` of the store, for the ids of the candidates
  unfoldable pub rank_candidates :
      (List String → Dict S)
      → List (SearchResult S)
      → SearchMode
      → List (SearchResult S) × SearchMode
  unfolding rank_by_bm25
  rank_candidates bm25_scores candidates semantic = (candidates, semantic)
  rank_candidates bm25_scores candidates mode =
      ranked_by candidates (bm25_scores (map (λ (r : SearchResult S). r.chunk_id) candidates))
