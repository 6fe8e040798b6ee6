-- ===== src/Expansion/Examples.antt =====
-- The theorems on expansion (api/services/expansion.py) at three hits of one document.
use embedbase.Chunks.{SearchResult, SourceProvenance, number}
use embedbase.Expansion.Budget.{Ordered, chunks_of, fit_budget, size}
use embedbase.Expansion.Merge.{IsSeparated, merge_intervals, merge_intervals-exact, within}
use embedbase.Expansion.Spans.{Key}
use embedbase.Expansion.Trimmed.{EndsHit, Trimmed, fit_budget-run}
use embedbase.Permissions.Regrant.{ids}
use embedbase.Prelude.{
  List, String, [], any_of, contains, filter_by, if◌then◌else◌, length, nat_eq, none, some, ℕ, ◌∷◌,
  ◌≡◌, ◌≤◌, ◌⊎◌,
}

abbrev source_of : SourceProvenance
source_of = record {
  collection_id = "c1";
  collection_name = "Notes";
  workspace_id = "w1";
  workspace_name = "Research";
  document_id = some "d1";
  filename = none;
  page_number = none;
  page_range = none;
}

abbrev hit : String → String → ℕ → SearchResult ℕ
hit chunk_id text idx = record {
  chunk_id = chunk_id;
  text = text;
  score = 1;
  rank = 0;
  source = some source_of;
  metadata = record {
    document_id = some "d1";
    chunk_index = some (number idx);
    page_number = some idx;
    filename = none;
    tags = [];
  };
}

abbrev key : ℕ → Key
key idx = record { collection_id = "c1"; document_id = "d1"; index = idx }

abbrev chunk_id_of : String → ℕ → String
chunk_id_of document_id idx = if nat_eq idx 3 then "c" else if nat_eq idx 4 then "d" else "other"

abbrev store : String → List String → List (SearchResult ℕ)
store col ids =
    filter_by (λ (r : SearchResult ℕ). contains ids r.chunk_id)
      (hit "c" "third" 3 ∷ hit "d" "fourth" 4 ∷ [])

abbrev hits : List (SearchResult ℕ)
hits = hit "c" "third" 3 ∷ hit "d" "fourth" 4 ∷ []

abbrev span : Ordered ℕ
span = (2, hit "b" "second" 2) ∷ (3, hit "c" "third" 3) ∷ (4, hit "d" "fourth" 4) ∷ []

merge_intervals-exact_example :
    IsSeparated (merge_intervals ((5, 7) ∷ (0, 2) ∷ (3, 4) ∷ []))
    × (any_of (within 4) (merge_intervals ((5, 7) ∷ (0, 2) ∷ (3, 4) ∷ []))
        ≡ any_of (within 4) ((5, 7) ∷ (0, 2) ∷ (3, 4) ∷ []))
merge_intervals-exact_example = merge_intervals-exact ((5, 7) ∷ (0, 2) ∷ (3, 4) ∷ []) 4

fit_budget-run_example :
    (kept : Ordered ℕ) × (fit_budget span (3 ∷ []) 12 ≡ chunks_of kept)
    × Trimmed (3 ∷ []) span kept
    × ((size kept ≤ 12) ⊎ ((length kept ≤ 1) ⊎ EndsHit (3 ∷ []) kept))
fit_budget-run_example = fit_budget-run span (3 ∷ []) 12
