-- ===== src/Expansion/Spans.antt =====
-- `expand_spans` (api/services/expansion.py). `make_chunk_id` (a SHA-256 digest) and `fetch` (the
-- vector store) are parameters. A dictionary keyed by the places of the hits is the list of the
-- hits beside their keys; a set is a list of which only membership is read.
use embedbase.Chunks.{Ordinal, SearchResult, SourceProvenance, number, renumber, unreadable}
use embedbase.Expansion.Budget.{Ordered, fit_budget, page_range}
use embedbase.Expansion.Merge.{Window, merge_intervals, within}
use Prim.Native.String.{compare}
use text.Mathlib.Text.{is_le}
use embedbase.Prelude.{
  Bool, List, Option, String, [], any_of, dedup, filter_by, find_by, if◌then◌else◌, is_nil, join,
  leb, map, nat_eq, none, or_else, some, suc, zero, ℕ, ◌&&◌, ◌++◌, ◌+◌, ◌-◌, ◌==◌, ◌||◌, ◌∷◌,
}
use embedbase.Prelude.Dict.{keys}
use embedbase.Workspaces.{fetched}

pub record Key : Type 0 where
  pub collection_id : String
  pub document_id : String
  pub index : ℕ

abbrev pub ordinal_key : String → String → Ordinal → Option Key
ordinal_key col doc (number n) = some (record { collection_id = col; document_id = doc; index = n })
ordinal_key col doc unreadable = none

unfoldable pub hit_key : {S : Type 0} → SearchResult S → Option Key
hit_key result = do
  source ← result.source
  document_id ← result.metadata.document_id
  chunk_index ← result.metadata.chunk_index
  ordinal_key source.collection_id document_id chunk_index
  where
    infixl 5 ◌>>=◌
    ◌>>=◌ : {A B : Type 0} → Option A → (A → Option B) → Option B
    none >>= f = none
    some a >>= f = f a

abbrev pub keys_of : {S : Type 0} → List (SearchResult S) → List Key
keys_of [] = []
keys_of (r ∷ results) =
    let rest : List Key = keys_of results in elim (hit_key r) [ none ↦ rest | some k ↦ k ∷ rest ]

-- the window of a hit; subtraction stops at 0, as `max(0, index - neighbors)` does
abbrev pub window_of : ℕ → Key → Window
window_of neighbors k = (k.index - neighbors, k.index + neighbors)

-- `range(lo, lo + n)`, and `range(start, end + 1)`
abbrev pub range_from : ℕ → ℕ → List ℕ
range_from lo zero = []
range_from lo (suc n) = lo ∷ range_from (lo + 1) n

abbrev pub indexes : Window → List ℕ
indexes (start, end) = range_from start (end + 1 - start)

abbrev pub same_doc : Key → Key → Bool
same_doc j k = j.collection_id == k.collection_id && j.document_id == k.document_id

abbrev insert_text : String → List String → List String
insert_text t [] = t ∷ []
insert_text t (u ∷ us) =
    let rest = insert_text t us in if is_le (compare t u) then t ∷ u ∷ us else u ∷ rest

-- `sorted(ids)`
abbrev sort_texts : List String → List String
sort_texts [] = []
sort_texts (t ∷ ts) = insert_text t (sort_texts ts)

-- what a hit is emitted under: its document and its span
abbrev pub Marker : Type 0
Marker = (String × String) × Window

abbrev pub same_marker : Marker → Marker → Bool
same_marker ((c, d), (s, e)) ((c', d'), (s', e')) = c == c' && d == d' && nat_eq s s' && nat_eq e e'

module _ {S : Type 0} (make_chunk_id : String → ℕ → String)
    (fetch : String → List String → List (SearchResult S)) (neighbors char_budget : ℕ) where
  -- `need`: the ids to fetch from one collection
  abbrev pub needed_ids : String → List Key → List String
  needed_ids col [] = []
  needed_ids col (k ∷ keys) =
      let rest : List String = needed_ids col keys in
      if k.collection_id == col
      then map (λ idx. make_chunk_id k.document_id idx) (indexes (window_of neighbors k)) ++ rest
      else rest

  abbrev pub fetch_all : List Key → List String → List (String × SearchResult S)
  fetch_all keys [] = []
  fetch_all keys (col ∷ cols) =
      map (λ chunk. (col, chunk)) (fetch col (sort_texts (dedup (needed_ids col keys))))
      ++ fetch_all keys cols

  -- `fetched`: one fetch for each collection
  abbrev pub fetched_chunks : List Key → List (String × SearchResult S)
  fetched_chunks keys = fetch_all keys (dedup (map (λ (k : Key). k.collection_id) keys))

  -- `fetched[(collection_id, chunk_id)]`; a later chunk replaces an earlier one
  abbrev pub lookup : List (String × SearchResult S) → String → String → Option (SearchResult S)
  lookup [] col chunk_id = none
  lookup ((c, chunk) ∷ fetched) col chunk_id =
      or_else (lookup fetched col chunk_id)
        (if c == col && chunk.chunk_id == chunk_id then some chunk else none)

  abbrev pub spans_of : List Key → Key → List Window
  spans_of keys k =
      merge_intervals (map (λ j. window_of neighbors j) (filter_by (λ j. same_doc j k) keys))

  abbrev pub hit_indexes : List Key → Key → List ℕ
  hit_indexes keys k = map (λ (j : Key). j.index) (filter_by (λ j. same_doc j k) keys)

  abbrev pub or_alone : ℕ → Option Window → Window
  or_alone idx none = (idx, idx)
  or_alone idx (some span) = span

  unfoldable pub span_for : List Key → Key → Window
  span_for keys k = or_alone k.index (find_by (within k.index) (spans_of keys k))

  abbrev pub ordered_chunks : List (String × SearchResult S) → Key → List ℕ → Ordered S
  ordered_chunks fetched k [] = []
  ordered_chunks fetched k (idx ∷ rest) =
      let later : Ordered S = ordered_chunks fetched k rest in
      elim (lookup fetched k.collection_id (make_chunk_id k.document_id idx)) [
        | none ↦ later
        | some chunk ↦ (idx, chunk) ∷ later
      ]

  abbrev pub with_pages : Option (ℕ × ℕ) → Option SourceProvenance → Option SourceProvenance
  with_pages pages none = none
  with_pages pages (some source) = some (record source { page_range = pages })

  -- `_build_span`, after the test that nothing was fetched
  abbrev pub assemble : SearchResult S → List ℕ → Ordered S → SearchResult S
  assemble hit hits [] = hit
  assemble hit hits (x ∷ rest) =
      let kept : List (SearchResult S) = fit_budget (x ∷ rest) hits char_budget in
      record hit {
        text = join "\n\n" (map (λ (chunk : SearchResult S). chunk.text) kept);
        source = with_pages (page_range kept) hit.source;
      }

  unfoldable pub build_span :
      SearchResult S → Key → Window → List ℕ → List (String × SearchResult S) → SearchResult S
  build_span hit k span hits fetched = assemble hit hits (ordered_chunks fetched k (indexes span))

  abbrev pub marker_of : List Key → Key → Marker
  marker_of keys k = ((k.collection_id, k.document_id), span_for keys k)

  -- The walk over the hits: `emitted`, and the results put out.
  abbrev pub walk :
      List Key
      → List (String × SearchResult S)
      → List Marker
      → List (SearchResult S)
      → List Marker × List (SearchResult S)
  walk keys fetched emitted [] = (emitted, [])
  walk keys fetched emitted (r ∷ results) = elim (hit_key r) [
    | none ↦ let (marks, out) = walk keys fetched emitted results in (marks, r ∷ out)
    | some k ↦
        let mark : Marker = marker_of keys k in
        let skipped = walk keys fetched emitted results in
        let (marks, out) = walk keys fetched (mark ∷ emitted) results in
        if any_of (same_marker mark) emitted
        then skipped
        else (marks, build_span r k (span_for keys k) (hit_indexes keys k) fetched ∷ out)
  ]

  abbrev pub expand_keyed : List Key → List (SearchResult S) → List (SearchResult S)
  expand_keyed [] results = results
  expand_keyed (k ∷ keys) results =
      renumber 1 (walk (k ∷ keys) (fetched_chunks (k ∷ keys)) [] results).1

  unfoldable pub expand_spans : List (SearchResult S) → List (SearchResult S)
  expand_spans results =
      if leb neighbors 0 || is_nil results then results else expand_keyed (keys_of results) results
