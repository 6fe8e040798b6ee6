-- ===== src/Expansion/Emitted.antt =====
-- What `expand_spans` (api/services/expansion.py) puts out for its hits.
use mathlib.Core.List.{Memᴰ}
use embedbase.Chunks.{SearchResult, renumber}
use embedbase.Expansion.Merge.{Window, merge_intervals-exact, within}
use embedbase.Expansion.Spans.{
  Key, Marker, expand_keyed, expand_spans, fetched_chunks, hit_key, keys_of, marker_of, range_from,
  same_doc, same_marker, span_for, spans_of, walk, window_of,
}
use embedbase.Prelude.{
  Bool, Bool-cases, List, Option, String, [], any_of, ap, arith, eq_refl, false, filter_by, find_by,
  inl, inr, leb, length, map, none, refl, some, subst, suc, sym, true, ℕ, ◌<◌, ◌∙◌, ◌∷◌, ◌≡◌,
}
use embedbase.Prelude.Dict.{keys}

find_by-any_of :
    (p : Window → Bool) (ws : List Window)
    → any_of p ws ≡ true
    → (w : Window) × (find_by p ws ≡ some w) × (p w ≡ true)
find_by-any_of p [] h = absurd (ground arith)
find_by-any_of p (w ∷ ws) h = elim (Bool-cases (p w)) [
  | inl e ↦ (w, ground arith, e)
  | inr e ↦ let (v, f, q) = find_by-any_of p ws (ground arith) in (v, ground arith, q)
]

same_doc_self : (k : Key) → same_doc k k ≡ true
same_doc_self k = ground (arith, eq_refl k.collection_id, eq_refl k.document_id)

own_window :
    (neighbors : ℕ) (k : Key) (keys : List Key)
    → Memᴰ k keys
    → any_of
        (within k.index)
        (map (λ j. window_of neighbors j) (filter_by (λ j. same_doc j k) keys))
      ≡ true
own_window neighbors k [] m = elim m [ ]
own_window neighbors k (j ∷ keys) (Memᴰ.head e) =
    let q : same_doc j k ≡ true = subst (λ x. same_doc x k ≡ true) e (same_doc_self k) in
    let i : within k.index (window_of neighbors j) ≡ true =
      subst (λ (x : Key). within k.index (window_of neighbors x) ≡ true) e (ground arith) in
    ground arith
own_window neighbors k (j ∷ keys) (Memᴰ.tail m) = ground (arith, own_window neighbors k keys m)

-- no marker is emitted twice
abbrev pub DistinctMarkers : List Marker → Type 0
DistinctMarkers [] = Unit
DistinctMarkers (m ∷ marks) = (any_of (same_marker m) marks ≡ false) × DistinctMarkers marks

abbrev pub is_unkeyed : Option Key → Bool
is_unkeyed none = true
is_unkeyed (some k) = false

module _ {S : Type 0} (make_chunk_id : String → ℕ → String)
    (fetch : String → List String → List (SearchResult S)) (neighbors char_budget : ℕ) where
  -- For a hit among the keys, `span_for` finds one of the merged spans of its document, and that
  -- span holds the hit's index: the fallback to the index alone is not reached.
  pub span_for-found :
      (keys : List Key) (k : Key)
      → Memᴰ k keys
      → (find_by (within k.index) (spans_of make_chunk_id fetch neighbors char_budget keys k)
          ≡ some (span_for make_chunk_id fetch neighbors char_budget keys k))
        × (within k.index (span_for make_chunk_id fetch neighbors char_budget keys k) ≡ true)
  unfolding span_for
  span_for-found keys k m =
      let own = own_window neighbors k keys m in
      let spans = spans_of make_chunk_id fetch neighbors char_budget keys k in
      let (w, f, q) = find_by-any_of (within k.index) spans (
        (merge_intervals-exact
          (map (λ j. window_of neighbors j) (filter_by (λ j. same_doc j k) keys)) k.index).1
        ∙ own) in
      rw (f, span_for) (refl, q)

  module _ (keys : List Key) (fetched : List (String × SearchResult S)) where
    abbrev marker : Key → Marker
    marker k = marker_of make_chunk_id fetch neighbors char_budget keys k

    abbrev walked : List Marker → List (SearchResult S) → List Marker × List (SearchResult S)
    walked emitted results =
        walk make_chunk_id fetch neighbors char_budget keys fetched emitted results

    -- the hits that pass through
    abbrev pub unkeyed : List (SearchResult S) → List (SearchResult S)
    unkeyed results = filter_by (λ r. is_unkeyed (hit_key r)) results

-- the ranks of results in a list
abbrev pub ranks : {S : Type 0} → List (SearchResult S) → List ℕ
ranks [] = []
ranks (r ∷ results) = r.rank ∷ ranks results

ranks-renumber :
    {S : Type 0} (n : ℕ) (results : List (SearchResult S))
    → ranks (renumber n results) ≡ range_from n (length results)
ranks-renumber n [] = refl
ranks-renumber n (r ∷ results) =
    ap (λ ns. n ∷ ns)
      (ranks-renumber (suc n) results ∙ ap (λ m. range_from m (length results)) (omega arith))

length-renumber :
    {S : Type 0} (n : ℕ) (results : List (SearchResult S))
    → length (renumber n results) ≡ length results
length-renumber n [] = refl
length-renumber n (r ∷ results) = ap (λ m. suc m) (length-renumber (suc n) results)

-- With at least one neighbour and at least one hit that has a key, the results are ranked 1, 2, 3
-- and so on in the order put out.
expand_spans-ranks :
    {S : Type 0} (make_chunk_id : String → ℕ → String)
    (fetch : String → List String → List (SearchResult S)) (neighbors char_budget : ℕ)
    (results : List (SearchResult S)) (k : Key) (keys : List Key)
    → 0 < neighbors
    → keys_of results ≡ k ∷ keys
    → ranks (expand_spans make_chunk_id fetch neighbors char_budget results)
      ≡ range_from 1 (length (expand_spans make_chunk_id fetch neighbors char_budget results))
unfolding expand_spans
expand_spans-ranks make_chunk_id fetch neighbors char_budget [] k keys h e = cc
expand_spans-ranks {S = S} make_chunk_id fetch neighbors char_budget (r ∷ results) k keys h e =
    subst (λ out. ranks out ≡ range_from 1 (length out)) (sym expanded)
      (ranks-renumber 1 out ∙ ap (λ n. range_from 1 n) (sym (length-renumber 1 out)))
  where
    out : List (SearchResult S)
    out =
        (walk make_chunk_id fetch neighbors char_budget (k ∷ keys)
          (fetched_chunks make_chunk_id fetch neighbors char_budget (k ∷ keys)) [] (r ∷ results)).1

    expanded : expand_spans make_chunk_id fetch neighbors char_budget (r ∷ results) ≡ renumber 1 out
    expanded =
        let on : leb neighbors 0 ≡ false = ground arith in
        rw (on, expand_spans)
          (ap (λ ks. expand_keyed make_chunk_id fetch neighbors char_budget ks (r ∷ results)) e)

pub ranks_of_renumber :
    {S : Type 0} (results : List (SearchResult S))
    → ranks (renumber 1 results) ≡ range_from 1 (length (renumber 1 results))
ranks_of_renumber results =
    ranks-renumber 1 results ∙ ap (λ n. range_from 1 n) (sym (length-renumber 1 results))
