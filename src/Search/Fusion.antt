-- ===== src/Search/Fusion.antt =====
-- `_merge_collections_rrf` (api/services/search.py). `rrf rank` is the score `1 / (_RRF_K + rank)`.
use embedbase.Chunks.{SearchResult, renumber}
use embedbase.Expansion.Emitted.{ranks, ranks_of_renumber}
use embedbase.Expansion.Spans.{range_from}
use embedbase.Prelude.{
  Bool, List, String, [], any_of, ap, arith, false, filter_by, is_nil, leb, length, not, refl,
  subst, suc, sym, true, ℕ, ◌++◌, ◌+◌, ◌||◌, ◌∙◌, ◌∷◌, ◌≡◌,
}
use embedbase.Search.Laws.{count_ids}
use embedbase.Search.Sorting.{
  IsDescending, length-sorted_desc, sorted_desc, sorted_desc-IsDescending,
}

abbrev pub gathered : {S : Type 0} → List (List (SearchResult S)) → List (SearchResult S)
gathered [] = []
gathered (results ∷ rest) = results ++ gathered rest

module _ {S : Type 0} (le : S → S → Bool) (rrf : ℕ → S) where
  -- the inner loop: copies scored by their rank within the collection
  abbrev pub rescored : ℕ → List (SearchResult S) → List (SearchResult S)
  rescored rank [] = []
  rescored rank (r ∷ results) = record r { score = rrf rank } ∷ rescored (suc rank) results

  abbrev pub fused : List (List (SearchResult S)) → List (SearchResult S)
  fused [] = []
  fused (results ∷ rest) = rescored 1 results ++ fused rest

  abbrev pub contributing : List (List (SearchResult S)) → List (List (SearchResult S))
  contributing per_collection = filter_by (λ results. not (is_nil results)) per_collection

  -- one contributing collection keeps its scores
  abbrev pub merged_of :
      List (List (SearchResult S)) → List (List (SearchResult S)) → List (SearchResult S)
  merged_of per_collection (results ∷ []) = renumber 1 results
  merged_of per_collection [] =
      renumber 1 (sorted_desc le (λ (r : SearchResult S). r.score) (fused per_collection))
  merged_of per_collection (a ∷ b ∷ rest) =
      renumber 1 (sorted_desc le (λ (r : SearchResult S). r.score) (fused per_collection))

  unfoldable pub merge_collections_rrf : List (List (SearchResult S)) → List (SearchResult S)
  merge_collections_rrf per_collection = merged_of per_collection (contributing per_collection)

  count_ids-renumber :
      (p : String → Bool) (n : ℕ) (results : List (SearchResult S))
      → count_ids p (renumber n results) ≡ count_ids p results
  count_ids-renumber p n [] = refl
  count_ids-renumber p n (r ∷ results) = ground (arith, count_ids-renumber p (suc n) results)

  count_ids-rescored :
      (p : String → Bool) (n : ℕ) (results : List (SearchResult S))
      → count_ids p (rescored n results) ≡ count_ids p results
  count_ids-rescored p n [] = refl
  count_ids-rescored p n (r ∷ results) = ground (arith, count_ids-rescored p (suc n) results)

  count_ids-append :
      (p : String → Bool) (xs ys : List (SearchResult S))
      → count_ids p (xs ++ ys) ≡ count_ids p xs + count_ids p ys
  count_ids-append p [] ys = omega arith
  count_ids-append p (x ∷ xs) ys = ground (arith, count_ids-append p xs ys)

  count_ids-fused :
      (p : String → Bool) (per_collection : List (List (SearchResult S)))
      → count_ids p (fused per_collection) ≡ count_ids p (gathered per_collection)
  count_ids-fused p [] = refl
  count_ids-fused p (results ∷ rest) = omega (
    arith,
    count_ids-append p (rescored 1 results) (fused rest),
    count_ids-append p results (gathered rest),
    count_ids-rescored p 1 results,
    count_ids-fused p rest,
  )

  gathered-contributing :
      (per_collection : List (List (SearchResult S)))
      → gathered (contributing per_collection) ≡ gathered per_collection
  gathered-contributing [] = refl
  gathered-contributing ([] ∷ rest) = gathered-contributing rest
  gathered-contributing ((r ∷ results) ∷ rest) =
      ap (λ xs. r ∷ (results ++ xs)) (gathered-contributing rest)

  -- the sorted fusion holds the ids that there were
  count_ids-sorted :
      (p : String → Bool) (per_collection : List (List (SearchResult S)))
      → count_ids p
          (renumber 1 (sorted_desc le (λ (r : SearchResult S). r.score) (fused per_collection)))
        ≡ count_ids p (gathered per_collection)
  count_ids-sorted p per_collection =
      count_ids-renumber p 1
        (sorted_desc le (λ (r : SearchResult S). r.score) (fused per_collection))
      ∙ length-sorted_desc le (λ (r : SearchResult S). r.score)
          (λ (r : SearchResult S). p r.chunk_id) (fused per_collection)
      ∙ count_ids-fused p per_collection

  count_ids-merged_of :
      (p : String → Bool) (per_collection sources : List (List (SearchResult S)))
      → gathered sources ≡ gathered per_collection
      → count_ids p (merged_of per_collection sources) ≡ count_ids p (gathered per_collection)
  count_ids-merged_of p per_collection [] h = count_ids-sorted p per_collection
  count_ids-merged_of p per_collection (results ∷ []) h =
      count_ids-renumber p 1 results
      ∙ omega (
        arith,
        count_ids-append p results [],
        ap (λ (xs : List (SearchResult S)). count_ids p xs) h,
      )
  count_ids-merged_of p per_collection (a ∷ b ∷ rest) h = count_ids-sorted p per_collection

  ranks-merged_of :
      (per_collection sources : List (List (SearchResult S)))
      → ranks (merged_of per_collection sources)
        ≡ range_from 1 (length (merged_of per_collection sources))
  ranks-merged_of per_collection [] =
      ranks_of_renumber (sorted_desc le (λ (r : SearchResult S). r.score) (fused per_collection))
  ranks-merged_of per_collection (results ∷ []) = ranks_of_renumber results
  ranks-merged_of per_collection (a ∷ b ∷ rest) =
      ranks_of_renumber (sorted_desc le (λ (r : SearchResult S). r.score) (fused per_collection))

  renumber-IsDescending :
      (n : ℕ) (xs : List (SearchResult S))
      → IsDescending le (λ (r : SearchResult S). r.score) xs
      → IsDescending le (λ (r : SearchResult S). r.score) (renumber n xs)
  renumber-IsDescending n [] d = tt
  renumber-IsDescending n (x ∷ []) d = tt
  renumber-IsDescending n (x ∷ y ∷ xs) d = (d.0, renumber-IsDescending (suc n) (y ∷ xs) d.1)

  -- a test of a result's id and score
  abbrev on_score : (String → S → Bool) → SearchResult S → Bool
  on_score q x = q x.chunk_id x.score

  any_of-renumber :
      (q : String → S → Bool) (n : ℕ) (xs : List (SearchResult S))
      → any_of (on_score q) (renumber n xs) ≡ any_of (on_score q) xs
  any_of-renumber q n [] = refl
  any_of-renumber q n (x ∷ xs) = ap (λ b. on_score q x || b) (any_of-renumber q (suc n) xs)

  any_of-counted :
      (q : SearchResult S → Bool) (xs : List (SearchResult S))
      → any_of q xs ≡ leb 1 (length (filter_by q xs))
  any_of-counted q [] = refl
  any_of-counted q (x ∷ xs) = ground (arith, any_of-counted q xs)

  any_of-both :
      (q : SearchResult S → Bool) (xs ys : List (SearchResult S))
      → any_of q (xs ++ ys) ≡ (any_of q xs || any_of q ys)
  any_of-both q [] ys = refl
  any_of-both q (x ∷ xs) ys = ground (arith, any_of-both q xs ys)

  placed :
      (q : String → S → Bool) (n : ℕ) (xs ys : List (SearchResult S)) (r : SearchResult S)
      → q r.chunk_id (rrf (n + length xs)) ≡ true
      → any_of (on_score q) (rescored n (xs ++ r ∷ ys)) ≡ true
  placed q n [] ys r h =
      let at : q r.chunk_id (rrf n) ≡ true = ap (λ m. q r.chunk_id (rrf m)) (omega arith) ∙ h in
      ground (arith, at)
  placed q n (x ∷ xs) ys r h =
      let later : q r.chunk_id (rrf (suc n + length xs)) ≡ true =
        ap (λ m. q r.chunk_id (rrf m)) (omega arith) ∙ h in
      ground (arith, placed q (suc n) xs ys r later)

  fused_holds :
      (q : String → S → Bool) (before after : List (List (SearchResult S)))
      (results : List (SearchResult S))
      → any_of (on_score q) (rescored 1 results) ≡ true
      → any_of (on_score q) (fused (before ++ results ∷ after)) ≡ true
  fused_holds q [] after results h =
      any_of-both (on_score q) (rescored 1 results) (fused after) ∙ ground (arith, h)
  fused_holds q (b ∷ before) after results h =
      any_of-both (on_score q) (rescored 1 b) (fused (before ++ results ∷ after))
      ∙ ground (arith, fused_holds q before after results h)

  -- with two sources or more, the merge is the sorted fusion
  merged_of_two :
      (per_collection sources : List (List (SearchResult S)))
      → leb 2 (length sources) ≡ true
      → merged_of per_collection sources
        ≡ renumber 1 (sorted_desc le (λ (r : SearchResult S). r.score) (fused per_collection))
  merged_of_two per_collection [] h = absurd (ground arith)
  merged_of_two per_collection (results ∷ []) h = absurd (ground arith)
  merged_of_two per_collection (a ∷ b ∷ rest) h = refl

  -- Where the order of the scores is total and two collections or more have results: the merge has
  -- scores that never rise, ranks 1, 2, 3 and so on, and as many ids that pass any given test as the
  -- collections' results together; and the result that stands behind `xs` in its collection is in it
  -- with the score of that place, whatever test tells its id and score.
  pub merge_collections_rrf-fused :
      ((a b : S) → le a b ≡ false → le b a ≡ true)
      → (before after : List (List (SearchResult S))) (xs ys : List (SearchResult S))
        (r : SearchResult S) (q : String → S → Bool)
      → leb 2 (length (contributing (before ++ (xs ++ r ∷ ys) ∷ after))) ≡ true
      → q r.chunk_id (rrf (1 + length xs)) ≡ true
      → IsDescending le
          (λ (x : SearchResult S). x.score)
          (merge_collections_rrf (before ++ (xs ++ r ∷ ys) ∷ after))
        × (ranks (merge_collections_rrf (before ++ (xs ++ r ∷ ys) ∷ after))
            ≡ range_from 1 (length (merge_collections_rrf (before ++ (xs ++ r ∷ ys) ∷ after))))
        × ((p : String → Bool)
            → count_ids p (merge_collections_rrf (before ++ (xs ++ r ∷ ys) ∷ after))
              ≡ count_ids p (gathered (before ++ (xs ++ r ∷ ys) ∷ after)))
        × (any_of
              (λ (x : SearchResult S). q x.chunk_id x.score)
              (merge_collections_rrf (before ++ (xs ++ r ∷ ys) ∷ after))
            ≡ true)
  unfolding merge_collections_rrf
  merge_collections_rrf-fused all_ordered before after xs ys r q two at =
      let per_collection = before ++ (xs ++ r ∷ ys) ∷ after in
      let by_score = λ (x : SearchResult S). x.score in
      let sorted = sorted_desc le by_score (fused per_collection) in
      let same = merged_of_two per_collection (contributing per_collection) two in
      (
        subst (IsDescending le by_score) (sym same) (
            renumber-IsDescending 1 sorted
              (sorted_desc-IsDescending le by_score all_ordered (fused per_collection))),
        ranks-merged_of per_collection (contributing per_collection),
        λ p.
            count_ids-merged_of p per_collection (contributing per_collection)
              (gathered-contributing per_collection),
        ap (any_of (on_score q)) same
            ∙ any_of-renumber q 1 sorted
            ∙ any_of-counted (on_score q) sorted
            ∙ ap (leb 1) (length-sorted_desc le by_score (on_score q) (fused per_collection))
            ∙ sym (any_of-counted (on_score q) (fused per_collection))
            ∙ fused_holds q before after (xs ++ r ∷ ys) (placed q 1 xs ys r at),
      )
