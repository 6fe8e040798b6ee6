-- ===== src/Worker/Stored.antt =====
-- worker/tasks.py and pgvector.py: what the upserts of a document's chunks leave in the store, and
-- which chunks the next run finds still to embed.
use embedbase.Prelude.{
  Bool, Distinct, Distinct-filter_by, List, String, [], all_of, all_of-append, all_of-filter_by,
  all_of_mono, ap, ap₂, arith, contains, drop, eq_iff, eq_refl, false, filter_by, filter_by-append,
  length, map, not, refl, some, subst, suc, take, true, zero, ℕ, ◌++◌, ◌==◌, ◌||◌, ◌∙◌, ◌∷◌, ◌≡◌,
  ◌≤◌,
}
use embedbase.Prelude.Dict.{Dict, get, get-put, put}
use embedbase.Vectors.{
  Chunk, StoredChunk, at_model, collection_kept, document_chunk_ids_at_model, keys_where, row_of,
  upsert, upsert_row,
}
use embedbase.Worker.Embed.{batches_of, pending, split}

unfoldable pub concat : List (List Chunk) → List Chunk
concat [] = []
concat (batch ∷ batches) = batch ++ concat batches

take-drop : (n : ℕ) (xs : List Chunk) → take n xs ++ drop n xs ≡ xs
take-drop zero xs = refl
take-drop (suc n) [] = refl
take-drop (suc n) (x ∷ xs) = ap (λ ys. x ∷ ys) (take-drop n xs)

drop_shorter : (n : ℕ) (xs : List Chunk) → length (drop n xs) ≤ length xs
drop_shorter zero xs = omega arith
drop_shorter (suc n) [] = omega arith
drop_shorter (suc n) (x ∷ xs) = omega (arith, drop_shorter n xs)

concat-split :
    (fuel size : ℕ) (xs : List Chunk) → length xs ≤ fuel → concat (split fuel (suc size) xs) ≡ xs
unfolding concat
concat-split zero size [] h = refl
concat-split zero size (x ∷ xs) h = ground arith
concat-split (suc fuel) size [] h = refl
concat-split (suc fuel) size (x ∷ xs) h =
    ap (λ ys. (x ∷ take size xs) ++ ys)
      (concat-split fuel size (drop size xs) (omega (arith, h, drop_shorter size xs)))
    ∙ ap (λ ys. x ∷ ys) (take-drop size xs)

-- The batches of `batches_of` are the chunks, none left out, in their order.
pub concat-batches_of : (size : ℕ) (xs : List Chunk) → concat (batches_of (suc size) xs) ≡ xs
unfolding batches_of
concat-batches_of size xs = concat-split (length xs) size xs (omega arith)

filter_by_two :
    (both f g : Chunk → Bool) (xs : List Chunk)
    → ((c : Chunk) → both c ≡ (f c || g c))
    → filter_by (λ c. not (both c)) xs ≡ filter_by (λ c. not (g c)) (filter_by (λ c. not (f c)) xs)
filter_by_two both f g [] e = refl
filter_by_two both f g (x ∷ xs) e = ground (arith, e x, filter_by_two both f g xs e)

none_kept :
    (ids : List String) (p : List Chunk)
    → all_of (λ c. contains ids c.id) p ≡ true
    → filter_by (λ c. not (contains ids c.id)) p ≡ []
none_kept ids [] h = refl
none_kept ids (c ∷ p) h = ground (arith, none_kept ids p)

all_kept :
    (ids : List String) (q : List Chunk)
    → all_of (λ c. not (contains ids c.id)) q ≡ true
    → filter_by (λ c. not (contains ids c.id)) q ≡ q
all_kept ids [] h = refl
all_kept ids (c ∷ q) h = ground (arith, all_kept ids q)

own_ids : (p : List Chunk) → all_of (λ c. contains (map (λ (c : Chunk). c.id) p) c.id) p ≡ true
own_ids [] = refl
own_ids (c ∷ p) = ground (
  arith,
  eq_refl c.id,
  all_of_mono (λ d. contains (map (λ (c : Chunk). c.id) p) d.id)
      (λ d. contains (map (λ (c : Chunk). c.id) (c ∷ p)) d.id) p (λ d h. ground arith) (own_ids p),
)

not_in_suffix :
    (p q : List Chunk) (k : String)
    → contains (map (λ (c : Chunk). c.id) (p ++ q)) k ≡ false
    → contains (map (λ (c : Chunk). c.id) q) k ≡ false
not_in_suffix [] q k h = h
not_in_suffix (c ∷ p) q k h = not_in_suffix p q k (ground arith)

one_more :
    (k : String) (ids : List String) (q : List Chunk)
    → contains (map (λ (c : Chunk). c.id) q) k ≡ false
    → all_of (λ c. not (contains ids c.id)) q ≡ true
    → all_of (λ c. not (contains (k ∷ ids) c.id)) q ≡ true
one_more k ids [] n h = refl
one_more k ids (c ∷ q) n h = ground (arith, one_more k ids q, eq_iff k c.id, eq_iff c.id k)

none_excluded : (q : List Chunk) → all_of (λ c. not (contains [] c.id)) q ≡ true
none_excluded [] = refl
none_excluded (c ∷ q) = none_excluded q

other_ids :
    (p q : List Chunk)
    → Distinct (map (λ (c : Chunk). c.id) (p ++ q))
    → all_of (λ c. not (contains (map (λ (c : Chunk). c.id) p) c.id)) q ≡ true
other_ids [] q h = none_excluded q
other_ids (c ∷ p) q h =
    one_more c.id (map (λ (c : Chunk). c.id) p) q (not_in_suffix p q c.id h.0) (other_ids p q h.1)

pub holds_of_first :
    (r k : Chunk → Bool) (chunks p q : List Chunk)
    → all_of r chunks ≡ true
    → filter_by k chunks ≡ p ++ q
    → all_of r p ≡ true
holds_of_first r k chunks p q h e =
    let kept = all_of-filter_by r k r chunks (λ c _ hc. hc) h in
    ground (arith, all_of-append r p q, subst (λ xs. all_of r xs ≡ true) e kept)

others_kept :
    (p q : List Chunk)
    → Distinct (map (λ (c : Chunk). c.id) (p ++ q))
    → filter_by (λ c. not (contains (map (λ (c : Chunk). c.id) p) c.id)) (p ++ q) ≡ q
others_kept p q h =
    let ids = map (λ (c : Chunk). c.id) p in
    filter_by-append (λ c. not (contains ids c.id)) p q
    ∙ ap₂ (λ xs ys. xs ++ ys) (none_kept ids p (own_ids p)) (all_kept ids q (other_ids p q h))

module _ {V : Type 0} (embed : String → V) (coll model : String) where
  -- the rows of chunks whose vectors are those of their texts
  unfoldable pub fill_rows : Dict (StoredChunk V) → List Chunk → Dict (StoredChunk V)
  fill_rows store [] = store
  fill_rows store (c ∷ chunks) =
      fill_rows (upsert_row store coll (some model) c (embed c.text)) chunks

  pub fill_rows-append :
      (store : Dict (StoredChunk V)) (xs ys : List Chunk)
      → fill_rows store (xs ++ ys) ≡ fill_rows (fill_rows store xs) ys
  unfolding fill_rows
  fill_rows-append store [] ys = refl
  fill_rows-append store (c ∷ xs) ys =
      fill_rows-append (upsert_row store coll (some model) c (embed c.text)) xs ys

  pub upsert-map :
      (store : Dict (StoredChunk V)) (chunks : List Chunk)
      → upsert store coll (some model) chunks (map embed (map (λ c. c.text) chunks))
        ≡ some (fill_rows store chunks)
  unfolding upsert fill_rows
  upsert-map store [] = refl
  upsert-map store (c ∷ chunks) =
      upsert-map (upsert_row store coll (some model) c (embed c.text)) chunks

  contains-keys_where-put :
      (p : StoredChunk V → Bool) (store : Dict (StoredChunk V)) (k : String) (row : StoredChunk V)
      (j : String)
      → p row ≡ true
      → contains (keys_where p (put store k row)) j ≡ (contains (keys_where p store) j || k == j)
  contains-keys_where-put p [] k row j h = ground arith
  contains-keys_where-put p ((i, old) ∷ store) k row j h =
      ground (arith, contains-keys_where-put p store k row j h, eq_iff i k, eq_iff i j, eq_iff k j)

  -- no row of a chunk's id belongs to another collection
  unfoldable pub at_home : Dict (StoredChunk V) → Chunk → Bool
  at_home store c = collection_kept coll (get store c.id) == coll

  at_home-upsert_row :
      (store : Dict (StoredChunk V)) (c d : Chunk)
      → at_home store c ≡ true
      → at_home store d ≡ true
      → at_home (upsert_row store coll (some model) c (embed c.text)) d ≡ true
  unfolding at_home upsert_row
  at_home-upsert_row store c d hc hd = ground (
    arith,
    get-put store c.id (row_of store coll (some model) c (embed c.text)) d.id,
    eq_iff (collection_kept coll (get store c.id)) coll,
    eq_refl coll,
  )

  pub at_home-fill_rows :
      (store : Dict (StoredChunk V)) (p chunks : List Chunk)
      → all_of (at_home store) p ≡ true
      → all_of (at_home store) chunks ≡ true
      → all_of (at_home (fill_rows store p)) chunks ≡ true
  unfolding fill_rows
  at_home-fill_rows store [] chunks hp h = h
  at_home-fill_rows store (c ∷ p) chunks hp h =
      let hc : at_home store c ≡ true = ground arith in
      let next = upsert_row store coll (some model) c (embed c.text) in
      let kept : (xs : List Chunk)
          → all_of (at_home store) xs ≡ true
          → all_of (at_home next) xs ≡ true =
        λ xs.
          all_of_mono (at_home store) (at_home next) xs
            (λ d hd. at_home-upsert_row store c d hc hd) in
      at_home-fill_rows next p chunks (kept p (ground arith)) (kept chunks h)

  module _ (doc : String) where
    existing-upsert_row :
        (store : Dict (StoredChunk V)) (c : Chunk) (j : String)
        → at_home store c ≡ true
        → c.document_id == doc ≡ true
        → contains
            (document_chunk_ids_at_model
              (upsert_row store coll (some model) c (embed c.text))
              coll
              doc
              model)
            j
          ≡ (contains (document_chunk_ids_at_model store coll doc model) j || c.id == j)
    unfolding at_home upsert_row document_chunk_ids_at_model at_model
    existing-upsert_row store c j h d =
        contains-keys_where-put (at_model coll doc model) store c.id
          (row_of store coll (some model) c (embed c.text)) j (ground (arith, eq_refl model))

    existing-fill_rows :
        (store : Dict (StoredChunk V)) (chunks : List Chunk) (j : String)
        → all_of (at_home store) chunks ≡ true
        → all_of (λ c. c.document_id == doc) chunks ≡ true
        → contains (document_chunk_ids_at_model (fill_rows store chunks) coll doc model) j ≡ (
            contains (document_chunk_ids_at_model store coll doc model) j
            || contains (map (λ (c : Chunk). c.id) chunks) j)
    unfolding fill_rows
    existing-fill_rows store [] j h d = ground arith
    existing-fill_rows store (c ∷ chunks) j h d =
        let hc : at_home store c ≡ true = ground arith in
        let next = upsert_row store coll (some model) c (embed c.text) in
        let rest : all_of (at_home next) chunks ≡ true =
          all_of_mono (at_home store) (at_home next) chunks
            (λ d hd. at_home-upsert_row store c d hc hd) (ground arith) in
        existing-fill_rows next chunks j rest (ground arith)
        ∙ ground (arith, existing-upsert_row store c j hc (ground arith))

    -- the rows of the first chunks to embed are those that the next run does not embed again
    pub pending-fill_rows :
        (store : Dict (StoredChunk V)) (chunks p q : List Chunk)
        → all_of (at_home store) chunks ≡ true
        → all_of (λ c. c.document_id == doc) chunks ≡ true
        → Distinct (map (λ (c : Chunk). c.id) chunks)
        → pending store coll doc model chunks ≡ p ++ q
        → pending (fill_rows store p) coll doc model chunks ≡ q
    unfolding pending
    pending-fill_rows store chunks p q h d distinct e =
        let f = contains (document_chunk_ids_at_model store coll doc model) in
        let todo = filter_by (λ c. not (f c.id)) chunks in
        let distinct_todo : Distinct (map (λ (c : Chunk). c.id) (p ++ q)) =
          subst (λ xs. Distinct (map (λ (c : Chunk). c.id) xs)) e
            (Distinct-filter_by (λ (c : Chunk). c.id) (λ c. not (f c.id)) chunks distinct) in
        let kept = filter_by (λ c. not (contains (map (λ (c : Chunk). c.id) p) c.id)) in
        let all_home : all_of (at_home store) p ≡ true =
          holds_of_first (at_home store) (λ c. not (f c.id)) chunks p q h e in
        let all_doc : all_of (λ c. c.document_id == doc) p ≡ true =
          holds_of_first (λ c. c.document_id == doc) (λ c. not (f c.id)) chunks p q d e in
        filter_by_two
          (λ c. contains (document_chunk_ids_at_model (fill_rows store p) coll doc model) c.id)
          (λ c. f c.id) (λ c. contains (map (λ (c : Chunk). c.id) p) c.id) chunks
          (λ c. existing-fill_rows store p c.id all_home all_doc)
        ∙ ap kept e
        ∙ others_kept p q distinct_todo
