-- ===== src/Worker/Resume.antt =====
-- worker/tasks.py: `_embed_and_store` run again after runs that stopped.
use mathlib.Core.Bool.{false≢true}
use embedbase.Prelude.{
  Bool, Bool-cases, Distinct, List, Option, Option-cases, String, [], all_of, ap, append-nil,
  append_assoc, arith, contains, inl, inr, length, map, not, refl, some, subst, suc, sym, true,
  zero, ℕ, ◌++◌, ◌+◌, ◌-◌, ◌==◌, ◌∙◌, ◌∷◌, ◌≡◌,
}
use embedbase.Prelude.Dict.{Dict}
use embedbase.Vectors.{Chunk, StoredChunk, document_chunk_ids_at_model, upsert}
use embedbase.Worker.Embed.{
  Effect, pending, Run, batches_of, before, embed_and_store, embed_batches, embedding, rerun,
  steady, throttled, unless_finished, unstopped, with_tags,
}
use embedbase.Worker.Stored.{
  at_home, at_home-fill_rows, concat, concat-batches_of, fill_rows, fill_rows-append,
  holds_of_first, pending-fill_rows, upsert-map,
}

module _ {V : Type 0} (embed_batch : ℕ → List String → Option (List V)) (goes_on : ℕ → Bool)
    (embed : String → V)
    (answers : (call : ℕ) (texts : List String) (vectors : List V)
      → embed_batch call texts ≡ some vectors
      → vectors ≡ map embed texts)
    (size : ℕ) (coll doc model : String) where
  -- A run stores the first of the chunks to embed, and all of them where it returns.
  record Stored (todo : List Chunk) (store : Dict (StoredChunk V)) (run : Run V) : Type 0 where
    first : List Chunk
    last : List Chunk
    split_at : todo ≡ first ++ last
    filled : run.store ≡ fill_rows embed coll model store first
    all_done : run.finished ≡ true → last ≡ []

  returned_first :
      {todo : List Chunk} {store : Dict (StoredChunk V)} {run : Run V} (s : Stored todo store run)
      → run.finished ≡ true
      → todo ≡ s.first
  returned_first s returned =
      s.split_at ∙ ap (λ xs. s.first ++ xs) (s.all_done returned) ∙ append-nil s.first

  Stored-before :
      (todo : List Chunk) (store : Dict (StoredChunk V)) (effects : List Effect) (run : Run V)
      → Stored todo store run
      → Stored todo store (before effects run)
  Stored-before todo store effects run s = record {
    first = s.first;
    last = s.last;
    split_at = s.split_at;
    filled = s.filled;
    all_done = s.all_done;
  }

  Stored-batch :
      (batch todo : List Chunk) (store : Dict (StoredChunk V)) (at total : ℕ) (run : Run V)
      → Stored todo (fill_rows embed coll model store batch) run
      → Stored (batch ++ todo) store (before (embedding at total batch ∷ []) run)
  Stored-batch batch todo store at total run s = record {
    first = batch ++ s.first;
    last = s.last;
    split_at = ap (λ xs. batch ++ xs) s.split_at ∙ sym (append_assoc batch s.first s.last);
    filled = s.filled ∙ sym (fill_rows-append embed coll model store batch s.first);
    all_done = s.all_done;
  }

  Stored-again :
      (todo : List Chunk) (store : Dict (StoredChunk V)) (run again : Run V)
      → (s : Stored todo store run) → Stored s.last run.store again
      → Stored todo store (before run.effects again)
  Stored-again todo store run again s t = record {
    first = s.first ++ t.first;
    last = t.last;
    split_at =
        s.split_at
        ∙ ap (λ xs. s.first ++ xs) t.split_at
        ∙ sym (append_assoc s.first t.first t.last);
    filled =
        t.filled
        ∙ ap (λ kept. fill_rows embed coll model kept t.first) s.filled
        ∙ sym (fill_rows-append embed coll model store s.first t.first);
    all_done = t.all_done;
  }

  embed_batches-Stored :
      (batches : List (List Chunk)) (total call at : ℕ) (store : Dict (StoredChunk V))
      → Stored
          (concat batches)
          store
          (embed_batches embed_batch goes_on coll model total call at store batches)
  unfolding embed_batches concat fill_rows
  embed_batches-Stored [] total call at store = record {
    first = [];
    last = [];
    split_at = refl;
    filled = refl;
    all_done = λ _. refl;
  }
  embed_batches-Stored (batch ∷ batches) total call at store =
      elim (Option-cases (embed_batch call (map (λ (c : Chunk). c.text) batch))) [
        | inl e ↦ rw e record {
          first = [];
          last = concat (batch ∷ batches);
          split_at = refl;
          filled = refl;
          all_done = λ h. elim (false≢true h) [ ];
        }
        | inr (vectors, e) ↦
            let same = answers call (map (λ (c : Chunk). c.text) batch) vectors e in
            let wrote =
              ap (λ vs. upsert store coll (some model) batch vs) same
              ∙ upsert-map embed coll model store batch in
            let rest =
              embed_batches embed_batch goes_on coll model total (suc call) (at + length batch)
                (fill_rows embed coll model store batch) batches in
            elim (Bool-cases (goes_on call)) [
              | inl on ↦
                  rw (e, wrote, on)
                    (Stored-before (batch ++ concat batches) store (throttled (length batch) ∷ [])
                      (before (embedding (at + length batch) total batch ∷ []) rest)
                      (Stored-batch batch (concat batches) store (at + length batch) total rest (
                        embed_batches-Stored batches total (suc call) (at + length batch)
                          (fill_rows embed coll model store batch))))
              | inr off ↦
                  rw (e, wrote, off)
                    record {
                      first = batch;
                      last = concat batches;
                      split_at = refl;
                      filled = refl;
                      all_done = λ h. elim (false≢true h) [ ];
                    }
            ]
      ]

  embed_and_store-Stored :
      (effective : List String) (call : ℕ) (store : Dict (StoredChunk V)) (chunks : List Chunk)
      → Stored
          (pending store coll doc model (with_tags effective chunks))
          store
          (embed_and_store embed_batch goes_on size coll doc model effective call store chunks)
  unfolding embed_and_store
  embed_and_store-Stored effective call store chunks =
      let tagged = with_tags effective chunks in
      let todo = pending store coll doc model tagged in
      let at : ℕ = length tagged - length todo in
      let run =
        embed_batches embed_batch goes_on coll model (length tagged) call at store
          (batches_of (suc size) todo) in
      Stored-before todo store (embedding at (length tagged) [] ∷ []) run (
        subst (λ xs. Stored xs store run) (concat-batches_of size todo)
          (embed_batches-Stored (batches_of (suc size) todo) (length tagged) call at store))

  pending-at_home :
      (store : Dict (StoredChunk V)) (chunks p q : List Chunk)
      → all_of (at_home embed coll model store) chunks ≡ true
      → pending store coll doc model chunks ≡ p ++ q
      → all_of (at_home embed coll model store) p ≡ true
  unfolding pending
  pending-at_home store chunks p q h e =
      holds_of_first (at_home embed coll model store)
        (λ c. not (contains (document_chunk_ids_at_model store coll doc model) c.id)) chunks p q h e

  -- What runs leave: the rows of all the chunks to embed, once one of them returns.
  rerun-Stored :
      (n : ℕ) (effective : List String) (call : ℕ) (store : Dict (StoredChunk V))
      (chunks : List Chunk)
      → all_of (at_home embed coll model store) (with_tags effective chunks) ≡ true
      → all_of (λ c. c.document_id == doc) (with_tags effective chunks) ≡ true
      → Distinct (map (λ (c : Chunk). c.id) (with_tags effective chunks))
      → Stored
          (pending store coll doc model (with_tags effective chunks))
          store
          (rerun embed_batch goes_on n size coll doc model effective call store chunks)
  unfolding rerun
  rerun-Stored zero effective call store chunks home of_doc distinct =
      embed_and_store-Stored effective call store chunks
  rerun-Stored (suc n) effective call store chunks home of_doc distinct =
      let run =
        embed_and_store embed_batch goes_on size coll doc model effective call store chunks in
      let s = embed_and_store-Stored effective call store chunks in
      let again =
        rerun embed_batch goes_on n size coll doc model effective run.calls run.store chunks in
      let joined : Bool → Type 0 = λ b.
        Stored (pending store coll doc model (with_tags effective chunks)) store
          (unless_finished b run again) in
      elim (Bool-cases run.finished) [
        | inl e ↦ subst joined (sym e) s
        | inr e ↦
            let tagged = with_tags effective chunks in
            let home_first : all_of (at_home embed coll model store) s.first ≡ true =
              pending-at_home store tagged s.first s.last home s.split_at in
            let left : pending run.store coll doc model tagged ≡ s.last =
              ap (λ kept. pending kept coll doc model tagged) s.filled
              ∙ pending-fill_rows embed coll model doc store tagged s.first s.last home of_doc
                  distinct s.split_at in
            let home' : all_of (at_home embed coll model run.store) tagged ≡ true =
              subst (λ kept. all_of (at_home embed coll model kept) tagged ≡ true) (sym s.filled)
                (at_home-fill_rows embed coll model store s.first tagged home_first home) in
            subst joined (sym e) (
              Stored-again (pending store coll doc model tagged) store run again s (
                subst (λ xs. Stored xs run.store again) left
                  (rerun-Stored n effective run.calls run.store chunks home' of_doc distinct)))
      ]

  pub rerun-fills :
      (n : ℕ) (effective : List String) (call : ℕ) (store : Dict (StoredChunk V))
      (chunks : List Chunk)
      → all_of (at_home embed coll model store) (with_tags effective chunks) ≡ true
      → all_of (λ c. c.document_id == doc) (with_tags effective chunks) ≡ true
      → Distinct (map (λ (c : Chunk). c.id) (with_tags effective chunks))
      → (rerun embed_batch goes_on n size coll doc model effective call store chunks).finished
        ≡ true
      → (rerun embed_batch goes_on n size coll doc model effective call store chunks).store
        ≡ fill_rows embed coll model store
            (pending store coll doc model (with_tags effective chunks))
  rerun-fills n effective call store chunks home of_doc distinct returned =
      let s = rerun-Stored n effective call store chunks home of_doc distinct in
      s.filled ∙ ap (fill_rows embed coll model store) (sym (returned_first s returned))

module _ {V : Type 0} (embed : String → V) where
  steady_batches :
      (batches : List (List Chunk)) (coll model : String) (all call at : ℕ)
      (store : Dict (StoredChunk V))
      → (embed_batches (steady embed) unstopped coll model all call at store batches).finished
        ≡ true
  unfolding embed_batches
  steady_batches [] coll model all call at store = refl
  steady_batches (batch ∷ batches) coll model all call at store =
      rw (upsert-map embed coll model store batch) (
        steady_batches batches coll model all (suc call) (at + length batch)
          (fill_rows embed coll model store batch))

  steady_answers :
      (call : ℕ) (texts : List String) (vectors : List V)
      → steady embed call texts ≡ some vectors
      → vectors ≡ map embed texts
  steady_answers call texts vectors e = ground arith

module _ {V : Type 0} (embed_batch : ℕ → List String → Option (List V)) (goes_on : ℕ → Bool)
    (embed : String → V)
    (answers : (call : ℕ) (texts : List String) (vectors : List V)
      → embed_batch call texts ≡ some vectors
      → vectors ≡ map embed texts)
    (size : ℕ) (coll doc model : String) where
  -- Where the adapter answers each text with its vector whenever it answers, the chunks have
  -- distinct ids and belong to the document, and no row with one of their ids is in another
  -- collection: however often runs stop, in a call of the adapter or after an upsert, once one of
  -- them returns the store is the one that a single run which nothing stops leaves, with batches of
  -- any size.
  pub rerun-store :
      (n size' : ℕ) (effective : List String) (call : ℕ) (store : Dict (StoredChunk V))
      (chunks : List Chunk)
      → all_of (at_home embed coll model store) (with_tags effective chunks) ≡ true
      → all_of (λ c. c.document_id == doc) (with_tags effective chunks) ≡ true
      → Distinct (map (λ (c : Chunk). c.id) (with_tags effective chunks))
      → (rerun embed_batch goes_on n size coll doc model effective call store chunks).finished
        ≡ true
      → (rerun embed_batch goes_on n size coll doc model effective call store chunks).store
        ≡ (embed_and_store
            (steady embed)
            unstopped
            size'
            coll
            doc
            model
            effective
            0
            store
            chunks).store
  unfolding rerun embed_and_store
  rerun-store n size' effective call store chunks home of_doc distinct returned =
      let tagged = with_tags effective chunks in
      let todo = pending store coll doc model tagged in
      rerun-fills embed_batch goes_on embed answers size coll doc model n effective call store
        chunks home of_doc distinct returned
      ∙ sym (
          rerun-fills (steady embed) unstopped embed (steady_answers embed) size' coll doc model 0
            effective 0 store chunks home of_doc distinct
            (steady_batches embed (batches_of (suc size') todo) coll model (length tagged) 0
              (length tagged - length todo) store))
