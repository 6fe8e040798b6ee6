-- ===== src/Worker/Embed.antt =====
-- worker/tasks.py: `_embed_and_store`. The embedding adapter is a parameter: the answer to its
-- call of a number, `none` where the call raises or the task is stopped before it returns, and so is
-- whether the run goes on after the upsert that follows that call: where it does not, the rows of the
-- batch are stored and no event shows them. What the
-- function does besides writing to the store is the list of its effects, in their order: the calls
-- of `_rpm_limiter.throttle` (Worker/Throttle.antt), which only delay, and the progress events,
-- which carry the chunks of a batch where the source carries their labels. `batch_size` is one more
-- than the argument of a function here, since `range` refuses a step of 0.
use embedbase.Prelude.{
  Bool, List, Option, String, [], contains, drop, false, filter_by, if◌then◌else◌, length, map,
  none, not, some, suc, take, true, zero, ℕ, ◌++◌, ◌+◌, ◌-◌, ◌∷◌,
}
use embedbase.Prelude.Dict.{Dict}
use embedbase.Vectors.{Chunk, StoredChunk, document_chunk_ids_at_model, upsert}

pub data Effect : Type 0 where
  throttled : ℕ → Effect
  embedding : ℕ → ℕ → List Chunk → Effect
  storing : ℕ → Effect

-- `for start in range(0, len(pending), batch_size): batch = pending[start : start + batch_size]`
abbrev pub split : ℕ → ℕ → List Chunk → List (List Chunk)
split zero size chunks = []
split (suc fuel) size [] = []
split (suc fuel) size (c ∷ chunks) =
    take size (c ∷ chunks) ∷ split fuel size (drop size (c ∷ chunks))

unfoldable pub batches_of : ℕ → List Chunk → List (List Chunk)
batches_of size chunks = split (length chunks) size chunks

-- `chunk.metadata.tags = effective`
abbrev pub with_tags : List String → List Chunk → List Chunk
with_tags effective chunks = map (λ (c : Chunk). record c { tags = effective }) chunks

-- how a run ends: the store, its effects, and whether it returned
pub record Run (V : Type 0) : Type 0 where
  pub store : Dict (StoredChunk V)
  pub effects : List Effect
  pub calls : ℕ
  pub finished : Bool

abbrev pub before : {V : Type 0} → List Effect → Run V → Run V
before effects run = record run { effects = effects ++ run.effects }

abbrev pub unless_finished : {V : Type 0} → Bool → Run V → Run V → Run V
unless_finished true run again = run
unless_finished false run again = before run.effects again

-- the chunks that the store does not hold at the model
unfoldable pub pending :
    {V : Type 0} → Dict (StoredChunk V) → String → String → String → List Chunk → List Chunk
pending store coll doc model chunks =
    let existing = document_chunk_ids_at_model store coll doc model in
    filter_by (λ c. not (contains existing c.id)) chunks

module _ {V : Type 0} (embed_batch : ℕ → List String → Option (List V)) (goes_on : ℕ → Bool) where
  abbrev pub stopped : Dict (StoredChunk V) → ℕ → Run V
  stopped store call = record { store = store; effects = []; calls = suc call; finished = false }

  -- one batch: its vectors, then its rows, then the event
  abbrev pub stored :
      (Dict (StoredChunk V) → Run V)
      → Dict (StoredChunk V)
      → ℕ
      → List Effect
      → Option (Dict (StoredChunk V))
      → Run V
  stored rest store call shown none = stopped store call
  stored rest store call shown (some store') =
      let run = rest store' in if goes_on call then before shown run else stopped store' call

  abbrev pub embedded :
      (Dict (StoredChunk V) → Run V)
      → Dict (StoredChunk V)
      → String
      → String
      → ℕ
      → List Effect
      → List Chunk
      → Option (List V)
      → Run V
  embedded rest store coll model call shown batch none = stopped store call
  embedded rest store coll model call shown batch (some vectors) =
      stored rest store call shown (upsert store coll (some model) batch vectors)

  unfoldable pub embed_batches :
      String → String → ℕ → ℕ → ℕ → Dict (StoredChunk V) → List (List Chunk) → Run V
  embed_batches coll model total call done store [] = record {
    store = store;
    effects = storing total ∷ [];
    calls = call;
    finished = true;
  }
  embed_batches coll model total call done store (batch ∷ batches) =
      let n : ℕ = length batch in
      let rest = λ (store : Dict (StoredChunk V)).
        embed_batches coll model total (suc call) (done + n) store batches in
      before (throttled n ∷ []) (
        embedded rest store coll model call (embedding (done + n) total batch ∷ []) batch
          (embed_batch call (map (λ c. c.text) batch)))

  -- The call number is the first one that this run makes.
  unfoldable pub embed_and_store :
      ℕ → String → String → String → List String → ℕ → Dict (StoredChunk V) → List Chunk → Run V
  embed_and_store size coll doc model effective call store chunks =
      let tagged = with_tags effective chunks in
      let todo = pending store coll doc model tagged in
      let done : ℕ = length tagged - length todo in
      before (embedding done (length tagged) [] ∷ [])
        (embed_batches coll model (length tagged) call done store (batches_of (suc size) todo))

  -- Runs one after the other, each from what the last one left, up to the first that returns: the
  -- retries of the task `ingest_document`.
  unfoldable pub rerun :
      ℕ → ℕ → String → String → String → List String → ℕ → Dict (StoredChunk V) → List Chunk → Run V
  rerun zero size coll doc model effective call store chunks =
      embed_and_store size coll doc model effective call store chunks
  rerun (suc n) size coll doc model effective call store chunks =
      let run = embed_and_store size coll doc model effective call store chunks in
      let again = rerun n size coll doc model effective run.calls run.store chunks in
      unless_finished run.finished run again

-- an adapter that always answers
abbrev pub steady : {V : Type 0} → (String → V) → ℕ → List String → Option (List V)
steady embed call texts = some (map embed texts)

-- runs that nothing stops after an upsert
abbrev pub unstopped : ℕ → Bool
unstopped call = true
