-- ===== src/Worker/Examples.antt =====
-- The theorems on the worker's limiter and its embedding at a small clock and two chunks.
use embedbase.Prelude.{
  Bool, List, Option, String, [], arith, false, leb, map, max, none, refl, some, true, ℕ, ◌&&◌, ◌+◌,
  ◌==◌, ◌∷◌, ◌≡◌, ◌≤◌,
}
use embedbase.Vectors.{Chunk, at_model, document_chunk_ids_at_model, upsert, upsert_row}
use embedbase.Worker.Embed.{
  batches_of, embed_and_store, embed_batches, pending, rerun, steady, unstopped,
}
use embedbase.Worker.Paced.{largest, paced_within_cap, throttle-ends}
use embedbase.Worker.Resume.{rerun-store}
use embedbase.Worker.Stored.{at_home}
use embedbase.Worker.Throttle.{Events, in_window, paced, throttle}
use embedbase.Worker.Window.{By}

-- a clock on which only sleeping takes time
abbrev sleeps : ℕ → ℕ → ℕ
sleeps now d = now + d

abbrev instant : ℕ → ℕ
instant now = now

sleeps_all : (now d : ℕ) → now + d ≤ sleeps now d
sleeps_all now d = omega arith

not_back : (now : ℕ) → now ≤ instant now
not_back now = omega arith

throttle-ends_example :
    (r : ℕ × Events) × (throttle sleeps instant 70000 ((65000, 2) ∷ []) 3 2 ≡ some r)
unfolding By
throttle-ends_example =
    throttle-ends sleeps instant sleeps_all not_back 70000 3 2 ((65000, 2) ∷ []) (omega arith, tt)

paced_within_cap_example :
    in_window 30000 (paced sleeps instant ((10, 3) ∷ (5, 2) ∷ (1, 4) ∷ []) 4 0 [])
    ≤ max 4 (largest ((10, 3) ∷ (5, 2) ∷ (1, 4) ∷ []))
paced_within_cap_example =
    paced_within_cap sleeps instant sleeps_all not_back ((10, 3) ∷ (5, 2) ∷ (1, 4) ∷ []) 4 0 30000
      refl

abbrev chunk_of : String → String → ℕ → Chunk
chunk_of id text n = record {
  id = id;
  text = text;
  document_id = "d1";
  chunk_index = n;
  page_number = none;
  heading_path = none;
  tags = [];
}

abbrev two_chunks : List Chunk
two_chunks = chunk_of "d1:0" "first" 0 ∷ chunk_of "d1:1" "second" 1 ∷ []

abbrev vector : String → Bool
vector text = text == "first"

abbrev refused : ℕ → List String → Bool → Option (List Bool)
refused call texts true = none
refused call texts false = some (map vector texts)

-- an adapter whose second call raises
abbrev flaky : ℕ → List String → Option (List Bool)
flaky call texts = refused call texts (leb 1 call && leb call 1)

flaky_answers :
    (call : ℕ) (texts : List String) (vectors : List Bool)
    → flaky call texts ≡ some vectors
    → vectors ≡ map vector texts
flaky_answers call texts vectors e = answers (leb 1 call && leb call 1) e
  where
    answers : (b : Bool) → refused call texts b ≡ some vectors → vectors ≡ map vector texts
    answers true e = ground arith
    answers false e = ground arith

-- runs that are stopped after the first upsert
abbrev stops_once : ℕ → Bool
stops_once call = leb 1 call

rerun-store_example :
    (rerun flaky stops_once 2 0 "c1" "d1" "m" ("t" ∷ []) 0 [] two_chunks).store
    ≡ (embed_and_store (steady vector) unstopped 5 "c1" "d1" "m" ("t" ∷ []) 0 [] two_chunks).store
unfolding rerun embed_and_store embed_batches batches_of pending document_chunk_ids_at_model
    at_model upsert upsert_row at_home
rerun-store_example =
    rerun-store flaky stops_once vector flaky_answers 0 "c1" "d1" "m" 2 5 ("t" ∷ []) 0 [] two_chunks
      refl refl (refl, (refl, tt)) refl
