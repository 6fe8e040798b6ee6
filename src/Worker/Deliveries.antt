-- ===== src/Worker/Deliveries.antt =====
-- worker/tasks.py: the deliveries of jobs to several executions, in any order. The steps are those
-- of Worker/Jobs.antt. A heartbeat may lapse at any time, and a worker may be killed at any time.
use embedbase.Prelude.{List, String, [], contains, if◌then◌else◌, suc, true, ℕ, ◌==◌, ◌∷◌, ◌≡◌}
use embedbase.Worker.Jobs.{
  Outcome, Worker, beat, commit_claim, crash, end_ingestion, expire_beat, read_claim,
  retry_rate_limited_ingests,
}

pub data Step : Worker → Worker → Type 0 where
  reads : (w : Worker) (id : String) → Step w (read_claim w id)
  commits :
      (w : Worker) (now : ℕ) (id : String)
      → contains w.claiming id ≡ true
      → Step w (commit_claim w now id)
  -- the first heartbeat and those of the progress
  progressed : (w : Worker) (id : String) → contains w.running id ≡ true → Step w (beat w id)
  ended :
      (w : Worker) (now : ℕ) (id doc_id model : String) (outcome : Outcome)
      → contains w.running id ≡ true
      → Step w (end_ingestion w now id doc_id model outcome).1
  crashed : (w : Worker) (id : String) → Step w (crash w id)
  lapsed : (w : Worker) (id : String) → Step w (expire_beat w id)
  swept : (w : Worker) (now batch : ℕ) → Step w (retry_rate_limited_ingests w now batch).0

pub data Steps : Worker → Worker → Type 0 where
  here : (w : Worker) → Steps w w
  next : (u v w : Worker) → Step u v → Steps v w → Steps u w

-- how many executions of a job are under way
abbrev pub executions : List String → String → ℕ
executions [] id = 0
executions (i ∷ ids) id = if i == id then suc (executions ids id) else executions ids id

abbrev after_reads : Worker → String → Worker
after_reads w id = record w { claiming = id ∷ id ∷ w.claiming }
