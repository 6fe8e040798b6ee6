-- ===== src/Worker/Jobs.antt =====
-- worker/tasks.py: the life of a job: the claim, the ends of a run, and the sweep's pause. An
-- execution of `ingest_document` is the reads of `_claim_job`, the commit of its update, the
-- heartbeats and the end, each a step of its own, so that the executions of several deliveries
-- interleave. What the body of the run does in between is its outcome; the chunks it stores are in
-- Worker/Embed.antt.
use embedbase.Documents.Keys.{document_key}
use embedbase.Prelude.{
  Bool, List, Option, String, [], contains, false, filter_by, find_by, if◌then◌else◌, leb, length,
  map, max, min, none, not, some, take, true, ℕ, ◌&&◌, ◌++◌, ◌+◌, ◌-◌, ◌==◌, ◌∷◌,
}
use embedbase.Tables.{
  Document, Job, JobStatus, Task, done, failed, ingest_task, pending, processing, rate_limited,
  same_status,
}

pub record Worker : Type 0 where
  pub documents : List Document
  pub jobs : List Job
  -- the jobs with a fresh heartbeat in redis
  pub beats : List String
  -- when the pause of the embedding ends
  pub paused_until : ℕ
  -- what was sent to the broker, oldest first
  pub sent : List Task
  -- the jobs of the executions that read a job they may claim, and have not committed the claim
  pub claiming : List String
  -- the jobs of the executions that claimed them, one entry for each execution
  pub running : List String

-- what the body of `_run_ingestion` does: the number of chunks, or an exception by its kind
pub data Outcome : Type 0 where
  stored_chunks : ℕ → Outcome
  -- `_is_rate_limit`, with the delay that the provider suggests, if any
  limited : Option ℕ → Outcome
  -- `NonRetryableIngestError` and `SoftTimeLimitExceeded`
  permanent : Outcome
  timed_out : Outcome
  broken : Outcome

-- how the task ends: with a value, acknowledged with none, by the exception, or by `self.retry`
pub data Ending : Type 0 where
  returned : ℕ → Ending
  acknowledged : Ending
  raised : Ending
  retried : Ending

abbrev pub job_row : List Job → String → Option Job
job_row jobs id = find_by (λ j. j.job_id == id) jobs

abbrev pub status_of : Option Job → Option JobStatus
status_of none = none
status_of (some j) = some j.status

abbrev pub settle_row : Bool → JobStatus → Option ℕ → ℕ → Job → Job
settle_row false status count now j = j
settle_row true status none now j = record j { status = status; updated_at = now }
settle_row true status (some n) now j = record j {
  status = status;
  chunk_count = some n;
  updated_at = now;
}

-- `chunk_count` is among the fields in one of the calls
unfoldable pub set_job_status : List Job → String → JobStatus → Option ℕ → ℕ → List Job
set_job_status jobs id status count now =
    map (λ j. settle_row (j.job_id == id) status count now j) jobs

abbrev pub job_alive : Worker → String → Bool
job_alive w id = contains w.beats id

abbrev pub beat : Worker → String → Worker
beat w id = record w { beats = if contains w.beats id then w.beats else id ∷ w.beats }

abbrev pub without : List String → String → List String
without ids id = filter_by (λ i. not (i == id)) ids

-- one entry less
abbrev pub drop_one : List String → String → List String
drop_one [] id = []
drop_one (i ∷ ids) id = let rest = drop_one ids id in if i == id then ids else i ∷ rest

abbrev pub clear_beat : Worker → String → Worker
clear_beat w id = record w { beats = without w.beats id }

abbrev pub claimable : Bool → Option JobStatus → Bool
claimable alive none = false
claimable alive (some done) = false
claimable alive (some processing) = not alive
claimable alive (some pending) = true
claimable alive (some failed) = true
claimable alive (some rate_limited) = true

-- The reads of `_claim_job`: the row, and the heartbeat where the row is processing.
unfoldable pub read_claim : Worker → String → Worker
read_claim w id =
    if claimable (job_alive w id) (status_of (job_row w.jobs id))
    then record w { claiming = id ∷ w.claiming }
    else w

-- Its update, which tests nothing again, and the commit. The first heartbeat is a later step.
unfoldable pub commit_claim : Worker → ℕ → String → Worker
commit_claim w now id = record w {
  jobs = set_job_status w.jobs id processing none now;
  claiming = drop_one w.claiming id;
  running = id ∷ w.running;
}

abbrev pub mark_ingested : String → String → ℕ → Document → Document
mark_ingested doc_id model n d =
    if d.id == doc_id then record d { chunk_count = some n; embedding_model = some model } else d

abbrev pub delay_or : ℕ → Option ℕ → ℕ
delay_or default none = default
delay_or default (some suggested) = suggested + 2

-- The argument is the number that the provider's message holds.
unfoldable pub retry_delay_seconds : Option ℕ → ℕ
retry_delay_seconds suggested = max 1 (min (delay_or 60 suggested) 3600)

-- `max(1, seconds)` from now on, whatever pause was set
abbrev pub pause_embedding : Worker → ℕ → ℕ → Worker
pause_embedding w now seconds = record w { paused_until = now + max 1 seconds }

abbrev pub embedding_paused_seconds : Worker → ℕ → ℕ
embedding_paused_seconds w now = w.paused_until - now

abbrev pub with_status : Worker → String → JobStatus → ℕ → Worker
with_status w id status now = record w { jobs = set_job_status w.jobs id status none now }

-- The `finally` of `_run_ingestion`, and the handlers of `ingest_document`.
unfoldable pub end_ingestion : Worker → ℕ → String → String → String → Outcome → Ending × Worker
end_ingestion w now id doc_id model outcome =
    let out : Worker = clear_beat (record w { running = drop_one w.running id }) id in
    elim outcome [
      | stored_chunks n ↦ (
        returned n,
        record out {
          documents = map (mark_ingested doc_id model n) out.documents;
          jobs = set_job_status out.jobs id done (some n) now;
        },
      )
      | limited suggested ↦ (
        acknowledged,
        with_status (pause_embedding out now (retry_delay_seconds suggested)) id rate_limited now,
      )
      | permanent ↦ (raised, with_status out id failed now)
      | timed_out ↦ (raised, with_status out id failed now)
      | broken ↦ (retried, with_status out id failed now)
    ]

-- A worker that is killed: its execution is gone and nothing else happens.
abbrev pub crash : Worker → String → Worker
crash w id = record w { claiming = drop_one w.claiming id; running = drop_one w.running id }

-- The lapse of a heartbeat's TTL.
abbrev pub expire_beat : Worker → String → Worker
expire_beat w id = clear_beat w id

-- `ORDER BY updated_at ASC`
abbrev pub insert_job : Job → List Job → List Job
insert_job j [] = j ∷ []
insert_job j (i ∷ jobs) =
    let rest = insert_job j jobs in if leb j.updated_at i.updated_at then j ∷ i ∷ jobs else i ∷ rest

abbrev pub by_age : List Job → List Job
by_age [] = []
by_age (j ∷ jobs) = insert_job j (by_age jobs)

unfoldable pub selected : JobStatus → ℕ → List Job → List Job
selected status limit jobs = take limit (by_age (filter_by (λ j. same_status j.status status) jobs))

abbrev pub job_task : Job → Task
job_task j =
    ingest_task j.job_id (document_key j.collection_id j.document_id j.file_type) j.collection_id
      j.document_id j.file_type

abbrev pub touch : List String → ℕ → Job → Job
touch ids now j = if contains ids j.job_id then record j { updated_at = now } else j

-- The number that the source returns is the length of the second component.
unfoldable pub requeue_by_status : Worker → ℕ → JobStatus → ℕ → Bool → Worker × List String
requeue_by_status w now status limit only_if_stale =
    let rows = selected status limit w.jobs in
    let chosen = filter_by (λ (j : Job). not (only_if_stale && job_alive w j.job_id)) rows in
    let ids = map (λ (j : Job). j.job_id) chosen in
    (record w { sent = w.sent ++ map job_task chosen; jobs = map (touch ids now) w.jobs }, ids)

-- Beat's sweep, with `_RETRY_BATCH` an argument.
unfoldable pub retry_rate_limited_ingests : Worker → ℕ → ℕ → Worker × ℕ
retry_rate_limited_ingests w now batch =
    let (w1, limited_ids) = requeue_by_status w now rate_limited batch false in
    let (w2, stuck_ids) = requeue_by_status w1 now processing batch true in
    let (w3, orphan_ids) = requeue_by_status w2 now pending batch false in
    if leb (embedding_paused_seconds w now) 0
    then (w3, length limited_ids + length stuck_ids + length orphan_ids)
    else (w, 0)
