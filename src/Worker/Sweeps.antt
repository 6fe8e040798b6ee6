-- ===== src/Worker/Sweeps.antt =====
-- worker/tasks.py, `_requeue_by_status`: a backlog larger than a batch rotates, so that each of its
-- jobs is sent again within as many sweeps as the backlog has batches.
use embedbase.Prelude.{
  Bool, List, String, [], all_of, contains, false, if◌then◌else◌, leb, map, true, ℕ, ◌&&◌, ◌++◌,
  ◌+◌, ◌==◌, ◌∷◌, ◌≡◌,
}
use embedbase.Tables.{Job, JobStatus, processing, same_status}
use embedbase.Worker.Jobs.{Worker, requeue_by_status}

unfoldable pub count_of : (Job → Bool) → List Job → ℕ
count_of p [] = 0
count_of p (j ∷ jobs) = (if p j then 1 else 0) + count_of p jobs

abbrev pub not_older : ℕ → Job → Bool
not_older t j = leb t j.updated_at

Sorted : List Job → Type 0
Sorted [] = Unit
Sorted (j ∷ jobs) = (all_of (not_older j.updated_at) jobs ≡ true) × Sorted jobs

-- the job with an id, last touched at a time
abbrev pub waiting : String → ℕ → Job → Bool
waiting k t j = j.job_id == k && (leb j.updated_at t && leb t j.updated_at)

abbrev pub no_younger : ℕ → Job → Bool
no_younger t j = leb j.updated_at t

-- the jobs at a status that a sweep takes before or with a job of an age
abbrev pub ahead : JobStatus → ℕ → Job → Bool
ahead status t j = same_status j.status status && no_younger t j

abbrev pub ids_of : List Job → List String
ids_of rows = map (λ (j : Job). j.job_id) rows

-- `only_if_stale` as `requeue_rate_limited`, `requeue_stuck_processing` and
-- `requeue_orphaned_pending` pass it
abbrev pub only_stale : JobStatus → Bool
only_stale status = same_status status processing

-- Sweeps of one of them at some times one after the other, and the jobs that they send again.
unfoldable pub sweeps : Worker → JobStatus → ℕ → List ℕ → List String
sweeps w status limit [] = []
sweeps w status limit (now ∷ times) =
    let sweep = requeue_by_status w now status limit (only_stale status) in
    sweep.1 ++ sweeps sweep.0 status limit times

-- where the heartbeats are looked at, none is fresh
abbrev pub Quiet : JobStatus → List String → Type 0
Quiet status beats = (k : String) → (only_stale status && contains beats k) ≡ false
