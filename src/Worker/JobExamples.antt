-- ===== src/Worker/JobExamples.antt =====
-- The theorems on the worker's jobs at two jobs.
use embedbase.Prelude.{List, String, [], none, ℕ, ◌∷◌}
use embedbase.Tables.{Job, JobStatus, done, pending}
use embedbase.Worker.Jobs.{Worker, commit_claim}

abbrev job_at : String → JobStatus → ℕ → Job
job_at id status at = record {
  job_id = id;
  document_id = "d1";
  collection_id = "c1";
  filename = "memo.md";
  file_type = ".md";
  status = status;
  chunk_count = none;
  created_at = 0;
  updated_at = at;
}

abbrev worker_with : List Job → Worker
worker_with jobs = record {
  documents = [];
  jobs = jobs;
  beats = [];
  paused_until = 0;
  sent = [];
  claiming = [];
  running = [];
}

abbrev before_run : Worker
before_run = worker_with (job_at "j1" pending 1 ∷ job_at "j2" done 2 ∷ [])

abbrev claims_one : Worker
claims_one = record before_run { claiming = "j1" ∷ [] }

abbrev runs_one : Worker
runs_one = commit_claim claims_one 5 "j1"
