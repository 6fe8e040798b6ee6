-- ===== src/Worker/Done.antt =====
-- worker/tasks.py: a job that is done stays done.
use embedbase.Prelude.{Bool, Option, String, contains, false, if◌then◌else◌, none, some, ℕ, ◌≡◌}
use embedbase.Tables.{Job, done, same_status}
use embedbase.Worker.Jobs.{Worker, job_row}

-- the chunk count of a job that is done
unfoldable pub done_count : Option Job → Option (Option ℕ)
done_count none = none
done_count (some j) = if same_status j.status done then some j.chunk_count else none

-- A job that is done with a chunk count, and of which no execution is under way.
pub record Rests (k : String) (c : Option ℕ) (w : Worker) : Type 0 where
  pub is_done : done_count (job_row w.jobs k) ≡ some c
  pub none_claiming : contains w.claiming k ≡ false
  pub none_running : contains w.running k ≡ false
