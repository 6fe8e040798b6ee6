-- ===== src/Worker/JobRows.antt =====
-- worker/tasks.py: what the updates of a job's row leave of it and of the others.
use embedbase.Prelude.{
  Bool, List, Option, String, [], ap, arith, eq_iff, false, map, none, refl, some, true, ℕ, ◌==◌,
  ◌∙◌, ◌∷◌, ◌≡◌,
}
use embedbase.Tables.{Job, JobStatus}
use embedbase.Worker.Jobs.{job_row, set_job_status, settle_row, status_of, touch}

abbrev pub applied : (Job → Job) → Option Job → Option Job
applied f none = none
applied f (some j) = some (f j)

pub job_row-map :
    (f : Job → Job) (jobs : List Job) (k : String)
    → ((j : Job) → (f j).job_id ≡ j.job_id)
    → job_row (map f jobs) k ≡ applied f (job_row jobs k)
job_row-map f [] k e = refl
job_row-map f (j ∷ jobs) k e = ground (arith, e j, job_row-map f jobs k e)

settle_row_id :
    (hit : Bool) (status : JobStatus) (n : Option ℕ) (now : ℕ) (j : Job)
    → (settle_row hit status n now j).job_id ≡ j.job_id
settle_row_id false status n now j = refl
settle_row_id true status none now j = refl
settle_row_id true status (some n) now j = refl

pub touch_id : (ids : List String) (now : ℕ) (j : Job) → (touch ids now j).job_id ≡ j.job_id
touch_id ids now j = ground arith

pub job_row_id : (jobs : List Job) (k : String) (j : Job) → job_row jobs k ≡ some j → j.job_id ≡ k
job_row_id [] k j h = ground arith
job_row_id (i ∷ jobs) k j h = ground (arith, eq_iff i.job_id k, job_row_id jobs k j)

settled_rows :
    (id : String) (status : JobStatus) (n : Option ℕ) (now : ℕ) (k : String) (r : Option Job)
    → ((j : Job) → r ≡ some j → j.job_id ≡ k)
    → applied (λ j. settle_row (j.job_id == id) status n now j) r
      ≡ applied (settle_row (k == id) status n now) r
settled_rows id status n now k none h = refl
settled_rows id status n now k (some j) h =
    ap (λ i. some (settle_row (i == id) status n now j)) (h j refl)

-- the row of a job after its own update, or another job's
pub job_row-set_job_status :
    (jobs : List Job) (id : String) (status : JobStatus) (n : Option ℕ) (now : ℕ) (k : String)
    → job_row (set_job_status jobs id status n now) k
      ≡ applied (settle_row (k == id) status n now) (job_row jobs k)
unfolding set_job_status
job_row-set_job_status jobs id status n now k =
    job_row-map (λ j. settle_row (j.job_id == id) status n now j) jobs k
      (λ j. settle_row_id (j.job_id == id) status n now j)
    ∙ settled_rows id status n now k (job_row jobs k) (job_row_id jobs k)

pub status_unsettled :
    (jobs : List Job) (id : String) (status : JobStatus) (n : Option ℕ) (now : ℕ) (k : String)
    → k == id ≡ false
    → job_row (set_job_status jobs id status n now) k ≡ job_row jobs k
status_unsettled jobs id status n now k h =
    job_row-set_job_status jobs id status n now k
    ∙ ap (λ b. applied (settle_row b status n now) (job_row jobs k)) h
    ∙ unsettled (job_row jobs k)
  where
    unsettled : (r : Option Job) → applied (settle_row false status n now) r ≡ r
    unsettled none = refl
    unsettled (some j) = refl

pub touch_status :
    (ids : List String) (now : ℕ) (r : Option Job)
    → status_of (applied (touch ids now) r) ≡ status_of r
touch_status ids now none = refl
touch_status ids now (some j) = ground arith
