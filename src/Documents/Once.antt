-- ===== src/Documents/Once.antt =====
-- api/services/documents.py: a confirmation that succeeds is the last one, and a document that is
-- reprocessed twice has one job.
use embedbase.Auth.{Principal}
use embedbase.Documents.Calls.{Outcome, accepted}
use embedbase.Documents.Content.{Bytes, validate_content}
use embedbase.Documents.Files.{
  Accepted, Files, Setting, awaiting_upload, create_pending_job_and_enqueue, delete_object,
  deleting, has_status, object_head, pending_job, read_head, sniffed, update_documents, update_if,
  verify_uploaded_object,
}
use embedbase.Documents.Keys.{document_key}
use embedbase.Documents.Life.{
  activate, awaits, backend_or_local, confirm_upload, document_in, flip_and_enqueue,
  latest_in_flight, latest_job, reprocess_document,
}
use embedbase.Documents.Upload.{resolve_max_bytes}
use embedbase.Http.{Check, Detail, about, message, ok, raise}
use embedbase.Permissions.Authorize.{authorize_document}
use embedbase.Prelude.{
  Bool-cases, List, Option, Option-cases, String, [], all_of, any_of, ap, arith, eq_iff, eq_refl,
  false, find_by, inl, inr, leb, map, none, refl, some, subst, suc, sym, true, ℕ, ◌++◌, ◌==◌, ◌∙◌,
  ◌∷◌, ◌≡◌, ◌⊎◌,
}
use embedbase.Tables.{Document, Job, document_row, ingest_task, pending, write}

-- the rows of a document that await their upload, after the flip
pub activated :
    (id : String) (size : ℕ) (ds : List Document)
    → any_of (awaits id) (map (update_if (awaits id) (activate size)) ds) ≡ false
activated id size [] = refl
activated id size (d ∷ ds) = ground (arith, activated id size ds)

settled_row :
    (id : String) (ds : List Document) (row : Document)
    → any_of (awaits id) ds ≡ false
    → find_by (λ d. d.id == id) ds ≡ some row
    → has_status awaiting_upload row.status ≡ false
settled_row id [] row h e = ground arith
settled_row id (d ∷ ds) row h e = ground (arith, settled_row id ds row)

-- No row of the document awaits its upload.
abbrev pub Settled : Files → String → Type 0
Settled files id = any_of (awaits id) files.db.documents ≡ false

flip-Settled :
    (setting : Setting) (files : Files) (row : Document) (size : ℕ) (job_id : String)
    → Settled (flip_and_enqueue setting files row size job_id).1 row.id
unfolding flip_and_enqueue create_pending_job_and_enqueue update_documents
flip-Settled setting files row size job_id =
    elim (Bool-cases (any_of (awaits row.id) files.db.documents)) [
      | inl e ↦ elim (Bool-cases setting.broker_up) [
        | inl up ↦ rw (e, up) (activated row.id size files.db.documents)
        | inr down ↦ rw (e, down) (activated row.id size files.db.documents)
      ]
      | inr e ↦ rw e e
    ]

pub check_cases : (c : Check) → (c ≡ ok tt) ⊎ ((s : ℕ) × (d : Detail) × (c ≡ raise s d))
check_cases (ok tt) = inl refl
check_cases (raise s d) = inr (s, d, refl)

pub call_cases :
    {A : Type 0} (m : Outcome A)
    → ((a : A) × (files : Files) × (m ≡ (ok a, files)))
      ⊎ ((s : ℕ) × (d : Detail) × (files : Files) × (m ≡ (raise s d, files)))
call_cases (ok a, files) = inl (a, files, refl)
call_cases (raise s d, files) = inr (s, d, files, refl)

row_id :
    (id : String) (ds : List Document) (row : Document)
    → find_by (λ d. d.id == id) ds ≡ some row
    → row.id ≡ id
row_id id [] row e = ground arith
row_id id (d ∷ ds) row e = ground (arith, row_id id ds row, eq_iff d.id id)

confirm-Settled :
    (setting : Setting) (meanwhile : Files → Files) (files : Files) (principal : Principal)
    (doc_id job_id : String) (a : Accepted)
    → (confirm_upload setting meanwhile files principal doc_id job_id).0 ≡ ok a
    → Settled (confirm_upload setting meanwhile files principal doc_id job_id).1 doc_id
unfolding confirm_upload
confirm-Settled setting meanwhile files principal doc_id job_id a h =
    elim (check_cases (authorize_document files.db principal doc_id write)) [
      | inr (s, d, e) ↦ ground (arith, e)
      | inl e ↦ elim (Option-cases (document_row files.db doc_id)) [
        | inl none_found ↦ ground (arith, e, none_found)
        | inr (row, found) ↦ elim (Bool-cases (has_status awaiting_upload row.status)) [
          | inr over ↦ ground (arith, e, found, over)
          | inl waits ↦
              elim (call_cases (
                verify_uploaded_object setting files (backend_or_local row.storage_backend)
                  (document_key row.collection_id row.id row.file_type) row.file_type)) [
                    | inr (s, d, after, m) ↦ ground (arith, e, found, waits, m)
                    | inl (size, after, m) ↦
                        rw (e, found, waits, m)
                          (subst
                            (Settled (flip_and_enqueue setting (meanwhile after) row size job_id).1)
                            (row_id doc_id files.db.documents row found)
                            (flip-Settled setting (meanwhile after) row size job_id))
                  ]
        ]
      ]
    ]

-- While no row of the document awaits its upload, a confirmation of it raises and changes nothing.
confirm-refused :
    (setting : Setting) (meanwhile : Files → Files) (files : Files) (principal : Principal)
    (doc_id job_id : String)
    → Settled files doc_id
    → (s : ℕ) × (d : Detail) × (confirm_upload setting meanwhile files principal doc_id job_id
        ≡ (raise s d, files))
unfolding confirm_upload
confirm-refused setting meanwhile files principal doc_id job_id h =
    elim (check_cases (authorize_document files.db principal doc_id write)) [
      | inr (s, d, e) ↦ (s, d, rw e refl)
      | inl e ↦ elim (Option-cases (document_row files.db doc_id)) [
        | inl none_found ↦ rw (e, none_found) (404, about "Document" doc_id, refl)
        | inr (row, found) ↦
            rw (e, found, settled_row doc_id files.db.documents row h found)
              (409, message "Document is not awaiting an upload (already confirmed?)", refl)
      ]
    ]

-- A confirmation that raises with no job and no task more than it found.
abbrev pub Jobless : Setting → Files → Files → Principal → String → String → ℕ → Detail → Type 0
Jobless setting files other principal doc_id job_id s d =
    let left = confirm_upload setting (λ _. other) files principal doc_id job_id in
    (left.0 ≡ raise s d) × (left.1.jobs ≡ files.jobs) × (left.1.sent ≡ files.sent)

sniffed_cases :
    (files purged : Files) (ext : String) (size : ℕ) (head : Option Bytes)
    → purged.jobs ≡ files.jobs
    → purged.sent ≡ files.sent
    → ((n : ℕ) × (sniffed files purged ext size head ≡ (ok n, files)))
      ⊎ ((s : ℕ) × (d : Detail) × (after : Files) × (sniffed files purged ext size head
            ≡ (raise s d, after))
          × (after.jobs ≡ files.jobs)
          × (after.sent ≡ files.sent))
sniffed_cases files purged ext size none jobs sent = inr (_, _, files, refl, refl, refl)
sniffed_cases files purged ext size (some head) jobs sent =
    elim (check_cases (validate_content ext head)) [
      | inl e ↦ inl (size, rw e refl)
      | inr (s, d, e) ↦ inr (s, d, purged, rw e refl, jobs, sent)
    ]

-- A check of the object that passes changes nothing, and one that fails touches no job.
verified_cases :
    (setting : Setting) (files : Files) (backend key ext : String)
    → ((size : ℕ) × (verify_uploaded_object setting files backend key ext ≡ (ok size, files)))
      ⊎ ((s : ℕ) × (d : Detail) × (after : Files) × (verify_uploaded_object setting files backend
              key ext
            ≡ (raise s d, after))
          × (after.jobs ≡ files.jobs)
          × (after.sent ≡ files.sent))
unfolding verify_uploaded_object delete_object
verified_cases setting files backend key ext = elim (Option-cases (object_head files backend key)) [
  | inl none_there ↦ rw (verify_uploaded_object, none_there) (inr (_, _, files, refl, refl, refl))
  | inr (size, there) ↦
      let limit : ℕ = resolve_max_bytes setting.max_bytes in
      elim (Bool-cases (leb (suc limit) size)) [
        | inl large ↦
            rw (verify_uploaded_object, there, large)
              (inr (_, _, delete_object files backend key, refl, refl, refl))
        | inr fits ↦ elim (Bool-cases (leb 1 size)) [
          | inl some_bytes ↦
              rw (verify_uploaded_object, there, fits, some_bytes)
                (sniffed_cases files (delete_object files backend key) ext size
                  (read_head files backend key 4096) refl refl)
          | inr empty ↦
              rw (verify_uploaded_object, there, fits, empty)
                (sniffed_cases files (delete_object files backend key) ext size (some []) refl refl)
        ]
      ]
]

-- While no row of the document awaits its upload when the flip comes, a confirmation raises and
-- adds nothing to what others left, or fails earlier and adds no job.
confirm-overtaken :
    (setting : Setting) (files other : Files) (principal : Principal) (doc_id job_id : String)
    → Settled other doc_id
    → (s : ℕ) × (d : Detail) × ((confirm_upload setting (λ _. other) files principal doc_id job_id
          ≡ (raise s d, other))
        ⊎ Jobless setting files other principal doc_id job_id s d)
unfolding confirm_upload flip_and_enqueue
confirm-overtaken setting files other principal doc_id job_id settled =
    elim (check_cases (authorize_document files.db principal doc_id write)) [
      | inr (s, d, e) ↦ (s, d, inr (rw e (refl, refl, refl)))
      | inl e ↦ elim (Option-cases (document_row files.db doc_id)) [
        | inl none_found ↦
            (404, about "Document" doc_id, inr (rw (e, none_found) (refl, refl, refl)))
        | inr (row, found) ↦ elim (Bool-cases (has_status awaiting_upload row.status)) [
          | inr over ↦ (
            409,
            message "Document is not awaiting an upload (already confirmed?)",
            inr (rw (e, found, over) (refl, refl, refl)),
          )
          | inl waits ↦
              let same : any_of (awaits row.id) other.db.documents ≡ false =
                subst (λ k. any_of (awaits k) other.db.documents ≡ false)
                  (sym (row_id doc_id files.db.documents row found)) settled in
              elim (verified_cases setting files (backend_or_local row.storage_backend)
                (document_key row.collection_id row.id row.file_type) row.file_type) [
                  | inl (size, passed) ↦ (
                    409,
                    message "Document is not awaiting an upload (already confirmed?)",
                    inl (rw (e, found, waits, passed, same) refl),
                  )
                  | inr (s, d, after, refused, jobs, sent) ↦
                      (s, d, inr (rw (e, found, waits, refused) (refl, jobs, sent)))
                ]
        ]
      ]
    ]

-- After a confirmation that succeeds, whatever other requests committed in its course: each further
-- confirmation of the document raises and changes nothing, whoever makes it; and a confirmation that
-- read the tables before it and comes to its flip after it raises too, and leaves what the first one
-- left, or ends before its flip with no job and no task more than it found.
pub confirm_upload-once :
    (setting setting' : Setting) (meanwhile meanwhile' : Files → Files) (files : Files)
    (principal principal' : Principal) (doc_id job_id job_id' : String) (a : Accepted)
    → (confirm_upload setting meanwhile files principal doc_id job_id).0 ≡ ok a
    → ((s : ℕ) × (d : Detail) × (confirm_upload setting' meanwhile'
            (confirm_upload setting meanwhile files principal doc_id job_id).1
            principal'
            doc_id
            job_id'
          ≡ (raise s d, (confirm_upload setting meanwhile files principal doc_id job_id).1)))
      × ((s : ℕ) × (d : Detail) × ((confirm_upload setting'
                (λ _. (confirm_upload setting meanwhile files principal doc_id job_id).1)
                files
                principal'
                doc_id
                job_id'
              ≡ (raise s d, (confirm_upload setting meanwhile files principal doc_id job_id).1))
            ⊎ Jobless setting' files
                (confirm_upload setting meanwhile files principal doc_id job_id).1
                principal'
                doc_id
                job_id'
                s
                d))
confirm_upload-once setting setting' meanwhile meanwhile' files p p' doc_id job_id job_id' a h =
    let settled = confirm-Settled setting meanwhile files p doc_id job_id a h in
    let left = (confirm_upload setting meanwhile files p doc_id job_id).1 in
    (
      confirm-refused setting' meanwhile' left p' doc_id job_id' settled,
      confirm-overtaken setting' files left p' doc_id job_id' settled,
    )

-- the newest of the jobs with one more, later than each of them
latest_job-snoc :
    (jobs : List Job) (j : Job)
    → all_of (λ (i : Job). leb (suc i.created_at) j.created_at) jobs ≡ true
    → latest_job (jobs ++ j ∷ []) j.document_id ≡ some j
unfolding latest_job
latest_job-snoc [] j h = ground (arith, eq_refl j.document_id)
latest_job-snoc (i ∷ jobs) j h = ground (arith, latest_job-snoc jobs j)

abbrev enqueued : Setting → Files → String → String → String → String → String → String → Files
enqueued setting files col_id doc_id job_id filename ext file_path = record files {
  jobs = files.jobs ++ pending_job setting col_id doc_id job_id filename ext ∷ [];
  sent = files.sent ++ ingest_task job_id file_path col_id doc_id ext ∷ [];
}

ok_answer : (a b : Accepted) → ok a ≡ ok b → a ≡ b
ok_answer a b e = ground arith

-- what a call does for a document that can be reprocessed and has a job in flight
in_flight_kept :
    (setting : Setting) (files : Files) (col_id doc_id job_id : String) (row : Document) (j : Job)
    → document_in files.db col_id doc_id ≡ some row
    → has_status deleting row.status ≡ false
    → has_status awaiting_upload row.status ≡ false
    → latest_in_flight (latest_job files.jobs doc_id) ≡ some j
    → reprocess_document setting files col_id doc_id job_id
      ≡ (ok (accepted j.job_id doc_id j.status), files)
unfolding reprocess_document
in_flight_kept setting files col_id doc_id job_id row j found there landed running =
    ground (arith, found, there, landed, running)

-- and for one that has none: a new job, where the broker answers
idle_created :
    (setting : Setting) (files : Files) (col_id doc_id job_id : String) (row : Document)
    → document_in files.db col_id doc_id ≡ some row
    → has_status deleting row.status ≡ false
    → has_status awaiting_upload row.status ≡ false
    → latest_in_flight (latest_job files.jobs doc_id) ≡ none
    → (reprocess_document setting files col_id doc_id job_id ≡ (
      ok (accepted job_id doc_id pending),
      enqueued setting files col_id doc_id job_id row.filename row.file_type
          (document_key col_id doc_id row.file_type),
    ))
      ⊎ ((s : ℕ) × (d : Detail) × ((reprocess_document setting files col_id doc_id job_id).0
            ≡ raise s d))
unfolding reprocess_document create_pending_job_and_enqueue
idle_created setting files col_id doc_id job_id row found there landed idle =
    elim (Bool-cases setting.broker_up) [
      | inl up ↦ inl (ground (arith, found, there, landed, idle, up))
      | inr down ↦
          inr
            (500, message "Internal Server Error", ground (arith, found, there, landed, idle, down))
    ]

-- A call that succeeds leaves the tables and a job in flight that is its answer.
reprocessed :
    (setting : Setting) (files : Files) (col_id doc_id job_id : String) (a : Accepted)
    → all_of (λ (i : Job). leb (suc i.created_at) setting.now) files.jobs ≡ true
    → (reprocess_document setting files col_id doc_id job_id).0 ≡ ok a
    → (row : Document) × (j : Job) × (after : Files) × (reprocess_document setting files col_id
          doc_id job_id
        ≡ (ok a, after))
      × (document_in after.db col_id doc_id ≡ some row)
      × (has_status deleting row.status ≡ false)
      × (has_status awaiting_upload row.status ≡ false)
      × (latest_in_flight (latest_job after.jobs doc_id) ≡ some j)
      × (a ≡ accepted j.job_id doc_id j.status)
unfolding reprocess_document
reprocessed setting files col_id doc_id job_id a old h =
    elim (Option-cases (document_in files.db col_id doc_id)) [
      | inl absent ↦ ground (arith, absent)
      | inr (row, found) ↦ elim (Bool-cases (has_status deleting row.status)) [
        | inl gone ↦ ground (arith, found, gone)
        | inr there ↦ elim (Bool-cases (has_status awaiting_upload row.status)) [
          | inl waits ↦ ground (arith, found, there, waits)
          | inr landed ↦ elim (Option-cases (latest_in_flight (latest_job files.jobs doc_id))) [
            | inr (j, running) ↦
                let kept =
                  in_flight_kept setting files col_id doc_id job_id row j found there landed
                    running in
                let same =
                  ok_answer a (accepted j.job_id doc_id j.status) (sym h ∙ ap (λ r. r.0) kept) in
                (
                  row,
                  j,
                  files,
                  kept ∙ ap (λ b. (ok b, files)) (sym same),
                  found,
                  there,
                  landed,
                  running,
                  same,
                )
            | inl idle ↦
                elim (idle_created setting files col_id doc_id job_id row found there landed idle) [
                  | inr (s, d, raises) ↦ ground (arith, raises, h)
                  | inl is ↦
                      let j = pending_job setting col_id doc_id job_id row.filename row.file_type in
                      let after =
                        enqueued setting files col_id doc_id job_id row.filename row.file_type
                          (document_key col_id doc_id row.file_type) in
                      let same =
                        ok_answer a (accepted job_id doc_id pending) (sym h ∙ ap (λ r. r.0) is) in
                      (
                        row,
                        j,
                        after,
                        is ∙ ap (λ b. (ok b, after)) (sym same),
                        found,
                        there,
                        landed,
                        ap latest_in_flight (latest_job-snoc files.jobs j old),
                        same,
                      )
                ]
          ]
        ]
      ]
    ]

-- Where each job was created before the call: when a call of `reprocess_document` succeeds, a second
-- call succeeds with the same job and changes nothing, whether or not the broker answers it.
pub reprocess_document-idempotent :
    (setting setting' : Setting) (files : Files) (col_id doc_id job_id job_id' : String)
    (a : Accepted)
    → all_of (λ (i : Job). leb (suc i.created_at) setting.now) files.jobs ≡ true
    → (reprocess_document setting files col_id doc_id job_id).0 ≡ ok a
    → reprocess_document setting'
        (reprocess_document setting files col_id doc_id job_id).1
        col_id
        doc_id
        job_id'
      ≡ (ok a, (reprocess_document setting files col_id doc_id job_id).1)
reprocess_document-idempotent setting setting' files col_id doc_id job_id job_id' a old h =
    let (row, j, after, is, found, there, landed, running, same) =
      reprocessed setting files col_id doc_id job_id a old h in
    subst
      (λ (r : Outcome Accepted).
        reprocess_document setting' r.1 col_id doc_id job_id' ≡ (ok a, r.1))
      (sym is)
      (in_flight_kept setting' after col_id doc_id job_id' row j found there landed running
        ∙ ap (λ b. (ok b, after)) (sym same))
