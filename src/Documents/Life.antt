-- ===== src/Documents/Life.antt =====
-- api/services/documents.py: the calls on a document that is there: the confirmation of its upload,
-- its reprocessing, its status and its deletion.
use embedbase.Auth.{Principal}
use embedbase.Documents.Calls.{Outcome, accepted, bind_call, guarded}
use embedbase.Documents.Files.{
  Accepted, Files, Setting, awaiting_upload, create_pending_job_and_enqueue, deleting, has_status,
  update_documents, verify_uploaded_object,
}
use embedbase.Documents.Keys.{document_key}
use embedbase.Http.{Check, Result, about, message, ok, raise}
use embedbase.Permissions.Authorize.{authorize_document}
use embedbase.Prelude.{
  Bool, List, Option, String, [], any_of, false, filter_by, find_by, if◌then◌else◌, leb, none, not,
  some, true, ℕ, ◌&&◌, ◌++◌, ◌==◌, ◌||◌, ◌∷◌,
}
use embedbase.Tables.{
  Db, Document, Job, JobStatus, delete_task, document_row, done, failed, pending, processing,
  rate_limited, write,
}

abbrev pub backend_or_local : Option String → String
backend_or_local none = "local"
backend_or_local (some backend) = backend

abbrev pub not_found : {A : Type 0} → String → Result A
not_found doc_id = raise 404 (about "Document" doc_id)

abbrev pub not_awaiting : {A : Type 0} → Result A
not_awaiting = raise 409 (message "Document is not awaiting an upload (already confirmed?)")

abbrev pub awaits : String → Document → Bool
awaits doc_id d = d.id == doc_id && has_status awaiting_upload d.status

abbrev pub activate : ℕ → Document → Document
activate size d = record d { file_size = some size; status = none }

-- The flip whose `WHERE` tests the status again, and the job; with no row flipped, nothing.
unfoldable pub flip_and_enqueue : Setting → Files → Document → ℕ → String → Outcome Accepted
flip_and_enqueue setting files row size job_id =
    let key : String = document_key row.collection_id row.id row.file_type in
    let flipped = update_documents files (awaits row.id) (activate size) in
    if any_of (awaits row.id) files.db.documents
    then bind_call
        (create_pending_job_and_enqueue setting flipped row.collection_id row.id job_id row.filename
          row.file_type key)
        (λ _ files. (ok (accepted job_id row.id pending), files))
    else (not_awaiting, files)

-- `meanwhile` is what other requests commit between the read of the row and the flip.
unfoldable pub confirm_upload :
    Setting → (Files → Files) → Files → Principal → String → String → Outcome Accepted
confirm_upload setting meanwhile files principal doc_id job_id =
    guarded (authorize_document files.db principal doc_id write) files
      (elim (document_row files.db doc_id) [
        | none ↦ (not_found doc_id, files)
        | some row ↦
            if has_status awaiting_upload row.status
            then bind_call
                (verify_uploaded_object setting files (backend_or_local row.storage_backend)
                  (document_key row.collection_id row.id row.file_type) row.file_type)
                (λ size files. flip_and_enqueue setting (meanwhile files) row size job_id)
            else (not_awaiting, files)
      ])

-- the newest job of a document: `ORDER BY created_at DESC LIMIT 1`
abbrev pub newer_of : Job → Option Job → Option Job
newer_of j none = some j
newer_of j (some i) = if leb j.created_at i.created_at then some i else some j

unfoldable pub latest_job : List Job → String → Option Job
latest_job [] doc_id = none
latest_job (j ∷ jobs) doc_id =
    let rest = latest_job jobs doc_id in if j.document_id == doc_id then newer_of j rest else rest

abbrev pub in_flight : JobStatus → Bool
in_flight pending = true
in_flight processing = true
in_flight rate_limited = true
in_flight done = false
in_flight failed = false

abbrev pub latest_in_flight : Option Job → Option Job
latest_in_flight none = none
latest_in_flight (some j) = if in_flight j.status then some j else none

unfoldable pub document_in : Db → String → String → Option Document
document_in db col_id doc_id =
    find_by (λ d. d.id == doc_id && d.collection_id == col_id) db.documents

unfoldable pub reprocess_document : Setting → Files → String → String → String → Outcome Accepted
reprocess_document setting files col_id doc_id job_id = elim (document_in files.db col_id doc_id) [
  | none ↦ (not_found doc_id, files)
  | some row ↦
      if has_status deleting row.status
      then (raise 409 (message "Document is being deleted; cannot reprocess"), files)
      else if has_status awaiting_upload row.status
      then (raise 409 (message "Document upload not confirmed yet; cannot reprocess"), files)
      else elim (latest_in_flight (latest_job files.jobs doc_id)) [
        | some j ↦ (ok (accepted j.job_id doc_id j.status), files)
        | none ↦
            bind_call
              (create_pending_job_and_enqueue setting files col_id doc_id job_id row.filename
                row.file_type (document_key col_id doc_id row.file_type))
              (λ _ files. (ok (accepted job_id doc_id pending), files))
      ]
]

abbrev pub deletable : String → String → Document → Bool
deletable col_id doc_id d =
    d.id == doc_id
    && d.collection_id == col_id
    && elim d.status [ none ↦ true | some s ↦ s == awaiting_upload ]

abbrev pub set_status : Option String → Document → Document
set_status status d = record d { status = status }

-- What `get_document_status` reports: the soft state of the row, or the newest job.
pub data DocumentStatus : Type 0 where
  soft : String → DocumentStatus
  of_job : Job → DocumentStatus

abbrev pub soft_status : Option Document → Option String
soft_status none = none
soft_status (some d) =
    if has_status deleting d.status || has_status awaiting_upload d.status then d.status else none

unfoldable pub get_document_status : Files → String → String → Result DocumentStatus
get_document_status files col_id doc_id =
    let jobs = filter_by (λ j. j.collection_id == col_id) files.jobs in
    elim (soft_status (document_in files.db col_id doc_id)) [
      | some status ↦ ok (soft status)
      | none ↦ elim (latest_job jobs doc_id) [
        | none ↦ raise 404 (about "No job found for document" doc_id)
        | some j ↦ ok (of_job j)
      ]
    ]

unfoldable pub delete_document : Setting → Files → String → String → Check × Files
delete_document setting files col_id doc_id =
    let marked = update_documents files (deletable col_id doc_id) (set_status (some deleting)) in
    let dropped : Files = record marked {
      jobs = filter_by (λ j. not (j.document_id == doc_id)) marked.jobs;
    } in
    if any_of (deletable col_id doc_id) files.db.documents
    then (if setting.broker_up
        then (ok tt, record dropped { sent = dropped.sent ++ delete_task doc_id col_id ∷ [] })
        else (
          raise 503 (message "Cleanup queue unavailable, please retry"),
          update_documents dropped (λ d. d.id == doc_id) (set_status none),
        ))
    else (not_found doc_id, files)
