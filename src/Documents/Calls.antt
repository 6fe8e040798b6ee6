-- ===== src/Documents/Calls.antt =====
-- api/services/documents.py: the calls that write. The extension of a filename
-- (`os.path.splitext(name)[1].lower()`) is an argument next to the name, and so are the ids that
-- `uuid4` draws; `filename or "upload"` is done by the caller. Each call returns its result and the
-- state after it.
use embedbase.Auth.{Principal}
use embedbase.Documents.Content.{Bytes}
use embedbase.Documents.Files.{
  Accepted, Files, Setting, awaiting_upload, create_pending_job_and_enqueue, expiry,
  insert_document, put_object, reject_unsupported, require_presigned_put,
}
use embedbase.Documents.Keys.{document_key}
use embedbase.Documents.Upload.{empty_file, flatten, stream_upload_with_size_guard}
use embedbase.Expansion.Budget.{size}
use embedbase.Http.{Check, Result, about, message, ok, raise}
use embedbase.Permissions.Authorize.{authorize_collection}
use embedbase.Prelude.{List, Option, String, if◌then◌else◌, leb, length, none, some, ℕ}
use embedbase.Tables.{Document, JobStatus, pending, write}

abbrev pub Outcome : Type 0 → Type 0
Outcome A = Result A × Files

-- go on after a check, or stop with the state as it is
abbrev pub guarded : {A : Type 0} → Check → Files → Outcome A → Outcome A
guarded (ok tt) files rest = rest
guarded (raise status detail) files rest = (raise status detail, files)

abbrev pub bind_value : {A B : Type 0} → Result A → Files → (A → Outcome B) → Outcome B
bind_value (ok a) files rest = rest a
bind_value (raise status detail) files rest = (raise status detail, files)

abbrev pub bind_call : {A B : Type 0} → Outcome A → (A → Files → Outcome B) → Outcome B
bind_call (ok a, files) rest = rest a files
bind_call (raise status detail, files) rest = (raise status detail, files)

abbrev pub new_document :
    Setting → String → String → String → String → Option ℕ → Option String → Option ℕ → Document
new_document setting col_id doc_id filename ext size status expires_at = record {
  id = doc_id;
  collection_id = col_id;
  filename = filename;
  file_type = ext;
  file_size = size;
  chunk_count = none;
  created_at = setting.now;
  status = status;
  embedding_model = none;
  storage_backend = some setting.backend;
  expires_at = expires_at;
  original_filename = none;
  original_file_type = none;
  original_file_size = none;
}

abbrev pub accepted : String → String → JobStatus → Accepted
accepted job_id doc_id status = record { job_id = job_id; document_id = doc_id; status = status }

unfoldable pub persist_and_enqueue :
    Setting → Files → Document → ℕ → String → String → Outcome Accepted
persist_and_enqueue setting files d size job_id file_path =
    bind_call
      (create_pending_job_and_enqueue setting (insert_document files d) d.collection_id d.id job_id
        d.filename d.file_type file_path)
      (λ _ files. (ok (accepted job_id d.id pending), files))

-- `put_upload` stores nothing when its guard raises.
unfoldable pub ingest :
    Setting
    → Files
    → Principal
    → String
    → String
    → String
    → Option ℕ
    → List Bytes
    → Option ℕ
    → String
    → String
    → Outcome Accepted
ingest setting files principal col_id filename ext declared reads retention doc_id job_id =
    let key : String = document_key col_id doc_id ext in
    guarded (authorize_collection files.db principal col_id write) files (
      bind_value (expiry setting retention) files (λ expires_at.
        guarded (reject_unsupported setting ext) files (
          bind_value (stream_upload_with_size_guard declared setting.max_bytes reads) files (λ size.
            persist_and_enqueue setting (put_object files setting.backend key (flatten reads))
              (new_document setting col_id doc_id filename ext (some size) none expires_at) size
              job_id key))))

-- The file on the server's disk, where there is one.
unfoldable pub ingest_local_path :
    Setting
    → Files
    → Principal
    → String
    → String
    → String
    → Option Bytes
    → Option ℕ
    → String
    → String
    → Outcome Accepted
ingest_local_path setting files principal col_id filename ext file retention doc_id job_id =
    let key : String = document_key col_id doc_id ext in
    if principal.is_master
    then bind_value (expiry setting retention) files (λ expires_at.
      guarded (reject_unsupported setting ext) files (elim file [
        | none ↦ (raise 404 (about "File not found" filename), files)
        | some content ↦
            if leb (length content) 0
            then (empty_file, files)
            else persist_and_enqueue setting (put_object files setting.backend key content)
                (new_document setting col_id doc_id filename ext (some (length content)) none
                  expires_at)
                (length content) job_id key
      ]))
    else (
      raise 403 (message "Ingesting a container-local file path requires the master key"),
      files,
    )

unfoldable pub create_upload :
    Setting → Files → Principal → String → String → String → Option ℕ → String → Outcome String
create_upload setting files principal col_id filename ext retention doc_id =
    guarded (authorize_collection files.db principal col_id write) files (
      bind_value (expiry setting retention) files (λ expires_at.
        guarded (reject_unsupported setting ext) files (
          bind_value
            (require_presigned_put setting setting.backend (document_key col_id doc_id ext)) files
            (λ url. (
              ok url,
              insert_document files (
                  new_document setting col_id doc_id filename ext none (some awaiting_upload)
                    expires_at),
            )))))
