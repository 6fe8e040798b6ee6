-- ===== src/Documents/Files.antt =====
-- api/services/documents.py: what its calls share. The state is the tables, the jobs, the stored
-- objects of all backends (api/services/storage.py), and the tasks sent to the broker.
use embedbase.Documents.Content.{Bytes, validate_content}
use embedbase.Documents.Upload.{resolve_max_bytes, too_large}
use embedbase.Expansion.Budget.{size}
use embedbase.Http.{Check, Result, about, message, ok, raise}
use embedbase.Prelude.{
  Bool, List, Option, String, [], contains, false, filter_by, find_by, if◌then◌else◌, leb, length,
  map, none, not, some, suc, take, ℕ, ◌&&◌, ◌*◌, ◌++◌, ◌+◌, ◌==◌, ◌∷◌,
}
use embedbase.Tables.{Db, Document, Job, JobStatus, Task, ingest_task, pending}

pub record Object : Type 0 where
  pub backend : String
  pub key : String
  pub content : Bytes

pub record Files : Type 0 where
  pub db : Db
  pub jobs : List Job
  pub objects : List Object
  pub sent : List Task

-- what the services read of the configuration and of the world: `supported_extensions`, the size
-- cap, the default backend, the URLs that a backend presigns, and whether the broker answers
pub record Setting : Type 0 where
  pub supported : List String
  pub docling : List String
  pub max_bytes : Option ℕ
  pub backend : String
  pub presigned_put : String → String → Option String
  pub broker_up : Bool
  -- the time of the call, in seconds
  pub now : ℕ

abbrev pub stands_at : String → String → Object → Bool
stands_at backend key o = o.backend == backend && o.key == key

-- `Storage.object_head`, `read_head` and `delete` of a backend
abbrev pub size_of : Option Object → Option ℕ
size_of none = none
size_of (some o) = some (length o.content)

abbrev pub head_of : ℕ → Option Object → Option Bytes
head_of n none = none
head_of n (some o) = some (take n o.content)

unfoldable pub object_head : Files → String → String → Option ℕ
object_head files backend key = size_of (find_by (stands_at backend key) files.objects)

unfoldable pub read_head : Files → String → String → ℕ → Option Bytes
read_head files backend key n = head_of n (find_by (stands_at backend key) files.objects)

unfoldable pub delete_object : Files → String → String → Files
delete_object files backend key = record files {
  objects = filter_by (λ o. not (stands_at backend key o)) files.objects;
}

unfoldable pub put_object : Files → String → String → Bytes → Files
put_object files backend key content =
    let rest = filter_by (λ o. not (stands_at backend key o)) files.objects in
    record files {
      objects = rest ++ record { backend = backend; key = key; content = content } ∷ [];
    }

abbrev pub awaiting_upload : String
awaiting_upload = "awaiting_upload"

abbrev pub deleting : String
deleting = "deleting"

abbrev pub has_status : String → Option String → Bool
has_status s none = false
has_status s (some t) = t == s

unfoldable pub reject_unsupported : Setting → String → Check
reject_unsupported setting ext =
    if contains setting.supported ext
    then ok tt
    else if contains setting.docling ext
    then raise 415 (about "Unsupported, needs docling" ext)
    else raise 415 (about "Unsupported file type" ext)

abbrev pub min_retention_days : ℕ
min_retention_days = 1

abbrev pub max_retention_days : ℕ
max_retention_days = 30

-- `_expiry`
unfoldable pub expiry : Setting → Option ℕ → Result (Option ℕ)
expiry setting none = ok none
expiry setting (some days) =
    if leb min_retention_days days && leb days max_retention_days
    then ok (some (setting.now + days * 86400))
    else raise 422 (message "retention_days is out of range")

unfoldable pub require_presigned_put : Setting → String → String → Result String
require_presigned_put setting backend key = elim (setting.presigned_put backend key) [
  | none ↦ raise 400 (message "Presigned upload requires an S3/MinIO storage backend")
  | some url ↦ ok url
]

abbrev pub no_bytes : {A : Type 0} → Result A
no_bytes = raise 409 (message "No uploaded bytes found")

-- the last lines of `_verify_uploaded_object`: a mismatched object is purged
abbrev pub verified : Files → Files → ℕ → Check → Result ℕ × Files
verified files purged size (ok tt) = (ok size, files)
verified files purged size (raise status detail) = (raise status detail, purged)

abbrev pub sniffed : Files → Files → String → ℕ → Option Bytes → Result ℕ × Files
sniffed files purged ext size none = (no_bytes, files)
sniffed files purged ext size (some head) = verified files purged size (validate_content ext head)

unfoldable pub verify_uploaded_object :
    Setting → Files → String → String → String → Result ℕ × Files
verify_uploaded_object setting files backend key ext = elim (object_head files backend key) [
  | none ↦ (no_bytes, files)
  | some size ↦
      let limit : ℕ = resolve_max_bytes setting.max_bytes in
      let purged : Files = delete_object files backend key in
      if leb (suc limit) size
      then (too_large limit, purged)
      else if leb 1 size
      then sniffed files purged ext size (read_head files backend key 4096)
      else sniffed files purged ext size (some [])
]

-- `update(doc_t).where(doc_t.c.id == doc_id)`
abbrev pub update_if : (Document → Bool) → (Document → Document) → Document → Document
update_if test change d = if test d then change d else d

unfoldable pub update_documents : Files → (Document → Bool) → (Document → Document) → Files
update_documents files test change =
    let db : Db = files.db in
    record files { db = record db { documents = map (update_if test change) db.documents } }

unfoldable pub insert_document : Files → Document → Files
insert_document files d =
    let db : Db = files.db in record files { db = record db { documents = db.documents ++ d ∷ [] } }

pub record Accepted : Type 0 where
  pub job_id : String
  pub document_id : String
  pub status : JobStatus

abbrev pub pending_job : Setting → String → String → String → String → String → Job
pending_job setting col_id doc_id job_id filename ext = record {
  job_id = job_id;
  document_id = doc_id;
  collection_id = col_id;
  filename = filename;
  file_type = ext;
  status = pending;
  chunk_count = none;
  created_at = setting.now;
  updated_at = setting.now;
}

-- A broker that does not answer raises after the commit, so that the rows stay.
unfoldable pub create_pending_job_and_enqueue :
    Setting → Files → String → String → String → String → String → String → Check × Files
create_pending_job_and_enqueue setting files col_id doc_id job_id filename ext file_path =
    let job : Job = pending_job setting col_id doc_id job_id filename ext in
    let stored : Files = record files { jobs = files.jobs ++ job ∷ [] } in
    if setting.broker_up
    then (
      ok tt,
      record stored { sent = stored.sent ++ ingest_task job_id file_path col_id doc_id ext ∷ [] },
    )
    else (raise 500 (message "Internal Server Error"), stored)
