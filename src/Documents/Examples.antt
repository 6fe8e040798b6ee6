-- ===== src/Documents/Examples.antt =====
-- The theorems on the documents' calls at one collection with a reserved and an active document.
use embedbase.Auth.{Principal}
use embedbase.Documents.Calls.{accepted}
use embedbase.Documents.Content.{has_part, starts_with, validate_content}
use embedbase.Documents.Deleted.{delete_document-rollback, unlisted}
use embedbase.Documents.Early.{Calls, Sound, flips, job_documents, no_call, one_more}
use embedbase.Documents.Files.{
  Files, Setting, create_pending_job_and_enqueue, object_head, read_head, update_documents,
  verify_uploaded_object,
}
use embedbase.Documents.Keys.{document_key}
use embedbase.Documents.Life.{
  confirm_upload, delete_document, document_in, flip_and_enqueue, latest_job, reprocess_document,
}
use embedbase.Documents.NoEarly.{Sound-Calls}
use embedbase.Documents.Once.{Jobless, confirm_upload-once, reprocess_document-idempotent}
use embedbase.Documents.Streamed.{judged, stream_upload_with_size_guard-judged}
use embedbase.Documents.Upload.{
  declared_over, flatten, has_content, resolve_max_bytes, stream_upload_with_size_guard, too_large,
}
use embedbase.Http.{Detail, message, ok, raise}
use embedbase.Permissions.Authorize.{authorize_document}
use embedbase.Prelude.{
  Bool, List, Option, String, [], any_of, contains, false, if◌then◌else◌, length, none, refl, some,
  true, ℕ, ◌∷◌, ◌≡◌, ◌⊎◌,
}
use embedbase.Tables.{Document, pending}

abbrev master : Principal
master = record {
  is_master = true;
  user_id = none;
  api_key_id = none;
  must_change = false;
  rate_limit_rpm = 60;
}

abbrev row_of_file : String → Option String → Document
row_of_file id status = record {
  id = id;
  collection_id = "c1";
  filename = "memo.txt";
  file_type = ".txt";
  file_size = none;
  chunk_count = none;
  created_at = 1;
  status = status;
  embedding_model = none;
  storage_backend = some "s3";
  expires_at = none;
  original_filename = none;
  original_file_type = none;
  original_file_size = none;
}

abbrev files_with : List Document → Files
files_with ds = record {
  db = record { workspaces = []; collections = []; documents = ds; permissions = [] };
  jobs = [];
  objects = record { backend = "s3"; key = "c1/d1.txt"; content = 104 ∷ 105 ∷ [] } ∷ [];
  sent = [];
}

abbrev setting_with : Bool → Setting
setting_with up = record {
  supported = ".txt" ∷ [];
  docling = ".docx" ∷ [];
  max_bytes = some 10;
  backend = "s3";
  presigned_put = λ backend key. some key;
  broker_up = up;
  now = 100;
}

abbrev reserved : Files
reserved = files_with (row_of_file "d1" (some "awaiting_upload") ∷ [])

abbrev active : Files
active = files_with (row_of_file "d1" none ∷ [])

abbrev confirmed_once : Files
confirmed_once = (confirm_upload (setting_with true) (λ files. files) reserved master "d1" "j1").1

confirm_upload-once_example :
    ((s : ℕ) × (d : Detail) × (confirm_upload
          (setting_with false)
          (λ files. files)
          confirmed_once
          master
          "d1"
          "j2"
        ≡ (raise s d, confirmed_once)))
    × ((s : ℕ) × (d : Detail) × ((confirm_upload
              (setting_with false)
              (λ _. confirmed_once)
              reserved
              master
              "d1"
              "j2"
            ≡ (raise s d, confirmed_once))
          ⊎ Jobless (setting_with false) reserved confirmed_once master "d1" "j2" s d))
unfolding confirm_upload authorize_document verify_uploaded_object object_head read_head
    resolve_max_bytes validate_content starts_with has_part document_key flip_and_enqueue
    create_pending_job_and_enqueue update_documents
confirm_upload-once_example =
    confirm_upload-once (setting_with true) (setting_with false) (λ files. files) (λ files. files)
      reserved master master "d1" "j1" "j2" (accepted "j1" "d1" pending) refl

reprocess_document-idempotent_example :
    reprocess_document
      (setting_with false)
      (reprocess_document (setting_with true) active "c1" "d1" "j1").1
      "c1"
      "d1"
      "j2"
    ≡ (
      ok (accepted "j1" "d1" pending),
      (reprocess_document (setting_with true) active "c1" "d1" "j1").1,
    )
unfolding reprocess_document document_in latest_job document_key create_pending_job_and_enqueue
reprocess_document-idempotent_example =
    reprocess_document-idempotent (setting_with true) (setting_with false) active "c1" "d1" "j1"
      "j2" (accepted "j1" "d1" pending) refl refl

stream_upload_with_size_guard-judged_example :
    stream_upload_with_size_guard none (some 10) ((32 ∷ 13 ∷ []) ∷ (104 ∷ []) ∷ []) ≡ (
      if declared_over (resolve_max_bytes (some 10)) none
      then too_large (resolve_max_bytes (some 10))
      else judged
          (resolve_max_bytes (some 10))
          (length (flatten ((32 ∷ 13 ∷ []) ∷ (104 ∷ []) ∷ [])))
          (has_content (flatten ((32 ∷ 13 ∷ []) ∷ (104 ∷ []) ∷ []))))
stream_upload_with_size_guard-judged_example =
    stream_upload_with_size_guard-judged none (some 10) ((32 ∷ 13 ∷ []) ∷ (104 ∷ []) ∷ []) refl

delete_document-rollback_example :
    ((delete_document (setting_with false) reserved "c1" "d1").0
      ≡ raise 503 (message "Cleanup queue unavailable, please retry"))
    × (any_of
          (unlisted "d1")
          (delete_document (setting_with false) reserved "c1" "d1").1.db.documents
        ≡ false)
    × (contains (job_documents (delete_document (setting_with false) reserved "c1" "d1").1) "d1"
        ≡ false)
delete_document-rollback_example =
    delete_document-rollback (setting_with false) reserved "c1" "d1" refl refl

abbrev reserved_then_job : Files
reserved_then_job = (flip_and_enqueue (setting_with true) reserved (row_of_file "d1" none) 2 "j1").1

confirmed : Calls reserved reserved_then_job
confirmed =
    one_more reserved reserved_then_job reserved_then_job
      (flips (setting_with true) reserved (row_of_file "d1" none) 2 "j1")
      (no_call reserved_then_job)

reserved-Sound : Sound reserved
reserved-Sound = record { keyed = (refl, tt); no_early_job = λ k w. refl }

Sound-Calls_example : Sound reserved_then_job
Sound-Calls_example = Sound-Calls confirmed reserved-Sound
