-- ===== src/Documents/Originals.antt =====
-- api/services/documents.py: the original source file that is kept next to a document's parse.
use embedbase.Auth.{Principal}
use embedbase.Documents.Calls.{Outcome, bind_call, bind_value, guarded}
use embedbase.Documents.Files.{
  Files, Setting, awaiting_upload, delete_object, deleting, require_presigned_put, update_documents,
  verify_uploaded_object,
}
use embedbase.Documents.Keys.{original_key}
use embedbase.Documents.Life.{backend_or_local, not_found}
use embedbase.Http.{Check, Result, message, ok, raise, ◌>>◌}
use embedbase.Permissions.Authorize.{authorize_document}
use embedbase.Prelude.{Bool, Option, String, false, if◌then◌else◌, none, some, true, ℕ, ◌==◌, ◌||◌}
use embedbase.Tables.{Document, document_row, write}

-- `ext and ext[1:].isalnum()`: the test of the extension is an argument
abbrev pub needs_extension : Bool → Check
needs_extension true = ok tt
needs_extension false = raise 415 (message "The original file needs a simple extension")

abbrev pub is_active_row : Option String → Check
is_active_row none = ok tt
is_active_row (some s) =
    if s == awaiting_upload
    then raise 409 (message "Document is still awaiting its own upload")
    else if s == deleting
    then raise 409 (message "Document is being deleted")
    else ok tt

-- the object of a previous original of another type is deleted
abbrev pub drop_previous : Files → Document → String → Option String → Files
drop_previous files row ext none = files
drop_previous files row ext (some old) =
    if old == "" || old == ext
    then files
    else delete_object files (backend_or_local row.storage_backend)
        (original_key row.collection_id row.id old)

abbrev pub reserve_original : String → String → Document → Document
reserve_original filename ext d = record d {
  original_filename = some filename;
  original_file_type = some ext;
  original_file_size = none;
}

unfoldable pub create_original_upload :
    Setting → Files → Principal → String → String → String → Bool → Outcome String
create_original_upload setting files principal doc_id filename ext simple =
    guarded (authorize_document files.db principal doc_id write) files
      (elim (document_row files.db doc_id) [
        | none ↦ (not_found doc_id, files)
        | some row ↦ guarded (is_active_row row.status >> needs_extension simple) files (
            bind_value
              (require_presigned_put setting (backend_or_local row.storage_backend)
                (original_key row.collection_id doc_id ext))
              files
              (λ url. (
                ok url,
                update_documents (drop_previous files row ext row.original_file_type)
                    (λ d. d.id == doc_id) (reserve_original filename ext),
              )))
      ])

abbrev pub stamp_original : ℕ → Document → Document
stamp_original size d = record d { original_file_size = some size }

abbrev pub no_original : {A : Type 0} → Result A
no_original = raise 409 (message "No original upload in progress")

abbrev pub requested_type : Option String → Option String
requested_type none = none
requested_type (some ext) = if ext == "" then none else some ext

unfoldable pub confirm_original_upload : Setting → Files → Principal → String → Outcome ℕ
confirm_original_upload setting files principal doc_id =
    guarded (authorize_document files.db principal doc_id write) files
      (elim (document_row files.db doc_id) [
        | none ↦ (not_found doc_id, files)
        | some row ↦ elim (requested_type row.original_file_type) [
          | none ↦ (no_original, files)
          | some ext ↦
              bind_call
                (verify_uploaded_object setting files (backend_or_local row.storage_backend)
                  (original_key row.collection_id doc_id ext) ext)
                (λ size files.
                  (ok size, update_documents files (λ d. d.id == doc_id) (stamp_original size)))
        ]
      ])
