-- ===== src/Documents/Deleted.antt =====
-- api/services/documents.py: what a deletion leaves, with and without an answer of the broker.
use embedbase.Documents.Early.{job_documents}
use embedbase.Documents.Files.{Files, Setting, deleting, update_documents, update_if}
use embedbase.Documents.Life.{deletable, delete_document, set_status}
use embedbase.Http.{message, raise}
use embedbase.Prelude.{
  Bool, List, String, [], any_of, arith, contains, false, filter_by, map, none, not, refl, some,
  true, ◌&&◌, ◌==◌, ◌∷◌, ◌≡◌,
}
use embedbase.Tables.{Document, Job}
use embedbase.Workspaces.{is_active}

no_jobs_left :
    (doc_id : String) (jobs : List Job)
    → contains
        (map (λ (j : Job). j.document_id) (filter_by (λ j. not (j.document_id == doc_id)) jobs))
        doc_id
      ≡ false
no_jobs_left doc_id [] = refl
no_jobs_left doc_id (j ∷ jobs) = ground (arith, no_jobs_left doc_id jobs)

-- a row of the document that is not active
abbrev pub unlisted : String → Document → Bool
unlisted doc_id d = d.id == doc_id && not (is_active d)

all_listed :
    (doc_id : String) (ds : List Document)
    → any_of (unlisted doc_id) (map (update_if (λ d. d.id == doc_id) (set_status none)) ds) ≡ false
all_listed doc_id [] = refl
all_listed doc_id (d ∷ ds) = ground (arith, all_listed doc_id ds)

-- Where the broker does not answer and a row can be deleted: the call is a 503 after which each row
-- of the document is active, one that awaited its upload too, and the document has no job.
pub delete_document-rollback :
    (setting : Setting) (files : Files) (col_id doc_id : String)
    → setting.broker_up ≡ false
    → any_of (deletable col_id doc_id) files.db.documents ≡ true
    → ((delete_document setting files col_id doc_id).0
        ≡ raise 503 (message "Cleanup queue unavailable, please retry"))
      × (any_of (unlisted doc_id) (delete_document setting files col_id doc_id).1.db.documents
          ≡ false)
      × (contains (job_documents (delete_document setting files col_id doc_id).1) doc_id ≡ false)
unfolding delete_document update_documents
delete_document-rollback setting files col_id doc_id down there =
    rw (there, down)
      (
        refl,
        all_listed doc_id (
            map (update_if (deletable col_id doc_id) (set_status (some deleting)))
              files.db.documents),
        no_jobs_left doc_id files.jobs,
      )
