-- ===== src/Documents/Early.antt =====
-- api/services/documents.py: any sequence of the calls that write, with ids that `uuid4` draws
-- fresh. A confirmation is two steps, so that other calls come between its check of the object and
-- its flip of the row.
use embedbase.Auth.{Principal}
use embedbase.Documents.Calls.{create_upload, ingest, ingest_local_path}
use embedbase.Documents.Content.{Bytes}
use embedbase.Documents.Files.{
  Files, Setting, awaiting_upload, create_pending_job_and_enqueue, has_status, insert_document,
  pending_job, update_documents, update_if, verify_uploaded_object,
}
use embedbase.Documents.Life.{awaits, flip_and_enqueue, reprocess_document}
use embedbase.Prelude.{
  Bool, Bool-cases, Distinct, Distinct-snoc, List, Option, String, [], any_of, ap, ap₂, arith,
  contains, contains-map-snoc, eq_iff, false, if◌then◌else◌, inl, inr, map, refl, subst, sym, true,
  ℕ, ◌++◌, ◌||◌, ◌∙◌, ◌∷◌, ◌≡◌,
}
use embedbase.Tables.{Db, Document, Job, Task, ingest_task}
use embedbase.Documents.Life.{delete_document}

abbrev pub document_ids : Files → List String
document_ids files = map (λ (d : Document). d.id) files.db.documents

abbrev pub job_documents : Files → List String
job_documents files = map (λ (j : Job). j.document_id) files.jobs

pub data Call : Files → Files → Type 0 where
  ingests :
      (setting : Setting) (files : Files) (principal : Principal) (col_id filename ext : String)
      (declared : Option ℕ) (reads : List Bytes) (retention : Option ℕ) (doc_id job_id : String)
      → contains (document_ids files) doc_id ≡ false
      → Call files
          (ingest setting files principal col_id filename ext declared reads retention doc_id
            job_id).1
  ingests_path :
      (setting : Setting) (files : Files) (principal : Principal) (col_id filename ext : String)
      (file : Option Bytes) (retention : Option ℕ) (doc_id job_id : String)
      → contains (document_ids files) doc_id ≡ false
      → Call files
          (ingest_local_path setting files principal col_id filename ext file retention doc_id
            job_id).1
  reserves :
      (setting : Setting) (files : Files) (principal : Principal) (col_id filename ext : String)
      (retention : Option ℕ) (doc_id : String)
      → contains (document_ids files) doc_id ≡ false
      → contains (job_documents files) doc_id ≡ false
      → Call files (create_upload setting files principal col_id filename ext retention doc_id).1
  verifies :
      (setting : Setting) (files : Files) (backend key ext : String)
      → Call files (verify_uploaded_object setting files backend key ext).1
  flips :
      (setting : Setting) (files : Files) (row : Document) (size : ℕ) (job_id : String)
      → Call files (flip_and_enqueue setting files row size job_id).1
  reprocesses :
      (setting : Setting) (files : Files) (col_id doc_id job_id : String)
      → Call files (reprocess_document setting files col_id doc_id job_id).1
  deletes :
      (setting : Setting) (files : Files) (col_id doc_id : String)
      → Call files (delete_document setting files col_id doc_id).1

pub data Calls : Files → Files → Type 0 where
  no_call : (files : Files) → Calls files files
  one_more : (first mid last : Files) → Call first mid → Calls mid last → Calls first last

-- The ids of the documents are a key, and no document that awaits its upload has a job.
pub record Sound (files : Files) : Type 0 where
  pub keyed : Distinct (document_ids files)
  pub no_early_job :
      (k : String)
      → any_of (awaits k) files.db.documents ≡ true
      → contains (job_documents files) k ≡ false

-- calls that leave the documents and the jobs
pub Sound-same : (f g : Files) → g.db ≡ f.db → g.jobs ≡ f.jobs → Sound f → Sound g
Sound-same f g same_db same_jobs s = record {
  keyed =
      subst (λ (db : Db). Distinct (map (λ (d : Document). d.id) db.documents)) (sym same_db)
        s.keyed;
  no_early_job = λ k w.
      ap (λ jobs. contains (map (λ (j : Job). j.document_id) jobs) k) same_jobs
      ∙ s.no_early_job k (ap (λ (db : Db). any_of (awaits k) db.documents) (sym same_db) ∙ w);
}

Sound-job :
    (files : Files) (job : Job) (sent : List Task)
    → any_of (awaits job.document_id) files.db.documents ≡ false
    → Sound files
    → Sound (record files { jobs = files.jobs ++ job ∷ []; sent = sent })
Sound-job files job sent landed s = record {
  keyed = s.keyed;
  no_early_job = λ k w.
      contains-map-snoc (λ (j : Job). j.document_id) files.jobs job k
      ∙ ground (arith, s.no_early_job k w, eq_iff job.document_id k);
}

pub created-Sound :
    (setting : Setting) (files : Files) (col_id doc_id job_id filename ext file_path : String)
    → any_of (awaits doc_id) files.db.documents ≡ false
    → Sound files
    → Sound
        (create_pending_job_and_enqueue setting files col_id doc_id job_id filename ext file_path).1
unfolding create_pending_job_and_enqueue
created-Sound setting files col_id doc_id job_id filename ext file_path landed s =
    let job = pending_job setting col_id doc_id job_id filename ext in
    elim (Bool-cases setting.broker_up) [
      | inl up ↦ rw up (
          Sound-job files job (files.sent ++ ingest_task job_id file_path col_id doc_id ext ∷ [])
            landed s)
      | inr down ↦ rw down (Sound-job files job files.sent landed s)
    ]

updated_if :
    (hit : Bool) (change : Document → Document) (k : String) (d : Document)
    → ((d : Document) → awaits k (change d) ≡ true → awaits k d ≡ true)
    → awaits k (if hit then change d else d) ≡ true
    → awaits k d ≡ true
updated_if true change k d keeps h = keeps d h
updated_if false change k d keeps h = h

or_mono :
    (a b a' b' : Bool)
    → (a ≡ true → a' ≡ true)
    → (b ≡ true → b' ≡ true)
    → (a || b) ≡ true
    → (a' || b') ≡ true
or_mono a b a' b' f g h = ground arith

same_id :
    (hit : Bool) (change : Document → Document) (d : Document)
    → (change d).id ≡ d.id
    → (if hit then change d else d).id ≡ d.id
same_id true change d e = e
same_id false change d e = refl

updated_ids :
    (test : Document → Bool) (change : Document → Document) (ds : List Document)
    → ((d : Document) → (change d).id ≡ d.id)
    → map (λ (d : Document). d.id) (map (update_if test change) ds)
      ≡ map (λ (d : Document). d.id) ds
updated_ids test change [] e = refl
updated_ids test change (d ∷ ds) e =
    ap₂ (λ x xs. x ∷ xs) (same_id (test d) change d (e d)) (updated_ids test change ds e)

-- an update that makes no document await an upload
updated_awaits :
    (test : Document → Bool) (change : Document → Document) (k : String) (ds : List Document)
    → ((d : Document) → awaits k (change d) ≡ true → awaits k d ≡ true)
    → any_of (awaits k) (map (update_if test change) ds) ≡ true
    → any_of (awaits k) ds ≡ true
updated_awaits test change k [] keeps h = h
updated_awaits test change k (d ∷ ds) keeps h =
    or_mono (awaits k (update_if test change d))
      (any_of (awaits k) (map (update_if test change) ds)) (awaits k d) (any_of (awaits k) ds)
      (updated_if (test d) change k d keeps) (updated_awaits test change k ds keeps) h

pub updated-Sound :
    (files : Files) (test : Document → Bool) (change : Document → Document)
    → ((d : Document) → (change d).id ≡ d.id)
    → ((k : String) (d : Document) → awaits k (change d) ≡ true → awaits k d ≡ true)
    → Sound files
    → Sound (update_documents files test change)
unfolding update_documents
updated-Sound files test change same keeps s = record {
  keyed = subst Distinct (sym (updated_ids test change files.db.documents same)) s.keyed;
  no_early_job =
      λ k w. s.no_early_job k (updated_awaits test change k files.db.documents (keeps k) w);
}

pub any_of-snoc :
    (p : Document → Bool) (ds : List Document) (d : Document)
    → any_of p (ds ++ d ∷ []) ≡ (any_of p ds || p d)
any_of-snoc p [] d = ground arith
any_of-snoc p (e ∷ ds) d = ground (arith, any_of-snoc p ds d)

-- no row has an id that is new
pub unknown_waits :
    (k : String) (ds : List Document)
    → contains (map (λ (d : Document). d.id) ds) k ≡ false
    → any_of (awaits k) ds ≡ false
unknown_waits k [] h = refl
unknown_waits k (d ∷ ds) h = ground (arith, unknown_waits k ds)

pub inserted-Sound :
    (files : Files) (d : Document)
    → contains (document_ids files) d.id ≡ false
    → (has_status awaiting_upload d.status ≡ true → contains (job_documents files) d.id ≡ false)
    → Sound files
    → Sound (insert_document files d)
unfolding insert_document
inserted-Sound files d fresh unworked s = record {
  keyed = Distinct-snoc (λ (d : Document). d.id) files.db.documents d s.keyed fresh;
  no_early_job = λ k w.
      let either = sym (any_of-snoc (awaits k) files.db.documents d) ∙ w in
      elim (Bool-cases (awaits k d)) [
        | inl new ↦
            let at : d.id ≡ k = (eq_iff d.id k).0 (ground arith) in
            subst (λ k. contains (job_documents files) k ≡ false) at (unworked (ground arith))
        | inr old ↦ s.no_early_job k (ground arith)
      ];
}
