-- ===== src/Documents/NoEarly.antt =====
-- api/services/documents.py: the jobs of the documents whose rows await their upload.
use mathlib.Core.Bool.{false≢true}
use embedbase.Auth.{Principal}
use embedbase.Documents.Calls.{
  Outcome, accepted, bind_call, bind_value, create_upload, guarded, ingest, ingest_local_path,
  new_document, persist_and_enqueue,
}
use embedbase.Documents.Content.{Bytes, validate_content}
use embedbase.Documents.Early.{
  Call, Calls, Sound, Sound-same, any_of-snoc, created-Sound, deletes, document_ids, flips, ingests,
  ingests_path, inserted-Sound, job_documents, no_call, one_more, reprocesses, reserves,
  unknown_waits, updated-Sound, verifies,
}
use embedbase.Documents.Files.{
  Files, Setting, awaiting_upload, create_pending_job_and_enqueue, delete_object, deleting, expiry,
  has_status, insert_document, object_head, put_object, read_head, reject_unsupported,
  require_presigned_put, sniffed, update_documents, verify_uploaded_object,
}
use embedbase.Documents.Keys.{document_key}
use embedbase.Documents.Life.{
  activate, awaits, deletable, delete_document, document_in, flip_and_enqueue, latest_in_flight,
  latest_job, reprocess_document, set_status,
}
use embedbase.Documents.Once.{activated, check_cases}
use embedbase.Documents.Upload.{flatten, resolve_max_bytes, stream_upload_with_size_guard}
use embedbase.Gate.{call}
use embedbase.Http.{Check, Result, ok, raise}
use embedbase.Permissions.Authorize.{authorize_collection}
use embedbase.Prelude.{
  Bool, Bool-cases, Distinct, List, Option, Option-cases, String, [], any_of, arith, contains,
  contains-map-filter_by, eq_iff, false, filter_by, find_by, if◌then◌else◌, inl, inr, leb, length,
  map, none, not, refl, some, subst, suc, sym, true, ℕ, ◌&&◌, ◌++◌, ◌==◌, ◌∙◌, ◌∷◌, ◌≡◌,
}
use embedbase.Tables.{Document, Job, Task, delete_task, pending, write}

module _ {A B : Type 0} (P : Files → Type 0) where
  bind_call-keeps :
      (m : Outcome A) (rest : A → Files → Outcome B)
      → P m.1
      → ((a : A) (f : Files) → P f → P (rest a f).1)
      → P (bind_call m rest).1
  bind_call-keeps (ok a, files) rest h k = k a files h
  bind_call-keeps (raise s d, files) rest h k = h

  bind_value-keeps :
      (r : Result A) (files : Files) (rest : A → Outcome B)
      → P files
      → ((a : A) → P (rest a).1)
      → P (bind_value r files rest).1
  bind_value-keeps (ok a) files rest h k = k a
  bind_value-keeps (raise s d) files rest h k = h

module _ {B : Type 0} (P : Files → Type 0) where
  guarded-keeps :
      (c : Check) (files : Files) (rest : Outcome B)
      → P files
      → P rest.1
      → P (guarded c files rest).1
  guarded-keeps (ok tt) files rest h k = k
  guarded-keeps (raise s d) files rest h k = h

  if-keeps : (b : Bool) (x y : Outcome B) → P x.1 → P y.1 → P (if b then x else y).1
  if-keeps true x y h k = h
  if-keeps false x y h k = k

-- an active document with its job
persisted-Sound :
    (setting : Setting) (files : Files) (d : Document) (size : ℕ) (job_id file_path : String)
    → contains (document_ids files) d.id ≡ false
    → has_status awaiting_upload d.status ≡ false
    → Sound files
    → Sound (persist_and_enqueue setting files d size job_id file_path).1
unfolding persist_and_enqueue insert_document
persisted-Sound setting files d size job_id file_path fresh active s =
    let landed : any_of (awaits d.id) (files.db.documents ++ d ∷ []) ≡ false =
      any_of-snoc (awaits d.id) files.db.documents d
      ∙ ground (arith, unknown_waits d.id files.db.documents fresh, active) in
    let inserted = inserted-Sound files d fresh (λ w. elim (false≢true (sym active ∙ w)) [ ]) s in
    bind_call-keeps Sound
      (create_pending_job_and_enqueue setting (insert_document files d) d.collection_id d.id job_id
        d.filename d.file_type file_path)
      (λ _ files. (ok (accepted job_id d.id pending), files))
      (created-Sound setting (insert_document files d) d.collection_id d.id job_id d.filename
        d.file_type file_path landed inserted)
      (λ _ f h. h)

put-Sound :
    (files : Files) (backend key : String) (content : Bytes)
    → Sound files
    → Sound (put_object files backend key content)
unfolding put_object
put-Sound files backend key content s =
    Sound-same files (put_object files backend key content) refl refl s

ingest-Sound :
    (setting : Setting) (files : Files) (principal : Principal) (col_id filename ext : String)
    (declared : Option ℕ) (reads : List Bytes) (retention : Option ℕ) (doc_id job_id : String)
    → contains (document_ids files) doc_id ≡ false
    → Sound files
    → Sound
        (ingest setting files principal col_id filename ext declared reads retention doc_id
          job_id).1
unfolding ingest put_object
ingest-Sound setting files principal col_id filename ext declared reads retention doc_id job_id
      fresh s =
    let key = document_key col_id doc_id ext in
    guarded-keeps Sound (authorize_collection files.db principal col_id write) files _ s (
      bind_value-keeps Sound (expiry setting retention) files _ s (λ expires_at.
        guarded-keeps Sound (reject_unsupported setting ext) files _ s (
          bind_value-keeps Sound (stream_upload_with_size_guard declared setting.max_bytes reads)
            files _ s
            (λ size.
              persisted-Sound setting (put_object files setting.backend key (flatten reads))
                (new_document setting col_id doc_id filename ext (some size) none expires_at) size
                job_id key fresh refl (put-Sound files setting.backend key (flatten reads) s)))))

local-Sound :
    (setting : Setting) (files : Files) (principal : Principal) (col_id filename ext : String)
    (file : Option Bytes) (retention : Option ℕ) (doc_id job_id : String)
    → contains (document_ids files) doc_id ≡ false
    → Sound files
    → Sound
        (ingest_local_path setting files principal col_id filename ext file retention doc_id
          job_id).1
unfolding ingest_local_path put_object
local-Sound setting files principal col_id filename ext none retention doc_id job_id fresh s =
    if-keeps Sound principal.is_master _ _
      (bind_value-keeps Sound (expiry setting retention) files _ s
        (λ expires_at. guarded-keeps Sound (reject_unsupported setting ext) files _ s s))
      s
local-Sound setting files principal col_id filename ext (some content) retention doc_id job_id fresh
      s =
    if-keeps Sound principal.is_master _ _
      (bind_value-keeps Sound (expiry setting retention) files _ s (λ expires_at.
        guarded-keeps Sound (reject_unsupported setting ext) files _ s (
          if-keeps Sound (leb (length content) 0) _ _ s (
            persisted-Sound setting
              (put_object files setting.backend (document_key col_id doc_id ext) content)
              (new_document setting col_id doc_id filename ext (some (length content)) none
                expires_at)
              (length content) job_id (document_key col_id doc_id ext) fresh refl
              (put-Sound files setting.backend (document_key col_id doc_id ext) content s)))))
      s

reserve-Sound :
    (setting : Setting) (files : Files) (principal : Principal) (col_id filename ext : String)
    (retention : Option ℕ) (doc_id : String)
    → contains (document_ids files) doc_id ≡ false
    → contains (job_documents files) doc_id ≡ false
    → Sound files
    → Sound (create_upload setting files principal col_id filename ext retention doc_id).1
unfolding create_upload
reserve-Sound setting files principal col_id filename ext retention doc_id fresh unworked s =
    guarded-keeps Sound (authorize_collection files.db principal col_id write) files _ s (
      bind_value-keeps Sound (expiry setting retention) files _ s (λ expires_at.
        guarded-keeps Sound (reject_unsupported setting ext) files _ s (
          bind_value-keeps Sound
            (require_presigned_put setting setting.backend (document_key col_id doc_id ext)) files _
            s
            (λ url.
              inserted-Sound files
                (new_document setting col_id doc_id filename ext none (some awaiting_upload)
                  expires_at)
                fresh (λ _. unworked) s))))

sniffed-Sound :
    (files purged : Files) (ext : String) (size : ℕ) (head : Option Bytes)
    → Sound files
    → Sound purged
    → Sound (sniffed files purged ext size head).1
sniffed-Sound files purged ext size none s p = s
sniffed-Sound files purged ext size (some head) s p =
    elim (check_cases (validate_content ext head)) [
      | inl e ↦ rw e s
      | inr (status, detail, e) ↦ rw e p
    ]

verify-Sound :
    (setting : Setting) (files : Files) (backend key ext : String)
    → Sound files
    → Sound (verify_uploaded_object setting files backend key ext).1
unfolding verify_uploaded_object delete_object
verify-Sound setting files backend key ext s =
    let purged = delete_object files backend key in
    let sound_purged = Sound-same files purged refl refl s in
    elim (Option-cases (object_head files backend key)) [
      | inl e ↦ rw (verify_uploaded_object, e) s
      | inr (size, e) ↦
          rw (verify_uploaded_object, e)
            (if-keeps Sound (leb (suc (resolve_max_bytes setting.max_bytes)) size) _ _ sound_purged
              (if-keeps Sound (leb 1 size) _ _
                (sniffed-Sound files purged ext size (read_head files backend key 4096) s
                  sound_purged)
                (sniffed-Sound files purged ext size (some []) s sound_purged)))
    ]

flip-Sound :
    (setting : Setting) (files : Files) (row : Document) (size : ℕ) (job_id : String)
    → Sound files
    → Sound (flip_and_enqueue setting files row size job_id).1
unfolding flip_and_enqueue update_documents
flip-Sound setting files row size job_id s =
    elim (Bool-cases (any_of (awaits row.id) files.db.documents)) [
      | inl e ↦
          let flipped =
            updated-Sound files (awaits row.id) (activate size) (λ d. refl) (λ k d h. ground arith)
              s in
          rw e (
            bind_call-keeps Sound
              (create_pending_job_and_enqueue setting
                (update_documents files (awaits row.id) (activate size)) row.collection_id row.id
                job_id row.filename row.file_type
                (document_key row.collection_id row.id row.file_type))
              (λ _ files. (ok (accepted job_id row.id pending), files))
              (created-Sound setting (update_documents files (awaits row.id) (activate size))
                row.collection_id row.id job_id row.filename row.file_type
                (document_key row.collection_id row.id row.file_type)
                (activated row.id size files.db.documents) flipped)
              (λ _ f h. h))
      | inr e ↦ rw e s
    ]

absent_row :
    (doc_id col_id : String) (ds : List Document)
    → contains (map (λ (d : Document). d.id) ds) doc_id ≡ false
    → find_by (λ d. d.id == doc_id && d.collection_id == col_id) ds ≡ none
absent_row doc_id col_id [] h = refl
absent_row doc_id col_id (d ∷ ds) h = ground (arith, absent_row doc_id col_id ds)

landed_row :
    (doc_id col_id : String) (ds : List Document) (row : Document)
    → Distinct (map (λ (d : Document). d.id) ds)
    → find_by (λ d. d.id == doc_id && d.collection_id == col_id) ds ≡ some row
    → has_status awaiting_upload row.status ≡ false
    → any_of (awaits doc_id) ds ≡ false
landed_row doc_id col_id [] row keyed found landed = refl
landed_row doc_id col_id (d ∷ ds) row keyed found landed = elim (Bool-cases (d.id == doc_id)) [
  | inr other ↦ ground (arith, landed_row doc_id col_id ds row keyed.1, other, found, landed)
  | inl own ↦
      let at : d.id ≡ doc_id = (eq_iff d.id doc_id).0 own in
      let unknown : contains (map (λ (d : Document). d.id) ds) doc_id ≡ false =
        subst (λ k. contains (map (λ (d : Document). d.id) ds) k ≡ false) at keyed.0 in
      let waits_none = unknown_waits doc_id ds unknown in
      elim (Bool-cases (d.collection_id == col_id)) [
        | inl near ↦ ground (arith, own, near, found, landed, waits_none)
        | inr away ↦ ground (arith, own, away, found, absent_row doc_id col_id ds unknown)
      ]
]

reprocess-Sound :
    (setting : Setting) (files : Files) (col_id doc_id job_id : String)
    → Sound files
    → Sound (reprocess_document setting files col_id doc_id job_id).1
unfolding reprocess_document document_in
reprocess-Sound setting files col_id doc_id job_id s =
    elim (Option-cases (document_in files.db col_id doc_id)) [
      | inl absent ↦ rw (reprocess_document, absent) s
      | inr (row, found) ↦
          rw (reprocess_document, found)
            (if-keeps Sound (has_status deleting row.status) _ _ s
              (elim (Bool-cases (has_status awaiting_upload row.status)) [
                | inl waits ↦ rw waits s
                | inr landed ↦
                    rw landed
                      (elim (Option-cases (latest_in_flight (latest_job files.jobs doc_id))) [
                        | inr (j, running) ↦ rw running s
                        | inl idle ↦ rw idle (
                            bind_call-keeps Sound
                              (create_pending_job_and_enqueue setting files col_id doc_id job_id
                                row.filename row.file_type
                                (document_key col_id doc_id row.file_type))
                              (λ _ files. (ok (accepted job_id doc_id pending), files))
                              (created-Sound setting files col_id doc_id job_id row.filename
                                row.file_type (document_key col_id doc_id row.file_type)
                                (landed_row doc_id col_id files.db.documents row s.keyed found
                                  landed)
                                s)
                              (λ _ f h. h))
                      ])
              ]))
    ]

-- fewer jobs
dropped-Sound :
    (files : Files) (doc_id : String) (sent : List Task)
    → Sound files
    → Sound (record files {
      jobs = filter_by (λ j. not (j.document_id == doc_id)) files.jobs;
      sent = sent;
    })
dropped-Sound files doc_id sent s = record {
  keyed = s.keyed;
  no_early_job = λ k w.
      contains-map-filter_by (λ (j : Job). j.document_id) (λ j. not (j.document_id == doc_id))
        files.jobs k (s.no_early_job k w);
}

delete-Sound :
    (setting : Setting) (files : Files) (col_id doc_id : String)
    → Sound files
    → Sound (delete_document setting files col_id doc_id).1
unfolding delete_document update_documents
delete-Sound setting files col_id doc_id s =
    let marked = update_documents files (deletable col_id doc_id) (set_status (some deleting)) in
    let sound_marked =
      updated-Sound files (deletable col_id doc_id) (set_status (some deleting)) (λ d. refl)
        (λ k d h. ground arith) s in
    let dropped : Files = record marked {
      jobs = filter_by (λ j. not (j.document_id == doc_id)) marked.jobs;
    } in
    if-keeps Sound (any_of (deletable col_id doc_id) files.db.documents) _ _
      (if-keeps Sound setting.broker_up _ _
        (dropped-Sound marked doc_id (dropped.sent ++ delete_task doc_id col_id ∷ []) sound_marked)
        (updated-Sound dropped (λ d. d.id == doc_id) (set_status none) (λ d. refl)
          (λ k d h. ground arith) (dropped-Sound marked doc_id dropped.sent sound_marked)))
      s

Sound-Call : {f g : Files} → Call f g → Sound f → Sound g
Sound-Call (ingests setting files p col_id name ext declared reads days doc_id job_id fresh) s =
    ingest-Sound setting files p col_id name ext declared reads days doc_id job_id fresh s
Sound-Call (ingests_path setting files p col_id name ext file days doc_id job_id fresh) s =
    local-Sound setting files p col_id name ext file days doc_id job_id fresh s
Sound-Call (reserves setting files p col_id name ext days doc_id fresh unworked) s =
    reserve-Sound setting files p col_id name ext days doc_id fresh unworked s
Sound-Call (verifies setting files backend key ext) s = verify-Sound setting files backend key ext s
Sound-Call (flips setting files row size job_id) s = flip-Sound setting files row size job_id s
Sound-Call (reprocesses setting files col_id doc_id job_id) s =
    reprocess-Sound setting files col_id doc_id job_id s
Sound-Call (deletes setting files col_id doc_id) s = delete-Sound setting files col_id doc_id s

-- Where the ids of the documents are a key and no row that awaits its upload has a job, this stays
-- so after any sequence of calls that draw fresh ids. A reservation whose row has become active
-- without a confirmation, as a failed deletion leaves it, awaits no upload and is not covered.
pub Sound-Calls : {f g : Files} → Calls f g → Sound f → Sound g
Sound-Calls (no_call files) s = s
Sound-Calls (one_more first mid last call rest) s = Sound-Calls rest (Sound-Call call s)
