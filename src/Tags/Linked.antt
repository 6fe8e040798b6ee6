-- ===== src/Tags/Linked.antt =====
-- api/services/tags.py and tag_bridge.py: a change of assignments with the tasks that follow it.
use embedbase.Collections.{require_collection}
use embedbase.Documents.Life.{not_found}
use embedbase.Http.{>>-eq-ok, Check, ok, raise, ◌>>◌}
use embedbase.Prelude.{
  Bool, Bool-cases, Distinct, List, String, [], all_of, all_of_mono, arith, contains, eq_iff, false,
  filter_by, find_by, inl, inr, map, none, not, refl, subst, sym, true, ◌&&◌, ◌++◌, ◌==◌, ◌||◌, ◌∷◌,
  ◌≡◌,
}
use embedbase.Prelude.Dict.{Dict}
use embedbase.Tables.{Db, Document, Task, sync_tags_task}
use embedbase.Tags.{
  TagKind, Tagged, after_checks, document_checks, document_found, in_workspace, on_collection,
  on_document, on_workspace, require_document, require_tag, sync_collection, sync_document,
  sync_task, sync_workspace,
}
use embedbase.Tags.Changes.{Changed}
use embedbase.Tags.Synced.{in_sync, queued, queued-rows, reaches, synced_change}
use embedbase.Vectors.{StoredChunk}
use embedbase.Workspaces.{is_active}

-- Document ids are a key, and each active document is in sync: its stored chunks carry its effective
-- tags, or a task that writes them is queued.
pub record Linked {V : Type 0} (s : Tagged) (store : Dict (StoredChunk V)) : Type 0 where
  pub one_row : Distinct (map (λ (d : Document). d.id) s.db.documents)
  pub all_synced : all_of (in_sync s store) s.db.documents ≡ true

all_of_both :
    (p q r : Document → Bool) (xs : List Document)
    → ((d : Document) → p d ≡ true → q d ≡ true → r d ≡ true)
    → all_of p xs ≡ true
    → all_of q xs ≡ true
    → all_of r xs ≡ true
all_of_both p q r [] f h k = refl
all_of_both p q r (d ∷ xs) f h k = ground (arith, f d, all_of_both p q r xs f)

unseen_id :
    (col_id doc_id : String) (ds : List Document)
    → contains (map (λ (d : Document). d.id) ds) doc_id ≡ false
    → (all_of (λ d. not (d.id == doc_id)) ds ≡ true)
      × (find_by (λ d. d.id == doc_id && (d.collection_id == col_id && is_active d)) ds ≡ none)
unseen_id col_id doc_id [] h = (refl, refl)
unseen_id col_id doc_id (d ∷ ds) h =
    let (no_row, not_found) = unseen_id col_id doc_id ds (ground arith) in
    (ground (arith, no_row), ground (arith, not_found))

-- a document that a call found is the only row of its id
found_alone :
    (col_id doc_id : String) (ds : List Document)
    → Distinct (map (λ (d : Document). d.id) ds)
    → document_found doc_id
        (find_by (λ d. d.id == doc_id && (d.collection_id == col_id && is_active d)) ds)
      ≡ ok tt
    → all_of (λ d. not (d.id == doc_id) || d.collection_id == col_id) ds ≡ true
found_alone col_id doc_id [] keyed h = refl
found_alone col_id doc_id (d ∷ ds) keyed h = elim (Bool-cases (d.id == doc_id)) [
  | inr other ↦ ground (arith, other, h, found_alone col_id doc_id ds keyed.1)
  | inl own ↦
      let unknown : contains (map (λ (d : Document). d.id) ds) doc_id ≡ false =
        subst (λ k. contains (map (λ (d : Document). d.id) ds) k ≡ false)
          ((eq_iff d.id doc_id).0 own) keyed.0 in
      let (no_row, not_found) = unseen_id col_id doc_id ds unknown in
      let rest =
        all_of_mono (λ d. not (d.id == doc_id))
          (λ d. not (d.id == doc_id) || d.collection_id == col_id) ds (λ d h. ground (arith, h))
          no_row in
      elim (Bool-cases (d.collection_id == col_id)) [
        | inl near ↦ ground (arith, own, near, rest)
        | inr away ↦ ground (arith, own, away, h, not_found)
      ]
]

module _ {V : Type 0} (store : Dict (StoredChunk V)) where
  Changed-Linked :
      (kind : TagKind) (entity : String) (s t : Tagged) (syncs : List Task)
      → Changed kind entity s t
      → all_of (λ d. not (reaches s kind entity d && is_active d) || queued syncs d) s.db.documents
        ≡ true
      → Linked s store
      → Linked (record t { sent = t.sent ++ syncs }) store
  Changed-Linked kind entity s t syncs c covers l = record {
    one_row =
        subst (λ (db : Db). Distinct (map (λ (d : Document). d.id) db.documents)) (sym c.db_same)
          l.one_row;
    all_synced =
        subst
          (λ (db : Db).
            all_of (in_sync (record t { sent = t.sent ++ syncs }) store) db.documents ≡ true)
          (sym c.db_same)
          (all_of_both (λ d. not (reaches s kind entity d && is_active d) || queued syncs d)
            (in_sync s store) (in_sync (record t { sent = t.sent ++ syncs }) store) s.db.documents
            (λ d. synced_change store kind entity s t syncs d c) covers l.all_synced);
  }

  pub workspace-Linked :
      (ws_id : String) (s t : Tagged)
      → Changed on_workspace ws_id s t
      → Linked s store
      → Linked (sync_workspace ws_id t) store
  unfolding sync_workspace
  workspace-Linked ws_id s t c l =
      let p = λ (d : Document). in_workspace t.db ws_id d && is_active d in
      let syncs = map sync_task (filter_by p t.db.documents) in
      Changed-Linked on_workspace ws_id s t syncs c
        (subst
          (λ (db : Db).
            all_of (λ d. not (in_workspace db ws_id d && is_active d) || queued syncs d)
              db.documents
            ≡ true)
          c.db_same (queued-rows p t.db.documents))
        l

  pub collection-Linked :
      (col_id : String) (s t : Tagged)
      → Changed on_collection col_id s t
      → Linked s store
      → Linked (sync_collection col_id t) store
  unfolding sync_collection
  collection-Linked col_id s t c l =
      let p = λ (d : Document). d.collection_id == col_id && is_active d in
      let syncs = map sync_task (filter_by p t.db.documents) in
      Changed-Linked on_collection col_id s t syncs c
        (subst (λ (db : Db). all_of (λ d. not (p d) || queued syncs d) db.documents ≡ true)
          c.db_same (queued-rows p t.db.documents))
        l

  pub document-Linked :
      (col_id doc_id : String) (s t : Tagged)
      → Changed on_document doc_id s t
      → require_document col_id doc_id s.db ≡ ok tt
      → Linked s store
      → Linked (sync_document col_id doc_id t) store
  unfolding sync_document require_document
  document-Linked col_id doc_id s t c there l =
      Changed-Linked on_document doc_id s t (sync_tags_task doc_id col_id ∷ []) c
        (all_of_mono (λ d. not (d.id == doc_id) || d.collection_id == col_id)
          (λ d. not (d.id == doc_id && is_active d) || queued (sync_tags_task doc_id col_id ∷ []) d)
          s.db.documents
          (λ d h. ground (
            arith,
            h,
            eq_iff d.id doc_id,
            eq_iff d.collection_id col_id,
            eq_iff doc_id d.id,
            eq_iff col_id d.collection_id,
          ))
          (found_alone col_id doc_id s.db.documents l.one_row there))
        l

  pub after_checks-Linked :
      (c : Check) (s follows : Tagged)
      → Linked s store
      → (c ≡ ok tt → Linked follows store)
      → Linked (after_checks c s follows).1 store
  after_checks-Linked (ok tt) s follows l k = k refl
  after_checks-Linked (raise status detail) s follows l k = l

pub document_checks-found :
    (ws_id col_id doc_id tag_id : String) (s : Tagged)
    → document_checks ws_id col_id doc_id tag_id s ≡ ok tt
    → require_document col_id doc_id s.db ≡ ok tt
document_checks-found ws_id col_id doc_id tag_id s h =
    let found =
      >>-eq-ok (require_collection ws_id col_id s.db >> require_document col_id doc_id s.db)
        (require_tag ws_id tag_id s) h in
    (>>-eq-ok (require_collection ws_id col_id s.db) (require_document col_id doc_id s.db)
      found.0).1
