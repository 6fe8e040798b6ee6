-- ===== src/Tags/Eventual.antt =====
-- api/services/tags.py with the worker: any order of assignments, withdrawals and performed tasks.
use embedbase.Prelude.{
  List, String, [], all_of, all_of_mono, ap, arith, not, true, ◌++◌, ◌||◌, ◌∷◌, ◌≡◌,
}
use embedbase.Prelude.Dict.{Dict}
use embedbase.Tables.{Task, sync_tags_task}
use embedbase.Tags.{
  Tagged, assign_collection_tag, assign_document_tag, assign_workspace_tag, on_collection,
  on_document, on_workspace, unassign_collection_tag, unassign_document_tag, unassign_workspace_tag,
}
use embedbase.Tags.Changes.{assign-Changed, unassign-Changed}
use embedbase.Tags.Effective.{sync_document_tags}
use embedbase.Tags.Linked.{Linked}
use embedbase.Tags.Linked.{
  after_checks-Linked, collection-Linked, document-Linked, document_checks-found, workspace-Linked,
}
use embedbase.Tags.Synced.{fresh, in_sync, queued, synced_performed}
use embedbase.Vectors.{StoredChunk}
use embedbase.Workspaces.{is_active}

pub data TagStep {V : Type 0}
    : Tagged → Dict (StoredChunk V) → Tagged → Dict (StoredChunk V) → Type 0 where
  tags_workspace :
      (s : Tagged) (store : Dict (StoredChunk V)) (ws_id tag_id : String)
      → TagStep s store (assign_workspace_tag ws_id tag_id s).1 store
  untags_workspace :
      (s : Tagged) (store : Dict (StoredChunk V)) (ws_id tag_id : String)
      → TagStep s store (unassign_workspace_tag ws_id tag_id s).1 store
  tags_collection :
      (s : Tagged) (store : Dict (StoredChunk V)) (ws_id col_id tag_id : String)
      → TagStep s store (assign_collection_tag ws_id col_id tag_id s).1 store
  untags_collection :
      (s : Tagged) (store : Dict (StoredChunk V)) (ws_id col_id tag_id : String)
      → TagStep s store (unassign_collection_tag ws_id col_id tag_id s).1 store
  tags_document :
      (s : Tagged) (store : Dict (StoredChunk V)) (ws_id col_id doc_id tag_id : String)
      → TagStep s store (assign_document_tag ws_id col_id doc_id tag_id s).1 store
  untags_document :
      (s : Tagged) (store : Dict (StoredChunk V)) (ws_id col_id doc_id tag_id : String)
      → TagStep s store (unassign_document_tag ws_id col_id doc_id tag_id s).1 store
  -- the worker takes any task of the queue
  performs :
      (s : Tagged) (store : Dict (StoredChunk V)) (xs ys : List Task) (doc_id col_id : String)
      → s.sent ≡ xs ++ sync_tags_task doc_id col_id ∷ ys
      → TagStep s store (record s { sent = xs ++ ys }) (sync_document_tags s doc_id col_id store)

pub data TagSteps {V : Type 0}
    : Tagged → Dict (StoredChunk V) → Tagged → Dict (StoredChunk V) → Type 0 where
  no_step : (s : Tagged) (store : Dict (StoredChunk V)) → TagSteps s store s store
  step_more :
      (s t u : Tagged) (a b c : Dict (StoredChunk V))
      → TagStep s a t b
      → TagSteps t b u c
      → TagSteps s a u c

TagStep-Linked :
    {V : Type 0}
    → (s t : Tagged) (a b : Dict (StoredChunk V)) → TagStep s a t b
    → Linked s a
    → Linked t b
unfolding assign_workspace_tag unassign_workspace_tag assign_collection_tag unassign_collection_tag
    assign_document_tag unassign_document_tag
TagStep-Linked _ _ _ _ (tags_workspace s store ws_id tag_id) l =
    after_checks-Linked store _ s _ l
      (λ _. workspace-Linked store ws_id s _ (assign-Changed on_workspace ws_id tag_id s) l)
TagStep-Linked _ _ _ _ (untags_workspace s store ws_id tag_id) l =
    after_checks-Linked store _ s _ l
      (λ _. workspace-Linked store ws_id s _ (unassign-Changed on_workspace ws_id tag_id s) l)
TagStep-Linked _ _ _ _ (tags_collection s store ws_id col_id tag_id) l =
    after_checks-Linked store _ s _ l
      (λ _. collection-Linked store col_id s _ (assign-Changed on_collection col_id tag_id s) l)
TagStep-Linked _ _ _ _ (untags_collection s store ws_id col_id tag_id) l =
    after_checks-Linked store _ s _ l
      (λ _. collection-Linked store col_id s _ (unassign-Changed on_collection col_id tag_id s) l)
TagStep-Linked _ _ _ _ (tags_document s store ws_id col_id doc_id tag_id) l =
    after_checks-Linked store _ s _ l (λ h.
      document-Linked store col_id doc_id s _ (assign-Changed on_document doc_id tag_id s)
        (document_checks-found ws_id col_id doc_id tag_id s h) l)
TagStep-Linked _ _ _ _ (untags_document s store ws_id col_id doc_id tag_id) l =
    after_checks-Linked store _ s _ l (λ h.
      document-Linked store col_id doc_id s _ (unassign-Changed on_document doc_id tag_id s)
        (document_checks-found ws_id col_id doc_id tag_id s h) l)
TagStep-Linked _ _ _ _ (performs s store xs ys doc_id col_id e) l = record {
  one_row = l.one_row;
  all_synced =
      all_of_mono (in_sync s store) _ s.db.documents
        (λ d. synced_performed s store xs ys doc_id col_id d e) l.all_synced;
}

TagSteps-Linked :
    {V : Type 0}
    → (s t : Tagged) (a b : Dict (StoredChunk V)) → TagSteps s a t b
    → Linked s a
    → Linked t b
TagSteps-Linked _ _ _ _ (no_step s store) l = l
TagSteps-Linked _ _ _ _ (step_more s t u a b c step steps) l =
    TagSteps-Linked t u b c steps (TagStep-Linked s t a b step l)

-- From a state whose document ids are distinct and in which each active document is in sync (its
-- stored chunks carry its effective tags, or a task that writes them is queued), after any steps,
-- the six calls that assign or withdraw a tag and tasks performed in any order, that leave no task
-- in the queue, the stored chunks of each active document carry its effective tags.
pub tags_carried :
    {V : Type 0}
    → (s t : Tagged) (a b : Dict (StoredChunk V)) → Linked s a
    → TagSteps s a t b
    → t.sent ≡ []
    → all_of (λ d. not (is_active d) || fresh t b d) t.db.documents ≡ true
unfolding in_sync
tags_carried s t a b l steps empty =
    all_of_mono (in_sync t b) _ t.db.documents
      (λ d h. ground (arith, h, ap (λ sent. queued sent d) empty))
      (TagSteps-Linked s t a b steps l).all_synced
