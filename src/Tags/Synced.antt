-- ===== src/Tags/Synced.antt =====
-- api/services/tags.py, tag_bridge.py and the worker's `sync_document_tags`: the assignments, the
-- tasks and the stored chunks together.
use embedbase.Prelude.{
  Bool, Bool-cases, List, Option, String, [], all_of, all_of_mono, any_of, ap, ap₂, arith, dedup,
  eq_iff, eq_refl, false, filter_by, inl, inr, map, none, not, refl, some, subst, sym, true, ◌&&◌,
  ◌++◌, ◌==◌, ◌||◌, ◌∙◌, ◌∷◌, ◌≡◌,
}
use embedbase.Prelude.Dict.{Dict}
use embedbase.Tables.{Db, Document, Task, collection_row, delete_task, ingest_task, sync_tags_task}
use embedbase.Tags.{
  Assignment, Tag, TagKind, Tagged, in_workspace, on_collection, on_document, on_workspace,
  same_kind, sync_task, workspace_of,
}
use embedbase.Tags.Effective.{
  effective_document_tags, names_of, names_of_some, sorted_names, sync_document_tags,
}
use embedbase.Tags.Changes.{Changed}
use embedbase.Vectors.{StoredChunk, of_document, set_document_tags}
use embedbase.Workspaces.{is_active}

abbrev pub is_sync : String → String → Task → Bool
is_sync doc_id col_id (sync_tags_task d c) = d == doc_id && c == col_id
is_sync doc_id col_id (ingest_task j k c d t) = false
is_sync doc_id col_id (delete_task d c) = false

abbrev pub same_texts : List String → List String → Bool
same_texts [] [] = true
same_texts (t ∷ ts) (u ∷ us) = t == u && same_texts ts us
same_texts [] (u ∷ us) = false
same_texts (t ∷ ts) [] = false

same_texts_self : (ts : List String) → same_texts ts ts ≡ true
same_texts_self [] = refl
same_texts_self (t ∷ ts) = ground (arith, eq_refl t, same_texts_self ts)

abbrev pub queued : List Task → Document → Bool
queued sent d = any_of (is_sync d.id d.collection_id) sent

module _ {V : Type 0} where
  -- each stored chunk of a document carries some tags
  abbrev pub carry : List String → String → String → Dict (StoredChunk V) → Bool
  carry tags col_id doc_id [] = true
  carry tags col_id doc_id ((k, row) ∷ store) =
      (not (of_document col_id doc_id row) || same_texts row.tags tags)
      && carry tags col_id doc_id store

  -- the stored chunks of a document carry its effective tags
  unfoldable pub fresh : Tagged → Dict (StoredChunk V) → Document → Bool
  fresh s store d =
      carry (effective_document_tags s d.collection_id d.id) d.collection_id d.id store

  -- an active document is fresh, or a task for it is queued
  unfoldable pub in_sync : Tagged → Dict (StoredChunk V) → Document → Bool
  in_sync s store d = not (is_active d) || (queued s.sent d || fresh s store d)

  carry-set_own :
      (tags : List String) (col_id doc_id : String) (store : Dict (StoredChunk V))
      → carry tags col_id doc_id (set_document_tags store col_id doc_id tags) ≡ true
  unfolding set_document_tags
  carry-set_own tags col_id doc_id [] = refl
  carry-set_own tags col_id doc_id ((k, row) ∷ store) =
      let rest = carry-set_own tags col_id doc_id store in
      elim (Bool-cases (of_document col_id doc_id row)) [
        | inl e ↦ rw e (ground (arith, same_texts_self tags, rest))
        | inr e ↦ rw e (ground (arith, rest))
      ]

  carry-set_other :
      (tags other : List String) (col_id doc_id c d : String) (store : Dict (StoredChunk V))
      → (d == doc_id && c == col_id) ≡ false
      → carry tags col_id doc_id store ≡ true
      → carry tags col_id doc_id (set_document_tags store c d other) ≡ true
  unfolding set_document_tags
  carry-set_other tags other col_id doc_id c d [] n h = refl
  carry-set_other tags other col_id doc_id c d ((k, row) ∷ store) n h =
      let rest = carry-set_other tags other col_id doc_id c d store n in
      elim (Bool-cases (of_document c d row)) [
        | inl e ↦ rw e (
            ground (
              arith,
              rest,
              eq_iff row.collection_id c,
              eq_iff row.document_id d,
              eq_iff row.collection_id col_id,
              eq_iff row.document_id doc_id,
              eq_iff d doc_id,
              eq_iff c col_id,
            ))
        | inr e ↦ rw e (ground (arith, rest))
      ]

-- does a change of an entity reach a document?
abbrev pub reaches : Tagged → TagKind → String → Document → Bool
reaches s on_workspace ws_id d = in_workspace s.db ws_id d
reaches s on_collection col_id d = d.collection_id == col_id
reaches s on_document doc_id d = d.id == doc_id

abbrev all_names : Db → List Tag → List Assignment → Document → List String
all_names db tags rows d =
    names_of_some tags rows (workspace_of (collection_row db d.collection_id))
    ++ (names_of tags on_collection d.collection_id rows ++ names_of tags on_document d.id rows)

workspace_names :
    (tags : List Tag) (rows rows' : List Assignment) (w : Option String)
    → ((e : String)
        → w ≡ some e
        → names_of tags on_workspace e rows' ≡ names_of tags on_workspace e rows)
    → names_of_some tags rows' w ≡ names_of_some tags rows w
workspace_names tags rows rows' none f = refl
workspace_names tags rows rows' (some e) f = f e refl

-- the entities of a document that a change does not reach are others
others :
    (kind : TagKind) (entity : String) (s : Tagged) (d : Document)
    → reaches s kind entity d ≡ false
    → ((e : String)
        → workspace_of (collection_row s.db d.collection_id) ≡ some e
        → (same_kind kind on_workspace && entity == e) ≡ false)
      × ((same_kind kind on_collection && entity == d.collection_id) ≡ false)
      × ((same_kind kind on_document && entity == d.id) ≡ false)
unfolding in_workspace
others on_workspace entity s d n =
    (λ e h. ground (arith, h, n, eq_iff entity e, eq_iff e entity), refl, refl)
others on_collection entity s d n = (
  λ e h. refl,
  ground (arith, n, eq_iff entity d.collection_id, eq_iff d.collection_id entity),
  refl,
)
others on_document entity s d n =
    (λ e h. refl, refl, ground (arith, n, eq_iff entity d.id, eq_iff d.id entity))

effective_kept :
    (kind : TagKind) (entity : String) (s t : Tagged) (d : Document)
    → Changed kind entity s t
    → reaches s kind entity d ≡ false
    → effective_document_tags t d.collection_id d.id
      ≡ effective_document_tags s d.collection_id d.id
unfolding effective_document_tags
effective_kept kind entity s t d c n =
    let (ws, col, doc) = others kind entity s d n in
    ap₂ (λ db tags. sorted_names (dedup (all_names db tags t.assignments d))) c.db_same c.tags_same
    ∙ ap (λ names. sorted_names (dedup names))
        (ap₂ (λ xs ys. xs ++ ys)
          (workspace_names s.tags s.assignments t.assignments
            (workspace_of (collection_row s.db d.collection_id))
            (λ e h. c.others_same on_workspace e (ws e h)))
          (ap₂ (λ xs ys. xs ++ ys) (c.others_same on_collection d.collection_id col)
            (c.others_same on_document d.id doc)))

pub queued-append :
    (xs ys : List Task) (d : Document) → queued (xs ++ ys) d ≡ (queued xs d || queued ys d)
queued-append [] ys d = refl
queued-append (x ∷ xs) ys d = ground (arith, queued-append xs ys d)

queued_more :
    (p : Document → Bool) (x d : Document) (ds : List Document)
    → (not (p d) || queued (map sync_task (filter_by p ds)) d) ≡ true
    → (not (p d) || queued (map sync_task (filter_by p (x ∷ ds))) d) ≡ true
queued_more p x d ds h = ground arith

pub queued-rows :
    (p : Document → Bool) (ds : List Document)
    → all_of (λ d. not (p d) || queued (map sync_task (filter_by p ds)) d) ds ≡ true
queued-rows p [] = refl
queued-rows p (x ∷ ds) =
    let tail =
      all_of_mono (λ d. not (p d) || queued (map sync_task (filter_by p ds)) d)
        (λ d. not (p d) || queued (map sync_task (filter_by p (x ∷ ds))) d) ds
        (λ d h. queued_more p x d ds h) (queued-rows p ds) in
    ground (arith, eq_refl x.id, eq_refl x.collection_id, tail)

module _ {V : Type 0} (store : Dict (StoredChunk V)) where
  -- A change that queues a task for each document that it reaches keeps the documents in sync.
  pub synced_change :
      (kind : TagKind) (entity : String) (s t : Tagged) (syncs : List Task) (d : Document)
      → Changed kind entity s t
      → (not (reaches s kind entity d && is_active d) || queued syncs d) ≡ true
      → in_sync s store d ≡ true
      → in_sync (record t { sent = t.sent ++ syncs }) store d ≡ true
  unfolding in_sync fresh effective_document_tags
  synced_change kind entity s t syncs d c covers h =
      let tasks =
        queued-append t.sent syncs d ∙ ap (λ sent. queued sent d || queued syncs d) c.sent_same in
      elim (Bool-cases (reaches s kind entity d)) [
        | inl hit ↦ ground (arith, tasks, h)
        | inr missed ↦
            let same =
              ap (λ tags. carry tags d.collection_id d.id store)
                (effective_kept kind entity s t d c missed) in
            ground (arith, tasks, h, same)
      ]

-- A performed task: the document's chunks are rewritten, and one of its tasks is gone.
module _ {V : Type 0} where
  pub synced_performed :
      (s : Tagged) (store : Dict (StoredChunk V)) (xs ys : List Task) (doc_id col_id : String)
      (d : Document)
      → s.sent ≡ xs ++ sync_tags_task doc_id col_id ∷ ys
      → in_sync s store d ≡ true
      → in_sync (record s { sent = xs ++ ys }) (sync_document_tags s doc_id col_id store) d ≡ true
  unfolding in_sync fresh effective_document_tags sync_document_tags
  synced_performed s store xs ys doc_id col_id d e h =
      let kept = queued-append xs ys d in
      let held =
        ap (λ sent. queued sent d) e ∙ queued-append xs (sync_tags_task doc_id col_id ∷ ys) d in
      elim (Bool-cases (doc_id == d.id && col_id == d.collection_id)) [
        | inl own ↦
            let same : (d.id, d.collection_id) ≡ (doc_id, col_id) =
              ap₂ (λ a b. (a, b)) (sym ((eq_iff doc_id d.id).0 (ground arith)))
                (sym ((eq_iff col_id d.collection_id).0 (ground arith))) in
            let rewritten =
              subst
                (λ (k : String × String).
                  carry (effective_document_tags s d.collection_id d.id) d.collection_id d.id
                    (set_document_tags store k.1 k.0 (effective_document_tags s k.1 k.0))
                  ≡ true)
                same
                (carry-set_own (effective_document_tags s d.collection_id d.id) d.collection_id d.id
                  store) in
            ground (arith, rewritten)
        | inr other ↦ ground (
          arith,
          kept,
          held,
          h,
          carry-set_other (effective_document_tags s d.collection_id d.id)
              (effective_document_tags s col_id doc_id) d.collection_id d.id col_id doc_id store
              other,
        )
      ]
