-- ===== src/Catalog/Steps.antt =====
-- Every call of api/services/workspaces.py and api/services/collections.py that writes, as a step
-- on the tables.
use embedbase.Catalog.Whole.{
  IsWhole, UniqueNames-update, collection_keys-update, drop_collection-IsWhole,
  drop_workspace-IsWhole, insert_collection-IsWhole, insert_workspace-IsWhole, parents-update,
  workspace_ids-update,
}
use embedbase.Collections.{
  collides, create_collection, delete_collection, new_collection, renames_onto, update_collection,
  update_collections,
}
use embedbase.Prelude.{
  Bool, Bool-cases, Distinct, List, Option-cases, String, [], all_of, ap, arith, contains, eq_iff,
  false, find_by, inl, inr, map, not, refl, some, true, ◌&&◌, ◌==◌, ◌||◌, ◌∙◌, ◌∷◌, ◌≡◌,
}
use embedbase.Tables.{Collection, Db, Document, Workspace, workspace_row}
use embedbase.Workspaces.{
  Changes, collection_keys, create_workspace, delete_workspace, new_workspace, no_changes,
  require_workspace, update_workspace, update_workspaces, workspace_ids,
}

-- One call of an operation that writes, with any arguments.
pub data Step (db : Db) : Db → Type 0 where
  creates_workspace :
      (fresh now name description color icon : String)
      → Step db (create_workspace fresh now name description color icon db).1
  updates_workspace :
      (now ws_id : String) (body : Changes) → Step db (update_workspace now ws_id body db).1
  deletes_workspace : (ws_id : String) → Step db (delete_workspace ws_id db).1
  creates_collection :
      (fresh now ws_id name description color icon : String)
      → Step db (create_collection fresh now ws_id name description color icon db).1
  updates_collection :
      (now ws_id col_id : String) (body : Changes)
      → Step db (update_collection now ws_id col_id body db).1
  deletes_collection : (ws_id col_id : String) → Step db (delete_collection ws_id col_id db).1

-- Any sequence of calls.
pub data Steps (db : Db) : Db → Type 0 where
  done : Steps db db
  then_step : {mid last : Db} → Steps db mid → Step mid last → Steps db last

found-contains :
    (p : Collection → Bool) (rows : List Collection) (col_id : String) (r : Collection)
    → ((c : Collection) → p c ≡ true → (c.id == col_id) ≡ true)
    → find_by p rows ≡ some r
    → contains (collection_keys rows) col_id ≡ true
found-contains p [] col_id r f h = cc
found-contains p (c ∷ rows) col_id r f h = ground (arith, f c, found-contains p rows col_id r f)

-- a key that one row has stands in the workspace it was found in
module _ (ws_id col_id : String) where
  abbrev test : Collection → Bool
  test r = r.id == col_id && r.workspace_id == ws_id

  all_absent :
      (rows : List Collection)
      → contains (collection_keys rows) col_id ≡ false
      → all_of (λ (c : Collection). not (c.id == col_id) || c.workspace_id == ws_id) rows ≡ true
  all_absent [] h = refl
  all_absent (c ∷ rows) h = ground (arith, all_absent rows)

  all_in_workspace :
      (rows : List Collection) (r : Collection)
      → Distinct (collection_keys rows)
      → find_by test rows ≡ some r
      → all_of (λ (c : Collection). not (c.id == col_id) || c.workspace_id == ws_id) rows ≡ true
  all_in_workspace [] r d h = refl
  all_in_workspace (c ∷ rows) r d h = elim (Bool-cases (test c)) [
    | inl e ↦ ground (arith, all_absent rows, eq_iff c.id col_id, d.0)
    | inr e ↦ ground (
      arith,
      all_in_workspace rows r d.1,
      found-contains test rows col_id r (λ x q. ground arith),
      eq_iff c.id col_id,
      d.0,
    )
  ]

workspace_row-contains :
    (ws_id : String) (rows : List Workspace) (r : Workspace)
    → find_by (λ (w : Workspace). w.id == ws_id) rows ≡ some r
    → contains (map (λ (w : Workspace). w.id) rows) ws_id ≡ true
workspace_row-contains ws_id [] r h = cc
workspace_row-contains ws_id (w ∷ rows) r h = ground (arith, workspace_row-contains ws_id rows r)

module _ (db : Db) (whole : IsWhole db) where
  update_workspaces-IsWhole :
      (now ws_id : String) (body : Changes)
      → IsWhole (record db { workspaces = update_workspaces now ws_id body db.workspaces })
  update_workspaces-IsWhole now ws_id body =
      let same = workspace_ids-update now ws_id body db.workspaces in
      record {
        workspace_keys = rw same whole.workspace_keys;
        collection_ids = whole.collection_ids;
        names = whole.names;
        parents =
            ap (λ ids. all_of (λ (c : Collection). contains ids c.workspace_id) db.collections) same
            ∙ whole.parents;
        homes = whole.homes;
      }

  update_collections-IsWhole :
      (now ws_id col_id : String) (body : Changes) (r : Collection)
      → find_by (test ws_id col_id) db.collections ≡ some r
      → renames_onto ws_id col_id body db.collections ≡ false
      → IsWhole (record db { collections = update_collections now col_id body db.collections })
  update_collections-IsWhole now ws_id col_id body r found free =
      let same = collection_keys-update now col_id body db.collections in
      record {
        workspace_keys = whole.workspace_keys;
        collection_ids = rw same whole.collection_ids;
        names =
            UniqueNames-update now ws_id col_id body db.collections whole.collection_ids whole.names
              (all_in_workspace ws_id col_id db.collections r whole.collection_ids found) free;
        parents = parents-update (workspace_ids db) now col_id body db.collections ∙ whole.parents;
        homes =
            ap (λ ids. all_of (λ (d : Document). contains ids d.collection_id) db.documents) same
            ∙ whole.homes;
      }

  create_workspace-IsWhole :
      (fresh now name description color icon : String)
      → IsWhole (create_workspace fresh now name description color icon db).1
  unfolding create_workspace
  create_workspace-IsWhole fresh now name description color icon =
      elim (Bool-cases (contains (workspace_ids db) fresh)) [
        | inl e ↦ rw e whole
        | inr e ↦ rw e (
            insert_workspace-IsWhole db whole (new_workspace fresh now name description color icon)
              e)
      ]

  update_workspace-IsWhole :
      (now ws_id : String) (body : Changes) → IsWhole (update_workspace now ws_id body db).1
  unfolding update_workspace
  update_workspace-IsWhole now ws_id body = elim (Option-cases (workspace_row db ws_id)) [
    | inl e ↦ rw (e, update_workspace) whole
    | inr (row, e) ↦ elim (Bool-cases (no_changes body)) [
      | inl n ↦ rw (e, n, update_workspace) whole
      | inr n ↦ rw (e, n, update_workspace) (update_workspaces-IsWhole now ws_id body)
    ]
  ]

  delete_workspace-IsWhole : (ws_id : String) → IsWhole (delete_workspace ws_id db).1
  unfolding delete_workspace
  delete_workspace-IsWhole ws_id = elim (Option-cases (workspace_row db ws_id)) [
    | inl e ↦ rw (e, delete_workspace) whole
    | inr (row, e) ↦ rw (e, delete_workspace) (drop_workspace-IsWhole db whole ws_id)
  ]

  create_collection-IsWhole :
      (fresh now ws_id name description color icon : String)
      → IsWhole (create_collection fresh now ws_id name description color icon db).1
  unfolding create_collection require_workspace
  create_collection-IsWhole fresh now ws_id name description color icon =
      let row : Collection = new_collection fresh now ws_id name description color icon in
      elim (Option-cases (workspace_row db ws_id)) [
        | inl e ↦ rw (e, create_collection) whole
        | inr (w, e) ↦ elim (Bool-cases (collides row db.collections)) [
          | inl n ↦ rw (e, n, create_collection) whole
          | inr n ↦
              rw (e, n, create_collection)
                (insert_collection-IsWhole db whole row
                  (workspace_row-contains ws_id db.workspaces w e) n)
        ]
      ]

  update_collection-IsWhole :
      (now ws_id col_id : String) (body : Changes)
      → IsWhole (update_collection now ws_id col_id body db).1
  unfolding update_collection
  update_collection-IsWhole now ws_id col_id body =
      elim (Option-cases (find_by (test ws_id col_id) db.collections)) [
        | inl e ↦ rw (e, update_collection) whole
        | inr (row, e) ↦ elim (Bool-cases (renames_onto ws_id col_id body db.collections)) [
          | inl taken ↦ rw (e, taken, update_collection) whole
          | inr free ↦ elim (Bool-cases (no_changes body)) [
            | inl n ↦ rw (e, free, n, update_collection) whole
            | inr n ↦
                rw (e, free, n, update_collection)
                  (update_collections-IsWhole now ws_id col_id body row e free)
          ]
        ]
      ]

  delete_collection-IsWhole :
      (ws_id col_id : String) → IsWhole (delete_collection ws_id col_id db).1
  unfolding delete_collection
  delete_collection-IsWhole ws_id col_id =
      elim (Option-cases (find_by (test ws_id col_id) db.collections)) [
        | inl e ↦ rw (e, delete_collection) whole
        | inr (row, e) ↦ rw (e, delete_collection) (drop_collection-IsWhole db whole col_id)
      ]

Step-IsWhole : {db next : Db} → IsWhole db → Step db next → IsWhole next
Step-IsWhole {db = db} whole (creates_workspace fresh now name description color icon) =
    create_workspace-IsWhole db whole fresh now name description color icon
Step-IsWhole {db = db} whole (updates_workspace now ws_id body) =
    update_workspace-IsWhole db whole now ws_id body
Step-IsWhole {db = db} whole (deletes_workspace ws_id) = delete_workspace-IsWhole db whole ws_id
Step-IsWhole {db = db} whole (creates_collection fresh now ws_id name description color icon) =
    create_collection-IsWhole db whole fresh now ws_id name description color icon
Step-IsWhole {db = db} whole (updates_collection now ws_id col_id body) =
    update_collection-IsWhole db whole now ws_id col_id body
Step-IsWhole {db = db} whole (deletes_collection ws_id col_id) =
    delete_collection-IsWhole db whole ws_id col_id

-- From tables that keep them, after any sequence of calls that create, update and delete workspaces
-- and collections, with whatever results, the tables still keep their primary keys, the unique
-- names in a workspace, and a parent for each collection and each document.
pub calls-IsWhole : {db next : Db} → IsWhole db → Steps db next → IsWhole next
calls-IsWhole whole done = whole
calls-IsWhole whole (then_step steps step) = Step-IsWhole (calls-IsWhole whole steps) step
