-- ===== src/Workspaces.antt =====
-- api/services/workspaces.py: the workspaces and the tree of them. `fresh` is the new id, `now` the
-- time of the call. A row that breaks a constraint of its table is an `IntegrityError`, which these
-- operations do not catch. The rows of a table stand in the order of `created_at`.
use embedbase.Http.{Check, Result, about, message, ok, raise}
use embedbase.Permissions.Listing.{CollectionNode, WorkspaceNode, sum_documents}
use embedbase.Prelude.{
  Bool, List, Option, String, [], contains, false, filter_by, if◌then◌else◌, length, map, none, not,
  some, true, ℕ, ◌&&◌, ◌++◌, ◌==◌, ◌∷◌,
}
use embedbase.Tables.{Collection, Db, Document, Workspace, workspace_row}

-- an exception that no handler catches
abbrev pub integrity_error {ℓ} : {A : Type ℓ} → Result A
integrity_error = raise 500 (message "IntegrityError")

abbrev pub assertion_error {ℓ} : {A : Type ℓ} → Result A
assertion_error = raise 500 (message "AssertionError")

abbrev pub workspace_ids : Db → List String
workspace_ids db = map (λ (r : Workspace). r.id) db.workspaces

abbrev pub workspace_found : String → Option Workspace → Check
workspace_found ws_id none = raise 404 (about "Workspace" ws_id)
workspace_found ws_id (some row) = ok tt

unfoldable pub require_workspace : String → Db → Check
require_workspace ws_id db = workspace_found ws_id (workspace_row db ws_id)

-- the reply of a creation: the row, with counts of zero
pub record WorkspaceReply : Type 0 where
  pub row : Workspace
  pub collection_count : ℕ
  pub document_count : ℕ
  pub chunk_count : ℕ

abbrev pub new_workspace : String → String → String → String → String → String → Workspace
new_workspace fresh now name description color icon = record {
  id = fresh;
  name = name;
  description = description;
  color = color;
  icon = icon;
  created_at = now;
  updated_at = now;
}

unfoldable pub create_workspace :
    String → String → String → String → String → String → Db → Result WorkspaceReply × Db
create_workspace fresh now name description color icon db =
    let row : Workspace = new_workspace fresh now name description color icon in
    if contains (workspace_ids db) fresh then (integrity_error, db) else (
      ok (record { row = row; collection_count = 0; document_count = 0; chunk_count = 0 }),
      record db { workspaces = db.workspaces ++ row ∷ [] },
    )

abbrev pub collections_in : Db → String → List Collection
collections_in db ws_id = filter_by (λ (c : Collection). c.workspace_id == ws_id) db.collections

abbrev pub newest_first {ℓ} : {A : Type ℓ} → List A → List A
newest_first [] = []
newest_first (x ∷ xs) = newest_first xs ++ x ∷ []

unfoldable pub list_workspaces : Db → List (Workspace × ℕ)
list_workspaces db =
    newest_first (map (λ (w : Workspace). (w, length (collections_in db w.id))) db.workspaces)

abbrev pub is_active : Document → Bool
is_active d = elim d.status [ none ↦ true | some status ↦ false ]

-- `doc_counts.get(c.id, 0)`: the active documents of a collection
unfoldable pub doc_count : Db → String → ℕ
doc_count db col_id =
    length (filter_by (λ (d : Document). is_active d && d.collection_id == col_id) db.documents)

-- the list `cols` of `_workspace_node`
abbrev pub nodes_in : (String → ℕ) → String → List Collection → List CollectionNode
nodes_in doc_counts ws_id [] = []
nodes_in doc_counts ws_id (c ∷ rows) =
    let rest : List CollectionNode = nodes_in doc_counts ws_id rows in
    if c.workspace_id == ws_id
    then record { id = c.id; name = c.name; document_count = doc_counts c.id } ∷ rest
    else rest

unfoldable pub workspace_node : Workspace → List Collection → (String → ℕ) → WorkspaceNode
workspace_node ws col_rows doc_counts =
    let cols : List CollectionNode = nodes_in doc_counts ws.id col_rows in
    record {
      id = ws.id;
      name = ws.name;
      collection_count = length cols;
      document_count = sum_documents cols;
      collections = cols;
    }

unfoldable pub list_workspace_tree : Db → List WorkspaceNode
unfolding workspace_node
list_workspace_tree db =
    map (λ (ws : Workspace). workspace_node ws db.collections (doc_count db)) db.workspaces

abbrev pub workspace_reply :
    String → List Collection → Option Workspace → Result (Workspace × List Collection)
workspace_reply ws_id cols none = raise 404 (about "Workspace" ws_id)
workspace_reply ws_id cols (some row) = ok (row, cols)

unfoldable pub get_workspace : String → Db → Result (Workspace × List Collection)
get_workspace ws_id db = workspace_reply ws_id (collections_in db ws_id) (workspace_row db ws_id)

-- the body of an update: `None` leaves a column as it is
pub record Changes : Type 0 where
  pub name : Option String
  pub description : Option String
  pub color : Option String
  pub icon : Option String

abbrev pub changed : Option String → String → String
changed none old = old
changed (some new) old = new

-- no field is set: the dictionary `updates` is empty
abbrev pub no_changes : Changes → Bool
no_changes body =
    is_none body.name && is_none body.description && is_none body.color && is_none body.icon
  where
    is_none : Option String → Bool
    is_none none = true
    is_none (some new) = false

abbrev pub update_row : String → Changes → Workspace → Workspace
update_row now body w = record w {
  name = changed body.name w.name;
  description = changed body.description w.description;
  color = changed body.color w.color;
  icon = changed body.icon w.icon;
  updated_at = now;
}

abbrev pub update_workspaces : String → String → Changes → List Workspace → List Workspace
update_workspaces now ws_id body [] = []
update_workspaces now ws_id body (w ∷ rows) =
    (if w.id == ws_id then update_row now body w else w) ∷ update_workspaces now ws_id body rows

-- `_fetch_workspace`, whose `assert` a missing row would fail
abbrev pub fetched {ℓ} : {A : Type ℓ} → Option A → Result A
fetched none = assertion_error
fetched (some row) = ok row

unfoldable pub update_workspace : String → String → Changes → Db → Result Workspace × Db
unfolding require_workspace
update_workspace now ws_id body db = elim (require_workspace ws_id db) [
  | raise status detail ↦ (raise status detail, db)
  | ok _ ↦
      let after : Db =
        if no_changes body
        then db
        else record db { workspaces = update_workspaces now ws_id body db.workspaces } in
      (fetched (workspace_row after ws_id), after)
]

-- `ondelete="CASCADE"`: the collections of the workspace go with it, and their documents
abbrev pub keep_workspace : String → Workspace → Bool
keep_workspace ws_id w = not (w.id == ws_id)

abbrev pub keep_collection : String → Collection → Bool
keep_collection ws_id c = not (c.workspace_id == ws_id)

abbrev pub keep_document : List String → Document → Bool
keep_document kept d = contains kept d.collection_id

abbrev pub collection_keys : List Collection → List String
collection_keys rows = map (λ (c : Collection). c.id) rows

abbrev pub drop_workspace : String → Db → Db
drop_workspace ws_id db =
    let collections : List Collection = filter_by (keep_collection ws_id) db.collections in
    record db {
      workspaces = filter_by (keep_workspace ws_id) db.workspaces;
      collections = collections;
      documents = filter_by (keep_document (collection_keys collections)) db.documents;
    }

unfoldable pub delete_workspace : String → Db → Check × Db
unfolding require_workspace
delete_workspace ws_id db = elim (require_workspace ws_id db) [
  | raise status detail ↦ (raise status detail, db)
  | ok _ ↦ (ok tt, drop_workspace ws_id db)
]
