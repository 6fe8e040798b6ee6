-- ===== src/Collections.antt =====
-- api/services/collections.py: the collections of a workspace. The filter by tags of
-- `list_collections` is left out with the tags.
use embedbase.Http.{Check, Result, about, ok, raise}
use embedbase.Prelude.{
  Bool, List, Option, String, [], contains, false, filter_by, find_by, if◌then◌else◌, map, none,
  not, some, ℕ, ◌&&◌, ◌++◌, ◌==◌, ◌||◌, ◌∷◌,
}
use embedbase.Prelude.{any_of}
use embedbase.Tables.{Collection, Db, Document, collection_row}
use embedbase.Workspaces.{
  Changes, changed, collection_keys, collections_in, doc_count, fetched, integrity_error,
  no_changes, require_workspace,
}

abbrev pub collection_found : String → Option Collection → Check
collection_found col_id none = raise 404 (about "Collection" col_id)
collection_found col_id (some row) = ok tt

unfoldable pub require_collection : String → String → Db → Check
require_collection ws_id col_id db =
    collection_found col_id
      (find_by (λ (r : Collection). r.id == col_id && r.workspace_id == ws_id) db.collections)

pub record CollectionReply : Type 0 where
  pub row : Collection
  pub document_count : ℕ
  pub chunk_count : ℕ

abbrev pub new_collection :
    String → String → String → String → String → String → String → Collection
new_collection fresh now ws_id name description color icon = record {
  id = fresh;
  workspace_id = ws_id;
  name = name;
  description = description;
  color = color;
  icon = icon;
  created_at = now;
  updated_at = now;
}

-- `collections_name_workspace_unique`
abbrev pub same_name : String → String → Collection → Bool
same_name ws_id name c = c.workspace_id == ws_id && c.name == name

-- the constraints that an insert is checked against: both keys
abbrev pub collides : Collection → List Collection → Bool
collides row rows =
    contains (collection_keys rows) row.id || any_of (same_name row.workspace_id row.name) rows

unfoldable pub create_collection :
    String → String → String → String → String → String → String → Db → Result CollectionReply × Db
create_collection fresh now ws_id name description color icon db =
    elim (require_workspace ws_id db) [
      | raise status detail ↦ (raise status detail, db)
      | ok _ ↦
          let row : Collection = new_collection fresh now ws_id name description color icon in
          if collides row db.collections then (raise 409 (about "Collection" name), db) else (
            ok (record { row = row; document_count = 0; chunk_count = 0 }),
            record db { collections = db.collections ++ row ∷ [] },
          )
    ]

unfoldable pub list_collections : String → Db → Result (List (Collection × ℕ))
list_collections ws_id db = elim (require_workspace ws_id db) [
  | raise status detail ↦ raise status detail
  | ok _ ↦ ok (map (λ (c : Collection). (c, doc_count db c.id)) (collections_in db ws_id))
]

unfoldable pub get_collection : String → String → Db → Result Collection
unfolding require_collection
get_collection ws_id col_id db = elim (require_collection ws_id col_id db) [
  | raise status detail ↦ raise status detail
  | ok _ ↦ fetched (collection_row db col_id)
]

abbrev pub update_collection_row : String → Changes → Collection → Collection
update_collection_row now body c = record c {
  name = changed body.name c.name;
  description = changed body.description c.description;
  color = changed body.color c.color;
  icon = changed body.icon c.icon;
  updated_at = now;
}

abbrev pub update_collections : String → String → Changes → List Collection → List Collection
update_collections now col_id body [] = []
update_collections now col_id body (c ∷ rows) =
    (if c.id == col_id then update_collection_row now body c else c)
    ∷ update_collections now col_id body rows

-- another collection of the workspace has the new name already
abbrev pub renames_onto : String → String → Changes → List Collection → Bool
renames_onto ws_id col_id body rows = elim body.name [
  | none ↦ false
  | some name ↦ any_of (λ (c : Collection). not (c.id == col_id) && same_name ws_id name c) rows
]

unfoldable pub update_collection : String → String → String → Changes → Db → Result Collection × Db
unfolding require_collection
update_collection now ws_id col_id body db = elim (require_collection ws_id col_id db) [
  | raise status detail ↦ (raise status detail, db)
  | ok _ ↦
      if renames_onto ws_id col_id body db.collections
      then (integrity_error, db)
      else (let after : Db =
            if no_changes body
            then db
            else record db { collections = update_collections now col_id body db.collections } in
          (fetched (collection_row after col_id), after))
]

abbrev pub drop_collection : String → Db → Db
drop_collection col_id db = record db {
  collections = filter_by (λ (c : Collection). not (c.id == col_id)) db.collections;
  documents = filter_by (λ (d : Document). not (d.collection_id == col_id)) db.documents;
}

unfoldable pub delete_collection : String → String → Db → Check × Db
unfolding require_collection
delete_collection ws_id col_id db = elim (require_collection ws_id col_id db) [
  | raise status detail ↦ (raise status detail, db)
  | ok _ ↦ (ok tt, drop_collection col_id db)
]
