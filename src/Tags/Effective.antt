-- ===== src/Tags/Effective.antt =====
-- worker/tasks.py: `_effective_document_tags` and `sync_document_tags`.
use Prim.Native.String.{compare}
use text.Mathlib.Text.{is_le}
use embedbase.Prelude.{
  List, Option, String, [], dedup, find_by, if◌then◌else◌, none, some, ◌&&◌, ◌++◌, ◌==◌, ◌∷◌,
}
use embedbase.Prelude.Dict.{Dict}
use embedbase.Tables.{collection_row}
use embedbase.Tags.{
  Assignment, Tag, TagKind, Tagged, on_collection, on_document, on_workspace, same_kind,
  workspace_of,
}
use embedbase.Vectors.{StoredChunk, set_document_tags}

-- the names of the tags that one entity carries
abbrev pub tag_name : Option Tag → List String
tag_name none = []
tag_name (some t) = t.name ∷ []

unfoldable pub names_of : List Tag → TagKind → String → List Assignment → List String
names_of tags kind entity [] = []
names_of tags kind entity (a ∷ assignments) =
    let rest = names_of tags kind entity assignments in
    if same_kind a.kind kind && a.entity_id == entity
    then tag_name (find_by (λ t. t.id == a.tag_id) tags) ++ rest
    else rest

abbrev pub names_of_some : List Tag → List Assignment → Option String → List String
names_of_some tags assignments none = []
names_of_some tags assignments (some ws_id) = names_of tags on_workspace ws_id assignments

-- `sorted`
abbrev pub insert_name : String → List String → List String
insert_name t [] = t ∷ []
insert_name t (u ∷ us) =
    let rest = insert_name t us in if is_le (compare t u) then t ∷ u ∷ us else u ∷ rest

abbrev pub sorted_names : List String → List String
sorted_names [] = []
sorted_names (t ∷ ts) = insert_name t (sorted_names ts)

unfoldable pub effective_document_tags : Tagged → String → String → List String
effective_document_tags s col_id doc_id = sorted_names (
    dedup (
      names_of_some s.tags s.assignments (workspace_of (collection_row s.db col_id))
      ++ (names_of s.tags on_collection col_id s.assignments
          ++ names_of s.tags on_document doc_id s.assignments)))

-- The task `sync_document_tags`, on the rows of the vector store.
unfoldable pub sync_document_tags :
    {V : Type 0} → Tagged → String → String → Dict (StoredChunk V) → Dict (StoredChunk V)
sync_document_tags s doc_id col_id store =
    set_document_tags store col_id doc_id (effective_document_tags s col_id doc_id)
