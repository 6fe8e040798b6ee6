-- ===== src/Tags.antt =====
-- api/services/tags.py and api/services/tag_bridge.py: the tags of a workspace, their assignments
-- to it, its collections and their documents, and the tasks that carry a change to the stored
-- chunks. The three join tables are one list whose rows say their kind. Ids are keys, so
-- a join finds one row.
pub mod Effective
pub mod Changes
pub mod Synced
pub mod Linked
pub mod Eventual
pub mod Examples
use embedbase.Collections.{require_collection}
use embedbase.Http.{Check, Result, about, message, ok, raise, ◌>>◌}
use embedbase.Prelude.{
  Bool, List, Option, String, [], any_of, false, filter_by, find_by, if◌then◌else◌, map, none, not,
  some, true, ◌&&◌, ◌++◌, ◌==◌, ◌∷◌,
}
use embedbase.Tables.{Collection, Db, Document, Task, collection_row, sync_tags_task}
use embedbase.Workspaces.{is_active, require_workspace}

pub data TagKind : Type 0 where
  on_workspace on_collection on_document : TagKind

pub record Tag : Type 0 where
  pub id : String
  pub workspace_id : String
  pub name : String
  pub color : Option String

pub record Assignment : Type 0 where
  pub kind : TagKind
  pub entity_id : String
  pub tag_id : String

pub record Tagged : Type 0 where
  pub db : Db
  pub tags : List Tag
  pub assignments : List Assignment
  -- the tasks that the broker holds
  pub sent : List Task

abbrev pub same_kind : TagKind → TagKind → Bool
same_kind on_workspace on_workspace = true
same_kind on_collection on_collection = true
same_kind on_document on_document = true
same_kind _ _ = false

abbrev pub tag_found : String → Option Tag → Check
tag_found tag_id none = raise 404 (about "Tag" tag_id)
tag_found tag_id (some t) = ok tt

unfoldable pub require_tag : String → String → Tagged → Check
require_tag ws_id tag_id s =
    tag_found tag_id (find_by (λ t. t.id == tag_id && t.workspace_id == ws_id) s.tags)

abbrev pub document_found : String → Option Document → Check
document_found doc_id none = raise 404 (about "Document" doc_id)
document_found doc_id (some d) = ok tt

unfoldable pub require_document : String → String → Db → Check
require_document col_id doc_id db =
    document_found doc_id
      (find_by (λ d. d.id == doc_id && (d.collection_id == col_id && is_active d)) db.documents)

abbrev pub sync_task : Document → Task
sync_task d = sync_tags_task d.id d.collection_id

-- `sync_document`, `sync_collection` and `sync_workspace`
unfoldable pub sync_document : String → String → Tagged → Tagged
sync_document col_id doc_id s = record s { sent = s.sent ++ sync_tags_task doc_id col_id ∷ [] }

unfoldable pub sync_collection : String → Tagged → Tagged
sync_collection col_id s =
    let rows =
      filter_by (λ (d : Document). d.collection_id == col_id && is_active d) s.db.documents in
    record s { sent = s.sent ++ map sync_task rows }

abbrev pub workspace_of : Option Collection → Option String
workspace_of none = none
workspace_of (some c) = some c.workspace_id

abbrev pub is_name : String → Option String → Bool
is_name k none = false
is_name k (some j) = j == k

unfoldable pub in_workspace : Db → String → Document → Bool
in_workspace db ws_id d = is_name ws_id (workspace_of (collection_row db d.collection_id))

unfoldable pub sync_workspace : String → Tagged → Tagged
sync_workspace ws_id s =
    let rows =
      filter_by (λ (d : Document). in_workspace s.db ws_id d && is_active d) s.db.documents in
    record s { sent = s.sent ++ map sync_task rows }

abbrev pub is_row : TagKind → String → String → Assignment → Bool
is_row kind entity tag a = same_kind a.kind kind && (a.entity_id == entity && a.tag_id == tag)

-- `_assign`, with `ON CONFLICT DO NOTHING`
unfoldable pub assign : TagKind → String → String → Tagged → Tagged
assign kind entity tag s =
    let row : Assignment = record { kind = kind; entity_id = entity; tag_id = tag } in
    if any_of (is_row kind entity tag) s.assignments
    then s
    else record s { assignments = s.assignments ++ row ∷ [] }

unfoldable pub unassign : TagKind → String → String → Tagged → Tagged
unassign kind entity tag s = record s {
  assignments = filter_by (λ a. not (is_row kind entity tag a)) s.assignments;
}

-- a call whose checks passed goes on, else it leaves the state
abbrev pub after_checks : Check → Tagged → Tagged → Check × Tagged
after_checks (ok _) s follows = (ok tt, follows)
after_checks (raise status detail) s follows = (raise status detail, s)

unfoldable pub assign_workspace_tag : String → String → Tagged → Check × Tagged
assign_workspace_tag ws_id tag_id s =
    after_checks (require_workspace ws_id s.db >> require_tag ws_id tag_id s) s
      (sync_workspace ws_id (assign on_workspace ws_id tag_id s))

unfoldable pub unassign_workspace_tag : String → String → Tagged → Check × Tagged
unassign_workspace_tag ws_id tag_id s =
    after_checks (require_tag ws_id tag_id s) s
      (sync_workspace ws_id (unassign on_workspace ws_id tag_id s))

unfoldable pub assign_collection_tag : String → String → String → Tagged → Check × Tagged
assign_collection_tag ws_id col_id tag_id s =
    after_checks (require_collection ws_id col_id s.db >> require_tag ws_id tag_id s) s
      (sync_collection col_id (assign on_collection col_id tag_id s))

unfoldable pub unassign_collection_tag : String → String → String → Tagged → Check × Tagged
unassign_collection_tag ws_id col_id tag_id s =
    after_checks (require_collection ws_id col_id s.db >> require_tag ws_id tag_id s) s
      (sync_collection col_id (unassign on_collection col_id tag_id s))

abbrev pub document_checks : String → String → String → String → Tagged → Check
document_checks ws_id col_id doc_id tag_id s =
    require_collection ws_id col_id s.db
    >> require_document col_id doc_id s.db
    >> require_tag ws_id tag_id s

unfoldable pub assign_document_tag : String → String → String → String → Tagged → Check × Tagged
assign_document_tag ws_id col_id doc_id tag_id s =
    after_checks (document_checks ws_id col_id doc_id tag_id s) s
      (sync_document col_id doc_id (assign on_document doc_id tag_id s))

unfoldable pub unassign_document_tag : String → String → String → String → Tagged → Check × Tagged
unassign_document_tag ws_id col_id doc_id tag_id s =
    after_checks (document_checks ws_id col_id doc_id tag_id s) s
      (sync_document col_id doc_id (unassign on_document doc_id tag_id s))
