-- ===== src/Permissions/Listing.antt =====
-- api/services/permissions.py: the functions that narrow a list of candidates to what the caller
-- may read or write.
use embedbase.Prelude.{
  ℕ, ◌+◌, String, Bool, false, not, ◌&&◌, Option, none, some, List, [], ◌∷◌, ◌++◌, map, length,
  is_nil, filter_by, contains, dedup, if◌then◌else◌,
}
use embedbase.Prelude.Dict.{Dict, get}
use embedbase.Auth.{Principal}
use embedbase.Tables.{Collection, Db}
use embedbase.Permissions.Scope.{
  Scope, is_empty, workspace_readable, collection_readable, collection_writable, grants_write,
  resolve_scope, workspace_of_rows,
}

-- The opening of the four filters: all of the keys, none of them, or those that pass a test made
-- from the caller's scope.
abbrev pub scoped_filter : Db → Principal → List String → (Scope → String → Bool) → List String
scoped_filter db principal candidate_ids passes =
    let ids = dedup candidate_ids in
    if principal.is_master then ids else elim principal.user_id [
      | none ↦ []
      | some user ↦
          if is_nil ids
          then []
          else (let scope : Scope = resolve_scope db user in
              if is_empty scope then ids else filter_by (passes scope) ids)
    ]

-- the test of a collection of known workspace in `readable_collection_ids`
abbrev pub readable_in : Dict String → Scope → String → Bool
readable_in ws_by_col scope cid = elim (get ws_by_col cid) [
  | none ↦ false
  | some ws ↦ collection_readable scope cid ws
]

-- and in `writable_collection_ids`
abbrev pub writable_in : Dict String → Scope → String → Bool
writable_in ws_by_col scope cid = elim (get ws_by_col cid) [
  | none ↦ false
  | some ws ↦ collection_readable scope cid ws && collection_writable scope cid ws
]

-- `{r.id: r.workspace_id for r in rows}` for the collections among `ids`
abbrev pub workspaces_by_collection : Db → List String → Dict String
workspaces_by_collection db ids =
    workspace_of_rows (filter_by (λ r. contains ids r.id) db.collections)

unfoldable pub readable_collection_ids : Db → Principal → List String → List String
readable_collection_ids db principal candidate_ids =
    scoped_filter db principal candidate_ids
      (readable_in (workspaces_by_collection db (dedup candidate_ids)))

unfoldable pub writable_collection_ids : Db → Principal → List String → List String
writable_collection_ids db principal candidate_ids =
    scoped_filter db principal candidate_ids
      (writable_in (workspaces_by_collection db (dedup candidate_ids)))

unfoldable pub readable_workspace_ids : Db → Principal → List String → List String
readable_workspace_ids db principal candidate_ids =
    scoped_filter db principal candidate_ids workspace_readable

unfoldable pub writable_workspace_ids : Db → Principal → List String → List String
writable_workspace_ids db principal candidate_ids =
    scoped_filter db principal candidate_ids
      (λ scope wid. workspace_readable scope wid && grants_write (get scope.ws_level wid))

-- `{cid for cid, ws in scope.col_ws.items() if …}`, and the collections of the open workspaces
abbrev pub readable_entries : Scope → Dict String → List String
readable_entries scope [] = []
readable_entries scope ((cid, ws) ∷ items) =
    if collection_readable scope cid ws
    then cid ∷ readable_entries scope items
    else readable_entries scope items

abbrev pub open_workspaces : Scope → List String
open_workspaces scope = filter_by (λ ws. not (contains scope.narrowed_ws ws)) scope.touched_ws

abbrev pub collection_ids : List Collection → List String
collection_ids [] = []
collection_ids (r ∷ rows) = r.id ∷ collection_ids rows

abbrev pub visible_ids : Db → Scope → List String
visible_ids db scope =
    let open_ws : List String = open_workspaces scope in
    let readable : List String = readable_entries scope scope.col_ws in
    if is_nil open_ws
    then readable
    else readable
      ++ collection_ids (filter_by (λ r. contains open_ws r.workspace_id) db.collections)

-- `None` (no restriction) is `none`. The result is made from a set, in no certain order.
unfoldable pub readable_collection_scope : Db → Principal → Option (List String)
readable_collection_scope db principal =
    if principal.is_master then none else elim principal.user_id [
      | none ↦ some []
      | some user ↦
          let scope : Scope = resolve_scope db user in
          if is_empty scope then none else some (dedup (visible_ids db scope))
    ]

-- The nodes of a workspace tree (`list_workspace_tree` of api/services/workspaces.py).
pub record CollectionNode : Type 0 where
  pub id : String
  pub name : String
  pub document_count : ℕ

pub record WorkspaceNode : Type 0 where
  pub id : String
  pub name : String
  pub collection_count : ℕ
  pub document_count : ℕ
  pub collections : List CollectionNode

abbrev pub sum_documents : List CollectionNode → ℕ
sum_documents [] = 0
sum_documents (c ∷ cols) = c.document_count + sum_documents cols

abbrev pub prune_node : Scope → WorkspaceNode → WorkspaceNode
prune_node scope ws =
    let cols : List CollectionNode =
      filter_by (λ (c : CollectionNode). collection_readable scope c.id ws.id) ws.collections in
    record ws {
      collections = cols;
      collection_count = length cols;
      document_count = sum_documents cols;
    }

abbrev pub prune_tree : Scope → List WorkspaceNode → List WorkspaceNode
prune_tree scope [] = []
prune_tree scope (ws ∷ tree) =
    if not (workspace_readable scope ws.id)
    then prune_tree scope tree
    else prune_node scope ws ∷ prune_tree scope tree

unfoldable pub filter_workspace_tree : Db → Principal → List WorkspaceNode → List WorkspaceNode
filter_workspace_tree db principal tree =
    if principal.is_master then tree else elim principal.user_id [
      | none ↦ []
      | some user ↦
          let scope : Scope = resolve_scope db user in
          if is_empty scope then tree else prune_tree scope tree
    ]

-- The payload of `tag_items` (api/services/tags.py).
pub record CollectionItem : Type 0 where
  pub id : String
  pub name : String

pub record DocumentItem : Type 0 where
  pub id : String
  pub filename : String
  pub collection_id : String

pub record TagItems : Type 0 where
  pub collections : List CollectionItem
  pub documents : List DocumentItem

unfoldable pub filter_tag_items : Db → Principal → TagItems → TagItems
unfolding readable_collection_ids
filter_tag_items db principal items =
    let readable_cols : List String =
      readable_collection_ids db principal (map (λ (c : CollectionItem). c.id) items.collections) in
    let readable_doc_cols : List String =
      readable_collection_ids db principal
        (map (λ (d : DocumentItem). d.collection_id) items.documents) in
    record {
      collections =
          filter_by (λ (c : CollectionItem). contains readable_cols c.id) items.collections;
      documents =
          filter_by (λ (d : DocumentItem). contains readable_doc_cols d.collection_id)
            items.documents;
    }
