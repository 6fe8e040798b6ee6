-- ===== src/Catalog/Tree.antt =====
-- The tree of workspaces (`list_workspace_tree` of api/services/workspaces.py) as
-- `filter_workspace_tree` of api/services/permissions.py prunes it.
use embedbase.Auth.{Principal}
use embedbase.Http.{ok}
use embedbase.Permissions.Authorize.{authorize_collection}
use embedbase.Permissions.Listing.{CollectionNode, WorkspaceNode, filter_workspace_tree, prune_tree}
use embedbase.Permissions.Resolve.{IsKeyed}
use embedbase.Permissions.Scope.{
  Scope, collection_readable, collection_ws, resolve_scope, workspace_readable,
}
use embedbase.Prelude.{
  Bool, Bool-cases, Distinct, List, Option-cases, String, [], any_of, arith, contains, eq_iff,
  filter_by, find_by, inl, inr, map, refl, some, true, ℕ, ◌&&◌, ◌==◌, ◌↔◌, ◌∷◌, ◌≡◌,
}
use embedbase.Tables.{Collection, Db, Workspace, read}
use embedbase.Workspaces.{collection_keys, doc_count, list_workspace_tree, nodes_in, workspace_node}

abbrev pub node_ids : List CollectionNode → List String
node_ids cols = map (λ (c : CollectionNode). c.id) cols

-- the collection stands in the tree, under the workspace
abbrev pub shows : List WorkspaceNode → String → String → Bool
shows tree ws_id col_id =
    any_of (λ (n : WorkspaceNode). n.id == ws_id && contains (node_ids n.collections) col_id) tree

contains-nodes_in :
    (counts : String → ℕ) (ws_id : String) (rows : List Collection) (col_id : String)
    → contains (node_ids (nodes_in counts ws_id rows)) col_id
      ≡ any_of (λ (c : Collection). c.workspace_id == ws_id && c.id == col_id) rows
contains-nodes_in counts ws_id [] col_id = refl
contains-nodes_in counts ws_id (c ∷ rows) col_id =
    ground (arith, contains-nodes_in counts ws_id rows col_id)

contains-pruned :
    (scope : Scope) (ws_id : String) (cols : List CollectionNode) (col_id : String)
    → contains
        (node_ids (filter_by (λ (c : CollectionNode). collection_readable scope c.id ws_id) cols))
        col_id
      ≡ (contains (node_ids cols) col_id && collection_readable scope col_id ws_id)
contains-pruned scope ws_id [] col_id = refl
contains-pruned scope ws_id (c ∷ cols) col_id =
    ground (arith, contains-pruned scope ws_id cols col_id, eq_iff c.id col_id)

workspace_readable-collection :
    (scope : Scope) (col_id ws_id : String)
    → collection_readable scope col_id ws_id ≡ true
    → workspace_readable scope ws_id ≡ true
unfolding collection_readable workspace_readable
workspace_readable-collection scope col_id ws_id h = ground arith

shows-prune_tree :
    (scope : Scope) (tree : List WorkspaceNode) (ws_id col_id : String)
    → shows (prune_tree scope tree) ws_id col_id
      ≡ (shows tree ws_id col_id && collection_readable scope col_id ws_id)
shows-prune_tree scope [] ws_id col_id = refl
shows-prune_tree scope (n ∷ tree) ws_id col_id = ground (
  arith,
  shows-prune_tree scope tree ws_id col_id,
  contains-pruned scope n.id n.collections col_id,
  workspace_readable-collection scope col_id ws_id,
  eq_iff n.id ws_id,
)

shows-nodes :
    (rows : List Collection) (counts : String → ℕ) (wss : List Workspace) (ws_id col_id : String)
    → shows (map (λ (ws : Workspace). workspace_node ws rows counts) wss) ws_id col_id ≡ (
        contains (map (λ (w : Workspace). w.id) wss) ws_id
        && any_of (λ (c : Collection). c.workspace_id == ws_id && c.id == col_id) rows)
unfolding workspace_node
shows-nodes rows counts [] ws_id col_id = refl
shows-nodes rows counts (w ∷ wss) ws_id col_id = ground (
  arith,
  shows-nodes rows counts wss ws_id col_id,
  contains-nodes_in counts w.id rows col_id,
  eq_iff w.id ws_id,
)

any_of-contains :
    (rows : List Collection) (ws_id col_id : String)
    → any_of (λ (c : Collection). c.workspace_id == ws_id && c.id == col_id) rows ≡ true
    → contains (collection_keys rows) col_id ≡ true
any_of-contains [] ws_id col_id h = ground arith
any_of-contains (c ∷ rows) ws_id col_id h = ground (arith, any_of-contains rows ws_id col_id)

-- a key that stands in a workspace is found there
found_there :
    (rows : List Collection) (ws_id col_id : String)
    → Distinct (collection_keys rows)
    → any_of (λ (c : Collection). c.workspace_id == ws_id && c.id == col_id) rows ≡ true
    → (r : Collection) × (find_by (λ (c : Collection). c.id == col_id) rows ≡ some r)
      × (r.workspace_id ≡ ws_id)
found_there [] ws_id col_id d h = absurd (ground arith)
found_there (c ∷ rows) ws_id col_id d h = elim (Bool-cases (c.id == col_id)) [
  | inl e ↦ (
    c,
    ground arith,
    ground (
      arith,
      d.0,
      eq_iff c.id col_id,
      eq_iff c.workspace_id ws_id,
      any_of-contains rows ws_id col_id,
    ),
  )
  | inr e ↦ let (r, f, q) = found_there rows ws_id col_id d.1 (ground arith) in (r, ground arith, q)
]

-- a collection that the tree shows stands in that workspace
shows-collection_ws :
    (db : Db) (ws_id col_id : String)
    → IsKeyed db
    → shows (list_workspace_tree db) ws_id col_id ≡ true
    → collection_ws db col_id ≡ some ws_id
unfolding list_workspace_tree collection_ws
shows-collection_ws db ws_id col_id keyed h =
    let (r, f, q) =
      found_there db.collections ws_id col_id keyed.collections
        (ground (arith, shows-nodes db.collections (doc_count db) db.workspaces ws_id col_id)) in
    ground arith

-- Where the tables keep their primary keys, the pruned tree shows a collection exactly when the
-- whole tree shows it, under that workspace, and the caller passes `authorize_collection` for
-- reading it.
pub filter_workspace_tree-authorize :
    (db : Db) (p : Principal) (ws_id col_id : String)
    → IsKeyed db
    → (shows (filter_workspace_tree db p (list_workspace_tree db)) ws_id col_id ≡ true) ↔ (
        (shows (list_workspace_tree db) ws_id col_id ≡ true)
        × (authorize_collection db p col_id read ≡ ok tt))
unfolding filter_workspace_tree authorize_collection
filter_workspace_tree-authorize db p ws_id col_id keyed =
    let placed = shows-collection_ws db ws_id col_id keyed in
    elim (Option-cases p.user_id) [
      | inl e ↦ ground arith
      | inr (user, e) ↦
          let pruned =
            shows-prune_tree (resolve_scope db user) (list_workspace_tree db) ws_id col_id in
          ground (arith, pruned, placed)
    ]
