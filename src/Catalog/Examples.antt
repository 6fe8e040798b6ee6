-- ===== src/Catalog/Examples.antt =====
-- The theorems on the catalogue at a small installation.
use embedbase.Auth.{Principal}
use embedbase.Catalog.Branches.{create_collection-branches, taken, delete_workspace-gone}
use embedbase.Catalog.Steps.{calls-IsWhole, creates_collection, creates_workspace, done, then_step}
use embedbase.Catalog.Tree.{filter_workspace_tree-authorize, shows}
use embedbase.Catalog.Whole.{IsWhole}
use embedbase.Collections.{create_collection, get_collection, new_collection}
use embedbase.Http.{about, ok, raise}
use embedbase.Permissions.Authorize.{authorize_collection}
use embedbase.Permissions.Listing.{filter_workspace_tree}
use embedbase.Prelude.{[], false, none, refl, some, true, ◌↔◌, ◌∷◌, ◌≡◌, ◌⊎◌}
use embedbase.Tables.{Collection, Db, Workspace, read, workspace_row}
use embedbase.Workspaces.{
  create_workspace, delete_workspace, get_workspace, list_workspace_tree, new_workspace,
}

abbrev empty : Db
empty = record { workspaces = []; collections = []; documents = []; permissions = [] }

abbrev research : Workspace
research = new_workspace "w1" "1" "Research" "" "#fff" "folder"

abbrev notes : Collection
notes = new_collection "c1" "2" "w1" "Notes" "" "#fff" "book"

abbrev one : Db
one = record empty { workspaces = research ∷ [] }

abbrev two : Db
two = record one { collections = notes ∷ [] }

abbrev caller : Principal
caller = record {
  is_master = false;
  user_id = some "ana";
  api_key_id = none;
  must_change = false;
  rate_limit_rpm = 0;
}

empty-IsWhole : IsWhole empty
empty-IsWhole = record {
  workspace_keys = tt;
  collection_ids = tt;
  names = tt;
  parents = refl;
  homes = refl;
}

calls-IsWhole_example :
    IsWhole
      (create_collection "c1" "2" "w1" "Notes" "" "#fff" "book"
        (create_workspace "w1" "1" "Research" "" "#fff" "folder" empty).1).1
calls-IsWhole_example = calls-IsWhole empty-IsWhole (
    then_step (then_step done (creates_workspace "w1" "1" "Research" "" "#fff" "folder"))
      (creates_collection "c1" "2" "w1" "Notes" "" "#fff" "book"))

create_collection-branches_example :
    ((workspace_row one "w1" ≡ none)
      × (create_collection "c1" "2" "w1" "Notes" "" "#fff" "book" one
          ≡ (raise 404 (about "Workspace" "w1"), one)))
    ⊎ ((w : Workspace) × (workspace_row one "w1" ≡ some w)
        × (((taken "c1" "w1" "Notes" one.collections ≡ true)
              × (create_collection "c1" "2" "w1" "Notes" "" "#fff" "book" one
                  ≡ (raise 409 (about "Collection" "Notes"), one)))
            ⊎ ((taken "c1" "w1" "Notes" one.collections ≡ false)
                × ((create_collection "c1" "2" "w1" "Notes" "" "#fff" "book" one).0
                    ≡ ok (record {
                      row = new_collection "c1" "2" "w1" "Notes" "" "#fff" "book";
                      document_count = 0;
                      chunk_count = 0;
                    }))
                × (get_collection "w1" "c1"
                      (create_collection "c1" "2" "w1" "Notes" "" "#fff" "book" one).1
                    ≡ ok (new_collection "c1" "2" "w1" "Notes" "" "#fff" "book")))))
create_collection-branches_example =
    create_collection-branches "c1" "2" "w1" "Notes" "" "#fff" "book" one

delete_workspace-gone_example :
    ((delete_workspace "w1" two).0 ≡ ok tt)
    × (get_workspace "w1" (delete_workspace "w1" two).1 ≡ raise 404 (about "Workspace" "w1"))
    × (get_collection "w1" "c1" (delete_workspace "w1" two).1 ≡ raise 404 (about "Collection" "c1"))
    × (get_workspace "w2" (delete_workspace "w1" two).1 ≡ get_workspace "w2" two)
delete_workspace-gone_example = delete_workspace-gone "w1" two research refl "c1" "w2" refl

filter_workspace_tree-authorize_example :
    (shows (filter_workspace_tree two caller (list_workspace_tree two)) "w1" "c1" ≡ true) ↔ (
      (shows (list_workspace_tree two) "w1" "c1" ≡ true)
      × (authorize_collection two caller "c1" read ≡ ok tt))
filter_workspace_tree-authorize_example =
    filter_workspace_tree-authorize two caller "w1" "c1"
      (record { collections = (refl, tt); documents = tt })
