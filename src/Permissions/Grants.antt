-- ===== src/Permissions/Grants.antt =====
-- api/services/permissions.py: the operations that write grants. Each takes the tables and returns
-- its result beside the tables that it leaves. `fresh` is the new `uuid4().hex` and `now` the time
-- of the call. The rows of `users` are not read: every caller has checked that the user exists.
use embedbase.Prelude.{
  String, ◌==◌, ◌||◌, ◌&&◌, not, Option, none, some, List, [], ◌∷◌, ◌++◌, find_by, filter_by,
  if◌then◌else◌,
}
use embedbase.Http.{message, about, Result, Check, ok, raise}
use embedbase.Auth.{Principal}
use embedbase.Tables.{
  Level, write, ResourceType, workspace, collection, document, capability, Grant, Db, same_target,
  collection_row, document_row, workspace_row,
}
use embedbase.Permissions.Scope.{is_empty, resolve_scope}
use embedbase.Permissions.Authorize.{cap_create_workspace, cap_manage_tags}

-- the lookup of `id` in the table of the resource type, or its 404
abbrev pub require_row {ℓ} : {A : Type ℓ} → String → String → Option A → Check
require_row kind k none = raise 404 (about kind k)
require_row kind k (some row) = ok tt

unfoldable pub require_resource : Db → ResourceType → String → Check
require_resource db capability k =
    if k == cap_create_workspace || k == cap_manage_tags
    then ok tt
    else raise 422 (about "Unknown capability" k)
require_resource db workspace k = require_row "workspace" k (workspace_row db k)
require_resource db collection k = require_row "collection" k (collection_row db k)
require_resource db document k = require_row "document" k (document_row db k)

-- `update(perm_t).where(perm_t.c.id == existing).values(level=level)`
abbrev pub set_level : String → Level → List Grant → List Grant
set_level existing level [] = []
set_level existing level (g ∷ rows) =
    (if g.id == existing then record g { level = level } else g) ∷ set_level existing level rows

-- `_get_grant`, whose `assert` a missing row would fail
abbrev pub get_grant : List Grant → String → Result Grant
get_grant rows grant_id = elim (find_by (λ (g : Grant). g.id == grant_id) rows) [
  | none ↦ raise 500 (message "AssertionError")
  | some g ↦ ok g
]

-- the row that an insert of a new grant adds
abbrev pub new_grant : String → String → String → ResourceType → String → Level → Grant
new_grant fresh now user_id resource_type resource_id level = record {
  id = fresh;
  user_id = user_id;
  resource_type = resource_type;
  resource_id = resource_id;
  level = level;
  created_at = now;
}

-- the part after the search for an existing row: re-level it, or insert one
abbrev pub write_found : Level → Grant → List Grant → Option Grant → Result Grant × List Grant
write_found level new rows (some old) =
    let updated : List Grant = set_level old.id level rows in (get_grant updated old.id, updated)
write_found level new rows none =
    let inserted : List Grant = rows ++ new ∷ [] in (get_grant inserted new.id, inserted)

-- the part after the resource check
unfoldable pub write_grant :
    String
    → String
    → List Grant
    → String
    → ResourceType
    → String
    → Level
    → Result Grant × List Grant
write_grant fresh now rows user_id resource_type resource_id level =
    write_found level (new_grant fresh now user_id resource_type resource_id level) rows
      (find_by (same_target user_id resource_type resource_id) rows)

unfoldable pub grant_permission :
    String → String → Db → String → ResourceType → String → Level → Result Grant × Db
unfolding write_grant
grant_permission fresh now db user_id resource_type resource_id level =
    elim (require_resource db resource_type resource_id) [
      | raise status detail ↦ (raise status detail, db)
      | ok _ ↦
          let (reply, rows) =
            write_grant fresh now db.permissions user_id resource_type resource_id level in
          (reply, record db { permissions = rows })
    ]

unfoldable pub revoke_permission : Db → String → String → Check × Db
revoke_permission db user_id grant_id =
    elim (find_by (λ (g : Grant). g.id == grant_id && g.user_id == user_id) db.permissions) [
      | none ↦ (raise 404 (about "Permission" grant_id), db)
      | some _ ↦ (
        ok tt,
        record db {
          permissions = filter_by (λ (g : Grant). not (g.id == grant_id)) db.permissions;
        },
      )
    ]

-- the result of the grant is dropped, and its error is not
abbrev pub drop_result {ℓ} : {A : Type ℓ} → Result A × Db → Check × Db
drop_result (ok a, db) = (ok tt, db)
drop_result (raise status detail, db) = (raise status detail, db)

unfoldable pub grant_creator_access : String → String → Db → Principal → String → Check × Db
unfolding grant_permission
grant_creator_access fresh now db principal workspace_id = elim principal.user_id [
  | none ↦ (ok tt, db)
  | some user ↦
      if principal.is_master
      then (ok tt, db)
      else if is_empty (resolve_scope db user)
      then (ok tt, db)
      else drop_result (grant_permission fresh now db user workspace workspace_id write)
]
