-- ===== src/Permissions/Authorize.antt =====
-- api/services/permissions.py: the checks that raise `403`, for one collection, document or
-- workspace, and the capabilities.
use embedbase.Prelude.{
  String, Bool, true, false, ◌&&◌, ◌||◌, Option, none, some, is_nil, filter_by, if◌then◌else◌,
}
use embedbase.Prelude.Dict.{get}
use embedbase.Http.{Detail, message, Check, ok, raise}
use embedbase.Auth.{Principal}
use embedbase.Tables.{Level, read, write, capability, Db, is_read, same_target}
use embedbase.Permissions.Scope.{
  Scope, collection_ws, document_location, is_empty, workspace_readable, collection_readable,
  document_readable, collection_writable, document_writable, grants_write, resolve_scope,
}

-- `_denied`
abbrev pub denied : Level → Detail
denied read = message "API key not authorized to read this resource"
denied write = message "API key not authorized to write this resource"

-- the last lines of each check: return, or fall through to the raise
abbrev pub allow_if : Bool → Level → Check
allow_if true need = ok tt
allow_if false need = raise 403 (denied need)

-- the test of `authorize_collection` on the collection's workspace
abbrev pub collection_allowed : Scope → String → Level → Option String → Bool
collection_allowed scope collection_id need none = false
collection_allowed scope collection_id need (some ws_id) =
    collection_readable scope collection_id ws_id
    && (is_read need || collection_writable scope collection_id ws_id)

unfoldable pub authorize_collection : Db → Principal → String → Level → Check
authorize_collection db principal collection_id need =
    if principal.is_master then ok tt else elim principal.user_id [
      | none ↦ raise 403 (denied need)
      | some user ↦
          let scope : Scope = resolve_scope db user in
          if is_empty scope
          then ok tt
          else allow_if
              (collection_allowed scope collection_id need (collection_ws db collection_id)) need
    ]

abbrev pub document_allowed : Scope → String → Level → Option (String × String) → Bool
document_allowed scope document_id need none = false
document_allowed scope document_id need (some (col_id, ws_id)) =
    document_readable scope document_id col_id ws_id
    && (is_read need || document_writable scope document_id col_id ws_id)

unfoldable pub authorize_document : Db → Principal → String → Level → Check
authorize_document db principal document_id need =
    if principal.is_master then ok tt else elim principal.user_id [
      | none ↦ raise 403 (denied need)
      | some user ↦
          let scope : Scope = resolve_scope db user in
          if is_empty scope
          then ok tt
          else allow_if (document_allowed scope document_id need (document_location db document_id))
              need
    ]

unfoldable pub authorize_workspace : Db → Principal → String → Level → Check
authorize_workspace db principal workspace_id need =
    if principal.is_master then ok tt else elim principal.user_id [
      | none ↦ raise 403 (denied need)
      | some user ↦
          let scope : Scope = resolve_scope db user in
          if is_empty scope
          then ok tt
          else allow_if
              (workspace_readable scope workspace_id
                && (is_read need || grants_write (get scope.ws_level workspace_id)))
              need
    ]

abbrev pub cap_create_workspace : String
cap_create_workspace = "create_workspace"

abbrev pub cap_manage_tags : String
cap_manage_tags = "manage_tags"

unfoldable pub has_capability : Db → Principal → String → Bool
has_capability db principal name = if principal.is_master then true else elim principal.user_id [
  | none ↦ false
  | some user ↦
      if is_nil (filter_by (same_target user capability name) db.permissions) then false else true
]

unfoldable pub authorize_workspace_creation : Db → Principal → Check
authorize_workspace_creation db principal =
    if has_capability db principal cap_create_workspace
    then ok tt
    else raise 403 (message "Not authorized to create workspaces")

unfoldable pub authorize_tag_management : Db → Principal → String → Check
authorize_tag_management db principal workspace_id =
    if has_capability db principal cap_manage_tags
    then authorize_workspace db principal workspace_id read
    else raise 403 (message "Not authorized to manage tags")
