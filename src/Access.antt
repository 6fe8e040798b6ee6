-- ===== src/Access.antt =====
-- api/services/access.py: access policies and their composition, where one of them
-- is the existence check of api/services/collections.py. Each policy raises to deny.
pub mod Order
mod Examples
use embedbase.Prelude.{String, ◌==◌, ◌&&◌, Option, none, some, find_by}
use embedbase.Http.{Check, about, ok, raise, ◌>>=◌, ◌>>◌}
use embedbase.Auth.{Principal}
use embedbase.Tables.{Level, Collection, Db}
use embedbase.Collections.{require_collection}
use embedbase.Permissions.Authorize.{authorize_collection, authorize_document, authorize_workspace}

-- A composite holds its policies in order, and is a policy itself.
mutual
  pub data AccessPolicy : Type 0 where
    authorize_workspace_policy : String → Level → AccessPolicy
    authorize_collection_policy : String → Level → AccessPolicy
    authorize_document_policy : String → Level → AccessPolicy
    collection_in_workspace : String → String → AccessPolicy
    composite : Policies → AccessPolicy

  pub data Policies : Type 0 where
    nil : Policies
    cons : AccessPolicy → Policies → Policies

-- `CompositePolicy.__init__`: `none` is the `ValueError` of an empty composite
unfoldable pub composite_policy : Policies → Option AccessPolicy
composite_policy nil = none
composite_policy (cons policy rest) = some (composite (cons policy rest))

unfoldable mutual
  pub apply : Db → Principal → AccessPolicy → Check
  apply db p (authorize_workspace_policy ws_id need) = authorize_workspace db p ws_id need
  apply db p (authorize_collection_policy col_id need) = authorize_collection db p col_id need
  apply db p (authorize_document_policy doc_id need) = authorize_document db p doc_id need
  apply db p (collection_in_workspace ws_id col_id) = require_collection ws_id col_id db
  apply db p (composite policies) = apply_all db p policies

  -- the loop of `CompositePolicy.apply`
  pub apply_all : Db → Principal → Policies → Check
  apply_all db p nil = ok tt
  apply_all db p (cons policy rest) = do apply db p policy; apply_all db p rest
