-- ===== src/Access/Examples.antt =====
-- The theorems on access policies (api/services/access.py) at one request.
use embedbase.Access.{
  Policies, apply, authorize_collection_policy, collection_in_workspace, composite, cons, nil,
}
use embedbase.Access.Order.{append, authorization_first, first, none_left, on_collection}
use embedbase.Auth.{Principal}
use embedbase.Http.{ok, raise}
use embedbase.Permissions.Authorize.{denied}
use embedbase.Prelude.{[], false, none, some, ◌≡◌, ◌⊎◌}
use embedbase.Tables.{Db, Level, read}

abbrev db : Db
db = record { workspaces = []; collections = []; documents = []; permissions = [] }

abbrev stranger : Principal
stranger = record {
  is_master = false;
  user_id = none;
  api_key_id = some "k1";
  must_change = false;
  rate_limit_rpm = 0;
}

abbrev auth : Policies
auth = cons (authorize_collection_policy "c1" read) nil

abbrev exists : Policies
exists = cons (collection_in_workspace "w1" "c1") nil

authorization_first_example :
    ((need : Level) × (apply db stranger (composite auth) ≡ raise 403 (denied need))
      × (apply db stranger (composite (append auth exists)) ≡ raise 403 (denied need)))
    ⊎ ((apply db stranger (composite auth) ≡ ok tt)
        × (apply db stranger (composite (append auth exists))
            ≡ apply db stranger (composite exists)))
authorization_first_example =
    authorization_first db stranger auth exists (first (on_collection "c1" read) none_left)
