-- ===== src/Permissions/Levels.antt =====
-- The levels that a scope holds, by the rows of the table, and with them what a restricted user
-- writes and what the creator of a workspace can do (api/services/permissions.py).
use embedbase.Prelude.{
  String, ◌≡◌, refl, ap, ap₂, sym, ◌∙◌, subst, ◌↔◌, ◌⊎◌, ◌==◌, eq_iff, eq_refl, true, false, Option,
  none, some, List, [], ◌∷◌, contains, contains-append, filter_by, find_by, or_else, arith,
}
use embedbase.Prelude.Dict.{get, keys, last_value, get-fill, has_of_get}
use embedbase.Http.{Result, Check, ok, raise}
use embedbase.Auth.{Principal}
use embedbase.Tables.{
  Level, write, ResourceType, workspace, collection, document, Grant, Db, same_type, same_type_iff,
  same_target, workspace_row, Workspace,
}
use embedbase.Permissions.Scope.{
  Scope, resolve_scope, collection_ws, document_location, is_empty, grants_write, no_levels,
  grants_of, collection_writable, document_writable, collection_readable, document_readable,
  workspace_readable,
}
use embedbase.Permissions.Authorize.{authorize_collection, authorize_document, authorize_workspace}
use embedbase.Permissions.Grants.{
  drop_result, grant_permission, grant_creator_access, require_resource,
}
use embedbase.Permissions.Resolve.{
  Held, levels, IsKeyed, ws_level-bucket_rows, col_level-bucket_rows, doc_level-bucket_rows,
}
use embedbase.Permissions.Visible.{
  touched_ws_lem, Browsable, document_readable_iff, collection_readable-Browsable,
}
use embedbase.Permissions.Agreement.{write_implies_read, on_collection, on_document}
use embedbase.Permissions.Exact.{IsScoped, is_empty_iff, nonempty_of_scoped, scoped_reads}
use embedbase.Permissions.Regrant.{ids, level_on}
use embedbase.Permissions.GrantLaws.{UniqueTargets, IsValid, grant_permission-granted}

-- rows of the same target are found by the same search
none_of_target :
    (user : String) (t : ResourceType) (k : String) (r : Grant) (rows : List Grant)
    → same_target user t k r ≡ true
    → find_by (same_target r.user_id r.resource_type r.resource_id) rows ≡ none
    → find_by (same_target user t k) rows ≡ none
unfolding same_target
none_of_target user t k r rows h e =
    let pu : r.user_id ≡ user = (eq_iff r.user_id user).0 (ground arith) in
    let pt : r.resource_type ≡ t = (same_type_iff r.resource_type t).0 (ground arith) in
    let pk : r.resource_id ≡ k = (eq_iff r.resource_id k).0 (ground arith) in
    subst (λ x. find_by (same_target user t x) rows ≡ none) pk
      (subst (λ x. find_by (same_target user x r.resource_id) rows ≡ none) pt
        (subst (λ x. find_by (same_target x r.resource_type r.resource_id) rows ≡ none) pu e))

module _ (user : String) (t : ResourceType) (k : String) where
  last_level : List Grant → Option Level
  last_level rows =
      last_value (λ (g : Grant). g.resource_id) (λ (g : Grant). g.level)
        (filter_by (λ (g : Grant). same_type g.resource_type t)
          (filter_by (λ (g : Grant). g.user_id == user) rows))
        k

  last_level-level_on :
      (rows : List Grant) → UniqueTargets rows → last_level rows ≡ level_on rows user t k
  unfolding last_level same_target
  last_level-level_on [] h = refl
  last_level-level_on (r ∷ rows) h =
      ground (arith, last_level-level_on rows h.1, none_of_target user t k r rows)

-- the level nearest to the collection, or to the document, among its ancestors' too
abbrev pub collection_level : Db → String → String → String → Option Level
collection_level db user c w =
    or_else (level_on db.permissions user collection c) (level_on db.permissions user workspace w)

abbrev pub document_level : Db → String → String → String → String → Option Level
document_level db user d c w =
    or_else
      (or_else (level_on db.permissions user document d)
        (level_on db.permissions user collection c))
      (level_on db.permissions user workspace w)

module _ (db : Db) (user : String) (valid : IsValid db.permissions) where
  get-levels :
      (t : ResourceType) (k : String)
      → get (levels t (grants_of db user) []) k ≡ level_on db.permissions user t k
  unfolding last_level
  get-levels t k =
      get-fill (λ (g : Grant). g.resource_id) (λ (g : Grant). g.level) []
        (filter_by (λ (g : Grant). same_type g.resource_type t) (grants_of db user)) k
      ∙ ground (arith, last_level-level_on user t k db.permissions valid.unique)

  get-ws_level :
      (k : String)
      → get (resolve_scope db user).ws_level k ≡ level_on db.permissions user workspace k
  unfolding resolve_scope
  get-ws_level k =
      ap (λ d. get d k) (ws_level-bucket_rows no_levels (grants_of db user))
      ∙ get-levels workspace k

  get-col_level :
      (k : String)
      → get (resolve_scope db user).col_level k ≡ level_on db.permissions user collection k
  unfolding resolve_scope
  get-col_level k =
      ap (λ d. get d k) (col_level-bucket_rows no_levels (grants_of db user))
      ∙ get-levels collection k

  get-doc_level :
      (k : String)
      → get (resolve_scope db user).doc_level k ≡ level_on db.permissions user document k
  unfolding resolve_scope
  get-doc_level k =
      ap (λ d. get d k) (doc_level-bucket_rows no_levels (grants_of db user))
      ∙ get-levels document k

  collection_writable_lem :
      (c w : String)
      → collection_writable (resolve_scope db user) c w
        ≡ grants_write (collection_level db user c w)
  unfolding collection_writable
  collection_writable_lem c w =
      ap₂ (λ a b. grants_write (or_else a b)) (get-col_level c) (get-ws_level w)

  document_writable_lem :
      (d c w : String)
      → document_writable (resolve_scope db user) d c w
        ≡ grants_write (document_level db user d c w)
  unfolding document_writable
  document_writable_lem d c w =
      ap₂ (λ a b. grants_write (or_else a b))
        (ap₂ (λ a b. or_else a b) (get-doc_level d) (get-col_level c)) (get-ws_level w)

-- Where the tables keep their constraints, a caller that is no master and whose user holds a grant
-- on data writes exactly the collections and documents that are readable and where the nearest
-- grant (on the resource itself, else on its collection, else on its workspace) has level write.
pub scoped_writes :
    (db : Db) (p : Principal) (user : String)
    → IsKeyed db
    → IsValid db.permissions
    → p.is_master ≡ false
    → p.user_id ≡ some user
    → IsScoped db user
    → (k : String)
    → ((authorize_collection db p k write ≡ ok tt) ↔ (
        (w : String) × (collection_ws db k ≡ some w)
        × Browsable db user k w
        × (grants_write (collection_level db user k w) ≡ true)))
      × ((authorize_document db p k write ≡ ok tt) ↔ (
          (c : String) × (w : String) × (document_location db k ≡ some (c, w))
          × (Held db.permissions user document k ⊎ Browsable db user c w)
          × (grants_write (document_level db user k c w) ≡ true)))
unfolding authorize_collection authorize_document
scoped_writes db p user keyed valid m u scoped k = (
  (
    λ h.
        let (w, e, b) =
          (scoped_reads db p user keyed m u scoped k).0.0
            (write_implies_read db p (on_collection k) h) in
        (w, e, b, sym (collection_writable_lem db user valid k w) ∙ collection_written w e h),
    λ t.
        let (w, e, b, g) = t in
        write_collection w e ((collection_readable-Browsable db user keyed k w e).1 b)
          (collection_writable_lem db user valid k w ∙ g),
  ),
  (
    λ h.
        let (c, w, e, r) =
          (scoped_reads db p user keyed m u scoped k).1.0
            (write_implies_read db p (on_document k) h) in
        (c, w, e, r, sym (document_writable_lem db user valid k c w) ∙ document_written c w e h),
    λ t.
        let (c, w, e, r, g) = t in
        write_document c w e ((document_readable_iff db user keyed k c w e).1 r)
          (document_writable_lem db user valid k c w ∙ g),
  ),
)
  where
    nonempty : is_empty (resolve_scope db user) ≡ false
    nonempty = nonempty_of_scoped db user scoped

    collection_written :
        (w : String)
        → collection_ws db k ≡ some w
        → authorize_collection db p k write ≡ ok tt
        → collection_writable (resolve_scope db user) k w ≡ true
    collection_written w e h = ground (arith, nonempty)

    write_collection :
        (w : String)
        → collection_ws db k ≡ some w
        → collection_readable (resolve_scope db user) k w ≡ true
        → collection_writable (resolve_scope db user) k w ≡ true
        → authorize_collection db p k write ≡ ok tt
    write_collection w e r g = ground (arith, nonempty)

    document_written :
        (c w : String)
        → document_location db k ≡ some (c, w)
        → authorize_document db p k write ≡ ok tt
        → document_writable (resolve_scope db user) k c w ≡ true
    document_written c w e h = ground (arith, nonempty)

    write_document :
        (c w : String)
        → document_location db k ≡ some (c, w)
        → document_readable (resolve_scope db user) k c w ≡ true
        → document_writable (resolve_scope db user) k c w ≡ true
        → authorize_document db p k write ≡ ok tt
    write_document c w e r g = ground (arith, nonempty)

-- a workspace with a grant of level write may be written
workspace_writable :
    (db : Db) (p : Principal) (user w : String)
    → p.user_id ≡ some user
    → IsValid db.permissions
    → level_on db.permissions user workspace w ≡ some write
    → authorize_workspace db p w write ≡ ok tt
unfolding authorize_workspace workspace_readable
workspace_writable db p user w u valid e =
    let s : Scope = resolve_scope db user in
    let level : get s.ws_level w ≡ some write = get-ws_level db user valid w ∙ e in
    let touched : contains s.touched_ws w ≡ true =
      ap (λ ws. contains ws w) (touched_ws_lem db user)
      ∙ contains-append (keys s.ws_level) s.narrowed_ws w
      ∙ ground (arith, has_of_get s.ws_level w write level) in
    ground arith

drop_result-ok {ℓ} :
    {A : Type ℓ} (r : Result A × Db) (a : A) → r.0 ≡ ok a → drop_result r ≡ (ok tt, r.1)
drop_result-ok (ok b, db) a h = refl
drop_result-ok (raise status detail, db) a h = cc

module _ (fresh now : String) (db : Db) (p : Principal) (user w : String)
    (u : p.user_id ≡ some user) where
  grant_creator_access-scoped :
      p.is_master ≡ false
      → IsScoped db user
      → grant_creator_access fresh now db p w
        ≡ drop_result (grant_permission fresh now db user workspace w write)
  unfolding grant_creator_access
  grant_creator_access-scoped m scoped = let e = nonempty_of_scoped db user scoped in ground arith

  -- For a caller that is no master and whose user holds a grant on data, on a workspace that
  -- exists, in a valid table of grants and with a new id: the call succeeds, and the caller may
  -- then write the workspace.
  pub grant_creator_access-writes :
      (row : Workspace)
      → workspace_row db w ≡ some row
      → p.is_master ≡ false
      → IsScoped db user
      → IsValid db.permissions
      → contains (ids db.permissions) fresh ≡ false
      → ((grant_creator_access fresh now db p w).0 ≡ ok tt)
        × (authorize_workspace (grant_creator_access fresh now db p w).1 p w write ≡ ok tt)
  unfolding require_resource
  grant_creator_access-writes row found m scoped valid f =
      let granted =
        grant_permission-granted fresh now db user workspace w write workspace_exists valid f user
          workspace w in
      let created = creates granted.0.0 granted.0.1 in
      (
        ap (λ (r : Check × Db). r.0) created,
        ap (λ (r : Check × Db). authorize_workspace r.1 p w write) created
            ∙ workspace_writable (grant_permission fresh now db user workspace w write).1 p user w u
                granted.1
                (granted.2
                  ∙ ground
                      (arith, eq_refl user, eq_refl w, (same_type_iff workspace workspace).1 refl)),
      )
    where
      workspace_exists : require_resource db workspace w ≡ ok tt
      workspace_exists = ground arith

      creates :
          (g : Grant)
          → (grant_permission fresh now db user workspace w write).0 ≡ ok g
          → grant_creator_access fresh now db p w
            ≡ (ok tt, (grant_permission fresh now db user workspace w write).1)
      creates g e =
          grant_creator_access-scoped m scoped
          ∙ drop_result-ok (grant_permission fresh now db user workspace w write) g e

  -- For a user with no grant on data the call makes no grant, so the user stays unrestricted.
  pub grant_creator_access-unscoped :
      ¬ IsScoped db user → grant_creator_access fresh now db p w ≡ (ok tt, db)
  unfolding grant_creator_access
  grant_creator_access-unscoped none_held = ground (arith, (is_empty_iff db user).1 none_held)
