-- ===== src/Permissions/Capabilities.antt =====
-- Capabilities (api/services/permissions.py): who holds one, and that they scope no data access.
use embedbase.Prelude.{
  subst, String, ◌≡◌, refl, ◌↔◌, inl, inr, ◌==◌, eq_iff, true, false, not, some, List, [], ◌∷◌,
  is_nil, filter_by, Bool-cases, arith,
}
use mathlib.Core.List.{Memᴰ}
use embedbase.Http.{ok}
use embedbase.Auth.{Principal}
use embedbase.Tables.{
  read, ResourceType, capability, Grant, Db, same_type, same_type_iff, same_target,
}
use embedbase.Permissions.Scope.{resolve_scope, Buckets, no_levels, bucket_rows, put_level}
use embedbase.Permissions.Authorize.{
  cap_manage_tags, cap_create_workspace, has_capability, authorize_workspace,
  authorize_workspace_creation, authorize_tag_management,
}
use embedbase.Permissions.Resolve.{Held}

-- the rows that are not capabilities
abbrev pub data_rows : List Grant → List Grant
data_rows rows = filter_by (λ (g : Grant). not (same_type g.resource_type capability)) rows

bucket_rows-data_rows :
    (b : Buckets) (user : String) (rows : List Grant)
    → bucket_rows b (filter_by (λ (g : Grant). g.user_id == user) (data_rows rows))
      ≡ bucket_rows b (filter_by (λ (g : Grant). g.user_id == user) rows)
unfolding same_type
bucket_rows-data_rows b user [] = refl
bucket_rows-data_rows b user (g ∷ rows) = ground (
  arith,
  bucket_rows-data_rows b user rows,
  bucket_rows-data_rows (put_level g.resource_type g.resource_id g.level b) user rows,
)

-- Capability grants leave every user's scope, and so every data access, as it is without them.
resolve_scope-data_rows :
    (db : Db) (user : String)
    → resolve_scope (record db { permissions = data_rows db.permissions }) user
      ≡ resolve_scope db user
unfolding resolve_scope
resolve_scope-data_rows db user = rw (bucket_rows-data_rows no_levels user db.permissions)

found_Held :
    (user : String) (t : ResourceType) (k : String) (rows : List Grant)
    → is_nil (filter_by (same_target user t k) rows) ≡ false
    → Held rows user t k
unfolding same_target
found_Held user t k [] h = absurd (ground arith)
found_Held user t k (g ∷ rows) h = elim (Bool-cases (same_target user t k g)) [
  | inl e ↦ record {
    grant = g;
    is_row = Memᴰ.head refl;
    of_user = ground (arith, eq_iff g.user_id user);
    of_type = ground (arith, same_type_iff g.resource_type t);
    of_resource = ground (arith, eq_iff g.resource_id k);
  }
  | inr e ↦
      let rest : Held rows user t k = found_Held user t k rows (ground arith) in
      record {
        grant = rest.grant;
        is_row = Memᴰ.tail rest.is_row;
        of_user = rest.of_user;
        of_type = rest.of_type;
        of_resource = rest.of_resource;
      }
]

Held_found :
    (user : String) (t : ResourceType) (k : String) (rows : List Grant) (g : Grant)
    → Memᴰ g rows
    → same_target user t k g ≡ true
    → is_nil (filter_by (same_target user t k) rows) ≡ false
Held_found user t k [] g m h = elim m [ ]
Held_found user t k (r ∷ rows) g (Memᴰ.head e) h =
    let q : same_target user t k r ≡ true = subst (λ x. same_target user t k x ≡ true) e h in
    ground arith
Held_found user t k (r ∷ rows) g (Memᴰ.tail m) h = ground (arith, Held_found user t k rows g m h)

module _ (db : Db) (p : Principal) (user : String) (m : p.is_master ≡ false)
    (u : p.user_id ≡ some user) where
  has_capability_iff :
      (name : String) → (has_capability db p name ≡ true) ↔ Held db.permissions user capability name
  unfolding has_capability same_target
  has_capability_iff name = (
    λ h. found_Held user capability name db.permissions (ground arith),
    λ h.
        let found = Held_found user capability name db.permissions h.grant h.is_row (
          ground (
            arith,
            eq_iff h.grant.user_id user,
            same_type_iff h.grant.resource_type capability,
            eq_iff h.grant.resource_id name,
            h.of_user,
            h.of_type,
            h.of_resource,
          )) in
        ground arith,
  )

  -- A caller that is no master and has a user creates workspaces exactly by a grant of the
  -- capability for it, and manages the tags of a workspace exactly by a grant of the capability for
  -- that together with reading the workspace.
  pub capabilities_exact :
      (w : String)
      → ((authorize_workspace_creation db p ≡ ok tt)
          ↔ Held db.permissions user capability cap_create_workspace)
        × ((authorize_tag_management db p w ≡ ok tt) ↔ (
            Held db.permissions user capability cap_manage_tags
            × (authorize_workspace db p w read ≡ ok tt)))
  unfolding authorize_workspace_creation authorize_tag_management
  capabilities_exact w =
      let creates = has_capability_iff cap_create_workspace in
      let manages = has_capability_iff cap_manage_tags in
      (
        (λ h. creates.0 (ground arith), λ h. ground (arith, creates.1 h)),
        (λ h. (manages.0 (ground arith), ground arith), λ h. ground (arith, manages.1 h.0, h.1)),
      )
