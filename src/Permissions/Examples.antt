-- ===== src/Permissions/Examples.antt =====
-- A small installation, and the theorems on permissions (api/services/permissions.py) at it.
use mathlib.Core.List.{Memᴰ}
use embedbase.Auth.{Principal}
use embedbase.Http.{ok}
use embedbase.Permissions.Agreement.{
  readable_collection_ids-authorize, writable_collection_ids-authorize,
}
use embedbase.Permissions.Authorize.{
  authorize_collection, authorize_document, authorize_tag_management, authorize_workspace,
  authorize_workspace_creation, cap_create_workspace, cap_manage_tags,
}
use embedbase.Permissions.Capabilities.{capabilities_exact}
use embedbase.Permissions.Exact.{IsScoped, is_empty_iff, scoped_reads}
use embedbase.Permissions.GrantLaws.{IsValid, grant_permission-granted}
use embedbase.Permissions.Grants.{
  grant_creator_access, grant_permission, require_resource, revoke_permission,
}
use embedbase.Permissions.Levels.{
  collection_level, document_level, grant_creator_access-writes, scoped_writes,
}
use embedbase.Permissions.Listing.{
  CollectionItem, DocumentItem, TagItems, filter_tag_items, readable_collection_ids,
  readable_collection_scope, writable_collection_ids,
}
use embedbase.Permissions.Regrant.{equal_target, level_on}
use embedbase.Permissions.Resolve.{Held, IsKeyed, is_held_iff}
use embedbase.Permissions.Revoke.{revoke_permission-revoked}
use embedbase.Permissions.Scope.{
  collection_ws, document_location, grants_write, is_empty, resolve_scope,
}
use embedbase.Permissions.TagItems.{filter_tag_items-authorize, may_read}
use embedbase.Permissions.Visible.{Browsable, Narrows}
use embedbase.Permissions.WholeScope.{in_scope, readable_collection_scope-authorize}
use embedbase.Prelude.{
  String, [], ap, arith, contains, eq_iff, false, filter_by, if◌then◌else◌, map, none, refl, some,
  sym, true, ◌==◌, ◌↔◌, ◌∙◌, ◌∷◌, ◌≡◌, ◌≢◌, ◌⊎◌,
}
use embedbase.Tables.{
  Collection, Db, Document, Grant, ResourceType, Workspace, capability, collection, document, read,
  same_target, same_type, workspace, write,
}

abbrev ws1 : Workspace
ws1 = record {
  id = "w1";
  name = "Research";
  description = "";
  color = "#6366f1";
  icon = "folder";
  created_at = "1";
  updated_at = "1";
}

abbrev ws2 : Workspace
ws2 = record {
  id = "w2";
  name = "Legal";
  description = "";
  color = "#6366f1";
  icon = "folder";
  created_at = "1";
  updated_at = "1";
}

abbrev notes : Collection
notes = record {
  id = "c1";
  workspace_id = "w1";
  name = "Notes";
  description = "";
  color = "#6366f1";
  icon = "folder";
  created_at = "1";
  updated_at = "1";
}

abbrev drafts : Collection
drafts = record {
  id = "c2";
  workspace_id = "w1";
  name = "Drafts";
  description = "";
  color = "#6366f1";
  icon = "folder";
  created_at = "1";
  updated_at = "1";
}

abbrev laws : Collection
laws = record {
  id = "c3";
  workspace_id = "w2";
  name = "Laws";
  description = "";
  color = "#6366f1";
  icon = "folder";
  created_at = "1";
  updated_at = "1";
}

abbrev memo : Document
memo = record {
  id = "d1";
  collection_id = "c2";
  filename = "memo.md";
  file_type = ".md";
  file_size = some 120;
  chunk_count = none;
  created_at = 1;
  status = none;
  embedding_model = none;
  storage_backend = none;
  expires_at = none;
  original_filename = none;
  original_file_type = none;
  original_file_size = none;
}

-- ana writes one collection, bob reads one document, cai reads one workspace and manages tags
abbrev ana_notes : Grant
ana_notes = record {
  id = "g1";
  user_id = "ana";
  resource_type = collection;
  resource_id = "c1";
  level = write;
  created_at = "1";
}

abbrev bob_memo : Grant
bob_memo = record {
  id = "g2";
  user_id = "bob";
  resource_type = document;
  resource_id = "d1";
  level = read;
  created_at = "2";
}

abbrev cai_legal : Grant
cai_legal = record {
  id = "g3";
  user_id = "cai";
  resource_type = workspace;
  resource_id = "w2";
  level = read;
  created_at = "3";
}

abbrev cai_tags : Grant
cai_tags = record {
  id = "g4";
  user_id = "cai";
  resource_type = capability;
  resource_id = "manage_tags";
  level = write;
  created_at = "4";
}

abbrev office : Db
office = record {
  workspaces = ws1 ∷ ws2 ∷ [];
  collections = notes ∷ drafts ∷ laws ∷ [];
  documents = memo ∷ [];
  permissions = ana_notes ∷ bob_memo ∷ cai_legal ∷ cai_tags ∷ [];
}

abbrev caller : String → Principal
caller user = record {
  is_master = false;
  user_id = some user;
  api_key_id = none;
  must_change = false;
  rate_limit_rpm = 0;
}

office-IsKeyed : IsKeyed office
office-IsKeyed = record { collections = (refl, (refl, (refl, tt))); documents = (refl, tt) }

office-IsValid : IsValid office.permissions
unfolding same_target same_type
office-IsValid = record {
  keyed = (refl, (refl, (refl, (refl, tt))));
  unique = (refl, (refl, (refl, (refl, tt))));
}

ana-IsScoped : IsScoped office "ana"
ana-IsScoped = IsScoped.by_collection "c1" (record {
  grant = ana_notes;
  is_row = Memᴰ.head refl;
  of_user = refl;
  of_type = refl;
  of_resource = refl;
})

bob-Held : Held office.permissions "bob" document "d1"
bob-Held = record {
  grant = bob_memo;
  is_row = Memᴰ.tail (Memᴰ.head refl);
  of_user = refl;
  of_type = refl;
  of_resource = refl;
}

bob-IsScoped : IsScoped office "bob"
bob-IsScoped = IsScoped.by_document "d1" bob-Held

dee-unscoped : ¬ IsScoped office "dee"
unfolding resolve_scope is_empty
dee-unscoped = (is_empty_iff office "dee").0 refl

nothing-Held :
    (user : String) (t : ResourceType) (k : String)
    → contains
        (map
          (λ (g : Grant). g.resource_id)
          (filter_by
            (λ (g : Grant). same_type g.resource_type t)
            (filter_by (λ (g : Grant). g.user_id == user) office.permissions)))
        k
      ≡ false
    → ¬ Held office.permissions user t k
nothing-Held user t k e h = absurd (ground (arith, (is_held_iff user t k office.permissions).1 h))

scoped_reads_example :
    ((authorize_collection office (caller "ana") "c1" read ≡ ok tt)
      ↔ ((w : String) × (collection_ws office "c1" ≡ some w) × Browsable office "ana" "c1" w))
    × ((authorize_document office (caller "ana") "c1" read ≡ ok tt) ↔ (
        (c : String) × (w : String) × (document_location office "c1" ≡ some (c, w))
        × (Held office.permissions "ana" document "c1" ⊎ Browsable office "ana" c w)))
    × ((authorize_workspace office (caller "ana") "c1" read ≡ ok tt)
        ↔ (Held office.permissions "ana" workspace "c1" ⊎ Narrows office "ana" "c1"))
scoped_reads_example =
    scoped_reads office (caller "ana") "ana" office-IsKeyed refl refl ana-IsScoped "c1"

scoped_writes_example :
    ((authorize_collection office (caller "bob") "d1" write ≡ ok tt) ↔ (
      (w : String) × (collection_ws office "d1" ≡ some w)
      × Browsable office "bob" "d1" w
      × (grants_write (collection_level office "bob" "d1" w) ≡ true)))
    × ((authorize_document office (caller "bob") "d1" write ≡ ok tt) ↔ (
        (c : String) × (w : String) × (document_location office "d1" ≡ some (c, w))
        × (Held office.permissions "bob" document "d1" ⊎ Browsable office "bob" c w)
        × (grants_write (document_level office "bob" "d1" c w) ≡ true)))
scoped_writes_example =
    scoped_writes office (caller "bob") "bob" office-IsKeyed office-IsValid refl refl bob-IsScoped
      "d1"

readable_collection_scope-authorize_example :
    (in_scope (readable_collection_scope office (caller "cai")) "c3" ≡ true)
    ↔ (authorize_collection office (caller "cai") "c3" read ≡ ok tt)
readable_collection_scope-authorize_example =
    readable_collection_scope-authorize office (caller "cai") "c3" office-IsKeyed

readable_collection_ids-authorize_example :
    (contains (readable_collection_ids office (caller "ana") ("c2" ∷ "c1" ∷ [])) "c1" ≡ true)
    ↔ (authorize_collection office (caller "ana") "c1" read ≡ ok tt)
readable_collection_ids-authorize_example =
    readable_collection_ids-authorize office (caller "ana") ("c2" ∷ "c1" ∷ []) "c1" office-IsKeyed
      refl

writable_collection_ids-authorize_example :
    (contains (writable_collection_ids office (caller "ana") ("c2" ∷ "c1" ∷ [])) "c2" ≡ true)
    ↔ (authorize_collection office (caller "ana") "c2" write ≡ ok tt)
writable_collection_ids-authorize_example =
    writable_collection_ids-authorize office (caller "ana") ("c2" ∷ "c1" ∷ []) "c2" office-IsKeyed
      refl

grant_permission-granted_example :
    ((g : Grant) × ((grant_permission "g9" "9" office "bob" document "d1" write).0 ≡ ok g)
      × (same_target "bob" document "d1" g ≡ true)
      × (g.level ≡ write))
    × IsValid (grant_permission "g9" "9" office "bob" document "d1" write).1.permissions
    × (level_on
          (grant_permission "g9" "9" office "bob" document "d1" write).1.permissions
          "bob"
          document
          "d1"
        ≡ (if equal_target "bob" document "d1" "bob" document "d1"
            then some write
            else level_on office.permissions "bob" document "d1"))
    × ((grant_permission "g9" "9" office "bob" document "d1" write).1 ≡ record office {
      permissions = (grant_permission "g9" "9" office "bob" document "d1" write).1.permissions;
    })
unfolding require_resource
grant_permission-granted_example =
    grant_permission-granted "g9" "9" office "bob" document "d1" write refl office-IsValid refl
      "bob" document "d1"

revoke_permission-revoked_example :
    ((revoke_permission office "bob" "g2").0 ≡ ok tt)
    × IsValid (revoke_permission office "bob" "g2").1.permissions
    × (level_on (revoke_permission office "bob" "g2").1.permissions "bob" document "d1" ≡ (
        if equal_target "bob" document "d1" "bob" document "d1"
        then none
        else level_on office.permissions "bob" document "d1"))
revoke_permission-revoked_example =
    revoke_permission-revoked office bob_memo (Memᴰ.tail (Memᴰ.head refl)) office-IsValid "bob"
      document "d1"

other : (a b : String) → (a == b) ≡ false → a ≢ b
other a b h e = absurd (ground (arith, (eq_iff a b).1 e))

not_of_ana : (g : Grant) → Memᴰ g office.permissions → g.id ≡ "g2" → g.user_id ≢ "ana"
not_of_ana g (Memᴰ.head e) i u = other "g1" "g2" refl (sym (ap (λ x. x.id) e) ∙ i)
not_of_ana g (Memᴰ.tail (Memᴰ.head e)) i u =
    other "bob" "ana" refl (sym (ap (λ x. x.user_id) e) ∙ u)
not_of_ana g (Memᴰ.tail (Memᴰ.tail (Memᴰ.head e))) i u =
    other "g3" "g2" refl (sym (ap (λ x. x.id) e) ∙ i)
not_of_ana g (Memᴰ.tail (Memᴰ.tail (Memᴰ.tail (Memᴰ.head e)))) i u =
    other "g4" "g2" refl (sym (ap (λ x. x.id) e) ∙ i)
not_of_ana g (Memᴰ.tail (Memᴰ.tail (Memᴰ.tail (Memᴰ.tail m)))) i u = elim m [ ]

grant_creator_access-writes_example :
    ((grant_creator_access "g9" "9" office (caller "ana") "w2").0 ≡ ok tt)
    × (authorize_workspace
          (grant_creator_access "g9" "9" office (caller "ana") "w2").1
          (caller "ana")
          "w2"
          write
        ≡ ok tt)
grant_creator_access-writes_example =
    grant_creator_access-writes "g9" "9" office (caller "ana") "ana" "w2" refl ws2 refl refl
      ana-IsScoped office-IsValid refl

capabilities_exact_example :
    ((authorize_workspace_creation office (caller "cai") ≡ ok tt)
      ↔ Held office.permissions "cai" capability cap_create_workspace)
    × ((authorize_tag_management office (caller "cai") "w2" ≡ ok tt) ↔ (
        Held office.permissions "cai" capability cap_manage_tags
        × (authorize_workspace office (caller "cai") "w2" read ≡ ok tt)))
capabilities_exact_example = capabilities_exact office (caller "cai") "cai" refl refl "w2"

abbrev tagged : TagItems
tagged = record {
  collections = record { id = "c1"; name = "Notes" } ∷ record { id = "c3"; name = "Laws" } ∷ [];
  documents = record { id = "d1"; filename = "memo.md"; collection_id = "c2" } ∷ [];
}

filter_tag_items-authorize_example :
    ((filter_tag_items office (caller "ana") tagged).collections
      ≡ filter_by (λ (c : CollectionItem). may_read office (caller "ana") c.id) tagged.collections)
    × ((filter_tag_items office (caller "ana") tagged).documents
        ≡ filter_by
            (λ (d : DocumentItem). may_read office (caller "ana") d.collection_id)
            tagged.documents)
filter_tag_items-authorize_example =
    filter_tag_items-authorize office (caller "ana") tagged office-IsKeyed
