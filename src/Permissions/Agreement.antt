-- ===== src/Permissions/Agreement.antt =====
-- The checks that raise (`authorize_*`) and the functions that narrow lists
-- (api/services/permissions.py) agree, and write access includes read access.
use embedbase.Prelude.{
  String, ◌≡◌, ap, sym, ◌∙◌, fun_ext, ◌↔◌, inl, inr, Bool, true, false, ◌||◌, ◌&&◌, none, some,
  List, contains, contains-filter_by, contains-dedup, dedup, Option-cases, arith,
}
use embedbase.Prelude.Dict.{get, get-select, contains_nil}
use embedbase.Http.{Check, ok}
use embedbase.Auth.{Principal}
use embedbase.Tables.{Level, read, write, Collection, Db, is_read}
use embedbase.Permissions.Scope.{
  Scope, resolve_scope, collection_ws, document_location, is_empty, workspace_readable,
  grants_write,
}
use embedbase.Permissions.Authorize.{
  allow_if, collection_allowed, document_allowed, authorize_collection, authorize_document,
  authorize_workspace,
}
use embedbase.Permissions.Listing.{
  scoped_filter, readable_in, writable_in, workspaces_by_collection, readable_collection_ids,
  writable_collection_ids, readable_workspace_ids, writable_workspace_ids,
}
use embedbase.Permissions.Resolve.{IsKeyed}

-- Master callers and users with no data grant pass; a scoped user passes the test of the scope.
abbrev pub allowed : Db → Principal → (Scope → Bool) → Bool
allowed db p test = p.is_master || elim p.user_id [
  | none ↦ false
  | some user ↦ is_empty (resolve_scope db user) || test (resolve_scope db user)
]

allow_if_iff : (b : Bool) (need : Level) → (allow_if b need ≡ ok tt) ↔ (b ≡ true)
allow_if_iff b need = ground arith

pub authorize_collection-allowed :
    (db : Db) (p : Principal) (c : String) (need : Level)
    → authorize_collection db p c need
      ≡ allow_if (allowed db p (λ s. collection_allowed s c need (collection_ws db c))) need
unfolding authorize_collection
authorize_collection-allowed db p c need = ground arith

pub authorize_document-allowed :
    (db : Db) (p : Principal) (d : String) (need : Level)
    → authorize_document db p d need
      ≡ allow_if (allowed db p (λ s. document_allowed s d need (document_location db d))) need
unfolding authorize_document
authorize_document-allowed db p d need = ground arith

pub authorize_workspace-allowed :
    (db : Db) (p : Principal) (w : String) (need : Level)
    → authorize_workspace db p w need
      ≡ allow_if
          (allowed db p
            (λ s. workspace_readable s w && (is_read need || grants_write (get s.ws_level w))))
          need
unfolding authorize_workspace
authorize_workspace-allowed db p w need = ground arith

contains-scoped_filter :
    (db : Db) (p : Principal) (ids : List String) (passes : Scope → String → Bool) (c : String)
    → contains (scoped_filter db p ids passes) c
      ≡ (contains ids c && allowed db p (λ s. passes s c))
contains-scoped_filter db p ids passes c = elim (Option-cases p.user_id) [
  | inl e ↦ ground (arith, contains-dedup ids c)
  | inr (user, e) ↦ ground (
    arith,
    contains-dedup ids c,
    contains_nil (dedup ids) c,
    contains-filter_by (passes (resolve_scope db user)) (dedup ids) c,
  )
]

-- Among candidates that hold it, the dictionary of workspaces has a collection's workspace.
get-workspaces_by_collection :
    (db : Db) (ids : List String) (c : String)
    → IsKeyed db
    → contains ids c ≡ true
    → get (workspaces_by_collection db (dedup ids)) c ≡ collection_ws db c
unfolding collection_ws
get-workspaces_by_collection db ids c keyed h =
    get-select (λ (r : Collection). r.id) (λ r. r.workspace_id) false (contains (dedup ids))
      db.collections c keyed.collections (λ e. absurd (ground arith))
    ∙ ground (arith, contains-dedup ids c)

-- A filter and a check whose tests are the same on every scope agree on each candidate.
filter_iff_check :
    (db : Db) (p : Principal) (ids : List String) (passes : Scope → String → Bool) (c : String)
    → (need : Level) (test : Scope → Bool) → contains ids c ≡ true
    → ((s : Scope) → passes s c ≡ test s)
    → (contains (scoped_filter db p ids passes) c ≡ true)
      ↔ (allow_if (allowed db p test) need ≡ ok tt)
filter_iff_check db p ids passes c need test h same =
    let tests : allowed db p (λ s. passes s c) ≡ allowed db p test =
      ap (allowed db p) (fun_ext same) in
    let member = contains-scoped_filter db p ids passes c in
    (
      λ m. (allow_if_iff (allowed db p test) need).1 (ground arith),
      λ e. let t = (allow_if_iff (allowed db p test) need).0 e in member ∙ ground arith,
    )

-- Where the tables keep their primary keys, a candidate stands in `readable_collection_ids` exactly
-- when `authorize_collection` lets the caller read it.
pub readable_collection_ids-authorize :
    (db : Db) (p : Principal) (ids : List String) (c : String)
    → IsKeyed db
    → contains ids c ≡ true
    → (contains (readable_collection_ids db p ids) c ≡ true)
      ↔ (authorize_collection db p c read ≡ ok tt)
unfolding readable_collection_ids
readable_collection_ids-authorize db p ids c keyed h = rw authorize_collection-allowed (
    filter_iff_check db p ids (readable_in (workspaces_by_collection db (dedup ids))) c read
      (λ s. collection_allowed s c read (collection_ws db c)) h
      λ s. ground (arith, get-workspaces_by_collection db ids c keyed h))

-- Where the tables keep their primary keys, a candidate stands in `writable_collection_ids` exactly
-- when `authorize_collection` lets the caller write it.
pub writable_collection_ids-authorize :
    (db : Db) (p : Principal) (ids : List String) (c : String)
    → IsKeyed db
    → contains ids c ≡ true
    → (contains (writable_collection_ids db p ids) c ≡ true)
      ↔ (authorize_collection db p c write ≡ ok tt)
unfolding writable_collection_ids
writable_collection_ids-authorize db p ids c keyed h = rw authorize_collection-allowed (
    filter_iff_check db p ids (writable_in (workspaces_by_collection db (dedup ids))) c write
      (λ s. collection_allowed s c write (collection_ws db c)) h
      λ s. ground (arith, get-workspaces_by_collection db ids c keyed h))

-- A candidate stands in `readable_workspace_ids` exactly when `authorize_workspace` lets the caller
-- read it, and in `writable_workspace_ids` exactly when it lets the caller write it.
workspace_ids-authorize :
    (db : Db) (p : Principal) (ids : List String) (w : String)
    → contains ids w ≡ true
    → ((contains (readable_workspace_ids db p ids) w ≡ true)
        ↔ (authorize_workspace db p w read ≡ ok tt))
      × ((contains (writable_workspace_ids db p ids) w ≡ true)
          ↔ (authorize_workspace db p w write ≡ ok tt))
unfolding readable_workspace_ids writable_workspace_ids
workspace_ids-authorize db p ids w h = (
  rw authorize_workspace-allowed (
      filter_iff_check db p ids workspace_readable w read
        (λ s. workspace_readable s w && (is_read read || grants_write (get s.ws_level w))) h
        λ s. ground arith),
  rw authorize_workspace-allowed (
      filter_iff_check db p ids
        (λ s wid. workspace_readable s wid && grants_write (get s.ws_level wid)) w write
        (λ s. workspace_readable s w && (is_read write || grants_write (get s.ws_level w))) h
        λ s. ground arith),
)

allowed_mono :
    (db : Db) (p : Principal) (f g : Scope → Bool)
    → ((s : Scope) → f s ≡ true → g s ≡ true)
    → allowed db p f ≡ true
    → allowed db p g ≡ true
allowed_mono db p f g imp h = elim (Option-cases p.user_id) [
  | inl e ↦ ground arith
  | inr (user, e) ↦ ground (arith, imp (resolve_scope db user))
]

check_mono :
    (db : Db) (p : Principal) (f g : Scope → Bool)
    → ((s : Scope) → f s ≡ true → g s ≡ true)
    → allow_if (allowed db p f) write ≡ ok tt
    → allow_if (allowed db p g) read ≡ ok tt
check_mono db p f g imp h =
    (allow_if_iff (allowed db p g) read).1
      (allowed_mono db p f g imp ((allow_if_iff (allowed db p f) write).0 h))

-- a resource with its id, and the check for its kind
pub data Resource : Type 0 where
  on_workspace on_collection on_document : String → Resource

abbrev pub authorize : Db → Principal → Resource → Level → Check
authorize db p (on_workspace k) need = authorize_workspace db p k need
authorize db p (on_collection k) need = authorize_collection db p k need
authorize db p (on_document k) need = authorize_document db p k need

-- Whoever may write a workspace, a collection or a document may read it.
pub write_implies_read :
    (db : Db) (p : Principal) (r : Resource)
    → authorize db p r write ≡ ok tt
    → authorize db p r read ≡ ok tt
write_implies_read db p (on_workspace k) h =
    authorize_workspace-allowed db p k read
    ∙ check_mono db p
        (λ s. workspace_readable s k && (is_read write || grants_write (get s.ws_level k)))
        (λ s. workspace_readable s k && (is_read read || grants_write (get s.ws_level k)))
        (λ s. ground arith) (sym (authorize_workspace-allowed db p k write) ∙ h)
write_implies_read db p (on_collection k) h =
    authorize_collection-allowed db p k read
    ∙ check_mono db p (λ s. collection_allowed s k write (collection_ws db k))
        (λ s. collection_allowed s k read (collection_ws db k)) (λ s. ground arith)
        (sym (authorize_collection-allowed db p k write) ∙ h)
write_implies_read db p (on_document k) h =
    authorize_document-allowed db p k read
    ∙ check_mono db p (λ s. document_allowed s k write (document_location db k))
        (λ s. document_allowed s k read (document_location db k)) (λ s. ground arith)
        (sym (authorize_document-allowed db p k write) ∙ h)
