-- ===== src/Permissions/WholeScope.antt =====
-- `readable_collection_scope` (api/services/permissions.py), which has no candidates to filter,
-- returns the collections that `authorize_collection` lets the caller read.
use embedbase.Prelude.{
  String, ◌≡◌, refl, ap, ap₂, ◌∙◌, ◌↔◌, inl, inr, ◌==◌, eq_iff, Bool, true, false, not, ◌||◌, ◌&&◌,
  Option, none, some, List, [], ◌∷◌, map, contains, contains-append, contains-filter_by,
  contains-dedup, is_nil, filter_by, find_by, Distinct, Bool-cases, Option-cases, if◌then◌else◌,
  arith,
}
use embedbase.Prelude.Dict.{Dict, get, has, keys, values, get_absent, Distinct-select, contains_nil}
use embedbase.Http.{ok}
use embedbase.Auth.{Principal}
use embedbase.Tables.{read, Collection, Db, collection_row}
use embedbase.Permissions.Scope.{Scope, resolve_scope, collection_ws, collection_readable}
use embedbase.Permissions.Authorize.{collection_allowed, authorize_collection}
use embedbase.Permissions.Listing.{
  readable_entries, open_workspaces, collection_ids, visible_ids, readable_collection_scope,
}
use embedbase.Permissions.Resolve.{IsKeyed, need_cols, get-col_ws}

abbrev pub in_scope : Option (List String) → String → Bool
in_scope none c = true
in_scope (some ids) c = contains ids c

-- the test of a collection whose workspace may be unknown
abbrev entry_readable : Scope → String → Option String → Bool
entry_readable s c none = false
entry_readable s c (some w) = collection_readable s c w

contains-readable_entries :
    (s : Scope) (d : Dict String) (c : String)
    → Distinct (keys d)
    → contains (readable_entries s d) c ≡ entry_readable s c (get d c)
contains-readable_entries s [] c h = refl
contains-readable_entries s ((j, w) ∷ d) c h =
    ground (arith, contains-readable_entries s d c h.1, get_absent d c, eq_iff j c)

abbrev opened : List String → Option Collection → Bool
opened open_ws none = false
opened open_ws (some r) = contains open_ws r.workspace_id

opened_nil :
    (open_ws : List String) (o : Option Collection)
    → is_nil open_ws ≡ true
    → opened open_ws o ≡ false
opened_nil open_ws none e = refl
opened_nil open_ws (some r) e = contains_nil open_ws r.workspace_id e

contains-collection_ids_absent :
    (open_ws : List String) (rows : List Collection) (c : String)
    → contains (map (λ (r : Collection). r.id) rows) c ≡ false
    → contains (collection_ids (filter_by (λ r. contains open_ws r.workspace_id) rows)) c ≡ false
contains-collection_ids_absent open_ws [] c h = refl
contains-collection_ids_absent open_ws (r ∷ rows) c h =
    ground (arith, contains-collection_ids_absent open_ws rows c)

contains-collection_ids :
    (open_ws : List String) (rows : List Collection) (c : String)
    → Distinct (map (λ (r : Collection). r.id) rows)
    → contains (collection_ids (filter_by (λ r. contains open_ws r.workspace_id) rows)) c
      ≡ opened open_ws (find_by (λ r. r.id == c) rows)
contains-collection_ids open_ws [] c h = refl
contains-collection_ids open_ws (r ∷ rows) c h = ground (
  arith,
  contains-collection_ids open_ws rows c h.1,
  contains-collection_ids_absent open_ws rows c,
  eq_iff r.id c,
)

module _ (db : Db) (user : String) (keyed : IsKeyed db) where
  abbrev s : Scope
  s = resolve_scope db user

  Distinct-col_ws : Distinct (keys s.col_ws)
  unfolding resolve_scope
  Distinct-col_ws =
      Distinct-select (λ (r : Collection). r.id) (λ r. r.workspace_id) (is_nil (need_cols db user))
        (filter_by (λ r. contains (need_cols db user) r.id) db.collections)

  abbrev entries : List String
  entries = readable_entries s s.col_ws

  abbrev open_ws : List String
  open_ws = open_workspaces s

  abbrev in_open : List String
  in_open = collection_ids (filter_by (λ r. contains open_ws r.workspace_id) db.collections)

  -- the test `ws in open_ws`, for a workspace that may be unknown
  abbrev is_open : Option String → Bool
  is_open none = false
  is_open (some w) = contains s.touched_ws w && not (contains s.narrowed_ws w)

  contains-in_open : (c : String) → contains in_open c ≡ is_open (collection_ws db c)
  unfolding collection_ws
  contains-in_open c =
      contains-collection_ids open_ws db.collections c keyed.collections ∙ go (collection_row db c)
    where
      go :
          (o : Option Collection)
          → opened open_ws o ≡ is_open (elim o [ none ↦ none | some r ↦ some r.workspace_id ])
      go none = refl
      go (some r) =
          contains-filter_by (λ ws. not (contains s.narrowed_ws ws)) s.touched_ws r.workspace_id

  contains-visible_parts :
      (c : String) → contains (visible_ids db s) c ≡ (contains entries c || contains in_open c)
  contains-visible_parts c = elim (Bool-cases (is_nil open_ws)) [
    | inl e ↦ rw e (
        ground (
          arith,
          contains-collection_ids open_ws db.collections c keyed.collections,
          opened_nil open_ws (collection_row db c) e,
        ))
    | inr e ↦ rw e (contains-append entries in_open c)
  ]

  -- a collection with no entry in `col_ws` is readable only in an open workspace
  entry_or_open :
      (c : String) (o : Option String) (needed : Bool)
      → (has s.col_level c ≡ true → needed ≡ true)
      → (entry_readable s c (if needed then o else none) || is_open o)
        ≡ collection_allowed s c read o
  unfolding collection_readable
  entry_or_open c none needed covers = ground arith
  entry_or_open c (some w) needed covers = ground (arith, covers)

  contains-visible_ids :
      (c : String)
      → contains (visible_ids db s) c ≡ collection_allowed s c read (collection_ws db c)
  contains-visible_ids c =
      let needed : Bool = contains (need_cols db user) c in
      let covers : has s.col_level c ≡ true → needed ≡ true =
        λ h. contains-append (keys s.col_level) (values s.doc_col) c ∙ ground arith in
      let entry : contains entries c
          ≡ entry_readable s c (if needed then collection_ws db c else none) =
        contains-readable_entries s s.col_ws c Distinct-col_ws
        ∙ ap (entry_readable s c) (get-col_ws db user keyed c) in
      contains-visible_parts c
      ∙ ap₂ (λ a b. a || b) entry (contains-in_open c)
      ∙ entry_or_open c (collection_ws db c) needed covers

-- Where the tables keep their primary keys, the collections of `readable_collection_scope` (all of
-- them, where it returns `None`) are exactly those that `authorize_collection` lets the caller
-- read.
pub readable_collection_scope-authorize :
    (db : Db) (p : Principal) (c : String)
    → IsKeyed db
    → (in_scope (readable_collection_scope db p) c ≡ true)
      ↔ (authorize_collection db p c read ≡ ok tt)
unfolding readable_collection_scope authorize_collection
readable_collection_scope-authorize db p c keyed = elim (Option-cases p.user_id) [
  | inl e ↦ ground arith
  | inr (user, e) ↦ ground (
    arith,
    contains-dedup (visible_ids db (resolve_scope db user)) c,
    contains-visible_ids db user keyed c,
  )
]
