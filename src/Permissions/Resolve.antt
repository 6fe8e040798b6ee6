-- ===== src/Permissions/Resolve.antt =====
-- What `resolve_scope` (api/services/permissions.py) loads: each dictionary of the scope in terms
-- of the rows of the tables.
use mathlib.Core.List.{Memᴰ}
use embedbase.Prelude.{
  String, ◌≡◌, refl, ◌∙◌, subst, ◌↔◌, inl, inr, ◌==◌, eq_iff, Bool, true, none, List, [], ◌∷◌, ◌++◌,
  map, is_nil, contains, filter_by, Distinct, Bool-cases, if◌then◌else◌, arith,
}
use embedbase.Prelude.Dict.{
  Dict, get, has, keys, values, fill, value_of, has-fill, get-select, contains_nil, get_nil,
}
use embedbase.Tables.{
  same_type_iff, Collection, Document, Level, ResourceType, workspace, collection, document, Grant,
  Db, same_type, same_target, document_row,
}
use embedbase.Permissions.Scope.{
  Buckets, no_levels, put_level, bucket_rows, grants_of, resolve_scope, collection_ws,
}

-- the levels of one resource type among the grants of a user
abbrev pub levels : ResourceType → List Grant → Dict Level → Dict Level
levels t rows d =
    fill (λ (g : Grant). g.resource_id) (λ (g : Grant). g.level) d
      (filter_by (λ (g : Grant). same_type g.resource_type t) rows)

pub ws_level-bucket_rows :
    (b : Buckets) (rows : List Grant)
    → (bucket_rows b rows).ws_level ≡ levels workspace rows b.ws_level
unfolding same_type
ws_level-bucket_rows b [] = refl
ws_level-bucket_rows b (r ∷ rows) =
    ws_level-bucket_rows (put_level r.resource_type r.resource_id r.level b) rows ∙ ground arith

pub col_level-bucket_rows :
    (b : Buckets) (rows : List Grant)
    → (bucket_rows b rows).col_level ≡ levels collection rows b.col_level
unfolding same_type
col_level-bucket_rows b [] = refl
col_level-bucket_rows b (r ∷ rows) =
    col_level-bucket_rows (put_level r.resource_type r.resource_id r.level b) rows ∙ ground arith

pub doc_level-bucket_rows :
    (b : Buckets) (rows : List Grant)
    → (bucket_rows b rows).doc_level ≡ levels document rows b.doc_level
unfolding same_type
doc_level-bucket_rows b [] = refl
doc_level-bucket_rows b (r ∷ rows) =
    doc_level-bucket_rows (put_level r.resource_type r.resource_id r.level b) rows ∙ ground arith

-- A user holds a grant on the resource.
pub record Held (rows : List Grant) (user : String) (t : ResourceType) (k : String) : Type 0 where
  pub grant : Grant
  pub is_row : Memᴰ grant rows
  pub of_user : grant.user_id ≡ user
  pub of_type : grant.resource_type ≡ t
  pub of_resource : grant.resource_id ≡ k

module _ (user : String) (t : ResourceType) (k : String) where
  abbrev pub is_held : List Grant → Bool
  is_held rows =
      contains
        (map (λ (g : Grant). g.resource_id)
          (filter_by (λ (g : Grant). same_type g.resource_type t)
            (filter_by (λ (g : Grant). g.user_id == user) rows)))
        k

  is_held-Held : (rows : List Grant) → is_held rows ≡ true → Held rows user t k
  unfolding same_target
  is_held-Held [] h = ground arith
  is_held-Held (g ∷ rows) h = elim (Bool-cases (same_target user t k g)) [
    | inl e ↦ record {
      grant = g;
      is_row = Memᴰ.head refl;
      of_user = ground (arith, eq_iff g.user_id user);
      of_type = ground (arith, same_type_iff g.resource_type t);
      of_resource = ground (arith, eq_iff g.resource_id k);
    }
    | inr e ↦
        let rest : Held rows user t k = is_held-Held rows (ground arith) in
        record {
          grant = rest.grant;
          is_row = Memᴰ.tail rest.is_row;
          of_user = rest.of_user;
          of_type = rest.of_type;
          of_resource = rest.of_resource;
        }
  ]

  Memᴰ-is_held :
      (rows : List Grant) (g : Grant)
      → Memᴰ g rows
      → same_target user t k g ≡ true
      → is_held rows ≡ true
  unfolding same_target
  Memᴰ-is_held [] g m h = elim m [ ]
  Memᴰ-is_held (r ∷ rows) g (Memᴰ.head e) h =
      let q : same_target user t k r ≡ true = subst (λ x. same_target user t k x ≡ true) e h in
      ground arith
  Memᴰ-is_held (r ∷ rows) g (Memᴰ.tail m) h = ground (arith, Memᴰ-is_held rows g m h)

  pub is_held_iff : (rows : List Grant) → (is_held rows ≡ true) ↔ Held rows user t k
  unfolding same_target
  is_held_iff rows = (
    is_held-Held rows,
    λ h. Memᴰ-is_held rows h.grant h.is_row (
        ground (
          arith,
          eq_iff h.grant.user_id user,
          same_type_iff h.grant.resource_type t,
          eq_iff h.grant.resource_id k,
          h.of_user,
          h.of_type,
          h.of_resource,
        )),
  )

-- The primary keys of the tables that the scope is resolved with.
pub record IsKeyed (db : Db) : Type 0 where
  pub collections : Distinct (map (λ (r : Collection). r.id) db.collections)
  pub documents : Distinct (map (λ (r : Document). r.id) db.documents)

module _ (db : Db) (user : String) where
  abbrev pub need_cols : List String
  need_cols = keys (resolve_scope db user).col_level ++ values (resolve_scope db user).doc_col

  pub has-ws_level :
      (k : String)
      → (has (resolve_scope db user).ws_level k ≡ true) ↔ Held db.permissions user workspace k
  unfolding resolve_scope
  has-ws_level k =
      rw (ws_level-bucket_rows no_levels (grants_of db user), has-fill)
        (is_held_iff user workspace k db.permissions)

  pub has-col_level :
      (k : String)
      → (has (resolve_scope db user).col_level k ≡ true) ↔ Held db.permissions user collection k
  unfolding resolve_scope
  has-col_level k =
      rw (col_level-bucket_rows no_levels (grants_of db user), has-fill)
        (is_held_iff user collection k db.permissions)

  pub has-doc_level :
      (k : String)
      → (has (resolve_scope db user).doc_level k ≡ true) ↔ Held db.permissions user document k
  unfolding resolve_scope
  has-doc_level k =
      rw (doc_level-bucket_rows no_levels (grants_of db user), has-fill)
        (is_held_iff user document k db.permissions)

  module _ (keyed : IsKeyed db) where
    pub get-doc_col :
        (d : String)
        → get (resolve_scope db user).doc_col d ≡ (
            if has (resolve_scope db user).doc_level d
            then value_of
                (λ (r : Document). r.id)
                (λ (r : Document). r.collection_id)
                (document_row db d)
            else none)
    unfolding resolve_scope
    get-doc_col d =
        let levels : Dict Level = (bucket_rows no_levels (grants_of db user)).doc_level in
        get-select (λ (r : Document). r.id) (λ r. r.collection_id) (is_nil levels) (has levels)
          db.documents d keyed.documents (get_nil levels d)

    pub get-col_ws :
        (c : String)
        → get (resolve_scope db user).col_ws c
          ≡ (if contains need_cols c then collection_ws db c else none)
    unfolding resolve_scope collection_ws
    get-col_ws c =
        get-select (λ (r : Collection). r.id) (λ r. r.workspace_id) (is_nil need_cols)
          (contains need_cols) db.collections c keyed.collections (contains_nil need_cols c)
