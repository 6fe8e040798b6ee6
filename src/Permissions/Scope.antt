-- ===== src/Permissions/Scope.antt =====
-- api/services/permissions.py: the class `_Scope` and `_resolve_scope`. Sets are lists of which
-- only the membership is read.
use embedbase.Prelude.{
  String, ◌==◌, Bool, true, false, not, ◌||◌, Option, none, some, List, [], ◌∷◌, ◌++◌, is_nil,
  contains, values_at, filter_by, or_else, if◌then◌else◌,
}
use embedbase.Prelude.Dict.{Dict, get, put, has, keys, values, fill}
use embedbase.Tables.{
  Collection, Document, Level, ResourceType, workspace, collection, document, capability, Grant, Db,
  is_write, collection_row, document_row,
}

-- `_collection_ws`
unfoldable pub collection_ws : Db → String → Option String
collection_ws db collection_id = elim (collection_row db collection_id) [
  | none ↦ none
  | some row ↦ some row.workspace_id
]

-- `_document_location`: an inner join, so a document without its collection has no location
unfoldable pub document_location : Db → String → Option (String × String)
document_location db document_id = elim (document_row db document_id) [
  | none ↦ none
  | some d ↦ elim (collection_row db d.collection_id) [
    | none ↦ none
    | some c ↦ some (d.collection_id, c.workspace_id)
  ]
]

pub record Scope : Type 0 where
  pub ws_level : Dict Level
  pub col_level : Dict Level
  pub doc_level : Dict Level
  pub col_ws : Dict String
  pub doc_col : Dict String
  pub narrowed_cols : List String
  pub narrowed_ws : List String
  pub touched_ws : List String

-- `_Scope.__init__`
unfoldable pub make_scope : Dict Level → Dict Level → Dict Level → Dict String → Dict String → Scope
make_scope ws_level col_level doc_level col_ws doc_col =
    let narrowed_cols : List String = values_at (get doc_col) (keys doc_level) in
    let narrowed_ws : List String =
      values_at (get col_ws) (keys col_level) ++ values_at (get col_ws) narrowed_cols in
    record {
      ws_level = ws_level;
      col_level = col_level;
      doc_level = doc_level;
      col_ws = col_ws;
      doc_col = doc_col;
      narrowed_cols = narrowed_cols;
      narrowed_ws = narrowed_ws;
      touched_ws = keys ws_level ++ narrowed_ws;
    }

abbrev pub grants_write : Option Level → Bool
grants_write none = false
grants_write (some level) = is_write level

unfoldable pub is_empty : Scope → Bool
is_empty s = not (not (is_nil s.ws_level) || not (is_nil s.col_level) || not (is_nil s.doc_level))

unfoldable pub workspace_readable : Scope → String → Bool
workspace_readable s ws_id = contains s.touched_ws ws_id

unfoldable pub collection_readable : Scope → String → String → Bool
collection_readable s col_id ws_id =
    if not (contains s.touched_ws ws_id)
    then false
    else if not (contains s.narrowed_ws ws_id)
    then true
    else has s.col_level col_id

unfoldable pub document_readable : Scope → String → String → String → Bool
document_readable s doc_id col_id ws_id =
    has s.doc_level doc_id || collection_readable s col_id ws_id

unfoldable pub collection_writable : Scope → String → String → Bool
collection_writable s col_id ws_id =
    grants_write (or_else (get s.col_level col_id) (get s.ws_level ws_id))

unfoldable pub document_writable : Scope → String → String → String → Bool
document_writable s doc_id col_id ws_id =
    grants_write
      (or_else (or_else (get s.doc_level doc_id) (get s.col_level col_id)) (get s.ws_level ws_id))

-- `bucket = {"workspace": ws_level, …}`; a capability has no bucket
pub record Buckets : Type 0 where
  pub ws_level : Dict Level
  pub col_level : Dict Level
  pub doc_level : Dict Level

abbrev pub no_levels : Buckets
no_levels = record { ws_level = []; col_level = []; doc_level = [] }

abbrev pub put_level : ResourceType → String → Level → Buckets → Buckets
put_level workspace k level b = record b { ws_level = put b.ws_level k level }
put_level collection k level b = record b { col_level = put b.col_level k level }
put_level document k level b = record b { doc_level = put b.doc_level k level }
put_level capability k level b = b

-- the loop `for r in rows`
abbrev pub bucket_rows : Buckets → List Grant → Buckets
bucket_rows b [] = b
bucket_rows b (r ∷ rows) = bucket_rows (put_level r.resource_type r.resource_id r.level b) rows

abbrev pub grants_of : Db → String → List Grant
grants_of db user = filter_by (λ g. g.user_id == user) db.permissions

-- the columns that the two comprehensions of `_resolve_scope` select
abbrev pub collection_of_rows : List Document → Dict String
collection_of_rows rows = fill (λ (r : Document). r.id) (λ r. r.collection_id) [] rows

abbrev pub workspace_of_rows : List Collection → Dict String
workspace_of_rows rows = fill (λ (r : Collection). r.id) (λ r. r.workspace_id) [] rows

unfoldable pub resolve_scope : Db → String → Scope
unfolding make_scope
resolve_scope db user_id =
    let b = bucket_rows no_levels (grants_of db user_id) in
    let doc_col : Dict String =
      if is_nil b.doc_level
      then []
      else collection_of_rows (filter_by (λ r. has b.doc_level r.id) db.documents) in
    let need_cols : List String = keys b.col_level ++ values doc_col in
    let col_ws : Dict String =
      if is_nil need_cols
      then []
      else workspace_of_rows (filter_by (λ r. contains need_cols r.id) db.collections) in
    make_scope b.ws_level b.col_level b.doc_level col_ws doc_col
