-- ===== src/Permissions/Visible.antt =====
-- What a restricted user sees, said in terms of the rows of the tables, and that the scope of
-- api/services/permissions.py decides it.
use embedbase.Prelude.{
  String, ◌≡◌, refl, sym, ◌∙◌, ◌↔◌, ◌⊎◌, inl, inr, true, ◌||◌, some, List, ◌++◌, contains,
  contains-append, values_at, contains-values_at, values_at-contains, ||-cases, Bool-cases, arith,
}
use embedbase.Prelude.Dict.{get, has, keys, values, contains-values}
use embedbase.Tables.{workspace, collection, document, Db}
use embedbase.Permissions.Scope.{
  Scope, resolve_scope, collection_ws, document_location, workspace_readable, collection_readable,
  document_readable,
}
use embedbase.Permissions.Resolve.{
  Held, IsKeyed, has-ws_level, has-col_level, has-doc_level, get-doc_col, get-col_ws,
}

-- A grant below the workspace narrows it: on one of its collections, or on a document in one.
pub data Narrows (db : Db) (user : String) (w : String) : Type 0 where
  by_collection :
      (c : String)
      → Held db.permissions user collection c
      → collection_ws db c ≡ some w
      → Narrows db user w
  by_document :
      (d c : String)
      → Held db.permissions user document d
      → document_location db d ≡ some (c, w)
      → Narrows db user w

-- A collection of the workspace is browsable: by a grant on it, or by a grant on the workspace
-- where nothing narrows that.
pub data Browsable (db : Db) (user : String) (c w : String) : Type 0 where
  direct : Held db.permissions user collection c → Browsable db user c w
  whole_workspace :
      Held db.permissions user workspace w → ¬ Narrows db user w → Browsable db user c w

module _ (db : Db) (user : String) where
  abbrev s : Scope
  s = resolve_scope db user

  abbrev by_collections : List String
  by_collections = values_at (get s.col_ws) (keys s.col_level)

  abbrev document_cols : List String
  document_cols = values_at (get s.doc_col) (keys s.doc_level)

  abbrev by_documents : List String
  by_documents = values_at (get s.col_ws) document_cols

  narrowed_ws_lem : s.narrowed_ws ≡ by_collections ++ by_documents
  unfolding resolve_scope
  narrowed_ws_lem = refl

  pub touched_ws_lem :
      (resolve_scope db user).touched_ws
      ≡ keys (resolve_scope db user).ws_level ++ (resolve_scope db user).narrowed_ws
  unfolding resolve_scope
  touched_ws_lem = refl

  contains-narrowed_ws :
      (w : String)
      → contains s.narrowed_ws w ≡ (contains by_collections w || contains by_documents w)
  contains-narrowed_ws w = rw narrowed_ws_lem (contains-append by_collections by_documents w)

  module _ (keyed : IsKeyed db) where
    document_location_of :
        (d c w : String)
        → get s.doc_col d ≡ some c
        → collection_ws db c ≡ some w
        → document_location db d ≡ some (c, w)
    unfolding document_location collection_ws
    document_location_of d c w h e = ground (arith, get-doc_col db user keyed d)

    doc_col_of :
        (d c w : String)
        → has s.doc_level d ≡ true
        → document_location db d ≡ some (c, w)
        → (get s.doc_col d ≡ some c) × (collection_ws db c ≡ some w)
    unfolding document_location collection_ws
    doc_col_of d c w h e = ground (arith, get-doc_col db user keyed d)

    collection_ws_of : (c w : String) → get s.col_ws c ≡ some w → collection_ws db c ≡ some w
    collection_ws_of c w h = ground (arith, get-col_ws db user keyed c)

    col_ws_of :
        (c w : String)
        → (contains (keys s.col_level) c || contains (values s.doc_col) c) ≡ true
        → collection_ws db c ≡ some w
        → get s.col_ws c ≡ some w
    col_ws_of c w h e =
        ground (
          arith,
          get-col_ws db user keyed c,
          contains-append (keys s.col_level) (values s.doc_col) c,
        )

    Narrows-of_contains : (w : String) → contains s.narrowed_ws w ≡ true → Narrows db user w
    Narrows-of_contains w h =
        elim (||-cases (contains by_collections w) (contains by_documents w)
          (sym (contains-narrowed_ws w) ∙ h)) [
            | inl a ↦
                let (c, in_keys, e) = values_at-contains (get s.col_ws) (keys s.col_level) w a in
                by_collection c ((has-col_level db user c).0 in_keys) (collection_ws_of c w e)
            | inr a ↦
                let (c, in_cols, e) = values_at-contains (get s.col_ws) document_cols w a in
                let (d, in_docs, q) =
                  values_at-contains (get s.doc_col) (keys s.doc_level) c in_cols in
                by_document d c ((has-doc_level db user d).0 in_docs)
                  (document_location_of d c w q (collection_ws_of c w e))
          ]

    contains_of_Narrows : (w : String) → Narrows db user w → contains s.narrowed_ws w ≡ true
    contains_of_Narrows w (by_collection c held e) =
        let granted = (has-col_level db user c).1 held in
        contains-narrowed_ws w
        ∙ ground (
          arith,
          contains-values_at (get s.col_ws) (keys s.col_level) c w granted
              (col_ws_of c w (ground arith) e),
        )
    contains_of_Narrows w (by_document d c held e) =
        let granted = (has-doc_level db user d).1 held in
        let located = doc_col_of d c w granted e in
        let in_cols = contains-values_at (get s.doc_col) (keys s.doc_level) d c granted located.0 in
        let in_need = contains-values s.doc_col d c located.0 in
        contains-narrowed_ws w
        ∙ ground (
          arith,
          contains-values_at (get s.col_ws) document_cols c w in_cols
              (col_ws_of c w (ground arith) located.1),
        )

    contains-touched_ws :
        (w : String) → contains s.touched_ws w ≡ (has s.ws_level w || contains s.narrowed_ws w)
    contains-touched_ws w = rw touched_ws_lem (contains-append (keys s.ws_level) s.narrowed_ws w)

    Browsable-of_readable :
        (c w : String) → collection_readable s c w ≡ true → Browsable db user c w
    unfolding collection_readable
    Browsable-of_readable c w h = elim (Bool-cases (contains s.narrowed_ws w)) [
      | inl narrowed ↦ direct ((has-col_level db user c).0 (ground arith))
      | inr open_ws ↦
          whole_workspace ((has-ws_level db user w).0 (ground (arith, contains-touched_ws w)))
            (λ n. absurd (ground (arith, contains_of_Narrows w n)))
    ]

    readable_of_Browsable :
        (c w : String)
        → collection_ws db c ≡ some w
        → Browsable db user c w
        → collection_readable s c w ≡ true
    unfolding collection_readable
    readable_of_Browsable c w e (direct held) = ground (
      arith,
      (has-col_level db user c).1 held,
      contains_of_Narrows w (by_collection c held e),
      contains-touched_ws w,
    )
    readable_of_Browsable c w e (whole_workspace held none_narrows) =
        elim (Bool-cases (contains s.narrowed_ws w)) [
          | inl narrowed ↦ absurd (none_narrows (Narrows-of_contains w narrowed))
          | inr open_ws ↦ ground (arith, (has-ws_level db user w).1 held, contains-touched_ws w)
        ]

    -- For a collection and its workspace, the test of the scope is exactly `Browsable`: a grant on
    -- the collection, or a grant on the workspace that no grant below it narrows.
    pub collection_readable-Browsable :
        (c w : String)
        → collection_ws db c ≡ some w
        → (collection_readable (resolve_scope db user) c w ≡ true) ↔ Browsable db user c w
    collection_readable-Browsable c w e = (Browsable-of_readable c w, readable_of_Browsable c w e)

    -- A workspace is readable exactly when a grant is held on it, or on something inside it.
    pub workspace_readable_iff :
        (w : String)
        → (workspace_readable (resolve_scope db user) w ≡ true)
          ↔ (Held db.permissions user workspace w ⊎ Narrows db user w)
    unfolding workspace_readable
    workspace_readable_iff w = (
      λ h.
          elim (||-cases (has s.ws_level w) (contains s.narrowed_ws w)
            (sym (contains-touched_ws w) ∙ h)) [
              | inl a ↦ inl ((has-ws_level db user w).0 a)
              | inr a ↦ inr (Narrows-of_contains w a)
            ],
      λ reason. contains-touched_ws w ∙ elim reason [
        | inl held ↦ ground (arith, (has-ws_level db user w).1 held)
        | inr n ↦ ground (arith, contains_of_Narrows w n)
      ],
    )

    -- A located document is readable exactly when a grant is held on it, or its collection is
    -- browsable.
    pub document_readable_iff :
        (d c w : String)
        → document_location db d ≡ some (c, w)
        → (document_readable (resolve_scope db user) d c w ≡ true)
          ↔ (Held db.permissions user document d ⊎ Browsable db user c w)
    unfolding document_readable document_location collection_ws
    document_readable_iff d c w e = (
      λ h. elim (||-cases (has s.doc_level d) (collection_readable s c w) h) [
        | inl a ↦ inl ((has-doc_level db user d).0 a)
        | inr a ↦ inr (Browsable-of_readable c w a)
      ],
      λ reason. elim reason [
        | inl held ↦ ground (arith, (has-doc_level db user d).1 held)
        | inr b ↦ ground (arith, readable_of_Browsable c w (ground arith) b)
      ],
    )
