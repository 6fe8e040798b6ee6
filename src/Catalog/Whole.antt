-- ===== src/Catalog/Whole.antt =====
-- The constraints of the tables of workspaces, collections and documents, and that no operation of
-- api/services/workspaces.py and api/services/collections.py breaks them.
use embedbase.Collections.{collides, drop_collection, renames_onto, same_name, update_collections}
use embedbase.Prelude.{
  Bool, Bool-cases, Distinct, Distinct-filter_by, Distinct-snoc, List, Option-cases, String, [],
  all_of, all_of-append, all_of-filter_by, all_of_mono, any_of, arith, contains,
  contains-map-others, contains-map-snoc, eq_iff, false, filter_by, inl, inr, map, not, refl, some,
  true, ◌&&◌, ◌++◌, ◌==◌, ◌||◌, ◌∙◌, ◌∷◌, ◌≡◌,
}
use embedbase.Tables.{Collection, Db, Document, Workspace}
use embedbase.Workspaces.{
  Changes, collection_keys, drop_workspace, keep_collection, keep_document, keep_workspace,
  update_workspaces, workspace_ids,
}

-- No two collections of a workspace have one name.
abbrev pub UniqueNames : List Collection → Type 0
UniqueNames [] = Unit
UniqueNames (c ∷ rows) = (any_of (same_name c.workspace_id c.name) rows ≡ false) × UniqueNames rows

abbrev pub has_parent : Db → Collection → Bool
has_parent db c = contains (workspace_ids db) c.workspace_id

abbrev pub has_home : Db → Document → Bool
has_home db d = contains (collection_keys db.collections) d.collection_id

-- Primary keys, unique names, and no row that refers to a missing one.
pub record IsWhole (db : Db) : Type 0 where
  pub workspace_keys : Distinct (workspace_ids db)
  pub collection_ids : Distinct (collection_keys db.collections)
  pub names : UniqueNames db.collections
  pub parents : all_of (has_parent db) db.collections ≡ true
  pub homes : all_of (has_home db) db.documents ≡ true

any_of-snoc {ℓ} :
    {A : Type ℓ} (p : A → Bool) (xs : List A) (x : A)
    → any_of p (xs ++ x ∷ []) ≡ (any_of p xs || p x)
any_of-snoc p [] x = ground arith
any_of-snoc p (y ∷ xs) x = ground (arith, any_of-snoc p xs x)

UniqueNames-snoc :
    (rows : List Collection) (c : Collection)
    → UniqueNames rows
    → any_of (same_name c.workspace_id c.name) rows ≡ false
    → UniqueNames (rows ++ c ∷ [])
UniqueNames-snoc [] c u h = (refl, tt)
UniqueNames-snoc (r ∷ rows) c u h = (
  any_of-snoc (same_name r.workspace_id r.name) rows c
      ∙ ground (
        arith,
        u.0,
        eq_iff r.workspace_id c.workspace_id,
        eq_iff c.workspace_id r.workspace_id,
        eq_iff r.name c.name,
        eq_iff c.name r.name,
      ),
  UniqueNames-snoc rows c u.1 (ground arith),
)

any_of-filter_by {ℓ} :
    {A : Type ℓ} (p k : A → Bool) (xs : List A)
    → any_of p xs ≡ false
    → any_of p (filter_by k xs) ≡ false
any_of-filter_by p k [] h = refl
any_of-filter_by p k (x ∷ xs) h = ground (arith, any_of-filter_by p k xs)

UniqueNames-filter_by :
    (k : Collection → Bool) (rows : List Collection)
    → UniqueNames rows
    → UniqueNames (filter_by k rows)
UniqueNames-filter_by k [] u = tt
UniqueNames-filter_by k (c ∷ rows) u =
    let rest = UniqueNames-filter_by k rows u.1 in
    elim (Bool-cases (k c)) [
      | inl e ↦ rw e (any_of-filter_by (same_name c.workspace_id c.name) k rows u.0, rest)
      | inr e ↦ rw e rest
    ]

-- Updates keep every key and reference.
pub workspace_ids-update :
    (now ws_id : String) (body : Changes) (rows : List Workspace)
    → map (λ (w : Workspace). w.id) (update_workspaces now ws_id body rows)
      ≡ map (λ (w : Workspace). w.id) rows
workspace_ids-update now ws_id body [] = refl
workspace_ids-update now ws_id body (w ∷ rows) =
    ground (arith, workspace_ids-update now ws_id body rows)

pub collection_keys-update :
    (now col_id : String) (body : Changes) (rows : List Collection)
    → collection_keys (update_collections now col_id body rows) ≡ collection_keys rows
collection_keys-update now col_id body [] = refl
collection_keys-update now col_id body (c ∷ rows) =
    ground (arith, collection_keys-update now col_id body rows)

pub parents-update :
    (ws_ids : List String) (now col_id : String) (body : Changes) (rows : List Collection)
    → all_of
        (λ (c : Collection). contains ws_ids c.workspace_id)
        (update_collections now col_id body rows)
      ≡ all_of (λ (c : Collection). contains ws_ids c.workspace_id) rows
parents-update ws_ids now col_id body [] = refl
parents-update ws_ids now col_id body (c ∷ rows) =
    ground (arith, parents-update ws_ids now col_id body rows)

module _ (now ws_id col_id : String) (body : Changes) where
  -- the row that is updated stands in the workspace
  abbrev pub in_workspace : Collection → Bool
  in_workspace c = not (c.id == col_id) || c.workspace_id == ws_id

  update-absent :
      (rows : List Collection)
      → contains (collection_keys rows) col_id ≡ false
      → update_collections now col_id body rows ≡ rows
  update-absent [] h = refl
  update-absent (c ∷ rows) h = ground (arith, update-absent rows)

  no_other_name :
      (name : String) (rows : List Collection)
      → contains (collection_keys rows) col_id ≡ false
      → any_of (λ (c : Collection). not (c.id == col_id) && same_name ws_id name c) rows ≡ false
      → any_of (same_name ws_id name) rows ≡ false
  no_other_name name [] h e = refl
  no_other_name name (c ∷ rows) h e = ground (arith, no_other_name name rows)

  -- a name that no row takes is still free after the update
  name_free-update :
      (ws name : String) (rows : List Collection)
      → any_of (same_name ws name) rows ≡ false
      → all_of in_workspace rows ≡ true
      → ((new : String) → body.name ≡ some new → (ws == ws_id && name == new) ≡ false)
      → any_of (same_name ws name) (update_collections now col_id body rows) ≡ false
  name_free-update ws name [] h i f = refl
  name_free-update ws name (c ∷ rows) h i f = elim (Option-cases body.name) [
    | inl e ↦ ground (arith, name_free-update ws name rows)
    | inr (new, e) ↦ ground (
      arith,
      name_free-update ws name rows,
      f new e,
      eq_iff c.workspace_id ws_id,
      eq_iff c.workspace_id ws,
      eq_iff ws ws_id,
      eq_iff name new,
      eq_iff new name,
    )
  ]

  pub UniqueNames-update :
      (rows : List Collection)
      → Distinct (collection_keys rows)
      → UniqueNames rows
      → all_of in_workspace rows ≡ true
      → renames_onto ws_id col_id body rows ≡ false
      → UniqueNames (update_collections now col_id body rows)
  UniqueNames-update [] d u i r = tt
  UniqueNames-update (c ∷ rows) d u i r =
      let later : renames_onto ws_id col_id body rows ≡ false = elim (Option-cases body.name) [
        | inl n ↦ ground arith
        | inr (new, n) ↦ ground arith
      ] in
      let rest = UniqueNames-update rows d.1 u.1 (ground arith) later in
      elim (Bool-cases (c.id == col_id)) [
        | inl e ↦ rw e (
          rw (update-absent rows (ground (arith, eq_iff c.id col_id, d.0)))
              (elim (Option-cases body.name) [
                | inl n ↦ rw n u.0
                | inr (new, n) ↦ rw n (
                    rw ((eq_iff c.workspace_id ws_id).0 (ground arith)) (
                      no_other_name new rows (ground (arith, eq_iff c.id col_id, d.0))
                        (ground arith)))
              ]),
          rest,
        )
        | inr e ↦ rw e (
          name_free-update c.workspace_id c.name rows u.0 (ground arith) (λ new n. ground arith),
          rest,
        )
      ]

module _ (db : Db) (whole : IsWhole db) where
  pub drop_workspace-IsWhole : (ws_id : String) → IsWhole (drop_workspace ws_id db)
  drop_workspace-IsWhole ws_id = record {
    workspace_keys =
        Distinct-filter_by (λ (w : Workspace). w.id) (keep_workspace ws_id) db.workspaces
          whole.workspace_keys;
    collection_ids =
        Distinct-filter_by (λ (c : Collection). c.id) (keep_collection ws_id) db.collections
          whole.collection_ids;
    names = UniqueNames-filter_by (keep_collection ws_id) db.collections whole.names;
    parents =
        all_of-filter_by (has_parent db) (keep_collection ws_id)
          (has_parent (drop_workspace ws_id db)) db.collections
          (λ c kept h.
            contains-map-others (λ (w : Workspace). w.id) (keep_workspace ws_id) db.workspaces
              c.workspace_id
              (λ w e.
                ground (
                  arith,
                  eq_iff w.id c.workspace_id,
                  eq_iff w.id ws_id,
                  eq_iff c.workspace_id ws_id,
                ))
            ∙ h)
          whole.parents;
    homes =
        all_of-filter_by (has_home db)
          (keep_document (collection_keys (drop_workspace ws_id db).collections))
          (has_home (drop_workspace ws_id db)) db.documents (λ d kept h. kept) whole.homes;
  }

  pub drop_collection-IsWhole : (col_id : String) → IsWhole (drop_collection col_id db)
  drop_collection-IsWhole col_id = record {
    workspace_keys = whole.workspace_keys;
    collection_ids =
        Distinct-filter_by (λ (c : Collection). c.id) (λ (c : Collection). not (c.id == col_id))
          db.collections whole.collection_ids;
    names =
        UniqueNames-filter_by (λ (c : Collection). not (c.id == col_id)) db.collections whole.names;
    parents =
        all_of-filter_by (has_parent db) (λ (c : Collection). not (c.id == col_id)) (has_parent db)
          db.collections (λ c kept h. h) whole.parents;
    homes =
        all_of-filter_by (has_home db) (λ (d : Document). not (d.collection_id == col_id))
          (has_home (drop_collection col_id db)) db.documents
          (λ d kept h.
            contains-map-others (λ (c : Collection). c.id)
              (λ (c : Collection). not (c.id == col_id)) db.collections d.collection_id
              (λ c e. ground (
                arith,
                eq_iff c.id d.collection_id,
                eq_iff c.id col_id,
                eq_iff d.collection_id col_id,
              ))
            ∙ h)
          whole.homes;
  }

  pub insert_workspace-IsWhole :
      (w : Workspace)
      → contains (workspace_ids db) w.id ≡ false
      → IsWhole (record db { workspaces = db.workspaces ++ w ∷ [] })
  insert_workspace-IsWhole w h = record {
    workspace_keys = Distinct-snoc (λ (r : Workspace). r.id) db.workspaces w whole.workspace_keys h;
    collection_ids = whole.collection_ids;
    names = whole.names;
    parents =
        all_of_mono (has_parent db)
          (has_parent (record db { workspaces = db.workspaces ++ w ∷ [] })) db.collections
          (λ c q.
            contains-map-snoc (λ (r : Workspace). r.id) db.workspaces w c.workspace_id
            ∙ ground arith)
          whole.parents;
    homes = whole.homes;
  }

  pub insert_collection-IsWhole :
      (c : Collection)
      → contains (workspace_ids db) c.workspace_id ≡ true
      → collides c db.collections ≡ false
      → IsWhole (record db { collections = db.collections ++ c ∷ [] })
  insert_collection-IsWhole c p h = record {
    workspace_keys = whole.workspace_keys;
    collection_ids =
        Distinct-snoc (λ (r : Collection). r.id) db.collections c whole.collection_ids
          (ground arith);
    names = UniqueNames-snoc db.collections c whole.names (ground arith);
    parents = all_of-append (has_parent db) db.collections (c ∷ []) ∙ ground (arith, whole.parents);
    homes =
        all_of_mono (has_home db) (has_home (record db { collections = db.collections ++ c ∷ [] }))
          db.documents
          (λ d q.
            contains-map-snoc (λ (r : Collection). r.id) db.collections c d.collection_id
            ∙ ground arith)
          whole.homes;
  }
