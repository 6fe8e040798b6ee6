-- ===== src/Catalog/Branches.antt =====
-- What the calls of api/services/workspaces.py and api/services/collections.py answer and leave.
use embedbase.Collections.{collides, create_collection, get_collection, new_collection}
use embedbase.Http.{about, ok, raise}
use embedbase.Prelude.{
  Bool, Bool-cases, List, Option-cases, String, [], ap₂, arith, contains, eq_iff, eq_refl, false,
  filter_by, find_by, inl, inr, none, refl, some, sym, true, ◌&&◌, ◌++◌, ◌==◌, ◌||◌, ◌∙◌, ◌∷◌, ◌≡◌,
  ◌⊎◌,
}
use embedbase.Tables.{Collection, Db, Workspace, workspace_row}
use embedbase.Tags.Synced.{fresh}
use embedbase.Workspaces.{
  collection_keys, delete_workspace, get_workspace, keep_collection, keep_workspace,
  require_workspace, workspace_reply,
}

find_by-snoc-new :
    (p : Collection → Bool) (rows : List Collection) (c : Collection)
    → find_by p rows ≡ none
    → p c ≡ true
    → find_by p (rows ++ c ∷ []) ≡ some c
find_by-snoc-new p [] c h e = ground arith
find_by-snoc-new p (r ∷ rows) c h e = ground (arith, find_by-snoc-new p rows c)

find_by-absent :
    (p : Collection → Bool) (k : String) (rows : List Collection)
    → ((c : Collection) → p c ≡ true → (c.id == k) ≡ true)
    → contains (collection_keys rows) k ≡ false
    → find_by p rows ≡ none
find_by-absent p k [] f h = refl
find_by-absent p k (c ∷ rows) f h = ground (arith, f c, find_by-absent p k rows f)

-- a collection has the id, or the name in the workspace
abbrev pub taken : String → String → String → List Collection → Bool
taken fresh ws_id name [] = false
taken fresh ws_id name (c ∷ rows) =
    c.id == fresh || (c.workspace_id == ws_id && c.name == name) || taken fresh ws_id name rows

collides-taken :
    (row : Collection) (rows : List Collection)
    → collides row rows ≡ taken row.id row.workspace_id row.name rows
collides-taken row [] = refl
collides-taken row (c ∷ rows) = ground (arith, collides-taken row rows)

-- Creating a collection answers 404 where the workspace is missing and 409 where the name is taken
-- in the workspace or the new id is in use, and then writes nothing; else the new collection can
-- be fetched as it was answered, with counts of zero.
pub create_collection-branches :
    (fresh now ws_id name description color icon : String) (db : Db)
    → ((workspace_row db ws_id ≡ none)
        × (create_collection fresh now ws_id name description color icon db
            ≡ (raise 404 (about "Workspace" ws_id), db)))
      ⊎ ((w : Workspace) × (workspace_row db ws_id ≡ some w)
          × (((taken fresh ws_id name db.collections ≡ true)
                × (create_collection fresh now ws_id name description color icon db
                    ≡ (raise 409 (about "Collection" name), db)))
              ⊎ ((taken fresh ws_id name db.collections ≡ false)
                  × ((create_collection fresh now ws_id name description color icon db).0
                      ≡ ok (record {
                        row = new_collection fresh now ws_id name description color icon;
                        document_count = 0;
                        chunk_count = 0;
                      }))
                  × (get_collection ws_id fresh
                        (create_collection fresh now ws_id name description color icon db).1
                      ≡ ok (new_collection fresh now ws_id name description color icon)))))
unfolding create_collection require_workspace get_collection
create_collection-branches fresh now ws_id name description color icon db =
    let row : Collection = new_collection fresh now ws_id name description color icon in
    elim (Option-cases (workspace_row db ws_id)) [
      | inl e ↦ inl (e, ground arith)
      | inr (w, e) ↦ inr (
        w,
        e,
        elim (Bool-cases (collides row db.collections)) [
          | inl n ↦ inl (sym (collides-taken row db.collections) ∙ n, ground arith)
          | inr n ↦ inr (
            sym (collides-taken row db.collections) ∙ n,
            ground arith,
            let found =
                  find_by-snoc-new (λ r. r.id == fresh && r.workspace_id == ws_id) db.collections
                    row
                    (find_by-absent (λ r. r.id == fresh && r.workspace_id == ws_id) fresh
                      db.collections (λ c q. ground arith) (ground arith))
                    (ground (arith, eq_iff fresh fresh, eq_iff ws_id ws_id)) in
                let fetches =
                  find_by-snoc-new (λ r. r.id == fresh) db.collections row
                    (find_by-absent (λ r. r.id == fresh) fresh db.collections (λ c q. q)
                      (ground arith))
                    (eq_refl fresh) in
                rw (e, n, create_collection) (rw (found, get_collection) (rw fetches refl)),
          )
        ],
      )
    ]

find_by-filter_by-none {ℓ} :
    {A : Type ℓ} (p k : A → Bool) (rows : List A)
    → ((x : A) → p x ≡ true → k x ≡ false)
    → find_by p (filter_by k rows) ≡ none
find_by-filter_by-none p k [] f = refl
find_by-filter_by-none p k (x ∷ rows) f = ground (arith, f x, find_by-filter_by-none p k rows f)

find_by-filter_by-same {ℓ} :
    {A : Type ℓ} (p k : A → Bool) (rows : List A)
    → ((x : A) → p x ≡ true → k x ≡ true)
    → find_by p (filter_by k rows) ≡ find_by p rows
find_by-filter_by-same p k [] f = refl
find_by-filter_by-same p k (x ∷ rows) f = ground (arith, f x, find_by-filter_by-same p k rows f)

filter_by-filter_by-same {ℓ} :
    {A : Type ℓ} (p k : A → Bool) (rows : List A)
    → ((x : A) → p x ≡ true → k x ≡ true)
    → filter_by p (filter_by k rows) ≡ filter_by p rows
filter_by-filter_by-same p k [] f = refl
filter_by-filter_by-same p k (x ∷ rows) f = ground (arith, f x, filter_by-filter_by-same p k rows f)

-- Deleting a workspace that exists succeeds; afterwards it and every collection under it answer
-- 404, and any other workspace is read as before, with its collections.
pub delete_workspace-gone :
    (ws_id : String) (db : Db) (row : Workspace)
    → workspace_row db ws_id ≡ some row
    → (col_id other : String) → (other == ws_id) ≡ false
    → ((delete_workspace ws_id db).0 ≡ ok tt)
      × (get_workspace ws_id (delete_workspace ws_id db).1 ≡ raise 404 (about "Workspace" ws_id))
      × (get_collection ws_id col_id (delete_workspace ws_id db).1
          ≡ raise 404 (about "Collection" col_id))
      × (get_workspace other (delete_workspace ws_id db).1 ≡ get_workspace other db)
unfolding delete_workspace get_workspace get_collection
delete_workspace-gone ws_id db row e col_id other differ =
    let gone =
      find_by-filter_by-none (λ (w : Workspace). w.id == ws_id) (keep_workspace ws_id) db.workspaces
        (λ w q. ground arith) in
    let no_collection =
      find_by-filter_by-none (λ (c : Collection). c.id == col_id && c.workspace_id == ws_id)
        (keep_collection ws_id) db.collections (λ c q. ground arith) in
    let kept =
      find_by-filter_by-same (λ (w : Workspace). w.id == other) (keep_workspace ws_id) db.workspaces
        (λ w q. ground (arith, eq_iff w.id other, eq_iff w.id ws_id, eq_iff other ws_id)) in
    let kept_in =
      filter_by-filter_by-same (λ (c : Collection). c.workspace_id == other) (keep_collection ws_id)
        db.collections
        (λ c q.
          ground (
            arith,
            eq_iff c.workspace_id other,
            eq_iff c.workspace_id ws_id,
            eq_iff other ws_id,
          )) in
    rw (e, delete_workspace)
      (
        refl,
        rw (gone, get_workspace) refl,
        rw (no_collection, get_collection) refl,
        ap₂ (λ cols o. workspace_reply other cols o) kept_in kept,
      )
