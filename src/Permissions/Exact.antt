-- ===== src/Permissions/Exact.antt =====
-- What the checks of api/services/permissions.py let a restricted user read, in terms of the rows
-- of the tables alone.
use embedbase.Prelude.{
  String, ◌≡◌, refl, ◌↔◌, ◌⊎◌, inl, inr, true, false, some, [], ◌∷◌, is_nil, Bool-cases,
  Option-cases, arith, eq_refl,
}
use embedbase.Prelude.Dict.{Dict, has}
use embedbase.Http.{ok, raise}
use embedbase.Auth.{Principal}
use embedbase.Tables.{Level, read, workspace, collection, document, Db}
use embedbase.Permissions.Scope.{Scope, resolve_scope, collection_ws, document_location, is_empty}
use embedbase.Permissions.Authorize.{
  denied, collection_allowed, authorize_collection, authorize_document, authorize_workspace,
}
use embedbase.Permissions.Agreement.{allowed, authorize_collection-allowed}
use embedbase.Permissions.Resolve.{Held, IsKeyed, has-ws_level, has-col_level, has-doc_level}
use embedbase.Permissions.Visible.{
  Narrows, Browsable, direct, whole_workspace, collection_readable-Browsable,
  workspace_readable_iff, document_readable_iff,
}

-- The user holds a grant on some workspace, collection or document.
pub data IsScoped (db : Db) (user : String) : Type 0 where
  by_workspace : (k : String) → Held db.permissions user workspace k → IsScoped db user
  by_collection : (k : String) → Held db.permissions user collection k → IsScoped db user
  by_document : (k : String) → Held db.permissions user document k → IsScoped db user

first_key {ℓ} : {V : Type ℓ} (d : Dict V) → is_nil d ≡ false → (k : String) × (has d k ≡ true)
first_key [] h = absurd (ground arith)
first_key ((k, v) ∷ d) h = (k, ground (arith, eq_refl k))

is_nil_of_has {ℓ} : {V : Type ℓ} (d : Dict V) (k : String) → has d k ≡ true → is_nil d ≡ false
is_nil_of_has [] k h = ground arith
is_nil_of_has (e ∷ d) k h = refl

module _ (db : Db) (user : String) where
  abbrev s : Scope
  s = resolve_scope db user

  IsScoped-of_nonempty : is_empty s ≡ false → IsScoped db user
  unfolding is_empty
  IsScoped-of_nonempty h = elim (Bool-cases (is_nil s.ws_level)) [
    | inr e ↦ let (k, i) = first_key s.ws_level e in by_workspace k ((has-ws_level db user k).0 i)
    | inl e ↦ elim (Bool-cases (is_nil s.col_level)) [
      | inr f ↦
          let (k, i) = first_key s.col_level f in by_collection k ((has-col_level db user k).0 i)
      | inl f ↦
          let (k, i) = first_key s.doc_level (ground arith) in
          by_document k ((has-doc_level db user k).0 i)
    ]
  ]

  pub nonempty_of_scoped : IsScoped db user → is_empty s ≡ false
  unfolding is_empty
  nonempty_of_scoped (by_workspace k h) =
      ground (arith, is_nil_of_has s.ws_level k ((has-ws_level db user k).1 h))
  nonempty_of_scoped (by_collection k h) =
      ground (arith, is_nil_of_has s.col_level k ((has-col_level db user k).1 h))
  nonempty_of_scoped (by_document k h) =
      ground (arith, is_nil_of_has s.doc_level k ((has-doc_level db user k).1 h))

  -- The scope of a user is empty exactly when no grant on data is held.
  pub is_empty_iff : (is_empty (resolve_scope db user) ≡ true) ↔ (¬ IsScoped db user)
  is_empty_iff = (
    λ e h. absurd (ground (arith, nonempty_of_scoped h)),
    λ none_held. elim (Bool-cases (is_empty s)) [
      | inl e ↦ e
      | inr e ↦ absurd (none_held (IsScoped-of_nonempty e))
    ],
  )

-- `authorize_collection` returns, or raises its one error.
ok_or_denied :
    (db : Db) (p : Principal) (c : String)
    → ¬ (authorize_collection db p c read ≡ ok tt)
    → authorize_collection db p c read ≡ raise 403 (denied read)
ok_or_denied db p c h =
    let e = authorize_collection-allowed db p c read in
    elim (Bool-cases (allowed db p (λ s. collection_allowed s c read (collection_ws db c)))) [
      | inl t ↦ absurd (h (ground arith))
      | inr t ↦ ground arith
    ]

module _ (db : Db) (p : Principal) (user : String) (keyed : IsKeyed db)
    (not_master : p.is_master ≡ false) (of_user : p.user_id ≡ some user) where
  -- A caller that is no master and whose user holds no grant on data reads and writes every
  -- collection, document and workspace.
  pub unscoped_unrestricted :
      ¬ IsScoped db user
      → (k : String) (need : Level)
      → (authorize_collection db p k need ≡ ok tt)
        × (authorize_document db p k need ≡ ok tt)
        × (authorize_workspace db p k need ≡ ok tt)
  unfolding authorize_collection authorize_document authorize_workspace
  unscoped_unrestricted none_held k need =
      let e = (is_empty_iff db user).1 none_held in (ground arith, ground arith, ground arith)

  -- Where the tables keep their primary keys, a caller that is no master and whose user holds a
  -- grant on data reads exactly: the existing collections that are browsable; the located documents
  -- with a grant of their own or in a browsable collection; and the workspaces with a grant on them
  -- or on something inside them.
  pub scoped_reads :
      IsScoped db user
      → (k : String)
      → ((authorize_collection db p k read ≡ ok tt)
          ↔ ((w : String) × (collection_ws db k ≡ some w) × Browsable db user k w))
        × ((authorize_document db p k read ≡ ok tt) ↔ (
            (c : String) × (w : String) × (document_location db k ≡ some (c, w))
            × (Held db.permissions user document k ⊎ Browsable db user c w)))
        × ((authorize_workspace db p k read ≡ ok tt)
            ↔ (Held db.permissions user workspace k ⊎ Narrows db user k))
  unfolding authorize_collection authorize_document authorize_workspace
  scoped_reads held k =
      let scoped = nonempty_of_scoped db user held in
      (
        (
          λ h. elim (Option-cases (collection_ws db k)) [
            | inl e ↦ absurd (ground arith)
            | inr (w, e) ↦
                (w, e, (collection_readable-Browsable db user keyed k w e).0 (ground arith))
          ],
          λ t. ground (arith, t.1, (collection_readable-Browsable db user keyed k t.0 t.1).1 t.2),
        ),
        (
          λ h. elim (Option-cases (document_location db k)) [
            | inl e ↦ absurd (ground arith)
            | inr (cw, e) ↦ (
              cw.0,
              cw.1,
              e,
              (document_readable_iff db user keyed k cw.0 cw.1 e).0 (ground arith),
            )
          ],
          λ t. ground (arith, t.2, (document_readable_iff db user keyed k t.0 t.1 t.2).1 t.3),
        ),
        (
          λ h. (workspace_readable_iff db user keyed k).0 (ground arith),
          λ t. ground (arith, (workspace_readable_iff db user keyed k).1 t),
        ),
      )

-- Where the tables keep their primary keys, a caller that is no master and whose user's only grants
-- on data are on documents does not read the collection of a located document as a whole, and reads
-- the document exactly where a grant is held on it.
pub document_grants_leak_nothing :
    (db : Db) (p : Principal) (user : String)
    → IsKeyed db
    → p.is_master ≡ false
    → p.user_id ≡ some user
    → IsScoped db user
    → ((k : String) → ¬ Held db.permissions user workspace k)
    → ((k : String) → ¬ Held db.permissions user collection k)
    → (d c w : String) → document_location db d ≡ some (c, w)
    → (authorize_collection db p c read ≡ raise 403 (denied read))
      × ((authorize_document db p d read ≡ ok tt) ↔ Held db.permissions user document d)
document_grants_leak_nothing db p user keyed m u scoped no_ws no_col d c w e = (
  ok_or_denied db p c
      λ h. let (w', _, b) = (scoped_reads db p user keyed m u scoped c).0.0 h in no_browse c w' b,
  (
    λ h.
        let (c', w', _, r) = (scoped_reads db p user keyed m u scoped d).1.0 h in
        elim r [ inl x ↦ x | inr b ↦ absurd (no_browse c' w' b) ],
    λ h. (scoped_reads db p user keyed m u scoped d).1.1 (c, w, e, inl h),
  ),
)
  where
    no_browse : (c w : String) → ¬ Browsable db user c w
    no_browse c w (direct h) = no_col c h
    no_browse c w (whole_workspace h n) = no_ws w h
