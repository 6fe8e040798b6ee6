-- ===== src/Permissions/Regrant.antt =====
-- What the operations on grants (api/services/permissions.py) do to the rows: the unique target,
-- the level of every target afterwards, and what a creator can do with a new workspace.
use embedbase.Prelude.{
  ap₂, String, ◌≡◌, refl, ap, ◌∙◌, subst, inl, inr, ◌==◌, eq_iff, eq_refl, Bool, true, false, ◌&&◌,
  Option, none, some, List, [], ◌∷◌, ◌++◌, map, contains, find_by, Distinct, or_else, Bool-cases,
  Option-cases, if◌then◌else◌, arith,
}
use embedbase.Tables.{same_type_iff, Level, ResourceType, Grant, same_type, same_target}
use embedbase.Permissions.Grants.{new_grant, write_found, set_level, write_grant}

abbrev pub ids : List Grant → List String
ids rows = map (λ (g : Grant). g.id) rows

-- the level that a user holds on a target, if any
abbrev pub level_value : Option Grant → Option Level
level_value none = none
level_value (some g) = some g.level

abbrev pub level_on : List Grant → String → ResourceType → String → Option Level
level_on rows user t k = level_value (find_by (same_target user t k) rows)

-- Two keys name the same target.
abbrev pub equal_target : String → ResourceType → String → String → ResourceType → String → Bool
equal_target u t k u' t' k' = u == u' && same_type t t' && k == k'

-- A test on rows that does not read the level.
abbrev IgnoresLevel : (Grant → Bool) → Type 0
IgnoresLevel p = (g : Grant) (l : Level) → p (record g { level = l }) ≡ p g

same_target-IgnoresLevel :
    (u : String) (t : ResourceType) (k : String) → IgnoresLevel (same_target u t k)
unfolding same_target
same_target-IgnoresLevel u t k g l = refl

pub find_by-contains :
    (p : Grant → Bool) (rows : List Grant) (old : Grant)
    → find_by p rows ≡ some old
    → contains (ids rows) old.id ≡ true
find_by-contains p [] old h = ground arith
find_by-contains p (g ∷ rows) old h =
    ground (arith, find_by-contains p rows old, eq_iff g.id old.id)

module _ (lvl : Level) (p : Grant → Bool) (inv : IgnoresLevel p) where
  pub set_level-absent :
      (rows : List Grant) (existing : String)
      → contains (ids rows) existing ≡ false
      → set_level existing lvl rows ≡ rows
  set_level-absent [] existing h = refl
  set_level-absent (g ∷ rows) existing h = ground (arith, set_level-absent rows existing)

  -- the row that was found is found again, with the new level
  find_by-set_level_self :
      (rows : List Grant) (old : Grant)
      → find_by p rows ≡ some old
      → find_by p (set_level old.id lvl rows) ≡ some (record old { level = lvl })
  find_by-set_level_self [] old h = cc
  find_by-set_level_self (g ∷ rows) old h =
      ground (arith, find_by-set_level_self rows old, inv g lvl, eq_iff g.id old.id)

  -- a search that passes over the row finds what it found before
  find_by-set_level_other :
      (q : Grant → Bool) (rows : List Grant) (old : Grant)
      → IgnoresLevel q
      → Distinct (ids rows)
      → find_by p rows ≡ some old
      → q old ≡ false
      → find_by q (set_level old.id lvl rows) ≡ find_by q rows
  find_by-set_level_other q [] old inv_q d h e = refl
  find_by-set_level_other q (g ∷ rows) old inv_q d h e = elim (Bool-cases (p g)) [
    | inl here ↦ ground (arith, set_level-absent rows old.id, inv_q g lvl, eq_iff g.id old.id)
    | inr later ↦ ground (
      arith,
      find_by-set_level_other q rows old inv_q d.1,
      find_by-contains p rows old,
      eq_iff g.id old.id,
    )
  ]

pub find_by_sound :
    (p : Grant → Bool) (rows : List Grant) (g : Grant) → find_by p rows ≡ some g → p g ≡ true
find_by_sound p [] g h = cc
find_by_sound p (r ∷ rows) g h = elim (Bool-cases (p r)) [
  | inl e ↦ let q : r ≡ g = ground arith in subst (λ x. p x ≡ true) q e
  | inr e ↦ find_by_sound p rows g (ground arith)
]

-- on a row of one target, the test for another target compares the targets
pub same_target-equal_target :
    (u : String) (t : ResourceType) (k : String) (g : Grant)
    → same_target u t k g ≡ true
    → (u' : String) (t' : ResourceType) (k' : String)
    → same_target u' t' k' g ≡ equal_target u t k u' t' k'
unfolding same_target
same_target-equal_target u t k g h u' t' k' =
    let pu : g.user_id ≡ u = (eq_iff g.user_id u).0 (ground arith) in
    let pt : g.resource_type ≡ t = (same_type_iff g.resource_type t).0 (ground arith) in
    let pk : g.resource_id ≡ k = (eq_iff g.resource_id k).0 (ground arith) in
    ap₂ (λ a b. a && b) (ap₂ (λ a b. a && b) (ap (λ x. x == u') pu) (ap (λ x. same_type x t') pt))
      (ap (λ x. x == k') pk)

pub equal_target_same :
    (u : String) (t : ResourceType) (k : String) (u' : String) (t' : ResourceType) (k' : String)
    → equal_target u t k u' t' k' ≡ true
    → same_target u' t' k' ≡ same_target u t k
equal_target_same u t k u' t' k' h =
    let pu : u ≡ u' = (eq_iff u u').0 (ground arith) in
    let pt : t ≡ t' = (same_type_iff t t').0 (ground arith) in
    let pk : k ≡ k' = (eq_iff k k').0 (ground arith) in cc

pub find_by-snoc :
    (p : Grant → Bool) (rows : List Grant) (g : Grant)
    → find_by p (rows ++ g ∷ []) ≡ or_else (find_by p rows) (if p g then some g else none)
find_by-snoc p [] g = refl
find_by-snoc p (r ∷ rows) g = ground (arith, find_by-snoc p rows g)

module _ (fresh now : String) (rows : List Grant) (u : String) (t : ResourceType) (k : String)
    (lvl : Level) where
  abbrev p : Grant → Bool
  p = same_target u t k

  abbrev new : Grant
  new = new_grant fresh now u t k lvl

  p-new : p new ≡ true
  unfolding same_target
  p-new = ground (arith, eq_refl u, (same_type_iff t t).1 refl, eq_refl k)

  -- what the write leaves, seen by the search for any target
  find_by-relevelled :
      (old : Grant)
      → find_by p rows ≡ some old
      → Distinct (ids rows)
      → (u' : String) (t' : ResourceType) (k' : String)
      → level_on (set_level old.id lvl rows) u' t' k'
        ≡ (if equal_target u t k u' t' k' then some lvl else level_on rows u' t' k')
  find_by-relevelled old e d u' t' k' = elim (Bool-cases (equal_target u t k u' t' k')) [
    | inl same ↦
        rw (same, equal_target_same u t k u' t' k' same)
          (ap level_value
            (find_by-set_level_self lvl p (same_target-IgnoresLevel u t k) rows old e))
    | inr other ↦ rw other (
        ap level_value (
          find_by-set_level_other lvl p (same_target-IgnoresLevel u t k) (same_target u' t' k') rows
            old (same_target-IgnoresLevel u' t' k') d e
            (same_target-equal_target u t k old (find_by_sound p rows old e) u' t' k' ∙ other)))
  ]

  find_by-inserted :
      find_by p rows ≡ none
      → (u' : String) (t' : ResourceType) (k' : String)
      → level_on (rows ++ new ∷ []) u' t' k'
        ≡ (if equal_target u t k u' t' k' then some lvl else level_on rows u' t' k')
  find_by-inserted e u' t' k' =
      let fresh_row = same_target-equal_target u t k new p-new u' t' k' in
      ap level_value (find_by-snoc (same_target u' t' k') rows new)
      ∙ elim (Bool-cases (equal_target u t k u' t' k')) [
        | inl same ↦
            let absent : find_by (same_target u' t' k') rows ≡ none =
              ap (λ q. find_by q rows) (equal_target_same u t k u' t' k' same) ∙ e in
            rw (same, absent, fresh_row ∙ same)
        | inr other ↦ rw (other, fresh_row ∙ other) (ground arith)
      ]

  -- After the write every target has the level it had, and the written target the new one.
  pub level_on-write_grant :
      Distinct (ids rows)
      → (u' : String) (t' : ResourceType) (k' : String)
      → level_on (write_grant fresh now rows u t k lvl).1 u' t' k'
        ≡ (if equal_target u t k u' t' k' then some lvl else level_on rows u' t' k')
  unfolding write_grant
  level_on-write_grant d u' t' k' = elim (Option-cases (find_by p rows)) [
    | inl e ↦
        ap (λ o. level_on (write_found lvl new rows o).1 u' t' k') e ∙ find_by-inserted e u' t' k'
    | inr (old, e) ↦
        ap (λ o. level_on (write_found lvl new rows o).1 u' t' k') e
        ∙ find_by-relevelled old e d u' t' k'
  ]
