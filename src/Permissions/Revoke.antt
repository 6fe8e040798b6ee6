-- ===== src/Permissions/Revoke.antt =====
-- `revoke_permission` (api/services/permissions.py): it takes away one grant of one user.
use mathlib.Core.List.{Memᴰ}
use embedbase.Prelude.{
  String, ◌≡◌, ◌≢◌, refl, ap, sym, ◌∙◌, subst, inl, inr, ◌==◌, eq_iff, eq_refl, Bool, true, false,
  not, ◌&&◌, none, some, List, [], ◌∷◌, contains, filter_by, find_by, Distinct, Bool-cases,
  if◌then◌else◌, arith,
}
use embedbase.Http.{about, ok, raise}
use embedbase.Tables.{ResourceType, Grant, Db, same_target, same_target_self}
use embedbase.Permissions.Grants.{revoke_permission}
use embedbase.Permissions.Regrant.{
  ids, level_on, level_value, equal_target, equal_target_same, same_target-equal_target,
  find_by-contains,
}
use embedbase.Permissions.GrantLaws.{IsValid, same_target_comm}

abbrev without : String → List Grant → List Grant
without k rows = filter_by (λ (g : Grant). not (g.id == k)) rows

without-absent :
    (k : String) (rows : List Grant) → contains (ids rows) k ≡ false → without k rows ≡ rows
without-absent k [] h = refl
without-absent k (g ∷ rows) h = ground (arith, without-absent k rows)

none_found :
    (q r : Grant → Bool) (rows : List Grant) (g : Grant)
    → find_by q rows ≡ none
    → find_by r rows ≡ some g
    → q g ≡ false
none_found q r [] g h e = cc
none_found q r (x ∷ rows) g h e = elim (Bool-cases (r x)) [
  | inl here ↦ let p : x ≡ g = ground arith in subst (λ y. q y ≡ false) p (ground arith)
  | inr later ↦ none_found q r rows g (ground arith) (ground arith)
]

ids-without :
    (k : String) (rows : List Grant) (j : String)
    → contains (ids rows) j ≡ false
    → contains (ids (without k rows)) j ≡ false
ids-without k [] j h = refl
ids-without k (g ∷ rows) j h = ground (arith, ids-without k rows j)

none-without :
    (q : Grant → Bool) (k : String) (rows : List Grant)
    → find_by q rows ≡ none
    → find_by q (without k rows) ≡ none
none-without q k [] h = refl
none-without q k (g ∷ rows) h = ground (arith, none-without q k rows)

without-IsValid : (k : String) (rows : List Grant) → IsValid rows → IsValid (without k rows)
without-IsValid k [] v = v
without-IsValid k (g ∷ rows) v =
    let rest = without-IsValid k rows (record { keyed = v.keyed.1; unique = v.unique.1 }) in
    elim (Bool-cases (g.id == k)) [
      | inl e ↦ rw e rest
      | inr e ↦ rw e (record {
        keyed = (ids-without k rows g.id v.keyed.0, rest.keyed);
        unique = (
          none-without (same_target g.user_id g.resource_type g.resource_id) k rows v.unique.0,
          rest.unique,
        );
      })
    ]

module _ (r : Grant → Bool) (g : Grant) where
  find_by-without_other :
      (q : Grant → Bool) (rows : List Grant)
      → Distinct (ids rows)
      → find_by r rows ≡ some g
      → q g ≡ false
      → find_by q (without g.id rows) ≡ find_by q rows
  find_by-without_other q [] d h e = refl
  find_by-without_other q (x ∷ rows) d h e = elim (Bool-cases (r x)) [
    | inl here ↦ ground (arith, without-absent g.id rows, eq_iff x.id g.id)
    | inr later ↦
        ground
          (arith, find_by-without_other q rows d.1, find_by-contains r rows g, eq_iff x.id g.id)
  ]

  find_by-without_self :
      (rows : List Grant)
      → IsValid rows
      → find_by r rows ≡ some g
      → find_by (same_target g.user_id g.resource_type g.resource_id) (without g.id rows) ≡ none
  find_by-without_self [] v h = refl
  find_by-without_self (x ∷ rows) v h = elim (Bool-cases (r x)) [
    | inl here ↦
        let p : x ≡ g = ground arith in
        let alone : find_by (same_target g.user_id g.resource_type g.resource_id) rows ≡ none =
          subst (λ y. find_by (same_target y.user_id y.resource_type y.resource_id) rows ≡ none) p
            v.unique.0 in
        ground (arith, without-absent g.id rows, v.keyed.0, eq_iff x.id g.id)
    | inr later ↦
        let found : find_by r rows ≡ some g = ground arith in
        let apart =
          none_found (same_target x.user_id x.resource_type x.resource_id) r rows g v.unique.0
            found in
        let rest =
          find_by-without_self rows (record { keyed = v.keyed.1; unique = v.unique.1 }) found in
        ground (arith, same_target_comm g x)
  ]

-- the row that the user's own grant is searched by
abbrev own : String → String → Grant → Bool
own user grant_id g = g.id == grant_id && g.user_id == user

-- Without such a grant of the user the call raises 404 and changes nothing, whoever else may hold
-- a grant with that id.
pub revoke_permission-missing :
    (db : Db) (user grant_id : String)
    → ((g : Grant) → Memᴰ g db.permissions → g.id ≡ grant_id → g.user_id ≢ user)
    → revoke_permission db user grant_id ≡ (raise 404 (about "Permission" grant_id), db)
unfolding revoke_permission
revoke_permission-missing db user grant_id h = ground (arith, not_found db.permissions h)
  where
    not_found :
        (rows : List Grant)
        → ((g : Grant) → Memᴰ g rows → g.id ≡ grant_id → g.user_id ≢ user)
        → find_by (own user grant_id) rows ≡ none
    not_found [] h = refl
    not_found (g ∷ rows) h =
        let here = h g (Memᴰ.head refl) in
        let rest = not_found rows (λ x m. h x (Memᴰ.tail m)) in
        ground (arith, here, eq_iff g.id grant_id, eq_iff g.user_id user)

contains-ids : (rows : List Grant) (g : Grant) → Memᴰ g rows → contains (ids rows) g.id ≡ true
contains-ids [] g m = elim m [ ]
contains-ids (x ∷ rows) g (Memᴰ.head e) =
    let q : x.id ≡ g.id = ap (λ (y : Grant). y.id) (sym e) in ground (arith, eq_iff x.id g.id)
contains-ids (x ∷ rows) g (Memᴰ.tail m) = ground (arith, contains-ids rows g m)

find_own :
    (rows : List Grant) (g : Grant)
    → Memᴰ g rows
    → Distinct (ids rows)
    → find_by (own g.user_id g.id) rows ≡ some g
find_own [] g m d = elim m [ ]
find_own (x ∷ rows) g (Memᴰ.head e) d =
    let q : own g.user_id g.id x ≡ true =
      subst (λ y. own g.user_id g.id y ≡ true) e
        (ground (arith, eq_refl g.id, eq_refl g.user_id)) in
    ground arith
find_own (x ∷ rows) g (Memᴰ.tail m) d =
    ground (arith, find_own rows g m d.1, contains-ids rows g m, eq_iff x.id g.id)

-- In a valid table of grants, revoking a grant of the user that is there succeeds, leaves its
-- target with no level and every other target with the level it had, and keeps the constraints of
-- the table.
pub revoke_permission-revoked :
    (db : Db) (g : Grant)
    → Memᴰ g db.permissions
    → IsValid db.permissions
    → (u' : String) (t' : ResourceType) (k' : String)
    → ((revoke_permission db g.user_id g.id).0 ≡ ok tt)
      × IsValid (revoke_permission db g.user_id g.id).1.permissions
      × (level_on (revoke_permission db g.user_id g.id).1.permissions u' t' k' ≡ (
          if equal_target g.user_id g.resource_type g.resource_id u' t' k'
          then none
          else level_on db.permissions u' t' k'))
unfolding revoke_permission
revoke_permission-revoked db g m valid u' t' k' =
    rw (found, revoke_permission) (refl, without-IsValid g.id db.permissions valid, levels_after)
  where
    found : find_by (own g.user_id g.id) db.permissions ≡ some g
    found = find_own db.permissions g m valid.keyed

    levels_after : level_on (without g.id db.permissions) u' t' k' ≡ (
        if equal_target g.user_id g.resource_type g.resource_id u' t' k'
        then none
        else level_on db.permissions u' t' k')
    levels_after =
        elim (Bool-cases (equal_target g.user_id g.resource_type g.resource_id u' t' k')) [
          | inl same ↦
              rw (same, equal_target_same g.user_id g.resource_type g.resource_id u' t' k' same)
                (ap level_value
                  (find_by-without_self (own g.user_id g.id) g db.permissions valid found))
          | inr other ↦ rw other (
              ap level_value (
                find_by-without_other (own g.user_id g.id) g (same_target u' t' k') db.permissions
                  valid.keyed found
                  (same_target-equal_target g.user_id g.resource_type g.resource_id g
                      (same_target_self g) u' t' k'
                    ∙ other)))
        ]
