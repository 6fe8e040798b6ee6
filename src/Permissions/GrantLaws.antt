-- ===== src/Permissions/GrantLaws.antt =====
-- The table of grants (api/services/permissions.py, api/tables/permissions.py): its invariant, and
-- what a grant changes, up to what its holder may then do.
use embedbase.Prelude.{
  ℕ, String, ◌≡◌, refl, ap₂, sym, ◌∙◌, inl, inr, ◌==◌, eq_iff, eq_refl, Bool, true, false, ◌||◌,
  ◌&&◌, Option, none, some, List, [], ◌∷◌, ◌++◌, contains, find_by, Distinct, Bool-cases, Bool-ext,
  if◌then◌else◌, arith,
}
use embedbase.Http.{Detail, Result, ok, raise}
use embedbase.Tables.{Level, ResourceType, Grant, Db, same_type, same_type_iff, same_target}
use embedbase.Permissions.Grants.{
  set_level, new_grant, write_found, write_grant, grant_permission, require_resource,
}
use embedbase.Permissions.Regrant.{
  ids, level_on, equal_target, level_on-write_grant, find_by-contains, find_by_sound, find_by-snoc,
}

-- No two rows have one target.
abbrev pub UniqueTargets : List Grant → Type 0
UniqueTargets [] = Unit
UniqueTargets (g ∷ rows) =
    (find_by (same_target g.user_id g.resource_type g.resource_id) rows ≡ none) × UniqueTargets rows

-- The constraints of the table: its primary key, and one grant for a target.
pub record IsValid (rows : List Grant) : Type 0 where
  pub keyed : Distinct (ids rows)
  pub unique : UniqueTargets rows

ids-set_level :
    (existing : String) (lvl : Level) (rows : List Grant)
    → ids (set_level existing lvl rows) ≡ ids rows
ids-set_level existing lvl [] = refl
ids-set_level existing lvl (g ∷ rows) = ground (arith, ids-set_level existing lvl rows)

none-set_level :
    (u : String) (t : ResourceType) (k existing : String) (lvl : Level) (rows : List Grant)
    → find_by (same_target u t k) rows ≡ none
    → find_by (same_target u t k) (set_level existing lvl rows) ≡ none
unfolding same_target
none-set_level u t k existing lvl [] h = refl
none-set_level u t k existing lvl (g ∷ rows) h =
    ground (arith, none-set_level u t k existing lvl rows)

UniqueTargets-set_level :
    (existing : String) (lvl : Level) (rows : List Grant)
    → UniqueTargets rows
    → UniqueTargets (set_level existing lvl rows)
UniqueTargets-set_level existing lvl [] h = tt
UniqueTargets-set_level existing lvl (g ∷ rows) h = elim (Bool-cases (g.id == existing)) [
  | inl e ↦ rw e (
    none-set_level g.user_id g.resource_type g.resource_id existing lvl rows h.0,
    UniqueTargets-set_level existing lvl rows h.1,
  )
  | inr e ↦ rw e (
    none-set_level g.user_id g.resource_type g.resource_id existing lvl rows h.0,
    UniqueTargets-set_level existing lvl rows h.1,
  )
]

pub same_target_comm :
    (g r : Grant)
    → same_target g.user_id g.resource_type g.resource_id r
      ≡ same_target r.user_id r.resource_type r.resource_id g
unfolding same_target
same_target_comm g r =
    ap₂ (λ a b. a && b)
      (ap₂ (λ a b. a && b) (eq_comm r.user_id g.user_id)
        (type_comm r.resource_type g.resource_type))
      (eq_comm r.resource_id g.resource_id)
  where
    eq_comm : (a b : String) → (a == b) ≡ (b == a)
    eq_comm a b =
        Bool-ext (a == b) (b == a) (λ h. (eq_iff b a).1 (sym ((eq_iff a b).0 h)))
          (λ h. (eq_iff a b).1 (sym ((eq_iff b a).0 h)))

    type_comm : (a b : ResourceType) → same_type a b ≡ same_type b a
    type_comm a b =
        Bool-ext (same_type a b) (same_type b a)
          (λ h. (same_type_iff b a).1 (sym ((same_type_iff a b).0 h)))
          (λ h. (same_type_iff a b).1 (sym ((same_type_iff b a).0 h)))

UniqueTargets-snoc :
    (rows : List Grant) (g : Grant)
    → UniqueTargets rows
    → find_by (same_target g.user_id g.resource_type g.resource_id) rows ≡ none
    → UniqueTargets (rows ++ g ∷ [])
UniqueTargets-snoc [] g h e = (refl, tt)
UniqueTargets-snoc (r ∷ rows) g h e = (
  find_by-snoc (same_target r.user_id r.resource_type r.resource_id) rows g
      ∙ ground (arith, same_target_comm g r, h.0),
  UniqueTargets-snoc rows g h.1 (ground arith),
)

contains-ids-snoc :
    (rows : List Grant) (g : Grant) (k : String)
    → contains (ids (rows ++ g ∷ [])) k ≡ (contains (ids rows) k || (g.id == k))
contains-ids-snoc [] g k = ground arith
contains-ids-snoc (r ∷ rows) g k = ground (arith, contains-ids-snoc rows g k)

Distinct-snoc :
    (rows : List Grant) (g : Grant)
    → Distinct (ids rows)
    → contains (ids rows) g.id ≡ false
    → Distinct (ids (rows ++ g ∷ []))
Distinct-snoc [] g h e = (refl, tt)
Distinct-snoc (r ∷ rows) g h e = (
  contains-ids-snoc rows g r.id ∙ ground (arith, eq_iff g.id r.id, eq_iff r.id g.id),
  Distinct-snoc rows g h.1 (ground arith),
)

-- a search by id finds the re-levelled row, and an inserted one
find_id-set_level :
    (lvl : Level) (q : Grant → Bool) (rows : List Grant) (old : Grant)
    → Distinct (ids rows)
    → find_by q rows ≡ some old
    → find_by (λ (g : Grant). g.id == old.id) (set_level old.id lvl rows)
      ≡ some (record old { level = lvl })
find_id-set_level lvl q [] old d h = cc
find_id-set_level lvl q (g ∷ rows) old d h = elim (Bool-cases (q g)) [
  | inl here ↦ ground (arith, eq_iff g.id old.id)
  | inr later ↦
      ground (
        arith,
        find_id-set_level lvl q rows old d.1,
        find_by-contains q rows old,
        eq_iff g.id old.id,
      )
]

find_id-snoc :
    (rows : List Grant) (g : Grant)
    → contains (ids rows) g.id ≡ false
    → find_by (λ (r : Grant). r.id == g.id) (rows ++ g ∷ []) ≡ some g
find_id-snoc [] g h = ground (arith, eq_refl g.id)
find_id-snoc (r ∷ rows) g h = ground (arith, find_id-snoc rows g)

module _ (fresh now : String) (rows : List Grant) (u : String) (t : ResourceType) (k : String)
    (lvl : Level) where
  abbrev new : Grant
  new = new_grant fresh now u t k lvl

  write_found-IsValid :
      (o : Option Grant)
      → find_by (same_target u t k) rows ≡ o
      → IsValid rows
      → contains (ids rows) fresh ≡ false
      → IsValid (write_found lvl new rows o).1
  write_found-IsValid none e v f = record {
    keyed = Distinct-snoc rows new v.keyed f;
    unique = UniqueTargets-snoc rows new v.unique e;
  }
  write_found-IsValid (some old) e v f = record {
    keyed = rw (ids-set_level old.id lvl rows) v.keyed;
    unique = UniqueTargets-set_level old.id lvl rows v.unique;
  }

  write_grant-IsValid :
      IsValid rows
      → contains (ids rows) fresh ≡ false
      → IsValid (write_grant fresh now rows u t k lvl).1
  unfolding write_grant
  write_grant-IsValid v f = write_found-IsValid (find_by (same_target u t k) rows) refl v f

  -- the reply is the row as it now stands
  abbrev Replied : Result Grant → Type 0
  Replied reply = (g : Grant) × (reply ≡ ok g) × (same_target u t k g ≡ true) × (g.level ≡ lvl)

  write_found-Replied :
      (o : Option Grant)
      → find_by (same_target u t k) rows ≡ o
      → IsValid rows
      → contains (ids rows) fresh ≡ false
      → Replied (write_found lvl new rows o).0
  unfolding same_target
  write_found-Replied none e v f = (
    new,
    ground (arith, find_id-snoc rows new f),
    ground (arith, eq_refl u, (same_type_iff t t).1 refl, eq_refl k),
    refl,
  )
  write_found-Replied (some old) e v f = (
    record old { level = lvl },
    ground (arith, find_id-set_level lvl (same_target u t k) rows old v.keyed e),
    find_by_sound (same_target u t k) rows old e,
    refl,
  )

  write_grant-Replied :
      IsValid rows
      → contains (ids rows) fresh ≡ false
      → Replied (write_grant fresh now rows u t k lvl).0
  unfolding write_grant
  write_grant-Replied v f = write_found-Replied (find_by (same_target u t k) rows) refl v f

module _ (fresh now : String) (db : Db) (u : String) (t : ResourceType) (k : String)
    (lvl : Level) where
  -- A grant on a resource that does not exist, or of an unknown capability, raises the error of
  -- the check and writes nothing.
  pub grant_permission-refused :
      (status : ℕ) (detail : Detail)
      → require_resource db t k ≡ raise status detail
      → grant_permission fresh now db u t k lvl ≡ (raise status detail, db)
  unfolding grant_permission
  grant_permission-refused status detail h = ground arith

  granted :
      require_resource db t k ≡ ok tt
      → grant_permission fresh now db u t k lvl ≡ (
        (write_grant fresh now db.permissions u t k lvl).0,
        record db { permissions = (write_grant fresh now db.permissions u t k lvl).1 },
      )
  unfolding grant_permission
  granted h = ground arith

  -- In a valid table of grants and with a new id, a grant on an existing resource succeeds: it
  -- replies with a row of the user for the resource at the new level, keeps the constraints of the
  -- table, gives every other target the level that it had, and touches no other table.
  pub grant_permission-granted :
      require_resource db t k ≡ ok tt
      → IsValid db.permissions
      → contains (ids db.permissions) fresh ≡ false
      → (u' : String) (t' : ResourceType) (k' : String)
      → ((g : Grant) × ((grant_permission fresh now db u t k lvl).0 ≡ ok g)
          × (same_target u t k g ≡ true)
          × (g.level ≡ lvl))
        × IsValid (grant_permission fresh now db u t k lvl).1.permissions
        × (level_on (grant_permission fresh now db u t k lvl).1.permissions u' t' k'
            ≡ (if equal_target u t k u' t' k' then some lvl else level_on db.permissions u' t' k'))
        × ((grant_permission fresh now db u t k lvl).1
            ≡ record db { permissions = (grant_permission fresh now db u t k lvl).1.permissions })
  grant_permission-granted h v f u' t' k' = rw (granted h) (
    write_grant-Replied fresh now db.permissions u t k lvl v f,
    write_grant-IsValid fresh now db.permissions u t k lvl v f,
    level_on-write_grant fresh now db.permissions u t k lvl v.keyed u' t' k',
    refl,
  )
