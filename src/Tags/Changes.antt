-- ===== src/Tags/Changes.antt =====
-- api/services/tags.py: what `_assign` and `_unassign` leave as it was.
use embedbase.Prelude.{
  Bool-cases, List, String, [], any_of, ap, arith, eq_iff, false, filter_by, inl, inr, not, refl,
  true, ◌&&◌, ◌++◌, ◌==◌, ◌∷◌, ◌≡◌,
}
use embedbase.Tags.{Assignment, Tag, TagKind, Tagged, assign, is_row, same_kind, unassign}
use embedbase.Tags.Effective.{names_of}

names_of-assign :
    (tags : List Tag) (kind k : TagKind) (entity e tag : String) (rows : List Assignment)
    → (same_kind kind k && entity == e) ≡ false
    → names_of tags k e (rows ++ record { kind = kind; entity_id = entity; tag_id = tag } ∷ [])
      ≡ names_of tags k e rows
unfolding names_of
names_of-assign tags kind k entity e tag [] n = ground arith
names_of-assign tags kind k entity e tag (a ∷ rows) n =
    ground (arith, names_of-assign tags kind k entity e tag rows n)

kind_iff : (a b : TagKind) → same_kind a b ≡ true → a ≡ b
kind_iff a b h = ground arith

names_of-unassign :
    (tags : List Tag) (kind k : TagKind) (entity e tag : String) (rows : List Assignment)
    → (same_kind kind k && entity == e) ≡ false
    → names_of tags k e (filter_by (λ a. not (is_row kind entity tag a)) rows)
      ≡ names_of tags k e rows
unfolding names_of
names_of-unassign tags kind k entity e tag [] n = refl
names_of-unassign tags kind k entity e tag (a ∷ rows) n =
    let rest = names_of-unassign tags kind k entity e tag rows n in
    elim (Bool-cases (is_row kind entity tag a)) [
      | inl hit ↦
          let kinds = ap (λ x. same_kind x k) (kind_iff a.kind kind (ground arith)) in
          rw hit (ground (arith, rest, kinds, eq_iff a.entity_id entity))
      | inr miss ↦ rw miss (ground (arith, rest))
    ]

-- the names that an entity carries, before and after a change of another entity's assignments
names_of-assigned :
    (s : Tagged) (kind k : TagKind) (entity e tag : String)
    → (same_kind kind k && entity == e) ≡ false
    → names_of s.tags k e (assign kind entity tag s).assignments ≡ names_of s.tags k e s.assignments
unfolding assign
names_of-assigned s kind k entity e tag n =
    elim (Bool-cases (any_of (is_row kind entity tag) s.assignments)) [
      | inl there ↦ rw there refl
      | inr missing ↦ rw missing (names_of-assign s.tags kind k entity e tag s.assignments n)
    ]

assigned_rest :
    (kind : TagKind) (entity tag : String) (s : Tagged)
    → ((assign kind entity tag s).db ≡ s.db)
      × ((assign kind entity tag s).tags ≡ s.tags)
      × ((assign kind entity tag s).sent ≡ s.sent)
unfolding assign
assigned_rest kind entity tag s =
    elim (Bool-cases (any_of (is_row kind entity tag) s.assignments)) [
      | inl there ↦ rw there (refl, refl, refl)
      | inr missing ↦ rw missing (refl, refl, refl)
    ]

-- A change of the assignments of one entity: the state after it, whatever it does to them.
pub record Changed (kind : TagKind) (entity : String) (s t : Tagged) : Type 0 where
  pub db_same : t.db ≡ s.db
  pub tags_same : t.tags ≡ s.tags
  pub sent_same : t.sent ≡ s.sent
  pub others_same :
      (k : TagKind) (e : String)
      → (same_kind kind k && entity == e) ≡ false
      → names_of s.tags k e t.assignments ≡ names_of s.tags k e s.assignments

pub assign-Changed :
    (kind : TagKind) (entity tag : String) (s : Tagged)
    → Changed kind entity s (assign kind entity tag s)
assign-Changed kind entity tag s =
    let (db_kept, tags_kept, sent_kept) = assigned_rest kind entity tag s in
    record {
      db_same = db_kept;
      tags_same = tags_kept;
      sent_same = sent_kept;
      others_same = λ k e n. names_of-assigned s kind k entity e tag n;
    }

pub unassign-Changed :
    (kind : TagKind) (entity tag : String) (s : Tagged)
    → Changed kind entity s (unassign kind entity tag s)
unfolding unassign
unassign-Changed kind entity tag s = record {
  db_same = refl;
  tags_same = refl;
  sent_same = refl;
  others_same = λ k e n. names_of-unassign s.tags kind k entity e tag s.assignments n;
}
