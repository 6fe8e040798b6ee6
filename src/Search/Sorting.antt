-- ===== src/Search/Sorting.antt =====
-- `sorted(items, key=…, reverse=True)`: stable, the highest key first. The keys (finite floats) are
-- a parameter, with the test `le` of their order.
use embedbase.Prelude.{
  Bool, Bool-cases, List, [], arith, false, filter_by, if◌then◌else◌, inl, inr, length, refl, true,
  ◌∙◌, ◌∷◌, ◌≡◌,
}

module _ {S : Type 0} {A : Type 0} (le : S → S → Bool) (key : A → S) where
  abbrev pub insert_desc : A → List A → List A
  insert_desc x [] = x ∷ []
  insert_desc x (y ∷ ys) =
      let rest = insert_desc x ys in if le (key y) (key x) then x ∷ y ∷ ys else y ∷ rest

  abbrev pub sorted_desc : List A → List A
  sorted_desc [] = []
  sorted_desc (x ∷ xs) = insert_desc x (sorted_desc xs)

  -- The key of each item is at least the next one's.
  abbrev pub IsDescending : List A → Type 0
  IsDescending [] = Unit
  IsDescending (x ∷ []) = Unit
  IsDescending (x ∷ y ∷ ys) = (le (key y) (key x) ≡ true) × IsDescending (y ∷ ys)

  module _ (total : (a b : S) → le a b ≡ false → le b a ≡ true) where
    insert_desc-below :
        (x y : A) (ys : List A)
        → le (key x) (key y) ≡ true
        → IsDescending (y ∷ ys)
        → IsDescending (y ∷ insert_desc x ys)
    insert_desc-below x y [] h d = (h, tt)
    insert_desc-below x y (z ∷ ys) h d = elim (Bool-cases (le (key z) (key x))) [
      | inl e ↦ rw e (h, (e, d.1))
      | inr e ↦ rw e (d.0, insert_desc-below x z ys (total (key z) (key x) e) d.1)
    ]

    insert_desc-IsDescending :
        (x : A) (ys : List A) → IsDescending ys → IsDescending (insert_desc x ys)
    insert_desc-IsDescending x [] d = tt
    insert_desc-IsDescending x (y ∷ ys) d = elim (Bool-cases (le (key y) (key x))) [
      | inl e ↦ rw e (e, d)
      | inr e ↦ rw e (insert_desc-below x y ys (total (key y) (key x) e) d)
    ]

    pub sorted_desc-IsDescending : (xs : List A) → IsDescending (sorted_desc xs)
    sorted_desc-IsDescending [] = tt
    sorted_desc-IsDescending (x ∷ xs) =
        insert_desc-IsDescending x (sorted_desc xs) (sorted_desc-IsDescending xs)

  -- how many items pass a test
  pub length-insert_desc :
      (p : A → Bool) (x : A) (ys : List A)
      → length (filter_by p (insert_desc x ys)) ≡ length (filter_by p (x ∷ ys))
  length-insert_desc p x [] = refl
  length-insert_desc p x (y ∷ ys) = ground (arith, length-insert_desc p x ys)

  -- Sorting keeps the number of items that pass any test: it neither loses nor repeats one.
  pub length-sorted_desc :
      (p : A → Bool) (xs : List A) → length (filter_by p (sorted_desc xs)) ≡ length (filter_by p xs)
  length-sorted_desc p [] = refl
  length-sorted_desc p (x ∷ xs) =
      length-insert_desc p x (sorted_desc xs) ∙ ground (arith, length-sorted_desc p xs)
