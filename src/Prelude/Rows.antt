-- ===== src/Prelude/Rows.antt =====
-- Tables as lists of rows: keys, references, and what a deletion leaves of them.
use Prim.Native.String.{String}
use mathlib.Core.Path.{◌≡◌, refl, ◌∙◌}
use mathlib.Core.Logic.{inl, inr}
use mathlib.Core.Bool.{Bool, true, false, ◌&&◌, ◌||◌}
use mathlib.Core.List.{List, [], ◌∷◌, ◌++◌, map}
use native.Mathlib.Omega.{arith}
use text.Mathlib.Text.{◌==◌}
use text.Mathlib.TextEquality.{eq_iff}
use embedbase.Prelude.Tests.{Bool-cases}
use embedbase.Prelude.Lists.{filter_by, contains, Distinct}

module _ {ℓ} {A : Type ℓ} where
  abbrev pub all_of : (A → Bool) → List A → Bool
  all_of p [] = true
  all_of p (x ∷ xs) = p x && all_of p xs

  abbrev pub any_of : (A → Bool) → List A → Bool
  any_of p [] = false
  any_of p (x ∷ xs) = p x || any_of p xs

  pub all_of-append :
      (p : A → Bool) (xs ys : List A) → all_of p (xs ++ ys) ≡ (all_of p xs && all_of p ys)
  all_of-append p [] ys = refl
  all_of-append p (x ∷ xs) ys = ground (arith, all_of-append p xs ys)

  pub all_of_mono :
      (p q : A → Bool) (xs : List A)
      → ((x : A) → p x ≡ true → q x ≡ true)
      → all_of p xs ≡ true
      → all_of q xs ≡ true
  all_of_mono p q [] f h = refl
  all_of_mono p q (x ∷ xs) f h = ground (arith, f x, all_of_mono p q xs f)

  -- what holds of the rows that pass a test holds of the rows that the test leaves
  pub all_of-filter_by :
      (p k q : A → Bool) (xs : List A)
      → ((x : A) → k x ≡ true → p x ≡ true → q x ≡ true)
      → all_of p xs ≡ true
      → all_of q (filter_by k xs) ≡ true
  all_of-filter_by p k q [] f h = refl
  all_of-filter_by p k q (x ∷ xs) f h = ground (arith, f x, all_of-filter_by p k q xs f)

  module _ (key : A → String) where
    pub contains-map-filter_by :
        (k : A → Bool) (xs : List A) (j : String)
        → contains (map key xs) j ≡ false
        → contains (map key (filter_by k xs)) j ≡ false
    contains-map-filter_by k [] j h = refl
    contains-map-filter_by k (x ∷ xs) j h = ground (arith, contains-map-filter_by k xs j)

    pub Distinct-filter_by :
        (k : A → Bool) (xs : List A) → Distinct (map key xs) → Distinct (map key (filter_by k xs))
    Distinct-filter_by k [] h = tt
    Distinct-filter_by k (x ∷ xs) h =
        let rest = Distinct-filter_by k xs h.1 in
        elim (Bool-cases (k x)) [
          | inl e ↦ rw e (contains-map-filter_by k xs (key x) h.0, rest)
          | inr e ↦ rw e rest
        ]

    pub contains-map-snoc :
        (xs : List A) (x : A) (j : String)
        → contains (map key (xs ++ x ∷ [])) j ≡ (contains (map key xs) j || key x == j)
    contains-map-snoc [] x j = ground arith
    contains-map-snoc (y ∷ xs) x j = ground (arith, contains-map-snoc xs x j)

    pub Distinct-snoc :
        (xs : List A) (x : A)
        → Distinct (map key xs)
        → contains (map key xs) (key x) ≡ false
        → Distinct (map key (xs ++ x ∷ []))
    Distinct-snoc [] x d h = (refl, tt)
    Distinct-snoc (y ∷ xs) x d h = (
      contains-map-snoc xs x (key y)
          ∙ ground (arith, eq_iff (key x) (key y), eq_iff (key y) (key x)),
      Distinct-snoc xs x d.1 (ground arith),
    )

    -- the rows that a deletion by key leaves do not hold the key
    pub contains-map-kept :
        (k : A → Bool) (xs : List A) (j : String)
        → ((x : A) → key x == j ≡ true → k x ≡ false)
        → contains (map key (filter_by k xs)) j ≡ false
    contains-map-kept k [] j f = refl
    contains-map-kept k (x ∷ xs) j f = ground (arith, f x, contains-map-kept k xs j f)

    -- and hold each other key as before, where the test keeps its row
    pub contains-map-others :
        (k : A → Bool) (xs : List A) (j : String)
        → ((x : A) → key x == j ≡ true → k x ≡ true)
        → contains (map key (filter_by k xs)) j ≡ contains (map key xs) j
    contains-map-others k [] j f = refl
    contains-map-others k (x ∷ xs) j f = ground (arith, f x, contains-map-others k xs j f)
