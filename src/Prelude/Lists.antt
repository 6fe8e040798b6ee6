-- ===== src/Prelude/Lists.antt =====
-- Lists: native lengths, comprehensions with a Boolean test, and membership of texts.
use Prim.Native.Nat.{ℕ, zero, suc, ◌+◌}
use Prim.Native.String.{String}
use mathlib.Core.Path.{◌≡◌, refl}
use mathlib.Core.Logic.{inl, inr}
use mathlib.Core.Bool.{Bool, true, false, ◌&&◌, ◌||◌, false≢true}
use mathlib.Core.Option.{Option, none, some}
use mathlib.Core.List.{List, [], ◌∷◌, ◌++◌}
use native.Mathlib.Omega.{arith}
use text.Mathlib.Text.{◌==◌}
use text.Mathlib.TextEquality.{eq_iff}
use embedbase.Prelude.Tests.{if◌then◌else◌, Bool-cases, Option-cases}

module _ {ℓ} {A : Type ℓ} where
  abbrev pub length : List A → ℕ
  length [] = 0
  length (x ∷ xs) = suc (length xs)

  -- `xs[:n]` and `xs[n:]`
  abbrev pub take : ℕ → List A → List A
  take zero xs = []
  take (suc n) [] = []
  take (suc n) (x ∷ xs) = x ∷ take n xs

  abbrev pub drop : ℕ → List A → List A
  drop zero xs = xs
  drop (suc n) [] = []
  drop (suc n) (x ∷ xs) = drop n xs

  -- `[x for x in xs if p(x)]`
  abbrev pub filter_by : (A → Bool) → List A → List A
  filter_by p [] = []
  filter_by p (x ∷ xs) = if p x then x ∷ filter_by p xs else filter_by p xs

  -- the first element that passes, as a query by primary key returns it
  abbrev pub find_by : (A → Bool) → List A → Option A
  find_by p [] = none
  find_by p (x ∷ xs) = if p x then some x else find_by p xs

  abbrev pub is_nil : List A → Bool
  is_nil [] = true
  is_nil (x ∷ xs) = false

  pub length-append : (xs ys : List A) → length (xs ++ ys) ≡ length xs + length ys
  length-append [] ys = omega arith
  length-append (x ∷ xs) ys = omega (arith, length-append xs ys)

  pub filter_by-append :
      (p : A → Bool) (xs ys : List A) → filter_by p (xs ++ ys) ≡ filter_by p xs ++ filter_by p ys
  filter_by-append p [] ys = refl
  filter_by-append p (x ∷ xs) ys = ground (arith, filter_by-append p xs ys)

-- `k in ks`
abbrev pub contains : List String → String → Bool
contains [] k = false
contains (j ∷ ks) k = (j == k) || contains ks k

-- A primary key: no two rows of the list share it.
abbrev pub Distinct : List String → Type 0
Distinct [] = Unit
Distinct (k ∷ ks) = (contains ks k ≡ false) × Distinct ks

-- `list(dict.fromkeys(ks))`: each key once, at its first place
abbrev pub dedup_from : List String → List String → List String
dedup_from seen [] = []
dedup_from seen (k ∷ ks) =
    let rest = dedup_from (k ∷ seen) ks in
    let skip = dedup_from seen ks in if contains seen k then skip else k ∷ rest

abbrev pub dedup : List String → List String
dedup ks = dedup_from [] ks

pub contains-append :
    (xs ys : List String) (k : String) → contains (xs ++ ys) k ≡ (contains xs k || contains ys k)
contains-append [] ys k = refl
contains-append (x ∷ xs) ys k = ground (arith, contains-append xs ys k)

pub contains-filter_by :
    (p : String → Bool) (xs : List String) (k : String)
    → contains (filter_by p xs) k ≡ (contains xs k && p k)
contains-filter_by p [] k = refl
contains-filter_by p (x ∷ xs) k = ground (arith, contains-filter_by p xs k, eq_iff x k)

contains-dedup_from :
    (seen ks : List String) (k : String)
    → (contains seen k || contains (dedup_from seen ks) k) ≡ (contains seen k || contains ks k)
contains-dedup_from seen [] k = refl
contains-dedup_from seen (j ∷ ks) k =
    ground (arith, contains-dedup_from seen ks k, contains-dedup_from (j ∷ seen) ks k, eq_iff j k)

pub contains-dedup : (ks : List String) (k : String) → contains (dedup ks) k ≡ contains ks k
contains-dedup ks k = contains-dedup_from [] ks k

-- The values that a partial function takes on a list of keys: `{f[k] for k in ks if k in f}`.
abbrev pub values_at : (String → Option String) → List String → List String
values_at f [] = []
values_at f (k ∷ ks) = let rest = values_at f ks in elim (f k) [ none ↦ rest | some v ↦ v ∷ rest ]

pub contains-values_at :
    (f : String → Option String) (ks : List String) (k v : String)
    → contains ks k ≡ true
    → f k ≡ some v
    → contains (values_at f ks) v ≡ true
contains-values_at f [] k v h e = cc
contains-values_at f (j ∷ ks) k v h e =
    ground (arith, eq_iff j k, eq_iff v v, contains-values_at f ks k v)

pub values_at-contains :
    (f : String → Option String) (ks : List String) (v : String)
    → contains (values_at f ks) v ≡ true
    → (k : String) × (contains ks k ≡ true) × (f k ≡ some v)
values_at-contains f [] v h = elim (false≢true h) [ ]
values_at-contains f (j ∷ ks) v h = elim (Option-cases (f j)) [
  | inl e ↦ let (k, i, q) = values_at-contains f ks v (ground arith) in (k, ground arith, q)
  | inr (u, e) ↦ elim (Bool-cases (u == v)) [
    | inl p ↦ (j, ground (arith, eq_iff j j), ground (arith, eq_iff u v))
    | inr p ↦ let (k, i, q) = values_at-contains f ks v (ground arith) in (k, ground arith, q)
  ]
]
