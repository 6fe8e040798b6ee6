-- ===== src/Prelude/Dict.antt =====
-- Python dictionaries with text keys, as association lists in insertion order.
use embedbase.Prelude.Tests.{if◌then◌else◌, or_else, Bool-cases}
use embedbase.Prelude.Lists.{contains, is_nil, filter_by, find_by, Distinct}
use Prim.Native.String.{String}
use mathlib.Core.Path.{◌≡◌, refl, ◌∙◌}
use mathlib.Core.Bool.{Bool, true, false, ◌||◌, ◌&&◌}
use mathlib.Core.Logic.{inl, inr}
use mathlib.Core.Option.{Option, none, some}
use mathlib.Core.List.{List, [], ◌∷◌, ◌++◌, map}
use native.Mathlib.Omega.{arith}
use text.Mathlib.Text.{◌==◌}
use text.Mathlib.TextEquality.{eq_iff}

abbrev pub Dict {ℓ} : Type ℓ → Type ℓ
Dict V = List (String × V)

module _ {ℓ} {V : Type ℓ} where
  -- `d.get(k)`
  abbrev pub get : Dict V → String → Option V
  get [] k = none
  get ((j, v) ∷ d) k = if j == k then some v else get d k

  -- `d[k] = v`: an old key keeps its place
  abbrev pub put : Dict V → String → V → Dict V
  put [] k v = (k, v) ∷ []
  put ((j, w) ∷ d) k v = if j == k then (j, v) ∷ d else (j, w) ∷ put d k v

  abbrev pub keys : Dict V → List String
  keys [] = []
  keys ((j, v) ∷ d) = j ∷ keys d

  abbrev pub values : Dict V → List V
  values [] = []
  values ((j, v) ∷ d) = v ∷ values d

  pub get-put :
      (d : Dict V) (k : String) (v : V) (j : String)
      → get (put d k v) j ≡ (if k == j then some v else get d j)
  get-put [] k v j = refl
  get-put ((i, w) ∷ d) k v j = ground (arith, get-put d k v j, eq_iff i k, eq_iff i j, eq_iff k j)

  pub keys-put :
      (d : Dict V) (k : String) (v : V) (j : String)
      → contains (keys (put d k v)) j ≡ (contains (keys d) j || (k == j))
  keys-put [] k v j = ground arith
  keys-put ((i, w) ∷ d) k v j = ground (arith, keys-put d k v j, eq_iff i k, eq_iff i j, eq_iff k j)

  -- a key is there exactly when `get` finds it
  abbrev pub has : Dict V → String → Bool
  has d k = contains (keys d) k

  pub get_of_has : (d : Dict V) (k : String) → has d k ≡ true → (v : V) × (get d k ≡ some v)
  get_of_has [] k h = ground arith
  get_of_has ((j, v) ∷ d) k h = elim (Bool-cases (j == k)) [
    | inl e ↦ (v, ground arith)
    | inr e ↦ let (w, q) = get_of_has d k (ground arith) in (w, ground arith)
  ]

  pub has_of_get : (d : Dict V) (k : String) (v : V) → get d k ≡ some v → has d k ≡ true
  has_of_get [] k v h = ground arith
  has_of_get ((j, w) ∷ d) k v h = ground (arith, has_of_get d k v)

-- `{key(r): value(r) for r in rows}`, added to the entries of `d`
module _ {ℓ κ} {R : Type ℓ} {V : Type κ} (key : R → String) (value : R → V) where
  abbrev pub fill : Dict V → List R → Dict V
  fill d [] = d
  fill d (r ∷ rows) = fill (put d (key r) (value r)) rows

  -- the last of the rows with the key
  abbrev pub last_value : List R → String → Option V
  last_value [] k = none
  last_value (r ∷ rows) k =
      or_else (last_value rows k) (if key r == k then some (value r) else none)

  pub get-fill :
      (d : Dict V) (rows : List R) (k : String)
      → get (fill d rows) k ≡ or_else (last_value rows k) (get d k)
  get-fill d [] k = refl
  get-fill d (r ∷ rows) k =
      get-fill (put d (key r) (value r)) rows k ∙ ground (arith, get-put d (key r) (value r) k)

  pub has-fill :
      (d : Dict V) (rows : List R) (k : String)
      → has (fill d rows) k ≡ (has d k || contains (map key rows) k)
  has-fill d [] k = ground arith
  has-fill d (r ∷ rows) k =
      has-fill (put d (key r) (value r)) rows k ∙ ground (arith, keys-put d (key r) (value r) k)

  pub fill-append : (d : Dict V) (xs ys : List R) → fill d (xs ++ ys) ≡ fill (fill d xs) ys
  fill-append d [] ys = refl
  fill-append d (r ∷ xs) ys = fill-append (put d (key r) (value r)) xs ys

module _ {ℓ} {V : Type ℓ} where
  pub get_nil : (d : Dict V) (k : String) → is_nil d ≡ true → has d k ≡ false
  get_nil [] k h = refl
  get_nil (e ∷ d) k h = ground arith

module _ {ℓ κ} {R : Type ℓ} {V : Type κ} (key : R → String) (value : R → V) where
  abbrev pub value_of : Option R → Option V
  value_of none = none
  value_of (some r) = some (value r)

  last_value_absent :
      (rows : List R) (k : String)
      → contains (map key rows) k ≡ false
      → last_value key value rows k ≡ none
  last_value_absent [] k h = refl
  last_value_absent (r ∷ rows) k h = ground (arith, last_value_absent rows k)

  contains-map-filter_by :
      (p : String → Bool) (rows : List R) (k : String)
      → contains (map key (filter_by (λ r. p (key r)) rows)) k ≡ (contains (map key rows) k && p k)
  contains-map-filter_by p [] k = refl
  contains-map-filter_by p (r ∷ rows) k =
      ground (arith, contains-map-filter_by p rows k, eq_iff (key r) k)

  -- Where the key is a primary key, a query `key in …` made into a dictionary finds the one row.
  pub last_value-filter_by :
      (p : String → Bool) (rows : List R) (k : String)
      → Distinct (map key rows)
      → last_value key value (filter_by (λ r. p (key r)) rows) k
        ≡ (if p k then value_of (find_by (λ r. key r == k) rows) else none)
  last_value-filter_by p [] k d = ground arith
  last_value-filter_by p (r ∷ rows) k d = ground (
    arith,
    last_value-filter_by p rows k d.1,
    last_value_absent (filter_by (λ r. p (key r)) rows) k,
    contains-map-filter_by p rows k,
    eq_iff (key r) k,
  )

  -- The same with the query left out where no key can match.
  pub get-select :
      (empty : Bool) (p : String → Bool) (rows : List R) (k : String)
      → Distinct (map key rows)
      → (empty ≡ true → p k ≡ false)
      → get (if empty then [] else fill key value [] (filter_by (λ r. p (key r)) rows)) k
        ≡ (if p k then value_of (find_by (λ r. key r == k) rows) else none)
  get-select true p rows k d none_match = ground (arith, none_match refl)
  get-select false p rows k d none_match =
      get-fill key value [] (filter_by (λ r. p (key r)) rows) k
      ∙ ground (arith, last_value-filter_by p rows k d)

pub contains_nil : (ks : List String) (k : String) → is_nil ks ≡ true → contains ks k ≡ false
contains_nil [] k h = refl
contains_nil (j ∷ ks) k h = ground arith

pub contains-values :
    (d : Dict String) (k v : String) → get d k ≡ some v → contains (values d) v ≡ true
contains-values [] k v h = ground arith
contains-values ((j, w) ∷ d) k v h = ground (arith, contains-values d k v, eq_iff w v)

module _ {ℓ} {V : Type ℓ} where
  pub get_absent : (d : Dict V) (k : String) → has d k ≡ false → get d k ≡ none
  get_absent [] k h = refl
  get_absent ((j, v) ∷ d) k h = ground (arith, get_absent d k)

  -- A dictionary holds each key once.
  Distinct-put : (d : Dict V) (k : String) (v : V) → Distinct (keys d) → Distinct (keys (put d k v))
  Distinct-put [] k v h = (refl, tt)
  Distinct-put ((j, w) ∷ d) k v h = elim (Bool-cases (j == k)) [
    | inl e ↦ rw e h
    | inr e ↦
        rw e (ground (arith, keys-put d k v j, eq_iff j k, eq_iff k j), Distinct-put d k v h.1)
  ]

module _ {ℓ κ} {R : Type ℓ} {V : Type κ} (key : R → String) (value : R → V) where
  pub Distinct-fill :
      (d : Dict V) (rows : List R) → Distinct (keys d) → Distinct (keys (fill key value d rows))
  Distinct-fill d [] h = h
  Distinct-fill d (r ∷ rows) h =
      Distinct-fill (put d (key r) (value r)) rows (Distinct-put d (key r) (value r) h)

  pub Distinct-select :
      (empty : Bool) (rows : List R)
      → Distinct (keys (if empty then [] else fill key value [] rows))
  Distinct-select true rows = tt
  Distinct-select false rows = Distinct-fill [] rows tt
