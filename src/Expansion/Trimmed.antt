-- ===== src/Expansion/Trimmed.antt =====
-- What `_fit_budget` (api/services/expansion.py) keeps of a span.
use embedbase.Chunks.{SearchResult}
use embedbase.Expansion.Budget.{
  Ordered, Side, but_last, choose_side, chunks_of, drop_left, drop_right, fit_budget, in_hits,
  keep_both, last_from, side_of, size, text_len, trim, trim_loop,
}
use embedbase.Prelude.{
  Bool, Bool-cases, List, Option-cases, [], any_of, ap, arith, false, inl, inr, length, ltb, none,
  not, refl, some, subst, suc, sym, true, zero, ℕ, ◌++◌, ◌+◌, ◌∙◌, ◌∷◌, ◌≡◌, ◌≤◌, ◌⊎◌,
}

drop_left_lem : (a b : Bool) (l r : ℕ) → choose_side a b l r ≡ drop_left → a ≡ true
drop_left_lem a b l r h = ground arith

drop_right_lem : (a b : Bool) (l r : ℕ) → choose_side a b l r ≡ drop_right → b ≡ true
drop_right_lem a b l r h = ground arith

keep_both_lem : (a b : Bool) (l r : ℕ) → choose_side a b l r ≡ keep_both → (a ≡ false) × (b ≡ false)
keep_both_lem a b l r h = ground arith

Side-cases : (s : Side) → (s ≡ keep_both) ⊎ ((s ≡ drop_left) ⊎ (s ≡ drop_right))
Side-cases keep_both = inl refl
Side-cases drop_left = inr (inl refl)
Side-cases drop_right = inr (inr refl)

module _ {S : Type 0} (hits : List ℕ) where
  abbrev pub NoHit : Ordered S → Type 0
  NoHit span = any_of (λ (e : ℕ × SearchResult S). in_hits hits e.0) span ≡ false

  -- The kept chunks are a run of the span, and no chunk beside the run is a hit.
  pub record Trimmed (ordered kept : Ordered S) : Type 0 where
    pub left : Ordered S
    pub right : Ordered S
    pub run : ordered ≡ left ++ (kept ++ right)
    pub left_free : NoHit left
    pub right_free : NoHit right

  -- Both ends of the run are hits.
  abbrev pub EndsHit : Ordered S → Type 0
  EndsHit [] = Unit
  EndsHit (x ∷ rest) = (in_hits hits x.0 ≡ true) × (in_hits hits (last_from x rest).0 ≡ true)

  append_nil : (xs : Ordered S) → xs ++ [] ≡ xs
  append_nil [] = refl
  append_nil (x ∷ xs) = ap (λ ys. x ∷ ys) (append_nil xs)

  append_assoc : (xs ys zs : Ordered S) → (xs ++ ys) ++ zs ≡ xs ++ (ys ++ zs)
  append_assoc [] ys zs = refl
  append_assoc (x ∷ xs) ys zs = ap (λ ws. x ∷ ws) (append_assoc xs ys zs)

  NoHit-append : (xs ys : Ordered S) → NoHit xs → NoHit ys → NoHit (xs ++ ys)
  NoHit-append [] ys h k = k
  NoHit-append (x ∷ xs) ys h k = ground (arith, NoHit-append xs ys)

  but_last-last_from :
      (x : ℕ × SearchResult S) (rest : Ordered S)
      → x ∷ rest ≡ but_last x rest ++ (last_from x rest ∷ [])
  but_last-last_from x [] = refl
  but_last-last_from x (y ∷ rest) = ap (λ ys. x ∷ ys) (but_last-last_from y rest)

  length-but_last :
      (x : ℕ × SearchResult S) (rest : Ordered S) → length (but_last x rest) ≡ length rest
  length-but_last x [] = refl
  length-but_last x (y ∷ rest) = ap (λ n. suc n) (length-but_last y rest)

  regroup : (l k xs r s : Ordered S) → l ++ ((k ++ (xs ++ r)) ++ s) ≡ (l ++ k) ++ (xs ++ (r ++ s))
  regroup l k xs r s =
      ap (λ ws. l ++ ws) (append_assoc k (xs ++ r) s ∙ ap (λ ws. k ++ ws) (append_assoc xs r s))
      ∙ sym (append_assoc l k (xs ++ (r ++ s)))

  Trimmed-trans : (a b c : Ordered S) → Trimmed a b → Trimmed b c → Trimmed a c
  Trimmed-trans a b c f g = record {
    left = f.left ++ g.left;
    right = g.right ++ f.right;
    run =
        f.run
        ∙ ap (λ ws. f.left ++ (ws ++ f.right)) g.run
        ∙ regroup f.left g.left c g.right f.right;
    left_free = NoHit-append f.left g.left f.left_free g.left_free;
    right_free = NoHit-append g.right f.right g.right_free f.right_free;
  }

  Trimmed-self : (a : Ordered S) → Trimmed a a
  Trimmed-self a = record {
    left = [];
    right = [];
    run = sym (append_nil a);
    left_free = refl;
    right_free = refl;
  }

  module _ (x y : ℕ × SearchResult S) where
    first_free : side_of hits x y ≡ drop_left → in_hits hits x.0 ≡ false
    first_free h =
        let e =
          drop_left_lem (not (in_hits hits x.0)) (not (in_hits hits y.0)) (text_len x.1)
            (text_len y.1) h in
        ground arith

    last_free : side_of hits x y ≡ drop_right → in_hits hits y.0 ≡ false
    last_free h =
        let e =
          drop_right_lem (not (in_hits hits x.0)) (not (in_hits hits y.0)) (text_len x.1)
            (text_len y.1) h in
        ground arith

    both_hits : side_of hits x y ≡ keep_both → (in_hits hits x.0 ≡ true) × (in_hits hits y.0 ≡ true)
    both_hits h =
        let e =
          keep_both_lem (not (in_hits hits x.0)) (not (in_hits hits y.0)) (text_len x.1)
            (text_len y.1) h in
        (ground arith, ground arith)

  without_first :
      (x : ℕ × SearchResult S) (rest : Ordered S)
      → in_hits hits x.0 ≡ false
      → Trimmed (x ∷ rest) rest
  without_first x rest h = record {
    left = x ∷ [];
    right = [];
    run = ap (λ ys. x ∷ ys) (sym (append_nil rest));
    left_free = ground arith;
    right_free = refl;
  }

  without_last :
      (x : ℕ × SearchResult S) (rest : Ordered S)
      → in_hits hits (last_from x rest).0 ≡ false
      → Trimmed (x ∷ rest) (but_last x rest)
  without_last x rest h = record {
    left = [];
    right = last_from x rest ∷ [];
    run = but_last-last_from x rest;
    left_free = refl;
    right_free = ground arith;
  }

  module _ (char_budget : ℕ) where
    trim-Trimmed :
        (span next : Ordered S) → trim hits char_budget span ≡ some next → Trimmed span next
    trim-Trimmed [] next h = cc
    trim-Trimmed (x ∷ []) next h = cc
    trim-Trimmed (x ∷ y ∷ rest) next h = elim (Bool-cases (ltb char_budget (size (x ∷ y ∷ rest)))) [
      | inr e ↦ absurd (ground arith)
      | inl e ↦ elim (Side-cases (side_of hits x (last_from y rest))) [
        | inl s ↦ absurd (ground arith)
        | inr (inl s) ↦
            let q : y ∷ rest ≡ next = ground arith in
            subst (λ n. Trimmed (x ∷ y ∷ rest) n) q
              (without_first x (y ∷ rest) (first_free x (last_from y rest) s))
        | inr (inr s) ↦
            let q : but_last x (y ∷ rest) ≡ next = ground arith in
            subst (λ n. Trimmed (x ∷ y ∷ rest) n) q
              (without_last x (y ∷ rest) (last_free x (last_from y rest) s))
      ]
    ]

    trim-length :
        (span next : Ordered S)
        → trim hits char_budget span ≡ some next
        → length next + 1 ≡ length span
    trim-length [] next h = cc
    trim-length (x ∷ []) next h = cc
    trim-length (x ∷ y ∷ rest) next h = elim (Bool-cases (ltb char_budget (size (x ∷ y ∷ rest)))) [
      | inr e ↦ absurd (ground arith)
      | inl e ↦ elim (Side-cases (side_of hits x (last_from y rest))) [
        | inl s ↦ absurd (ground arith)
        | inr (inl s) ↦
            let q : y ∷ rest ≡ next = ground arith in
            omega (arith, ap (λ (n : Ordered S). length n) q)
        | inr (inr s) ↦
            let q : but_last x (y ∷ rest) ≡ next = ground arith in
            omega (arith, ap (λ (n : Ordered S). length n) q, length-but_last x (y ∷ rest))
      ]
    ]

    settled :
        (span : Ordered S)
        → trim hits char_budget span ≡ none
        → (size span ≤ char_budget) ⊎ ((length span ≤ 1) ⊎ EndsHit span)
    settled [] h = inr (inl (omega arith))
    settled (x ∷ []) h = inr (inl (omega arith))
    settled (x ∷ y ∷ rest) h = elim (Bool-cases (ltb char_budget (size (x ∷ y ∷ rest)))) [
      | inr e ↦ inl (ground arith)
      | inl e ↦ elim (Side-cases (side_of hits x (last_from y rest))) [
        | inl s ↦ inr (inr (both_hits x (last_from y rest) s))
        | inr (inl s) ↦ absurd (ground arith)
        | inr (inr s) ↦ absurd (ground arith)
      ]
    ]

    trim_loop_stop :
        (fuel : ℕ) (span : Ordered S)
        → trim hits char_budget span ≡ none
        → trim_loop (suc fuel) hits char_budget span ≡ span
    trim_loop_stop fuel span h = ground arith

    trim_loop_next :
        (fuel : ℕ) (span next : Ordered S)
        → trim hits char_budget span ≡ some next
        → trim_loop (suc fuel) hits char_budget span ≡ trim_loop fuel hits char_budget next
    trim_loop_next fuel span next h = ground arith

    trim_loop-Trimmed :
        (fuel : ℕ) (span : Ordered S) → Trimmed span (trim_loop fuel hits char_budget span)
    trim_loop-Trimmed zero span = Trimmed-self span
    trim_loop-Trimmed (suc fuel) span = elim (Option-cases (trim hits char_budget span)) [
      | inl e ↦ subst (λ k. Trimmed span k) (sym (trim_loop_stop fuel span e)) (Trimmed-self span)
      | inr (next, e) ↦
          subst (λ k. Trimmed span k) (sym (trim_loop_next fuel span next e))
            (Trimmed-trans span next (trim_loop fuel hits char_budget next)
              (trim-Trimmed span next e) (trim_loop-Trimmed fuel next))
    ]

    trim_loop-ends :
        (fuel : ℕ) (span : Ordered S)
        → length span ≤ fuel
        → trim hits char_budget (trim_loop fuel hits char_budget span) ≡ none
    trim_loop-ends zero [] h = refl
    trim_loop-ends zero (x ∷ span) h = absurd (omega (arith, h))
    trim_loop-ends (suc fuel) span h = elim (Option-cases (trim hits char_budget span)) [
      | inl e ↦ ap (λ k. trim hits char_budget k) (trim_loop_stop fuel span e) ∙ e
      | inr (next, e) ↦
          ap (λ k. trim hits char_budget k) (trim_loop_next fuel span next e)
          ∙ trim_loop-ends fuel next (omega (arith, trim-length span next e, h))
    ]

-- The budget keeps a contiguous run of the span and drops no hit; and it stops only within the
-- budget, at a single chunk, or where both ends of the run are hits.
pub fit_budget-run :
    {S : Type 0} (ordered : Ordered S) (hits : List ℕ) (char_budget : ℕ)
    → (kept : Ordered S) × (fit_budget ordered hits char_budget ≡ chunks_of kept)
      × Trimmed hits ordered kept
      × ((size kept ≤ char_budget) ⊎ ((length kept ≤ 1) ⊎ EndsHit hits kept))
unfolding fit_budget
fit_budget-run ordered hits char_budget = (
  trim_loop (length ordered) hits char_budget ordered,
  refl,
  trim_loop-Trimmed hits char_budget (length ordered) ordered,
  settled hits char_budget (trim_loop (length ordered) hits char_budget ordered)
      (trim_loop-ends hits char_budget (length ordered) ordered (omega arith)),
)
