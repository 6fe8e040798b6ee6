-- ===== src/Parsers/Windows.antt =====
-- api/services/ingestion.py: the windows of `sliding_window`, against the tokens that they cut.
use embedbase.Parsers.{windows_from}
use embedbase.Prelude.{
  Bool, List, [], all_of, ap, append-nil, arith, drop, false, if◌then◌else◌, leb, length, refl, suc,
  sym, take, true, zero, ℕ, ◌++◌, ◌+◌, ◌-◌, ◌<◌, ◌∙◌, ◌∷◌, ◌≡◌, ◌≤◌,
}

module _ {A : Type 0} where
  -- the windows put together again, each next one without the tokens that it shares
  abbrev pub rejoin : ℕ → List (List A) → List A
  rejoin overlap [] = []
  rejoin overlap (w ∷ ws) = w ++ drop overlap (rejoin overlap ws)

  take-drop : (n : ℕ) (xs : List A) → take n xs ++ drop n xs ≡ xs
  take-drop zero xs = refl
  take-drop (suc n) [] = refl
  take-drop (suc n) (x ∷ xs) = ap (λ ys. x ∷ ys) (take-drop n xs)

  drop_nil : (n : ℕ) → drop {A = A} n [] ≡ []
  drop_nil zero = refl
  drop_nil (suc n) = refl

  drop-drop : (a b c : ℕ) (xs : List A) → c ≡ b + a → drop a (drop b xs) ≡ drop c xs
  drop-drop a zero c xs h = ap (λ n. drop n xs) (omega (arith, h))
  drop-drop a (suc b) c [] h = drop_nil a ∙ sym (drop_nil c)
  drop-drop a (suc b) zero (x ∷ xs) h = absurd (omega (arith, h))
  drop-drop a (suc b) (suc c) (x ∷ xs) h = drop-drop a b c xs (omega (arith, h))

  length-drop : (n : ℕ) (xs : List A) → length (drop n xs) ≡ length xs - n
  length-drop zero xs = omega arith
  length-drop (suc n) [] = omega arith
  length-drop (suc n) (x ∷ xs) = length-drop n xs ∙ omega arith

  length-take : (n : ℕ) (xs : List A) → length (take n xs) ≤ n
  length-take zero xs = omega arith
  length-take (suc n) [] = omega arith
  length-take (suc n) (x ∷ xs) = omega (arith, length-take n xs)

  take_whole : (n : ℕ) (xs : List A) → length xs ≤ n → take n xs ≡ xs
  take_whole zero [] h = refl
  take_whole zero (x ∷ xs) h = absurd (omega (arith, h))
  take_whole (suc n) [] h = refl
  take_whole (suc n) (x ∷ xs) h = ap (λ ys. x ∷ ys) (take_whole n xs (omega (arith, h)))

  rejoin_round :
      (short : Bool) (max_tokens overlap : ℕ) (tokens : List A) (later : List (List A))
      → overlap < max_tokens
      → leb (length tokens) max_tokens ≡ short
      → rejoin overlap later ≡ drop (max_tokens - overlap) tokens
      → rejoin overlap
          (if short then take max_tokens tokens ∷ [] else take max_tokens tokens ∷ later)
        ≡ tokens
  rejoin_round true max_tokens overlap tokens later small h rest =
      ap (λ ys. take max_tokens tokens ++ ys) (drop_nil overlap)
      ∙ append-nil (take max_tokens tokens)
      ∙ take_whole max_tokens tokens (ground (arith, h))
  rejoin_round false max_tokens overlap tokens later small h rest =
      ap (λ ys. take max_tokens tokens ++ drop overlap ys) rest
      ∙ ap (λ ys. take max_tokens tokens ++ ys)
          (drop-drop overlap (max_tokens - overlap) max_tokens tokens (omega (arith, small)))
      ∙ take-drop max_tokens tokens

  rejoin-windows_from :
      (fuel max_tokens overlap : ℕ) (tokens : List A)
      → overlap < max_tokens
      → length tokens ≤ fuel
      → rejoin overlap (windows_from fuel max_tokens (max_tokens - overlap) tokens) ≡ tokens
  unfolding windows_from
  rejoin-windows_from zero max_tokens overlap [] small enough = refl
  rejoin-windows_from (suc fuel) max_tokens overlap [] small enough = refl
  rejoin-windows_from zero max_tokens overlap (t ∷ tokens) small enough =
      absurd (omega (arith, enough))
  rejoin-windows_from (suc fuel) max_tokens overlap (t ∷ tokens) small enough =
      rejoin_round (leb (length (t ∷ tokens)) max_tokens) max_tokens overlap (t ∷ tokens) _ small
        refl
        (rejoin-windows_from fuel max_tokens overlap (drop (max_tokens - overlap) (t ∷ tokens))
          small (omega (arith, length-drop (max_tokens - overlap) (t ∷ tokens), small, enough)))

  fit_round :
      (short : Bool) (max_tokens : ℕ) (tokens : List A) (later : List (List A))
      → all_of (λ w. leb (length w) max_tokens) later ≡ true
      → all_of
          (λ w. leb (length w) max_tokens)
          (if short then take max_tokens tokens ∷ [] else take max_tokens tokens ∷ later)
        ≡ true
  fit_round true max_tokens tokens later h = ground (arith, length-take max_tokens tokens)
  fit_round false max_tokens tokens later h = ground (arith, length-take max_tokens tokens, h)

  windows_fit :
      (fuel max_tokens step : ℕ) (tokens : List A)
      → all_of (λ w. leb (length w) max_tokens) (windows_from fuel max_tokens step tokens) ≡ true
  unfolding windows_from
  windows_fit zero max_tokens step tokens = refl
  windows_fit (suc fuel) max_tokens step [] = refl
  windows_fit (suc fuel) max_tokens step (t ∷ tokens) =
      fit_round (leb (length (t ∷ tokens)) max_tokens) max_tokens (t ∷ tokens) _
        (windows_fit fuel max_tokens step (drop step (t ∷ tokens)))

-- Where the overlap is smaller than a window and the fuel is not less than the number of tokens, no
-- window has more tokens than max_tokens, and the windows put together again, each next one without
-- the tokens that it shares, are the tokens.
pub windows_from-cut :
    {A : Type 0}
    → (fuel max_tokens overlap : ℕ) (tokens : List A) → overlap < max_tokens
    → length tokens ≤ fuel
    → (all_of
          (λ w. leb (length w) max_tokens)
          (windows_from fuel max_tokens (max_tokens - overlap) tokens)
        ≡ true)
      × (rejoin overlap (windows_from fuel max_tokens (max_tokens - overlap) tokens) ≡ tokens)
windows_from-cut fuel max_tokens overlap tokens small enough = (
  windows_fit fuel max_tokens (max_tokens - overlap) tokens,
  rejoin-windows_from fuel max_tokens overlap tokens small enough,
)
