-- ===== src/Worker/Paced.antt =====
-- worker/tasks.py, `_RpmLimiter`: the batches of a worker, one after the other.
use embedbase.Prelude.{
  Bool-cases, List, [], ap, arith, false, inl, inr, leb, map, max, refl, some, subst, sym, ℕ, ◌++◌,
  ◌+◌, ◌<◌, ◌||◌, ◌∷◌, ◌≡◌, ◌≤◌,
}
use embedbase.Worker.Throttle.{Events, in_window, paced, rounds, throttle}
use embedbase.Worker.Window.{
  Admitted, By, By-mono, By-snoc, in_window-append, in_window_le_total, wait-Admitted, wait-ends,
}

abbrev pub largest : List (ℕ × ℕ) → ℕ
largest [] = 0
largest ((idle, n) ∷ batches) = max n (largest batches)

in_window_nil : (at cap : ℕ) → in_window at [] ≤ cap
unfolding in_window
in_window_nil at cap = omega arith

module _ (wake : ℕ → ℕ → ℕ) (tick : ℕ → ℕ) (wakes : (now d : ℕ) → now + d ≤ wake now d)
    (ticks : (now : ℕ) → now ≤ tick now) where
  -- Where each event of the window happened by now and the clock does not go back, `throttle` ends:
  -- within 1201 rounds the batch is let through, whatever its size and the cap.
  pub throttle-ends :
      (now n rpm : ℕ) (es : Events)
      → By now es
      → (r : ℕ × Events) × (throttle wake tick now es n rpm ≡ some r)
  unfolding throttle
  throttle-ends now n rpm es o =
      let (r, q) = wait-ends wake tick wakes ticks 1200 now now n rpm es o (omega arith) in
      elim (Bool-cases (leb rpm 0 || leb n 0)) [
        | inl e ↦ ((now, es), ground arith)
        | inr e ↦ (r, ground (arith, q))
      ]

  -- The events after a call happened by its end.
  throttle-By :
      (now n rpm t : ℕ) (es after : Events)
      → By now es
      → throttle wake tick now es n rpm ≡ some (t, after)
      → By t after × (now ≤ t)
  unfolding throttle
  throttle-By now n rpm t es after o h = elim (Bool-cases (leb rpm 0 || leb n 0)) [
    | inl e ↦
        let same : (now, es) ≡ (t, after) = ground arith in
        subst (λ (r : ℕ × Events). By r.0 r.1 × (now ≤ r.0)) same (o, omega arith)
    | inr e ↦
        let a = wait-Admitted wake tick wakes ticks rounds now n rpm t es after o (ground arith) in
        (subst (By t) (sym a.after_is) (By-snoc t n a.kept a.kept_By), a.later)
  ]

  -- Nothing is let through before the first batch comes.
  paced_later :
      (batches : List (ℕ × ℕ)) (rpm now at : ℕ) (es : Events)
      → By now es
      → at < now
      → in_window at (paced wake tick batches rpm now es) ≡ 0
  unfolding paced in_window
  paced_later [] rpm now at es o lt = refl
  paced_later ((idle, n) ∷ batches) rpm now at es o lt =
      let wide : By (now + idle) es = By-mono now (now + idle) es (omega arith) o in
      let ((t, after), q) = throttle-ends (now + idle) n rpm es wide in
      let (o', le) = throttle-By (now + idle) n rpm t es after wide q in
      rw q (ground (arith, lt, le, paced_later batches rpm t at after o' (omega (arith, le, lt))))

  window_after :
      (now n rpm t cap : ℕ) (es after : Events)
      → rpm ≤ cap
      → n ≤ cap
      → ((at : ℕ) → in_window at es ≤ cap)
      → Admitted now es n rpm t after
      → (at : ℕ) → in_window at after ≤ cap
  unfolding in_window
  window_after now n rpm t cap es after le small w a at = rw a.after_is (
      ground (
        arith,
        in_window-append at a.kept ((t, n) ∷ []),
        w at,
        a.kept_le at,
        in_window_le_total at a.kept,
        a.capped,
      ))

  -- A window that ends before the batch holds only earlier events, and one that ends after it
  -- none that the call dropped.
  capped_admission :
      (now n rpm t cap at : ℕ) (es after rest : Events)
      → Admitted now es n rpm t after
      → in_window at es ≤ cap
      → (at < t → in_window at rest ≡ 0)
      → in_window at (after ++ rest) ≤ cap
      → in_window at (es ++ (t, n) ∷ rest) ≤ cap
  unfolding in_window
  capped_admission now n rpm t cap at es after rest a w before ih =
      let all = in_window-append at es ((t, n) ∷ rest) in
      elim (Bool-cases (leb t at)) [
        | inl p ↦
            let joined : in_window at after ≡ in_window at (a.kept ++ (t, n) ∷ []) =
              ap (in_window at) a.after_is in
            ground (
              arith,
              all,
              joined,
              in_window-append at after rest,
              in_window-append at a.kept ((t, n) ∷ []),
              a.kept_window at (ground arith),
            )
        | inr p ↦ ground (arith, all, before (ground arith), w)
      ]

  capped_empty :
      (t n cap at : ℕ) (es rest : Events)
      → n ≡ 0
      → in_window at (es ++ rest) ≤ cap
      → in_window at (es ++ (t, n) ∷ rest) ≤ cap
  unfolding in_window
  capped_empty t n cap at es rest no_text ih =
      ground (arith, in_window-append at es rest, in_window-append at es ((t, n) ∷ rest))

  -- Each window of what the earlier events and the batches let through is within the cap.
  paced_capped :
      (batches : List (ℕ × ℕ)) (rpm cap now at : ℕ) (es : Events)
      → leb rpm 0 ≡ false
      → rpm ≤ cap
      → largest batches ≤ cap
      → By now es
      → ((at : ℕ) → in_window at es ≤ cap)
      → in_window at (es ++ paced wake tick batches rpm now es) ≤ cap
  unfolding paced throttle in_window
  paced_capped [] rpm cap now at es pos le small o w =
      omega (arith, in_window-append at es [], w at)
  paced_capped ((idle, n) ∷ batches) rpm cap now at es pos le small o w =
      let wide : By (now + idle) es = By-mono now (now + idle) es (omega arith) o in
      let ((t, after), q) = throttle-ends (now + idle) n rpm es wide in
      let (o', later) = throttle-By (now + idle) n rpm t es after wide q in
      let none_before : at < t → in_window at (paced wake tick batches rpm t after) ≡ 0 =
        paced_later batches rpm t at after o' in
      rw q (elim (Bool-cases (leb n 0)) [
        | inl e ↦
            let same : es ≡ after = ground arith in
            let w' : (at : ℕ) → in_window at after ≤ cap =
              subst (λ es. (at : ℕ) → in_window at es ≤ cap) same w in
            let ih = paced_capped batches rpm cap t at after pos le (omega (arith, small)) o' w' in
            capped_empty t n cap at es (paced wake tick batches rpm t after) (ground arith) (
              subst (λ xs. in_window at (xs ++ paced wake tick batches rpm t after) ≤ cap)
                (sym same) ih)
        | inr e ↦
            let a =
              wait-Admitted wake tick wakes ticks rounds (now + idle) n rpm t es after wide
                (ground arith) in
            let w' = window_after (now + idle) n rpm t cap es after le (omega (arith, small)) w a in
            let ih = paced_capped batches rpm cap t at after pos le (omega (arith, small)) o' w' in
            capped_admission (now + idle) n rpm t cap at es after
              (paced wake tick batches rpm t after) a (w at) none_before ih
      ])

  -- For each list of batches, a new limiter lets all of them through, in their order.
  pub paced-length :
      (batches : List (ℕ × ℕ)) (rpm now : ℕ) (es : Events)
      → By now es
      → map (λ e. e.1) (paced wake tick batches rpm now es) ≡ map (λ b. b.1) batches
  unfolding paced
  paced-length [] rpm now es o = refl
  paced-length ((idle, n) ∷ batches) rpm now es o =
      let wide : By (now + idle) es = By-mono now (now + idle) es (omega arith) o in
      let ((t, after), q) = throttle-ends (now + idle) n rpm es wide in
      let (o', later) = throttle-By (now + idle) n rpm t es after wide q in
      rw q (ap (λ ns. n ∷ ns) (paced-length batches rpm t after o'))

  -- Where the cap is not zero and the clock does not go back, no minute holds more texts let
  -- through by a new limiter than the cap, or than the largest batch where that is over the cap.
  pub paced_within_cap :
      (batches : List (ℕ × ℕ)) (rpm now at : ℕ)
      → leb rpm 0 ≡ false
      → in_window at (paced wake tick batches rpm now []) ≤ max rpm (largest batches)
  unfolding By
  paced_within_cap batches rpm now at pos =
      paced_capped batches rpm (max rpm (largest batches)) now at [] pos (omega arith) (omega arith)
        tt (λ at. in_window_nil at (max rpm (largest batches)))
