-- ===== src/Worker/Window.antt =====
-- worker/tasks.py, `_RpmLimiter`: the loop ends, and no minute holds more texts than the cap.
use embedbase.Prelude.{
  Bool-cases, [], arith, inl, inr, is_nil, leb, max, refl, some, subst, suc, true, zero, ℕ, ◌*◌,
  ◌++◌, ◌+◌, ◌-◌, ◌||◌, ◌∙◌, ◌∷◌, ◌≡◌, ◌≤◌,
}
use embedbase.Worker.Throttle.{Events, in_window, minute, pause, total, trim, wait}

-- every event happened by a time
unfoldable pub By : ℕ → Events → Type 0
By now [] = Unit
By now ((t, k) ∷ es) = (t ≤ now) × By now es

pub By-mono : (a b : ℕ) (es : Events) → a ≤ b → By a es → By b es
unfolding By
By-mono a b [] h o = tt
By-mono a b ((t, k) ∷ es) h o = (omega (arith, o.0, h), By-mono a b es h o.1)

pub By-trim : (now at : ℕ) (es : Events) → By at es → By at (trim now es)
unfolding By trim
By-trim now at [] o = tt
By-trim now at ((t, k) ∷ es) o = elim (Bool-cases (leb minute (now - t))) [
  | inl e ↦ rw e (By-trim now at es o.1)
  | inr e ↦ rw e o
]

pub By-snoc : (at n : ℕ) (es : Events) → By at es → By at (es ++ (at, n) ∷ [])
unfolding By
By-snoc at n [] o = (omega arith, tt)
By-snoc at n ((t, k) ∷ es) o = (o.0, By-snoc at n es o.1)

-- what a reading drops is in no later window
pub in_window-trim :
    (now at : ℕ) (es : Events) → now ≤ at → in_window at (trim now es) ≡ in_window at es
unfolding in_window trim
in_window-trim now at [] h = refl
in_window-trim now at ((t, k) ∷ es) h = ground (arith, in_window-trim now at es h)

pub in_window_le_total : (at : ℕ) (es : Events) → in_window at es ≤ total es
unfolding in_window
in_window_le_total at [] = omega arith
in_window_le_total at ((t, k) ∷ es) = ground (arith, in_window_le_total at es)

in_window-trim_le : (now at : ℕ) (es : Events) → in_window at (trim now es) ≤ in_window at es
unfolding in_window trim
in_window-trim_le now at [] = omega arith
in_window-trim_le now at ((t, k) ∷ es) = ground (arith, in_window-trim_le now at es)

pub in_window-append :
    (at : ℕ) (xs ys : Events) → in_window at (xs ++ ys) ≡ in_window at xs + in_window at ys
unfolding in_window
in_window-append at [] ys = omega arith
in_window-append at ((t, k) ∷ xs) ys = omega (arith, in_window-append at xs ys)

trim_all : (now newest : ℕ) (es : Events) → By newest es → newest + minute ≤ now → trim now es ≡ []
unfolding By trim
trim_all now newest [] o h = refl
trim_all now newest ((t, k) ∷ es) o h = ground (arith, o.0, trim_all now newest es o.1 h)

pause_min : (now : ℕ) (es : Events) → 50 ≤ pause now es
pause_min now [] = omega arith
pause_min now ((t, k) ∷ es) = omega arith

total_capped :
    (kept : Events) (n rpm : ℕ)
    → (leb (total kept + n) rpm || is_nil kept) ≡ true
    → total kept + n ≤ max rpm n
total_capped [] n rpm h = omega arith
total_capped ((t, k) ∷ es) n rpm h = ground arith

-- What a call that ends leaves: the events of the last minute, and its own.
pub record Admitted (now : ℕ) (es : Events) (n rpm t : ℕ) (after : Events) : Type 0 where
  pub kept : Events
  pub after_is : after ≡ kept ++ (t, n) ∷ []
  pub later : now ≤ t
  pub kept_By : By t kept
  pub kept_window : (at : ℕ) → t ≤ at → in_window at kept ≡ in_window at es
  pub kept_le : (at : ℕ) → in_window at kept ≤ in_window at es
  pub capped : total kept + n ≤ max rpm n

module _ (wake : ℕ → ℕ → ℕ) (tick : ℕ → ℕ) (wakes : (now d : ℕ) → now + d ≤ wake now d)
    (ticks : (now : ℕ) → now ≤ tick now) where
  Admitted-trim :
      (now next n rpm t : ℕ) (es after : Events)
      → now ≤ next
      → Admitted next (trim now es) n rpm t after
      → Admitted now es n rpm t after
  Admitted-trim now next n rpm t es after h a = record {
    kept = a.kept;
    after_is = a.after_is;
    later = omega (arith, h, a.later);
    kept_By = a.kept_By;
    kept_window =
        λ at o. a.kept_window at o ∙ in_window-trim now at es (omega (arith, h, o, a.later));
    kept_le = λ at. omega (arith, a.kept_le at, in_window-trim_le now at es);
    capped = a.capped;
  }

  Admitted-now :
      (now n rpm : ℕ) (es : Events)
      → By now es
      → (leb (total (trim now es) + n) rpm || is_nil (trim now es)) ≡ true
      → Admitted now es n rpm (tick now) (trim now es ++ (tick now, n) ∷ [])
  Admitted-now now n rpm es o h = record {
    kept = trim now es;
    after_is = refl;
    later = ticks now;
    kept_By = By-mono now (tick now) (trim now es) (ticks now) (By-trim now now es o);
    kept_window = λ at le. in_window-trim now at es (omega (arith, le, ticks now));
    kept_le = λ at. in_window-trim_le now at es;
    capped = total_capped (trim now es) n rpm h;
  }

  pub wait-Admitted :
      (fuel now n rpm t : ℕ) (es after : Events)
      → By now es
      → wait wake tick fuel now es n rpm ≡ some (t, after)
      → Admitted now es n rpm t after
  unfolding wait
  wait-Admitted zero now n rpm t es after o h = ground arith
  wait-Admitted (suc fuel) now n rpm t es after o h =
      let next : ℕ = wake now (pause now (trim now es)) in
      let le : now ≤ next = omega (arith, wakes now (pause now (trim now es))) in
      elim (Bool-cases (leb (total (trim now es) + n) rpm || is_nil (trim now es))) [
        | inl e ↦
            let same : (tick now, trim now es ++ (tick now, n) ∷ []) ≡ (t, after) = ground arith in
            subst (λ (r : ℕ × Events). Admitted now es n rpm r.0 r.1) same
              (Admitted-now now n rpm es o e)
        | inr e ↦ Admitted-trim now next n rpm t es after le (
            wait-Admitted fuel next n rpm t (trim now es) after
              (By-mono now next (trim now es) le (By-trim now now es o)) (ground arith))
      ]

  pub wait-ends :
      (fuel now newest n rpm : ℕ) (es : Events)
      → By newest es
      → newest + minute ≤ now + 50 * fuel
      → (r : ℕ × Events) × (wait wake tick (suc fuel) now es n rpm ≡ some r)
  unfolding wait
  wait-ends zero now newest n rpm es o h =
      ((tick now, (tick now, n) ∷ []), ground (arith, trim_all now newest es o))
  wait-ends (suc fuel) now newest n rpm es o h =
      let kept = trim now es in
      let (r, q) =
        wait-ends fuel (wake now (pause now kept)) newest n rpm kept (By-trim now newest es o)
          (omega (arith, h, wakes now (pause now kept), pause_min now kept)) in
      elim (Bool-cases (leb (total kept + n) rpm || is_nil kept)) [
        | inl e ↦ ((tick now, kept ++ (tick now, n) ∷ []), ground arith)
        | inr e ↦ (r, ground (arith, q))
      ]
