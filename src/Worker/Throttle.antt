-- ===== src/Worker/Throttle.antt =====
-- worker/tasks.py: `_RpmLimiter`, the sliding window that keeps the texts embedded in a minute
-- under the provider's cap. The clock counts milliseconds. Time passes only in the calls of the
-- `time` module, which are parameters: `wake now d` is the time that the loop reads after
-- `time.sleep(d)` at `now`, and `tick now` the time of the next `time.monotonic()`.
use embedbase.Prelude.{
  List, Option, [], if◌then◌else◌, is_nil, leb, max, min, none, some, suc, zero, ℕ, ◌+◌, ◌++◌, ◌-◌,
  ◌||◌, ◌&&◌, ◌∷◌,
}

-- `self._events`, the oldest first: when a batch was let through, and its texts
abbrev pub Events : Type 0
Events = List (ℕ × ℕ)

abbrev pub minute : ℕ
minute = 60000

-- `_used` drops the expired events
unfoldable pub trim : ℕ → Events → Events
trim now [] = []
trim now ((t, k) ∷ es) =
    let rest = trim now es in if leb minute (now - t) then rest else (t, k) ∷ es

-- and counts the texts of the others
abbrev pub total : Events → ℕ
total [] = 0
total ((t, k) ∷ es) = k + total es

-- the time to sleep, from the oldest event
abbrev pub pause : ℕ → Events → ℕ
pause now [] = 50
pause now ((t, k) ∷ es) = max 50 (min (minute - (now - t)) 5000)

-- An iteration each 50 milliseconds at least: this many let every event expire.
abbrev pub rounds : ℕ
rounds = 1201

-- The texts of the events in the minute that ends at a time.
unfoldable pub in_window : ℕ → Events → ℕ
in_window at [] = 0
in_window at ((t, k) ∷ es) =
    (if leb t at && leb (suc at) (t + minute) then k else 0) + in_window at es

module _ (wake : ℕ → ℕ → ℕ) (tick : ℕ → ℕ) where
  -- The loop, and the event that it appends: the time and the events after the call.
  unfoldable pub wait : ℕ → ℕ → Events → ℕ → ℕ → Option (ℕ × Events)
  wait zero now es n rpm = none
  wait (suc fuel) now es n rpm =
      let kept = trim now es in
      let rest = wait fuel (wake now (pause now kept)) kept n rpm in
      if leb (total kept + n) rpm || is_nil kept
      then some (tick now, kept ++ (tick now, n) ∷ [])
      else rest

  unfoldable pub throttle : ℕ → Events → ℕ → ℕ → Option (ℕ × Events)
  throttle now es n rpm =
      let waited = wait rounds now es n rpm in
      if leb rpm 0 || leb n 0 then some (now, es) else waited

  abbrev pub admit : (ℕ → Events → Events) → ℕ → Option (ℕ × Events) → Events
  admit rest n none = []
  admit rest n (some (t, es)) = (t, n) ∷ rest t es

  -- The batches of a worker one after the other, each with the time since the last one: when each
  -- is let through.
  unfoldable pub paced : List (ℕ × ℕ) → ℕ → ℕ → Events → Events
  paced [] rpm now es = []
  paced ((idle, n) ∷ batches) rpm now es =
      admit (λ t es. paced batches rpm t es) n (throttle (now + idle) es n rpm)
