-- ===== src/RateLimit/Laws.antt =====
-- What the token bucket of api/services/mcp/rate_limit.py allows.
use native.Mathlib.Nat.{add-mul}
use embedbase.Permissions.Agreement.{allowed}
use embedbase.Prelude.{
  Bool, List, Option, String, [], ap, ap₂, arith, eq_iff, eq_refl, false, if◌then◌else◌, leb,
  leb→le, none, refl, some, subst, suc, sym, true, zero, ℕ, ◌*◌, ◌+◌, ◌-◌, ◌<◌, ◌==◌, ◌↔◌, ◌∙◌, ◌∷◌,
  ◌≡◌, ◌≤◌,
}
use embedbase.Prelude.Dict.{Dict, get, get-put, put}
use embedbase.RateLimit.{
  Limiter, allow, bucket_or, effective_rpm, override_or, pop, refill, set_key_limit, snapshot,
  spend, token, units_now,
}

-- Calls with one key at the given times, in order, under one effective rate: how many are allowed.
abbrev pub allowed_calls : ℕ → Limiter → ℕ → String → List ℕ → ℕ × Limiter
allowed_calls second lim global key [] = (0, lim)
allowed_calls second lim global key (now ∷ times) =
    let (allowed, next) = allow second lim global now key in
    let (n, last) = allowed_calls second next global key times in
    (if allowed then suc n else n, last)

-- Each time is no earlier than the one before it.
abbrev pub Rising : ℕ → List ℕ → Type 0
Rising from [] = Unit
Rising from (now ∷ times) = (from ≤ now) × Rising now times

abbrev pub end_of : ℕ → List ℕ → ℕ
end_of from [] = from
end_of from (now ∷ times) = end_of now times

get-put-same {ℓ} : {V : Type ℓ} (d : Dict V) (k : String) (v : V) → get (put d k v) k ≡ some v
get-put-same d k v = get-put d k v k ∙ ground (arith, eq_refl k)

end_of_le : (from : ℕ) (times : List ℕ) → Rising from times → from ≤ end_of from times
end_of_le from [] h = omega arith
end_of_le from (now ∷ times) h = omega (arith, h.0, end_of_le now times h.1)

split_time : (a b c rpm : ℕ) → a ≤ b → b ≤ c → (c - a) * rpm ≡ (b - a) * rpm + (c - b) * rpm
split_time a b c rpm h k =
    let e : c - a ≡ (b - a) + (c - b) = omega (arith, h, k) in
    ap (λ d. d * rpm) e ∙ add-mul (b - a) (c - b) rpm

suc_times : (n t : ℕ) → suc n * t ≡ n * t + t
suc_times n t =
    let e : suc n ≡ n + 1 = omega arith in
    let f : 1 * t ≡ t = omega arith in ap (λ m. m * t) e ∙ add-mul n 1 t ∙ ap (λ m. n * t + m) f

-- a token that is spent is paid by the units there were
pay :
    (b : Bool) (n second u rest : ℕ)
    → leb (token second) u ≡ b
    → n * token second ≤ spend b second u + rest
    → (if b then suc n else n) * token second ≤ u + rest
pay true n second u rest e h = let t = token second in omega (arith, leb→le t u e, h, suc_times n t)
pay false n second u rest e h = h

capped : (second rpm now : ℕ) (bucket : ℕ × ℕ) → refill second rpm now bucket ≤ rpm * token second
capped second rpm now (units, last) = ground arith

refilled :
    (second rpm now units last : ℕ)
    → refill second rpm now (units, last) ≤ units + (now - last) * rpm
refilled second rpm now units last = ground arith

module _ (second global : ℕ) (key : String) where
  abbrev calls : Limiter → List ℕ → ℕ × Limiter
  calls lim times = allowed_calls second lim global key times

  abbrev next : Limiter → ℕ → Limiter
  next lim now = (allow second lim global now key).1

  abbrev left_in : Limiter → ℕ → ℕ
  left_in lim now =
      let u = units_now second lim global now key in spend (leb (token second) u) second u

  next_bucket :
      (lim : Limiter) (now : ℕ) → get (next lim now).buckets key ≡ some (left_in lim now, now)
  unfolding allow
  next_bucket lim now = get-put-same lim.buckets key (left_in lim now, now)

  next_rpm :
      (lim : Limiter) (now : ℕ)
      → effective_rpm (next lim now) global key ≡ effective_rpm lim global key
  unfolding allow effective_rpm
  next_rpm lim now = refl

  -- one call: what the bucket held pays for the token
  call_pays :
      (lim : Limiter) (now : ℕ) (times : List ℕ) (rest : ℕ)
      → (calls (next lim now) times).0 * token second ≤ left_in lim now + rest
      → (calls lim (now ∷ times)).0 * token second ≤ units_now second lim global now key + rest
  unfolding allow
  call_pays lim now times rest h =
      let u = units_now second lim global now key in
      pay (leb (token second) u) (calls (next lim now) times).0 second u rest refl h

  next_units :
      (lim : Limiter) (now later : ℕ)
      → units_now second (next lim now) global later key
        ≤ left_in lim now + (later - now) * effective_rpm lim global key
  unfolding units_now allow effective_rpm
  next_units lim now later =
      subst
        (λ o.
          refill second (effective_rpm lim global key) later
            (bucket_or (effective_rpm lim global key * token second, later) o)
          ≤ left_in lim now + (later - now) * effective_rpm lim global key)
        (sym (next_bucket lim now))
        (refilled second (effective_rpm lim global key) later (left_in lim now) now)

  after_call :
      (lim : Limiter) (now : ℕ) (times : List ℕ)
      → Rising now times
      → (calls lim (now ∷ times)).0 * token second
        ≤ units_now second lim global now key
          + (end_of now times - now) * effective_rpm lim global key
  after_call lim now [] h =
      call_pays lim now [] ((now - now) * effective_rpm lim global key) (omega arith)
  after_call lim now (later ∷ times) h =
      call_pays lim now (later ∷ times) ((end_of later times - now) * effective_rpm lim global key)
        (omega (
          arith,
          after_call (next lim now) later times h.1,
          next_units lim now later,
          ap (λ r. (end_of later times - later) * r) (next_rpm lim now),
          split_time now later (end_of later times) (effective_rpm lim global key) h.0
              (end_of_le later times h.1),
        ))

-- Calls with one key at rising times are allowed at most as often as a full bucket and the refill
-- between the first and the last call pay for, whatever the bucket held before.
pub allowed_calls-bound :
    (second global : ℕ) (key : String) (lim : Limiter) (now : ℕ) (times : List ℕ)
    → Rising now times
    → (allowed_calls second lim global key (now ∷ times)).0 * token second
      ≤ effective_rpm lim global key * token second
        + (end_of now times - now) * effective_rpm lim global key
unfolding units_now
allowed_calls-bound second global key lim now times h =
    let full =
      capped second (effective_rpm lim global key) now
        (bucket_or (effective_rpm lim global key * token second, now) (get lim.buckets key)) in
    omega (arith, after_call second global key lim now times h, full)

abbrev units_as : ℕ → ℕ → ℕ → Option ℕ → Option (ℕ × ℕ) → ℕ
units_as second global later o b =
    refill second (override_or global o) later
      (bucket_or (override_or global o * token second, later) b)

get-pop-other {ℓ} :
    {V : Type ℓ} (d : Dict V) (key other : String)
    → (key == other) ≡ false
    → get (pop d key) other ≡ get d other
get-pop-other [] key other h = refl
get-pop-other ((k, v) ∷ d) key other h =
    ground (arith, get-pop-other d key other, eq_iff k key, eq_iff k other, eq_iff key other)

get-put-other {ℓ} :
    {V : Type ℓ} (d : Dict V) (key other : String) (v : V)
    → (key == other) ≡ false
    → get (put d key v) other ≡ get d other
get-put-other d key other v h = get-put d key v other ∙ ground arith

override_kept :
    (lim : Limiter) (key other : String) (limit : Option ℕ)
    → (key == other) ≡ false
    → get (set_key_limit lim key limit).overrides other ≡ get lim.overrides other
unfolding set_key_limit
override_kept lim key other none h = get-pop-other lim.overrides key other h
override_kept lim key other (some zero) h = get-pop-other lim.overrides key other h
override_kept lim key other (some (suc rpm)) h = get-put-other lim.overrides key other (suc rpm) h

buckets_kept :
    (lim : Limiter) (key : String) (limit : Option ℕ)
    → (set_key_limit lim key limit).buckets ≡ lim.buckets
unfolding set_key_limit
buckets_kept lim key none = refl
buckets_kept lim key (some zero) = refl
buckets_kept lim key (some (suc rpm)) = refl

-- A call with one key, or a new limit for it, leaves what any other key has.
pub other_keys_unchanged :
    (second global now later : ℕ) (lim : Limiter) (key other : String) (limit : Option ℕ)
    → (key == other) ≡ false
    → (units_now second (allow second lim global now key).1 global later other
        ≡ units_now second lim global later other)
      × (units_now second (set_key_limit lim key limit) global later other
          ≡ units_now second lim global later other)
unfolding units_now effective_rpm allow
other_keys_unchanged second global now later lim key other limit h =
    let u = units_now second lim global now key in
    (
      ap (λ b. units_as second global later (get lim.overrides other) b)
          (get-put-other lim.buckets key other (spend (leb (token second) u) second u, now) h),
      ap₂ (λ o b. units_as second global later o b) (override_kept lim key other limit h)
          (ap (λ (b : Dict (ℕ × ℕ)). get b other) (buckets_kept lim key limit)),
    )

-- Where the effective rate is not 0, the snapshot says that no unit is missing exactly when the
-- next call at that time is allowed.
pub snapshot-allow :
    (second global now : ℕ) (lim : Limiter) (key : String)
    → 0 < effective_rpm lim global key
    → ((snapshot second lim global now key).missing ≡ 0)
      ↔ ((allow second lim global now key).0 ≡ true)
unfolding snapshot allow
snapshot-allow second global now lim key k = ground arith
