-- ===== src/RateLimit.antt =====
-- api/services/mcp/rate_limit.py: `TokenBucketRateLimiter`. The clock counts ticks, of which
-- `second` (at least one) make a second, and a token is `60 * second` units, so that a tick refills
-- `rpm` units and no fraction is lost: the floats of the source are these numbers without their
-- rounding. The clock's answer and the live global default are arguments of each call.
pub mod Laws
mod Examples
use embedbase.Permissions.Agreement.{allowed}
use embedbase.Prelude.{
  Bool, Option, String, [], false, if◌then◌else◌, leb, min, none, some, suc, true, zero, ℕ, ◌*◌,
  ◌+◌, ◌-◌, ◌/◌, ◌==◌, ◌||◌, ◌∷◌,
}
use embedbase.Prelude.Dict.{Dict, get, put}

pub record Limiter : Type 0 where
  -- for each key the units of its bucket, and the time of its last refill
  pub buckets : Dict (ℕ × ℕ)
  pub overrides : Dict ℕ

abbrev pub new_limiter : Limiter
new_limiter = record { buckets = []; overrides = [] }

-- `dict.pop(key, None)`
abbrev pub pop {ℓ} : {V : Type ℓ} → Dict V → String → Dict V
pop [] k = []
pop ((j, v) ∷ d) k = let rest = pop d k in if j == k then rest else (j, v) ∷ rest

-- `None` and `0` clear the override
unfoldable pub set_key_limit : Limiter → String → Option ℕ → Limiter
set_key_limit lim key none = record lim { overrides = pop lim.overrides key }
set_key_limit lim key (some zero) = record lim { overrides = pop lim.overrides key }
set_key_limit lim key (some (suc rpm)) = record lim { overrides = put lim.overrides key (suc rpm) }

abbrev pub override_or : ℕ → Option ℕ → ℕ
override_or rpm none = rpm
override_or rpm (some zero) = rpm
override_or rpm (some (suc limit)) = suc limit

unfoldable pub effective_rpm : Limiter → ℕ → String → ℕ
effective_rpm lim global key = override_or global (get lim.overrides key)

-- the units of one token
abbrev pub token : ℕ → ℕ
token second = 60 * second

abbrev pub bucket_or : ℕ × ℕ → Option (ℕ × ℕ) → ℕ × ℕ
bucket_or full none = full
bucket_or full (some bucket) = bucket

-- The refill that `allow` and `snapshot` share, from the bucket found to the units at `now`.
abbrev pub refill : ℕ → ℕ → ℕ → ℕ × ℕ → ℕ
refill second rpm now (units, last) = min (rpm * token second) (units + (now - last) * rpm)

unfoldable pub units_now : ℕ → Limiter → ℕ → ℕ → String → ℕ
units_now second lim global now key =
    let rpm : ℕ = effective_rpm lim global key in
    refill second rpm now (bucket_or (rpm * token second, now) (get lim.buckets key))

-- the bucket after the decision
abbrev pub spend : Bool → ℕ → ℕ → ℕ
spend true second units = units - token second
spend false second units = units

unfoldable pub allow : ℕ → Limiter → ℕ → ℕ → String → Bool × Limiter
unfolding units_now
allow second lim global now key =
    let units : ℕ = units_now second lim global now key in
    let allowed : Bool = leb (token second) units in
    (allowed, record lim { buckets = put lim.buckets key (spend allowed second units, now) })

pub record Budget : Type 0 where
  pub limit_rpm : ℕ
  pub remaining : ℕ
  -- the units that a next call still lacks
  pub missing : ℕ

-- `reset_seconds` is `missing / (second * rpm)`, which the source rounds to milliseconds.
unfoldable pub snapshot : ℕ → Limiter → ℕ → ℕ → String → Budget
unfolding units_now
snapshot second lim global now key =
    let rpm : ℕ = effective_rpm lim global key in
    let units : ℕ = units_now second lim global now key in
    record {
      limit_rpm = rpm;
      remaining = units / token second;
      missing = if leb (token second) units || leb rpm 0 then 0 else token second - units;
    }
