-- ===== src/RateLimit/Examples.antt =====
-- The theorems on the token bucket (api/services/mcp/rate_limit.py) at two calls a minute.
use embedbase.Prelude.{[], arith, refl, some, ◌*◌, ◌+◌, ◌-◌, ◌∷◌, ◌≡◌, ◌≤◌}
use embedbase.RateLimit.{allow, effective_rpm, new_limiter, set_key_limit, token, units_now}
use embedbase.RateLimit.Laws.{allowed_calls, allowed_calls-bound, end_of, other_keys_unchanged}

allowed_calls-bound_example :
    (allowed_calls 1000 new_limiter 2 "k1" (0 ∷ 10 ∷ 20 ∷ 31000 ∷ [])).0 * token 1000
    ≤ effective_rpm new_limiter 2 "k1" * token 1000
      + (end_of 0 (10 ∷ 20 ∷ 31000 ∷ []) - 0) * effective_rpm new_limiter 2 "k1"
allowed_calls-bound_example =
    allowed_calls-bound 1000 2 "k1" new_limiter 0 (10 ∷ 20 ∷ 31000 ∷ [])
      (omega arith, (omega arith, (omega arith, tt)))

other_keys_unchanged_example :
    (units_now 1000 (allow 1000 new_limiter 2 5 "k1").1 2 9 "k2"
      ≡ units_now 1000 new_limiter 2 9 "k2")
    × (units_now 1000 (set_key_limit new_limiter "k1" (some 7)) 2 9 "k2"
        ≡ units_now 1000 new_limiter 2 9 "k2")
other_keys_unchanged_example = other_keys_unchanged 1000 2 5 9 new_limiter "k1" "k2" (some 7) refl
