-- ===== src/Gate/Examples.antt =====
-- The theorems on the middleware (api/services/mcp/middleware.py) at one known key.
use embedbase.Auth.{Principal}
use embedbase.Gate.{call, user_key, with_limits}
use embedbase.Gate.Safe.{QuotaAllows, call-authenticated}
use embedbase.Http.{Result, message, ok, raise}
use embedbase.Prelude.{String, false, if◌then◌else◌, refl, some, true, ◌==◌, ◌≡◌}
use embedbase.RateLimit.{Limiter, allow, effective_rpm, new_limiter, set_key_limit, snapshot}

abbrev ana : Principal
ana = record {
  is_master = false;
  user_id = some "ana";
  api_key_id = some "k1";
  must_change = false;
  rate_limit_rpm = 5;
}

abbrev resolve : String → Result Principal
resolve key = if key == "secret" then ok ana else raise 401 (message "Invalid API key")

abbrev guard_left : Limiter
guard_left = (allow 1000 new_limiter 60 1 "secret").1

abbrev limited : Limiter
limited = with_limits 1000 60 resolve 1 2 3 guard_left "secret" "ana" ana

abbrev after : Limiter
after = (allow 1000 limited 60 2 (user_key "ana")).1

call-authenticated_example :
    (key : String) × (some "secret" ≡ some key)
    × ((key == "") ≡ false)
    × ((allow 1000 new_limiter 60 1 key).0 ≡ true)
    × (resolve key ≡ ok ana)
    × QuotaAllows 1000 60 resolve 1 2 3 (allow 1000 new_limiter 60 1 key).1 key ana
unfolding call allow set_key_limit snapshot effective_rpm
call-authenticated_example =
    call-authenticated 1000 60 resolve 1 2 3 new_limiter after (some "secret") ana
      (snapshot 1000 after 60 3 (user_key "ana")) refl
