-- ===== src/Gate.antt =====
-- api/services/mcp/middleware.py: `MCPAuthRateLimitMiddleware`. What `_raw_key_from_scope` reads
-- from the headers is an argument, `resolve_principal` (the database) is a parameter, and the clock
-- is read three times, at `at_guard`, `at_quota` and `at_snapshot`.
pub mod Safe
mod Examples
use embedbase.Auth.{Principal}
use embedbase.Http.{Detail, Result, message, ok, raise}
use embedbase.Permissions.Agreement.{allowed}
use embedbase.Prelude.{
  Bool, Option, String, [], append, false, if◌then◌else◌, nat_eq, none, some, true, ℕ, ◌==◌,
}
use embedbase.RateLimit.{Budget, Limiter, allow, set_key_limit, snapshot}

-- What the call does: the wrapped app runs, or an error is sent.
pub data Outcome : Type 0 where
  run_app : Outcome
  run_app_as : Principal → Budget → Outcome
  send_json : ℕ → Detail → Outcome

abbrev pub too_many : Outcome
too_many = send_json 429 (message "Rate limit exceeded")

abbrev pub user_key : String → String
user_key user = append "user:" user

-- `principal.rate_limit_rpm or None`
abbrev pub limit_of : Principal → Option ℕ
limit_of principal =
    if nat_eq principal.rate_limit_rpm 0 then none else some principal.rate_limit_rpm

module _ (second global : ℕ) (resolve_principal : String → Result Principal)
    (at_guard at_quota at_snapshot : ℕ) where
  abbrev pub bind_and_run : Limiter → String → Principal → Outcome × Limiter
  bind_and_run lim budget_key principal =
      (run_app_as principal (snapshot second lim global at_snapshot budget_key), lim)

  -- the limiter with the caller's own limit on both keys
  abbrev pub with_limits : Limiter → String → String → Principal → Limiter
  with_limits lim raw_key user principal =
      set_key_limit (set_key_limit lim raw_key (limit_of principal)) (user_key user)
        (limit_of principal)

  -- the quota of a user, checked after authentication
  abbrev pub spend_quota : Limiter → String → Principal → String → Outcome × Limiter
  spend_quota lim raw_key principal user =
      let (allowed, next) =
        allow second (with_limits lim raw_key user principal) global at_quota (user_key user) in
      if allowed then bind_and_run next (user_key user) principal else (too_many, next)

  abbrev pub after_auth : Limiter → String → Result Principal → Outcome × Limiter
  after_auth lim raw_key (raise status detail) = (send_json status detail, lim)
  after_auth lim raw_key (ok principal) = elim principal.user_id [
    | none ↦ bind_and_run lim raw_key principal
    | some user ↦ spend_quota lim raw_key principal user
  ]

  abbrev pub with_key : Limiter → String → Outcome × Limiter
  with_key lim raw_key =
      let (allowed, next) = allow second lim global at_guard raw_key in
      if allowed then after_auth next raw_key (resolve_principal raw_key) else (too_many, next)

  unfoldable pub call : Limiter → Bool → Option String → Outcome × Limiter
  call lim false raw_key = (run_app, lim)
  call lim true none = (send_json 401 (message "Missing or invalid API key"), lim)
  call lim true (some raw_key) =
      if raw_key == ""
      then (send_json 401 (message "Missing or invalid API key"), lim)
      else with_key lim raw_key
