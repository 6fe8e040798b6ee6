-- ===== src/Gate/Safe.antt =====
-- Which calls get through `MCPAuthRateLimitMiddleware` (api/services/mcp/middleware.py).
use embedbase.Auth.{Principal}
use embedbase.Gate.{
  Outcome, after_auth, call, run_app_as, send_json, spend_quota, too_many, user_key, with_limits,
}
use embedbase.Http.{Result, message, ok, raise}
use embedbase.Permissions.Agreement.{allowed}
use embedbase.Permissions.Authorize.{denied}
use embedbase.Prelude.{
  Bool, Bool-cases, Option, Option-cases, String, arith, false, inl, inr, none, refl, some, subst,
  true, ℕ, ◌==◌, ◌≡◌, ◌⊎◌,
}
use embedbase.RateLimit.{Budget, Limiter, allow}

module _ (second global : ℕ) (resolve_principal : String → Result Principal)
    (at_guard at_quota at_snapshot : ℕ) where
  -- The limiter after the guard on the raw key.
  abbrev pub guarded : Limiter → String → Bool × Limiter
  guarded lim raw_key = allow second lim global at_guard raw_key

  -- The quota of a user allowed the call; a principal without a user has none.
  abbrev pub QuotaAllows : Limiter → String → Principal → Type 0
  QuotaAllows lim raw_key principal =
      (user : String)
      → principal.user_id ≡ some user
      → (allow second
          (with_limits second global resolve_principal at_guard at_quota at_snapshot lim raw_key
            user principal)
          global at_quota (user_key user)).0
        ≡ true

  abbrev outcome_of_auth : Limiter → String → Result Principal → Outcome × Limiter
  outcome_of_auth lim raw_key r =
      after_auth second global resolve_principal at_guard at_quota at_snapshot lim raw_key r

  abbrev quota : Limiter → String → Principal → String → Bool
  quota lim raw_key principal user =
      (allow second
        (with_limits second global resolve_principal at_guard at_quota at_snapshot lim raw_key user
          principal)
        global at_quota (user_key user)).0

  quota-run :
      (lim after : Limiter) (raw_key user : String) (q principal : Principal) (budget : Budget)
      → spend_quota second global resolve_principal at_guard at_quota at_snapshot lim raw_key q user
        ≡ (run_app_as principal budget, after)
      → (q ≡ principal) × (quota lim raw_key q user ≡ true)
  quota-run lim after raw_key user q principal budget h =
      elim (Bool-cases (quota lim raw_key q user)) [
        | inl e ↦ (ground arith, e)
        | inr e ↦ absurd (ground arith)
      ]

  auth-run :
      (lim after : Limiter) (raw_key : String) (r : Result Principal) (principal : Principal)
      (budget : Budget)
      → outcome_of_auth lim raw_key r ≡ (run_app_as principal budget, after)
      → (r ≡ ok principal) × QuotaAllows lim raw_key principal
  auth-run lim after raw_key (raise status detail) principal budget h = absurd (ground arith)
  auth-run lim after raw_key (ok q) principal budget h = elim (Option-cases q.user_id) [
    | inl e ↦
        let same : q ≡ principal = ground arith in (ground arith, λ user u. absurd (ground arith))
    | inr (user, e) ↦
        let run = quota-run lim after raw_key user q principal budget (ground arith) in
        (
          ground (arith, run.0),
          subst (λ p. QuotaAllows lim raw_key p) run.0
              (λ u v.
                let same : user ≡ u = ground arith in
                subst (λ x. quota lim raw_key q x ≡ true) same run.1),
        )
  ]

  -- A request of HTTP reaches the wrapped app as a principal only with a key that is not empty,
  -- that the guard allows and that authenticates as that principal, and, for a user, within the
  -- user's own quota.
  pub call-authenticated :
      (lim after : Limiter) (raw_key : Option String) (principal : Principal) (budget : Budget)
      → call second global resolve_principal at_guard at_quota at_snapshot lim true raw_key
        ≡ (run_app_as principal budget, after)
      → (key : String) × (raw_key ≡ some key)
        × ((key == "") ≡ false)
        × ((allow second lim global at_guard key).0 ≡ true)
        × (resolve_principal key ≡ ok principal)
        × QuotaAllows (allow second lim global at_guard key).1 key principal
  unfolding call
  call-authenticated lim after none principal budget h = absurd (ground arith)
  call-authenticated lim after (some key) principal budget h = elim (Bool-cases (key == "")) [
    | inl e ↦ absurd (ground arith)
    | inr e ↦ elim (Bool-cases (allow second lim global at_guard key).0) [
      | inr denied ↦ absurd (ground arith)
      | inl allowed ↦
          let run =
            auth-run (allow second lim global at_guard key).1 after key (resolve_principal key)
              principal budget (ground arith) in
          (key, refl, e, allowed, run.0, run.1)
    ]
  ]

  -- A request without a key, or with an empty one, is answered 401, and one that the guard denies
  -- is answered 429; neither is authenticated.
  pub call-refused :
      (lim : Limiter) (key : String)
      → (call second global resolve_principal at_guard at_quota at_snapshot lim true none
          ≡ (send_json 401 (message "Missing or invalid API key"), lim))
        × (((key == "") ≡ true)
            ⊎ (((allow second lim global at_guard key).0 ≡ true)
                ⊎ (call second global resolve_principal at_guard at_quota at_snapshot lim true
                      (some key)
                    ≡ (too_many, (allow second lim global at_guard key).1))))
  unfolding call
  call-refused lim key = (
    refl,
    elim (Bool-cases (key == "")) [
      | inl e ↦ inl e
      | inr e ↦ elim (Bool-cases (allow second lim global at_guard key).0) [
        | inl allowed ↦ inr (inl allowed)
        | inr denied ↦ inr (inr (ground arith))
      ]
    ],
  )
