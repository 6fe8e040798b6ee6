-- ===== src/Auth.antt =====
-- api/services/auth.py: the authenticated caller.
use embedbase.Prelude.{ℕ, String, Bool, Option}

-- `Principal`: `is_master` covers the master key and an admin's session.
pub record Principal : Type 0 where
  pub is_master : Bool
  pub user_id : Option String
  pub api_key_id : Option String
  pub must_change : Bool
  pub rate_limit_rpm : ℕ
