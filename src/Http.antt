-- ===== src/Http.antt =====
-- Python exceptions of the handlers: a call returns a value, or raises `HTTPException(status,
-- detail)` (a `fastapi` type). The detail keeps the parts of the message, not its formatted text.
use embedbase.Prelude.{ℕ, String, ◌≡◌, refl, arith}

pub data Detail : Type 0 where
  message : String → Detail
  -- a message about one named thing
  about : String → String → Detail

pub data Result {ℓ} (A : Type ℓ) : Type ℓ where
  ok : A → Result A
  raise : ℕ → Detail → Result A

-- a check returns nothing, or raises
abbrev pub Check : Type 0
Check = Result (Unit {0})

infixl 5 ◌>>=◌ ◌>>◌
abbrev pub ◌>>=◌ {ℓ κ} : {A : Type ℓ} {B : Type κ} → Result A → (A → Result B) → Result B
ok a >>= f = f a
raise status detail >>= f = raise status detail

abbrev pub ◌>>◌ {ℓ} : {B : Type ℓ} → Check → Result B → Result B
m >> k = m >>= λ _. k

-- A chain of two checks passes exactly when both do.
pub >>-eq-ok : (m k : Check) → (m >> k) ≡ ok tt → (m ≡ ok tt) × (k ≡ ok tt)
>>-eq-ok (ok tt) k h = (refl, h)
>>-eq-ok (raise s d) k h = ground arith
