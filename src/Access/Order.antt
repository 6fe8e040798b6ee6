-- ===== src/Access/Order.antt =====
-- Composition of access policies (api/services/access.py): the first denial decides, and a denial
-- of authorization hides whether the resource exists.
use embedbase.Prelude.{String, ◌≡◌, refl, sym, ap, subst, ◌∙◌, ◌⊎◌, inl, inr, Bool, true, false}
use embedbase.Http.{Check, ok, raise, ◌>>◌}
use embedbase.Auth.{Principal}
use embedbase.Tables.{Level, Db}
use embedbase.Permissions.Authorize.{denied, allow_if}
use embedbase.Permissions.Agreement.{
  authorize_collection-allowed, authorize_document-allowed, authorize_workspace-allowed,
}
use embedbase.Access.{
  AccessPolicy, authorize_workspace_policy, authorize_collection_policy, authorize_document_policy,
  composite, Policies, nil, cons, apply, apply_all,
}

abbrev pub append : Policies → Policies → Policies
append nil qs = qs
append (cons p ps) qs = cons p (append ps qs)

-- A policy made of authorization checks only.
mutual
  pub data IsAuthorization : AccessPolicy → Type 0 where
    on_workspace : (k : String) (need : Level) → IsAuthorization (authorize_workspace_policy k need)
    on_collection :
        (k : String) (need : Level) → IsAuthorization (authorize_collection_policy k need)
    on_document : (k : String) (need : Level) → IsAuthorization (authorize_document_policy k need)
    all_of : {ps : Policies} → AreAuthorization ps → IsAuthorization (composite ps)

  pub data AreAuthorization : Policies → Type 0 where
    none_left : AreAuthorization nil
    first :
        {p : AccessPolicy} {ps : Policies}
        → IsAuthorization p
        → AreAuthorization ps
        → AreAuthorization (cons p ps)

-- A check that passes, or denies with the one 403 of the authority.
abbrev pub PassesOr403 : Check → Type 0
PassesOr403 r = (r ≡ ok tt) ⊎ ((need : Level) × (r ≡ raise 403 (denied need)))

>>-PassesOr403 : (m k : Check) → PassesOr403 m → PassesOr403 k → PassesOr403 (m >> k)
>>-PassesOr403 m k (inl e) h = subst (λ x. PassesOr403 (x >> k)) (sym e) h
>>-PassesOr403 m k (inr (need, e)) h = subst (λ x. PassesOr403 (x >> k)) (sym e) (inr (need, refl))

allow_if-PassesOr403 : (b : Bool) (need : Level) → PassesOr403 (allow_if b need)
allow_if-PassesOr403 true need = inl refl
allow_if-PassesOr403 false need = inr (need, refl)

check-PassesOr403 : (r : Check) (b : Bool) (need : Level) → r ≡ allow_if b need → PassesOr403 r
check-PassesOr403 r b need e = subst PassesOr403 (sym e) (allow_if-PassesOr403 b need)

mutual
  unfolding apply

  authorization-PassesOr403 :
      (db : Db) (p : Principal) (a : AccessPolicy) → IsAuthorization a → PassesOr403 (apply db p a)
  authorization-PassesOr403 db p _ (on_workspace k need) =
      check-PassesOr403 _ _ need (authorize_workspace-allowed db p k need)
  authorization-PassesOr403 db p _ (on_collection k need) =
      check-PassesOr403 _ _ need (authorize_collection-allowed db p k need)
  authorization-PassesOr403 db p _ (on_document k need) =
      check-PassesOr403 _ _ need (authorize_document-allowed db p k need)
  authorization-PassesOr403 db p _ (all_of h) = authorizations-PassesOr403 db p _ h

  authorizations-PassesOr403 :
      (db : Db) (p : Principal) (qs : Policies)
      → AreAuthorization qs
      → PassesOr403 (apply_all db p qs)
  authorizations-PassesOr403 db p _ none_left = inl refl
  authorizations-PassesOr403 db p _ (first {p = a} {ps = rest} h hs) =
      >>-PassesOr403 (apply db p a) (apply_all db p rest) (authorization-PassesOr403 db p a h)
        (authorizations-PassesOr403 db p rest hs)

>>_assoc : (a b c : Check) → (a >> (b >> c)) ≡ ((a >> b) >> c)
>>_assoc (ok tt) b c = refl
>>_assoc (raise s d) b c = refl

apply_all-append :
    (db : Db) (p : Principal) (ps qs : Policies)
    → apply_all db p (append ps qs) ≡ (apply_all db p ps >> apply_all db p qs)
unfolding apply
apply_all-append db p nil qs = refl
apply_all-append db p (cons a ps) qs =
    ap (λ k. apply db p a >> k) (apply_all-append db p ps qs)
    ∙ >>_assoc (apply db p a) (apply_all db p ps) (apply_all db p qs)

-- A composite nested first in another does what its policies do in its place.
pub composite_nested :
    (db : Db) (p : Principal) (ps qs : Policies)
    → apply db p (composite (cons (composite ps) qs)) ≡ apply db p (composite (append ps qs))
unfolding apply
composite_nested db p ps qs = sym (apply_all-append db p ps qs)

-- Authorization placed before other checks: where it denies, the composite raises that same 403
-- whatever the checks after it would find; where it passes, they alone decide.
pub authorization_first :
    (db : Db) (p : Principal) (auth rest : Policies)
    → AreAuthorization auth
    → ((need : Level) × (apply db p (composite auth) ≡ raise 403 (denied need))
        × (apply db p (composite (append auth rest)) ≡ raise 403 (denied need)))
      ⊎ ((apply db p (composite auth) ≡ ok tt)
          × (apply db p (composite (append auth rest)) ≡ apply db p (composite rest)))
unfolding apply
authorization_first db p auth rest h = elim (authorizations-PassesOr403 db p auth h) [
  | inl e ↦ inr (e, apply_all-append db p auth rest ∙ ap (λ r. r >> apply_all db p rest) e)
  | inr (need, e) ↦
      inl (need, e, apply_all-append db p auth rest ∙ ap (λ r. r >> apply_all db p rest) e)
]
