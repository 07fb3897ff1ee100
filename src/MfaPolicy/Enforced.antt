-- ===== src/MfaPolicy/Enforced.antt =====
-- Which requests the middleware of api/mfa.py lets through.
use django_boilerplate.Prelude.{
  is_some, ◌≡◌, ◌⊎◌, ◌↔◌, refl, sym, ◌∙◌, String, Bool, true, false, not, ◌&&◌, ◌||◌, inl, inr,
  Option, none, some, List, [], ◌∷◌, arith, any, contains, All, Bool-cases, after_prefix,
  if◌then◌else◌,
}
use django_boilerplate.MfaPolicy.{
  Settings, TokenClaims, Amr, Request, methods, text, get, second_factors, is_second_factor,
  methods_of, data_of, data_of_claims, data_without_user, attach_mfa_claims, answer, json,
  get_mfa_settings, get_mfa_status, extract_mfa_data_from_request, is_endpoint_mfa_required,
  is_user_admin, starts_with, check_mfa_required, middleware, unless_raised,
}

is_some-none {ℓ} : {A : Type ℓ} (o : Option A) → is_some o ≡ false → o ≡ none
is_some-none none h = refl
is_some-none (some x) h = ground arith

no-prefix :
    (path : String) (ps : List String)
    → any (starts_with path) ps ≡ false
    → All (λ p. after_prefix p path ≡ none) ps
no-prefix path [] h = tt
no-prefix path (p ∷ ps) h =
    (is_some-none (after_prefix p path) (ground arith), no-prefix path ps (ground arith))

IsOther-any :
    (path : String) (ps : List String)
    → All (λ p. after_prefix p path ≡ none) ps
    → any (starts_with path) ps ≡ false
IsOther-any path [] h = refl
IsOther-any path (p ∷ ps) (e, h) = rw e (IsOther-any path ps h)

module _ (st : Settings) (r : Request) where
  needed : Bool
  needed =
      (get_mfa_settings st).mfa_required
      || ((get_mfa_settings st).mfa_required_for_admin && is_user_admin r)
      || is_endpoint_mfa_required st r.path

  check-needed :
      (raise_exception : Bool)
      → check_mfa_required st r raise_exception ≡ (
          if needed && not (extract_mfa_data_from_request st r).mfa_verified
          then (if raise_exception then none else some false)
          else some true)
  unfolding check_mfa_required needed
  check-needed raise_exception = ground arith

  status-needed : (get_mfa_status st r).mfa_required ≡ needed
  unfolding get_mfa_status needed
  status-needed = ground arith

  middleware-needed {ℓ} :
      {A : Type ℓ} (get_response : Request → A)
      → middleware st get_response r ≡ (
          if r.is_authenticated && needed && not (extract_mfa_data_from_request st r).mfa_verified
          then json "MFA Required" 403
          else answer (get_response r))
  unfolding middleware unless_raised
  middleware-needed get_response = ground (arith, check-needed true)

  -- Nothing asks for a second factor: neither the setting for all requests, nor the one for
  -- administrators, nor the path.
  abbrev pub IsExempt : Type 0
  IsExempt =
      ((get_mfa_settings st).mfa_required ≡ false)
      × (((get_mfa_settings st).mfa_required_for_admin ≡ false) ⊎ (is_user_admin r ≡ false))
      × All (λ p. after_prefix p r.path ≡ none) (get_mfa_settings st).mfa_required_endpoints

  needed-IsExempt : needed ≡ false → IsExempt
  unfolding needed
  needed-IsExempt h = (
    ground (arith, h),
    elim (Bool-cases (get_mfa_settings st).mfa_required_for_admin) [
      | inl on ↦ inr (ground (arith, h, on))
      | inr off ↦ inl off
    ],
    no-prefix r.path (get_mfa_settings st).mfa_required_endpoints (ground (arith, h)),
  )

  IsExempt-needed : IsExempt → needed ≡ false
  unfolding needed
  IsExempt-needed (g, inl a, ps) =
      ground (arith, g, a, IsOther-any r.path (get_mfa_settings st).mfa_required_endpoints ps)
  IsExempt-needed (g, inr a, ps) =
      ground (arith, g, a, IsOther-any r.path (get_mfa_settings st).mfa_required_endpoints ps)

  -- The middleware calls the view exactly if the user is not authenticated, or a second factor is
  -- verified, or nothing asks for one: the setting for all requests is off, the one for administrators
  -- is off or the user is no administrator, and the path starts with none of the listed prefixes.
  pub middleware_iff {ℓ} :
      {A : Type ℓ} (get_response : Request → A)
      → (middleware st get_response r ≡ answer (get_response r)) ↔ (
          (r.is_authenticated ≡ false)
          ⊎ (((extract_mfa_data_from_request st r).mfa_verified ≡ true) ⊎ IsExempt))
  middleware_iff get_response = (
    λ h. elim (Bool-cases r.is_authenticated) [
      | inr anonymous ↦ inl anonymous
      | inl user ↦ inr (elim (Bool-cases (extract_mfa_data_from_request st r).mfa_verified) [
        | inl verified ↦ inl verified
        | inr other ↦ inr (
            needed-IsExempt (ground (arith, user, other, sym (middleware-needed get_response) ∙ h)))
      ])
    ],
    elim [
      | inl anonymous ↦ middleware-needed get_response ∙ ground (arith, anonymous)
      | inr (inl verified) ↦ middleware-needed get_response ∙ ground (arith, verified)
      | inr (inr exempt) ↦ middleware-needed get_response ∙ ground (arith, IsExempt-needed exempt)
    ],
  )

  -- The check says no, or raises, exactly where the status reports that a second factor is required
  -- and none is verified.
  pub check-status :
      (raise_exception : Bool)
      → check_mfa_required st r raise_exception ≡ (
          if (get_mfa_status st r).mfa_required && not (get_mfa_status st r).mfa.mfa_verified
          then (if raise_exception then none else some false)
          else some true)
  unfolding get_mfa_status
  check-status raise_exception = rw status-needed (check-needed raise_exception)

second_factor-methods :
    (a : Amr) → is_second_factor a ≡ any (contains second_factors) (methods_of a)
second_factor-methods (methods ms) = refl
second_factor-methods (text t) = refl

-- Whether a request's data come from the attributes that authentication set from a token's claims, or
-- from those claims themselves, they are the same.
pub attached_agrees :
    (st : Settings) (c : TokenClaims) (other : Option TokenClaims)
    → data_of st (some (attach_mfa_claims st c)) other ≡ data_of st none (some c)
unfolding data_of data_without_user data_of_claims attach_mfa_claims
attached_agrees st c other = rw (second_factor-methods (get c.amr (methods []))) refl
