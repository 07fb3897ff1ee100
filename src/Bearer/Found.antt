-- ===== src/Bearer/Found.antt =====
-- Which claims and which users the authentication of api/auth.py and api/impersonation.py accepts.
use django_boilerplate.Prelude.{
  ◌≡◌, ◌⊎◌, ◌∙◌, sym, ap, subst, inl, inr, refl, ℕ, String, Bool, true, Option, none, some, List,
  [], ◌∷◌, ◌++◌, ◌==◌, eq_iff, eqb, arith, if-false, if-true, Bool-cases, first, contains, int,
}
use django_boilerplate.Rows.{first-passes}
use django_boilerplate.MfaPolicy.{methods, get, get_mfa_settings, is_second_factor}
use django_boilerplate.Bearer.{
  Audience, one, many, Claims, User, Database, Settings, all_roles, or_old, can_impersonate,
  by_username, by_id, or_username, by_number, in_org, get_impersonated_user, audience_ok,
  aud_or_azp, checked_audience, validate_token, subject_of, Verified,
}

-- One of the users.
abbrev pub IsIn : User → List User → Type 0
IsIn u [] = ⊥
IsIn u (v ∷ vs) = (v ≡ u) ⊎ IsIn u vs

some-inj {ℓ} : {A : Type ℓ} (x y : A) → ◌≡◌ {A = Option A} (some x) (some y) → x ≡ y
some-inj x y h = ground arith

pub first-IsIn : (p : User → Bool) (us : List User) (u : User) → first p us ≡ some u → IsIn u us
first-IsIn p [] u h = ground arith
first-IsIn p (v ∷ vs) u h = elim (Bool-cases (p v)) [
  | inl here ↦ inl (some-inj v u (sym (if-true _ _ _ here) ∙ h))
  | inr other ↦ inr (first-IsIn p vs u (sym (if-false _ _ _ other) ∙ h))
]

module _ (db : Database) (u : User) where
  pub username-of_found : (name : String) → by_username db name ≡ some u → u.username ≡ name
  username-of_found name h =
      (eq_iff u.username name).0
        (first-passes (λ x. x.username) (λ x. x.email) (λ x. x.username == name) db.users u h)

  id-of_found : (n : ℕ) → by_id db n ≡ some u → u.id ≡ n
  id-of_found n h =
      ground (arith, first-passes (λ x. x.username) (λ x. x.email) (λ x. eqb x.id n) db.users u h)

  -- A stored user whose key or whose username a text is.
  abbrev pub IsNamed : String → Type 0
  IsNamed name = IsIn u db.users × ((int name ≡ some u.id) ⊎ (u.username ≡ name))

  -- A stored user whose key is the number that a text is, or whose username is a text that is no number.
  abbrev pub IsSubjectOf : String → Type 0
  IsSubjectOf sub =
      IsIn u db.users × ((int sub ≡ some u.id) ⊎ ((int sub ≡ none) × (u.username ≡ sub)))

  username-IsNamed : (name : String) → by_username db name ≡ some u → IsNamed name
  username-IsNamed name h = (first-IsIn _ db.users u h, inr (username-of_found name h))

  id-IsNamed : (name : String) (n : ℕ) → int name ≡ some n → by_id db n ≡ some u → IsNamed name
  id-IsNamed name n e h = (first-IsIn _ db.users u h, inl (e ∙ ap some (sym (id-of_found n h))))

  or_username-IsNamed :
      (name : String) (n : ℕ) (o : Option User)
      → int name ≡ some n
      → by_id db n ≡ o
      → or_username o db name ≡ some u
      → IsNamed name
  unfolding or_username
  or_username-IsNamed name n none e found h = username-IsNamed name h
  or_username-IsNamed name n (some v) e found h = id-IsNamed name n e (found ∙ h)

  by_number-IsNamed :
      (name : String) (o : Option ℕ) → int name ≡ o → by_number o db name ≡ some u → IsNamed name
  unfolding by_number
  by_number-IsNamed name none e h = username-IsNamed name h
  by_number-IsNamed name (some n) e h = or_username-IsNamed name n (by_id db n) e refl h

  any_org : (o : Option User) → in_org db none o ≡ o
  unfolding in_org
  any_org none = refl
  any_org (some v) = refl

  pub target-IsNamed :
      (is_uuid : String → Bool) (target : String)
      → get_impersonated_user is_uuid db target none ≡ some u
      → IsNamed target
  unfolding get_impersonated_user
  target-IsNamed is_uuid target h =
      let found = sym (any_org _) ∙ h in
      elim (Bool-cases (is_uuid target)) [
        | inl uuid ↦ by_number-IsNamed target (int target) refl (sym (if-true _ _ _ uuid) ∙ found)
        | inr text ↦ username-IsNamed target (sym (if-false _ _ _ text) ∙ found)
      ]

  module _ (st : Settings) (is_uuid : String → Bool) (decode : String → Option Claims)
      (is_local_token : String → Bool) (verify_token : String → Verified) where
    pub subject-IsSubjectOf :
        (sub : String) (o : Option ℕ)
        → int sub ≡ o
        → subject_of st is_uuid decode is_local_token verify_token o sub db ≡ some u
        → IsSubjectOf sub
    subject-IsSubjectOf sub none e h = (first-IsIn _ db.users u h, inr (e, username-of_found sub h))
    subject-IsSubjectOf sub (some n) e h =
        (first-IsIn _ db.users u h, inl (e ∙ ap some (sym (id-of_found n h))))

-- The audience is the wanted one, or has it in its list.
abbrev pub HasAudience : (wanted : String) → Option Audience → Type 0
HasAudience wanted none = ⊥
HasAudience wanted (some (one a)) = a ≡ wanted
HasAudience wanted (some (many names)) = contains names wanted ≡ true

audience-HasAudience :
    (wanted : String) (o : Option Audience) → audience_ok wanted o ≡ true → HasAudience wanted o
audience-HasAudience wanted none h = ground arith
audience-HasAudience wanted (some (one a)) h = (eq_iff a wanted).0 h
audience-HasAudience wanted (some (many names)) h = h

aud_or_azp-HasAudience :
    (wanted : String) (aud azp : Option Audience)
    → HasAudience wanted (aud_or_azp aud azp)
    → HasAudience wanted aud ⊎ HasAudience wanted azp
aud_or_azp-HasAudience wanted none azp h = inr h
aud_or_azp-HasAudience wanted (some (one a)) azp h = elim (Bool-cases (a == "")) [
  | inl empty ↦ inr (subst (HasAudience wanted) (if-true _ _ _ empty) h)
  | inr named ↦ inl (subst (HasAudience wanted) (if-false _ _ _ named) h)
]
aud_or_azp-HasAudience wanted (some (many [])) azp h = inr h
aud_or_azp-HasAudience wanted (some (many (a ∷ names))) azp h = inl h

contains-append :
    (xs ys : List String) (a : String)
    → contains (xs ++ ys) a ≡ true
    → (contains xs a ≡ true) ⊎ (contains ys a ≡ true)
contains-append [] ys a h = inr h
contains-append (x ∷ xs) ys a h = elim (Bool-cases (x == a)) [
  | inl here ↦ inl (ground arith)
  | inr other ↦ elim (contains-append xs ys a (ground arith)) [
    | inl there ↦ inl (ground arith)
    | inr more ↦ inr more
  ]
]

module _ (st : Settings) where
  -- A second factor, and the role of a platform administrator in the realm or for a client.
  abbrev pub IsPermitted : Claims → Type 0
  IsPermitted c =
      ((contains (get_mfa_settings st.mfa).mfa_acr_values (get c.mfa.acr "") ≡ true)
        ⊎ (is_second_factor (get c.mfa.amr (methods [])) ≡ true))
      × ((contains (or_old c.realm_access_roles c.realm_roles) "platform_admin" ≡ true)
          ⊎ (contains (or_old (all_roles c.resource_roles) c.client_roles) "platform_admin" ≡ true))

  pub permitted : (c : Claims) → can_impersonate st c ≡ true → IsPermitted c
  unfolding can_impersonate
  permitted c h = (
    elim (Bool-cases (contains (get_mfa_settings st.mfa).mfa_acr_values (get c.mfa.acr ""))) [
      | inl level ↦ inl level
      | inr other ↦ inr (ground (arith, h, other))
    ],
    contains-append (or_old c.realm_access_roles c.realm_roles)
        (or_old (all_roles c.resource_roles) c.client_roles) "platform_admin" (ground (arith, h)),
  )

  module _ (is_uuid : String → Bool) (decode : String → Option Claims) where
    -- A token that is accepted with these claims and is meant for the program.
    abbrev pub IsValid : String → Claims → Type 0
    IsValid token c =
        (decode token ≡ some c)
        × (HasAudience st.keycloak_audience c.aud ⊎ HasAudience st.keycloak_audience c.azp)

    checked-HasAudience :
        (o : Option Claims) (c : Claims)
        → checked_audience st is_uuid decode o ≡ some c
        → (o ≡ some c)
          × (HasAudience st.keycloak_audience c.aud ⊎ HasAudience st.keycloak_audience c.azp)
    unfolding checked_audience
    checked-HasAudience none c h = ground arith
    checked-HasAudience (some x) c h =
        elim (Bool-cases (audience_ok st.keycloak_audience (aud_or_azp x.aud x.azp))) [
          | inl good ↦
              let same = sym (if-true _ _ _ good) ∙ h in
              (
                same,
                subst
                    (λ (v : Claims).
                      HasAudience st.keycloak_audience v.aud
                      ⊎ HasAudience st.keycloak_audience v.azp)
                    (some-inj x c same)
                    (aud_or_azp-HasAudience st.keycloak_audience x.aud x.azp
                      (audience-HasAudience st.keycloak_audience _ good)),
              )
          | inr bad ↦ absurd (ground (arith, sym (if-false _ _ _ bad) ∙ h))
        ]

    pub valid-IsValid :
        (token : String) (c : Claims)
        → validate_token st is_uuid decode token ≡ some c
        → IsValid token c
    unfolding validate_token
    valid-IsValid token c h = checked-HasAudience (decode token) c h
