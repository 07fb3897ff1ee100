-- ===== src/Bearer/Acting.antt =====
-- Whom a request with a bearer token may act for.
use django_boilerplate.Prelude.{
  ◌≡◌, ◌≢◌, ap, int, ◌⊎◌, inl, inr, refl, ℕ, String, Bool, true, false, not, ◌&&◌, Option, none,
  some, List, [], ◌∷◌, ◌++◌, ◌==◌, arith, if-cases, lower_text,
}
use django_boilerplate.Bearer.Found.{
  username-of_found, IsIn, first-IsIn, IsNamed, IsSubjectOf, target-IsNamed, subject-IsSubjectOf,
  IsPermitted, permitted, IsValid, valid-IsValid,
}
use django_boilerplate.Bearer.{
  Claims, User, Database, Settings, Request, Session, Reply, skip, failed, key_error, authenticated,
  can_impersonate, by_username, get_impersonated_user, Verified, claims, expired, invalid,
  validate_token, start_log, log_and_act, act_as, impersonate, session_of, get_or_create,
  as_subject, with_target, with_claims, keycloak_token, one_word, bearer, authenticate_keycloak,
  is_unverified, subject_of, as_local, with_subject, authenticate_local, hybrid_token, authenticate,
}

module _ (st : Settings) (is_uuid : String → Bool) (decode : String → Option Claims)
    (is_local_token : String → Bool) (verify_token : String → Verified) (r : Request)
    (db : Database) where
  -- The session of a subject, whose user is stored, or is stored now.
  abbrev pub IsSubject : Session → Database → Type 0
  IsSubject s after =
      (s.impersonation ≡ none)
      × IsValid st is_uuid decode s.token s.claims
      × (s.claims.sub ≡ some s.user.username)
      × (((after ≡ db) × IsIn s.user db.users)
          ⊎ ((by_username db s.user.username ≡ none)
              × (after ≡ record db { users = db.users ++ s.user ∷ [] })))

  -- The session of an administrator who acts for another: allowed, and logged.
  abbrev pub IsActing : Session → Database → Type 0
  IsActing s after =
      IsValid st is_uuid decode s.token s.claims
      × (st.impersonation_enabled ≡ true)
      × IsPermitted st s.claims
      × ((admin : String) × (target : String) × (s.claims.sub ≡ some admin)
          × (r.impersonate ≡ some target)
          × (s.impersonation
              ≡ some record {
                admin_id = admin;
                admin_email = s.claims.email;
                target_user_id = target;
              })
          × IsNamed db s.user target
          × (after ≡ record db {
            logs = db.logs ++ start_log st is_uuid decode r admin target s.claims s.user ∷ [];
          }))

  -- The session of a token that the program issued itself, of the user that it names.
  abbrev pub IsLocal : Session → Database → Type 0
  IsLocal s after =
      (after ≡ db)
      × (s.impersonation ≡ none)
      × (st.local_auth_enabled ≡ true)
      × (is_local_token s.token ≡ true)
      × (verify_token s.token ≡ claims s.claims)
      × ((sub : String) × (s.claims.sub ≡ some sub) × IsSubjectOf db s.user sub)
      × (s.user.is_active ≡ true)
      × (st.email_verification_required ≡ true → s.user.email_verified ≢ some false)

  -- What a reply promises: without a session, nothing is written.
  abbrev pub IsTaken : Reply × Database → Type 0
  IsTaken (authenticated s, after) = IsSubject s after ⊎ (IsActing s after ⊎ IsLocal s after)
  IsTaken (skip, after) = after ≡ db
  IsTaken (failed reason, after) = after ≡ db
  IsTaken (key_error, after) = after ≡ db

  module _ (token : String) (c : Claims)
      (valid : validate_token st is_uuid decode token ≡ some c) where
    created-IsTaken :
        (o : Option User) (id : ℕ) (sub : String)
        → c.sub ≡ some sub
        → by_username db sub ≡ o
        → IsTaken (get_or_create st is_uuid decode o id sub token c db)
    unfolding get_or_create session_of
    created-IsTaken (some u) id sub e found = inl (
      refl,
      valid-IsValid st is_uuid decode token c valid,
      rw (username-of_found db u sub found) e,
      inl (refl, first-IsIn _ db.users u found),
    )
    created-IsTaken none id sub e found =
        inl (refl, valid-IsValid st is_uuid decode token c valid, e, inr (found, refl))

    subject-IsTaken :
        (o : Option String) (id : ℕ)
        → c.sub ≡ o
        → IsTaken (as_subject st is_uuid decode o id token c db)
    unfolding as_subject
    subject-IsTaken none id e = refl
    subject-IsTaken (some sub) id e = created-IsTaken (by_username db sub) id sub e refl

    module _ (target : String) (named : r.impersonate ≡ some target) where
      logged-IsTaken :
          (o : Option String) (u : User)
          → c.sub ≡ o
          → st.impersonation_enabled ≡ true
          → can_impersonate st c ≡ true
          → get_impersonated_user is_uuid db target none ≡ some u
          → IsTaken (log_and_act st is_uuid decode o r token target c u db)
      unfolding log_and_act
      logged-IsTaken none u e on may found = refl
      logged-IsTaken (some sub) u e on may found = inr (
          inl (
            valid-IsValid st is_uuid decode token c valid,
            on,
            permitted st c may,
            (sub, target, e, named, refl, target-IsNamed db u is_uuid target found, refl),
          ))

      acting-IsTaken :
          (o : Option User)
          → st.impersonation_enabled ≡ true
          → can_impersonate st c ≡ true
          → get_impersonated_user is_uuid db target none ≡ o
          → IsTaken (act_as st is_uuid decode o r token target c db)
      unfolding act_as
      acting-IsTaken none on may found = refl
      acting-IsTaken (some u) on may found = logged-IsTaken c.sub u refl on may found

      impersonate-IsTaken : IsTaken (impersonate st is_uuid decode r token target c db)
      unfolding impersonate
      impersonate-IsTaken =
          if-cases IsTaken (not st.impersonation_enabled) _ _ (λ off. refl)
            (λ on.
              if-cases IsTaken (not (can_impersonate st c)) _ _ (λ refused. refl)
                (λ may.
                  acting-IsTaken (get_impersonated_user is_uuid db target none) (ground (arith, on))
                    (ground (arith, may)) refl))

    target-IsTaken :
        (o : Option String) (id : ℕ)
        → r.impersonate ≡ o
        → IsTaken (with_target st is_uuid decode o r id token c db)
    unfolding with_target
    target-IsTaken none id e = subject-IsTaken c.sub id refl
    target-IsTaken (some target) id e =
        if-cases IsTaken (target == "") _ _ (λ empty. subject-IsTaken c.sub id refl)
          (λ named. impersonate-IsTaken target e)

  claims-IsTaken :
      (o : Option Claims) (id : ℕ) (token : String)
      → validate_token st is_uuid decode token ≡ o
      → IsTaken (with_claims st is_uuid decode o r id token db)
  unfolding with_claims
  claims-IsTaken none id token e = refl
  claims-IsTaken (some c) id token e = target-IsTaken token c e r.impersonate id refl

  one_word-IsTaken :
      (words : List String) (k : String → Database → Reply × Database)
      → ((token : String) → IsTaken (k token db))
      → IsTaken (one_word st is_uuid decode words k db)
  unfolding one_word
  one_word-IsTaken [] k h = refl
  one_word-IsTaken (token ∷ []) k h = h token
  one_word-IsTaken (token ∷ t ∷ more) k h = refl

  bearer-IsTaken :
      (words : List String) (k : String → Database → Reply × Database)
      → ((token : String) → IsTaken (k token db))
      → IsTaken (bearer st is_uuid decode words k db)
  unfolding bearer
  bearer-IsTaken [] k h = refl
  bearer-IsTaken (s ∷ words) k h =
      if-cases IsTaken (not (lower_text s == "bearer")) _ _ (λ other. refl)
        (λ scheme. one_word-IsTaken words k h)

  keycloak-IsTaken : (id : ℕ) → IsTaken (authenticate_keycloak st is_uuid decode r id db)
  unfolding authenticate_keycloak keycloak_token
  keycloak-IsTaken id =
      bearer-IsTaken r.words (keycloak_token st is_uuid decode r id)
        (λ token. claims-IsTaken (validate_token st is_uuid decode token) id token refl)

  not-unverified :
      (u : User)
      → (st.email_verification_required && is_unverified u.email_verified) ≡ false
      → st.email_verification_required ≡ true
      → u.email_verified ≢ some false
  not-unverified u h asked e = ground (arith, h, asked, ap is_unverified e)

  module _ (token : String) (on : st.local_auth_enabled ≡ true)
      (ours : is_local_token token ≡ true) where
    user-IsTaken :
        (o : Option User) (c : Claims) (sub : String)
        → verify_token token ≡ claims c
        → c.sub ≡ some sub
        → subject_of st is_uuid decode is_local_token verify_token (int sub) sub db ≡ o
        → IsTaken (as_local st is_uuid decode is_local_token verify_token o token c, db)
    unfolding as_local
    user-IsTaken none c sub e named found = refl
    user-IsTaken (some u) c sub e named found =
        if-cases (λ (q : Reply). IsTaken (q, db)) (not u.is_active) _ _ (λ off. refl)
          (λ active.
            if-cases (λ (q : Reply). IsTaken (q, db))
              (st.email_verification_required && is_unverified u.email_verified) _ _
              (λ unverified. refl)
              (λ verified. inr (
                inr (
                  refl,
                  refl,
                  on,
                  ours,
                  e,
                  (
                    sub,
                    named,
                    subject-IsSubjectOf db u st is_uuid decode is_local_token verify_token sub
                        (int sub) refl found,
                  ),
                  ground (arith, active),
                  not-unverified u verified,
                ))))

    local_subject-IsTaken :
        (o : Option String) (c : Claims)
        → verify_token token ≡ claims c
        → c.sub ≡ o
        → IsTaken (with_subject st is_uuid decode is_local_token verify_token o token c db, db)
    unfolding with_subject
    local_subject-IsTaken none c e named = refl
    local_subject-IsTaken (some sub) c e named =
        if-cases (λ (q : Reply). IsTaken (q, db)) (sub == "") _ _ (λ empty. refl)
          (λ filled. user-IsTaken _ c sub e named refl)

    local-IsTaken :
        (v : Verified)
        → verify_token token ≡ v
        → IsTaken (authenticate_local st is_uuid decode is_local_token verify_token v token db, db)
    unfolding authenticate_local
    local-IsTaken expired e = refl
    local-IsTaken invalid e = refl
    local-IsTaken (claims c) e = local_subject-IsTaken c.sub c e refl

  -- A request with a bearer token that is authenticated has one of three sessions. The user has the name
  -- that is the subject of a token of Keycloak that is accepted and is meant for the program: it is a stored
  -- user, and nothing is written, or there is none of that name and it is added. Or such a token is of a
  -- platform administrator with a second factor, impersonation is enabled, the user is a stored one whose
  -- key or username the request names, and one entry with the administrator and the target is logged. Or
  -- the token is the program's own, and the user is the stored one whose key is its subject, or whose
  -- username it is where it is no number; the user is active and, where verified addresses are asked for,
  -- has no profile with an unverified one. Without a session nothing is written.
  pub authenticated-IsTaken :
      (id : ℕ) → IsTaken (authenticate st is_uuid decode is_local_token verify_token r id db)
  unfolding authenticate hybrid_token
  authenticated-IsTaken id =
      bearer-IsTaken r.words (hybrid_token st is_uuid decode is_local_token verify_token r id)
        (λ token.
          if-cases IsTaken (st.local_auth_enabled && is_local_token token) _ _
            (λ ours.
              local-IsTaken token (ground (arith, ours)) (ground (arith, ours)) (verify_token token)
                refl)
            (λ theirs. keycloak-IsTaken id))
