-- ===== src/Permissions/Granted.antt =====
-- What a granted permission of api/permissions_org.py takes.
use django_boilerplate.Prelude.{
  ◌≡◌, ◌≢◌, ◌⊎◌, ◌↔◌, refl, ap, sym, ◌∙◌, String, Bool, true, not, ◌&&◌, ◌||◌, Bool-cases, inl, inr,
  Option, none, some, List, [], ◌∷◌, arith, ◌==◌, eq_iff, any, first, contains, if-cases, if-true,
  if-false, eq_of_eq-true, eq-false_of_ne, ne_of_eq-false,
}
use django_boilerplate.Permissions.{
  TokenClaims, Division, Membership, has_role, given, same_org, is_org_admin_for_org, is_org_level,
  is_in_division, holds, with_user, with_division, with_id, is_division_admin_for_division,
}

IsSameOrg : Option String → Option String → Type 0
IsSameOrg a b = (x : String) × (a ≡ some x) × (b ≡ some x)

same_org-IsSameOrg : (a b : Option String) → same_org a b ≡ true → IsSameOrg a b
unfolding same_org IsSameOrg
same_org-IsSameOrg none b h = ground arith
same_org-IsSameOrg (some x) none h = ground arith
same_org-IsSameOrg (some x) (some y) h = (x, refl, ap some (sym (eq_of_eq-true _ _ h)))

IsSameOrg-same_org : (a b : Option String) → IsSameOrg a b → same_org a b ≡ true
unfolding same_org IsSameOrg
IsSameOrg-same_org a b (x, e, e') = rw (e, e') ((eq_iff x x).1 refl)

some-inj : (x y : String) → ◌≡◌ {A = Option String} (some x) (some y) → x ≡ y
some-inj x y h = ground arith

-- A value that is there and not empty.
IsGiven : Option String → String → Type 0
IsGiven o x = (o ≡ some x) × (x ≢ "")

IsGiven-of_given : (o : Option String) (x : String) → given o ≡ some x → IsGiven o x
unfolding given IsGiven
IsGiven-of_given none x h = ground arith
IsGiven-of_given (some y) x h =
    if-cases (λ v. v ≡ some x → IsGiven (some y) x) (y == "") none (some y)
      (λ empty e. ground (arith, e))
      (λ named e. (e, λ blank. ne_of_eq-false _ _ named (some-inj y x e ∙ blank))) h

given-of_IsGiven : (o : Option String) (x : String) → IsGiven o x → given o ≡ some x
unfolding given IsGiven
given-of_IsGiven o x (e, named) = rw e (if-false _ _ _ (eq-false_of_ne x "" named))

module _ (authenticated : Bool) (c : TokenClaims) where
  -- The administrator of the organisation with a text as its identifier.
  abbrev pub IsAdminOf : Option String → String → Type 0
  IsAdminOf url_org org =
      (has_role "org_admin" c ≡ true) × (org ≢ "") × (c.org_id ≡ some org) × (url_org ≡ some org)

  granted_org :
      (url_org : Option String)
      → is_org_admin_for_org authenticated c url_org ≡ (
          authenticated
          && (has_role "platform_admin" c
              || (has_role "org_admin" c && same_org (given c.org_id) (given url_org))))
  unfolding is_org_admin_for_org
  granted_org url_org = ground arith

  allowed :
      (url_org : Option String)
      → authenticated ≡ true
      → (has_role "platform_admin" c ≡ true) ⊎ ((org : String) × IsAdminOf url_org org)
      → (authenticated
          && (has_role "platform_admin" c
              || (has_role "org_admin" c && same_org (given c.org_id) (given url_org))))
        ≡ true
  unfolding IsSameOrg IsGiven
  allowed url_org user (inl platform) = ground (arith, user, platform)
  allowed url_org user (inr (org, (role, named, e, e'))) = ground (
    arith,
    user,
    role,
    IsSameOrg-same_org (given c.org_id) (given url_org)
        (org, given-of_IsGiven c.org_id org (e, named), given-of_IsGiven url_org org (e', named)),
  )

  -- A request is let through for an organisation exactly if its user is authenticated and is a
  -- platform administrator, or has the role of an organisation's administrator and the organisation
  -- of the token is the one of the URL, and is named.
  pub org_admin_iff :
      (url_org : Option String)
      → (is_org_admin_for_org authenticated c url_org ≡ true) ↔ (
          (authenticated ≡ true)
          × ((has_role "platform_admin" c ≡ true) ⊎ ((org : String) × IsAdminOf url_org org)))
  unfolding IsSameOrg IsGiven
  org_admin_iff url_org = (
    λ h.
        let g = sym (granted_org url_org) ∙ h in
        (
          ground (arith, g),
          elim (Bool-cases (has_role "platform_admin" c)) [
            | inl platform ↦ inl platform
            | inr other ↦
                let (x, e, e') =
                  same_org-IsSameOrg (given c.org_id) (given url_org) (ground (arith, g, other)) in
                inr (
                  x,
                  (
                    ground (arith, g, other),
                    (IsGiven-of_given c.org_id x e).1,
                    (IsGiven-of_given c.org_id x e).0,
                    (IsGiven-of_given url_org x e').0,
                  ),
                )
          ],
        ),
    λ (user, role). granted_org url_org ∙ allowed url_org user role,
  )

-- A role of the first row that passes a test is a role of some row that does.
holds-any :
    (t : Membership → Bool) (roles_of : Membership → List String) (role : String)
    (ms : List Membership)
    → holds (first t ms) roles_of role ≡ true
    → any (λ m. t m && contains (roles_of m) role) ms ≡ true
unfolding holds
holds-any t roles_of role [] h = ground arith
holds-any t roles_of role (m ∷ ms) h = elim (Bool-cases (t m)) [
  | inl passed ↦
      ground (
        arith,
        passed,
        ap (λ o. holds o roles_of role) (if-true (t m) (some m) (first t ms) passed),
      )
  | inr failed ↦ ground (
    arith,
    failed,
    ap (λ o. holds o roles_of role) (if-false (t m) (some m) (first t ms) failed),
    holds-any t roles_of role ms,
  )
]

module _ (divisions : List Division) (memberships : List Membership) (c : TokenClaims) where
  -- A membership of the token's user makes an administrator of the division or of its organisation.
  abbrev pub IsDivisionAdmin : Option String → Type 0
  IsDivisionAdmin url_division =
      (id : String) × (d : Division) × (user_id : String) × (url_division ≡ some id)
      × (first (λ x. x.id == id) divisions ≡ some d)
      × (c.sub ≡ some user_id)
      × ((any (λ m. is_org_level user_id d m && contains m.org_roles "org_admin") memberships
            ≡ true)
          ⊎ (any (λ m. is_in_division user_id d m && contains m.division_roles "division_admin")
                memberships
              ≡ true))

  user-granted :
      (url : Option String) (id : String) (d : Division) (o : Option String)
      → given url ≡ some id
      → first (λ x. x.id == id) divisions ≡ some d
      → given c.sub ≡ o
      → with_user divisions memberships d o ≡ true
      → IsDivisionAdmin url
  unfolding with_user IsGiven
  user-granted url id d none e found sub h = ground arith
  user-granted url id d (some u) e found sub h = (
    id,
    d,
    u,
    (IsGiven-of_given url id e).0,
    found,
    (IsGiven-of_given c.sub u sub).0,
    elim (Bool-cases
        (holds (first (is_org_level u d) memberships) (λ m. m.org_roles) "org_admin")) [
          | inl org ↦
              inl (holds-any (is_org_level u d) (λ m. m.org_roles) "org_admin" memberships org)
          | inr other ↦ inr (
              holds-any (is_in_division u d) (λ m. m.division_roles) "division_admin" memberships
                (ground (arith, h, other)))
        ],
  )

  division-granted :
      (url : Option String) (id : String) (o : Option Division)
      → given url ≡ some id
      → first (λ x. x.id == id) divisions ≡ o
      → with_division divisions memberships o c ≡ true
      → IsDivisionAdmin url
  unfolding with_division
  division-granted url id none e found h = ground arith
  division-granted url id (some d) e found h = user-granted url id d (given c.sub) e found refl h

  id-granted :
      (url o : Option String)
      → given url ≡ o
      → with_id divisions memberships o c ≡ true
      → IsDivisionAdmin url
  unfolding with_id
  id-granted url none e h = ground arith
  id-granted url (some id) e h = division-granted url id _ e refl h

  -- A request that is let through for a division has an authenticated user with the role of a
  -- platform administrator, or a membership of the token's user gives the role of an administrator for
  -- the organisation of that division, at the organisation's level, or for the division.
  pub division_grants_sound :
      (authenticated : Bool) (url_division : Option String)
      → is_division_admin_for_division divisions memberships authenticated c url_division ≡ true
      → (authenticated ≡ true)
        × ((has_role "platform_admin" c ≡ true) ⊎ IsDivisionAdmin url_division)
  unfolding is_division_admin_for_division
  division_grants_sound authenticated url =
      if-cases
        (λ b.
          b ≡ true
          → (authenticated ≡ true) × ((has_role "platform_admin" c ≡ true) ⊎ IsDivisionAdmin url))
        (not authenticated) _ _ (λ anonymous h. ground (arith, h))
        (λ user.
          if-cases
            (λ b.
              b ≡ true
              → (authenticated ≡ true)
                × ((has_role "platform_admin" c ≡ true) ⊎ IsDivisionAdmin url))
            (has_role "platform_admin" c) _ _ (λ platform h. (ground (arith, user), inl platform))
            (λ other h. (ground (arith, user), inr (id-granted url (given url) refl h))))
