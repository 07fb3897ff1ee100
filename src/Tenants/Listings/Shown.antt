-- ===== src/Tenants/Listings/Shown.antt =====
-- Whose teams and members the listings of an organisation show.
use django_boilerplate.Prelude.{
  ◌≡◌, refl, ap, sym, subst, if-cases, if-true, ◌∙◌, String, Bool, true, Bool-cases, inl, inr,
  Option, none, some, List, [], ◌∷◌, ◌==◌, ◌&&◌, not, arith, eq_iff, eq_of_eq-true, All, first,
  rows, if◌then◌else◌,
}
use django_boilerplate.Rows.{IsOwned, All-rows, first-IsOwned, first-passes}
use django_boilerplate.Listing.{Listed, Page, forbidden, not_found, server_error, ok}
use django_boilerplate.Listing.Pages.{OnOk, IsShort, listed-IsShort}
use django_boilerplate.Permissions.{is_org_admin_for_org}
use django_boilerplate.Tenants.{Division, Database, division_owner, has_org, same_null}
use django_boilerplate.Tenants.Requests.{Caller}
use django_boilerplate.Tenants.Valid.{IsValid, IsOf}
use django_boilerplate.Tenants.Listings.{
  Query, org_list_teams, org_list_members, org_division_teams, teams_of, is_listed_division,
}

All-unit {ℓ} : {A : Type ℓ} (xs : List A) → All {ℓ, 0} (λ x. Unit) xs
All-unit [] = tt
All-unit (x ∷ xs) = (tt, All-unit xs)

rows-All {ℓ} :
    {A : Type ℓ} (Q : A → Type 0) (p : A → Bool) (xs : List A)
    → ((x : A) → p x ≡ true → Q x)
    → All Q (rows p xs)
rows-All Q p xs step = All-rows (λ x. Unit) Q p xs (λ x kept u. step x kept) (All-unit xs)

some-inj : (x y : String) → ◌≡◌ {A = Option String} (some x) (some y) → x ≡ y
some-inj x y h = ground arith

owner-IsOwned :
    (k o o' : String) (ds : List Division)
    → IsOwned (λ d. d.id) (λ d. d.org_id) k o ds
    → division_owner k ds ≡ some o'
    → o' ≡ o
owner-IsOwned k o o' [] h e = ground (arith, e)
owner-IsOwned k o o' (d ∷ ds) (own, h) e = elim (Bool-cases (d.id == k)) [
  | inl here ↦ sym (some-inj d.org_id o' (sym (if-true _ _ _ here) ∙ e)) ∙ own here
  | inr there ↦ owner-IsOwned k o o' ds h (ground (arith, there, e))
]

within :
    (ds : List Division) (id org : String) (division : Option String) (team_org : String)
    → IsOwned (λ d. d.id) (λ d. d.org_id) id org ds
    → same_null division (some id) ≡ true
    → IsOf (λ k. division_owner k ds) division team_org
    → team_org ≡ org
within ds id org none team_org own same h = ground (arith, same)
within ds id org (some k) team_org own same h =
    owner-IsOwned id org team_org ds own
      (ap (λ j. division_owner j ds) (sym (eq_of_eq-true k id same)) ∙ h)

OnOk-with {ℓ} :
    {A : Type ℓ} (B : Type 0) (P : Page A → Type 0) (b : B) (r : Listed A)
    → OnOk P r
    → OnOk (λ p. B × P p) r
OnOk-with B P b forbidden h = tt
OnOk-with B P b not_found h = tt
OnOk-with B P b server_error h = tt
OnOk-with B P b (ok p) h = (b, h)

module _ (is_uuid : String → Bool) (icontains user_matches : (search text : String) → Bool) where
  module _ (db : Database) (v : IsValid db) (org : String) (q : Query) where
    division_team :
        (id : String) (d : Division)
        → first
            (λ x. x.id == id && is_listed_division is_uuid icontains user_matches org q x)
            db.divisions
          ≡ some d
        → All (λ t. t.org_id ≡ org) (rows (λ t. same_null t.division_id (some d.id)) db.teams)
    division_team id d found =
        let p = λ (x : Division).
          x.id == id && is_listed_division is_uuid icontains user_matches org q x in
        let passed = first-passes (λ x. x.id) (λ x. x.org_id) p db.divisions d found in
        let here : d.org_id ≡ org = (eq_iff d.org_id org).0 (ground (arith, passed)) in
        let own : IsOwned (λ x. x.id) (λ x. x.org_id) d.id org db.divisions =
          subst (λ o. IsOwned (λ x. x.id) (λ x. x.org_id) d.id o db.divisions) here
            (first-IsOwned (λ x. x.id) (λ x. x.org_id) p db.divisions d v.divisions_unique found) in
        All-rows (λ t. IsOf (λ k. division_owner k db.divisions) t.division_id t.org_id)
          (λ t. t.org_id ≡ org) (λ t. same_null t.division_id (some d.id)) db.teams
          (λ t same h. within db.divisions d.id org t.division_id t.org_id own same h)
          v.teams_within

    teams_found :
        (id : String) (o : Option Division)
        → first
            (λ x. x.id == id && is_listed_division is_uuid icontains user_matches org q x)
            db.divisions
          ≡ o
        → OnOk
            (λ p. IsShort (λ t. t.org_id ≡ org) p.results)
            (teams_of is_uuid icontains user_matches o q db)
    unfolding teams_of
    teams_found id none e = tt
    teams_found id (some d) e =
        listed-IsShort (λ t. t.org_id ≡ org) true q.limit q.offset
          (λ t. same_null t.division_id (some d.id)) db.teams (division_team id d e)

    -- A listing that is answered: its caller may act for the organisation, and it shows at most 1000
    -- rows, which are the organisation's.
    pub ShowsOwn : {A : Type 0} → Caller → (A → String) → Listed A → Type 0
    ShowsOwn caller org_of = OnOk (λ p.
        (is_org_admin_for_org caller.is_authenticated caller.claims (some org) ≡ true)
        × IsShort (λ x. org_of x ≡ org) p.results)

    if_allowed :
        {A : Type 0} (caller : Caller) (org_of : A → String) (r : Listed A)
        → OnOk (λ p. IsShort (λ x. org_of x ≡ org) p.results) r
        → ShowsOwn caller org_of (
            if is_org_admin_for_org caller.is_authenticated caller.claims (some org)
            then r
            else forbidden)
    unfolding ShowsOwn
    if_allowed caller org_of r h =
        let allowed = is_org_admin_for_org caller.is_authenticated caller.claims (some org) in
        if-cases (ShowsOwn caller org_of) allowed r forbidden
          (λ yes. OnOk-with (allowed ≡ true) (λ p. IsShort (λ x. org_of x ≡ org) p.results) yes r h)
          (λ no. tt)

    unless_denied :
        {A : Type 0} (caller : Caller) (org_of : A → String) (r : Listed A)
        → OnOk (λ p. IsShort (λ x. org_of x ≡ org) p.results) r
        → ShowsOwn caller org_of (
            if not (is_org_admin_for_org caller.is_authenticated caller.claims (some org))
            then forbidden
            else r)
    unfolding ShowsOwn
    unless_denied caller org_of r h =
        let allowed = is_org_admin_for_org caller.is_authenticated caller.claims (some org) in
        if-cases (ShowsOwn caller org_of) (not allowed) forbidden r (λ denied. tt)
          (λ yes.
            OnOk-with (allowed ≡ true) (λ p. IsShort (λ x. org_of x ≡ org) p.results)
              (ground (arith, yes)) r h)

    -- The tables are valid. Then the listing of an organisation's teams, of its members and of the teams
    -- of one of its divisions are answered only to a caller that may act for the organisation, and they
    -- show at most 1000 rows, all of that organisation.
    pub listings-ShowsOwn :
        (caller : Caller) (division : String)
        → ShowsOwn caller
            (λ t. t.org_id)
            (org_list_teams is_uuid icontains user_matches caller org q db)
          × ShowsOwn caller
              (λ m. m.org_id)
              (org_list_members is_uuid icontains user_matches caller org q db)
          × ShowsOwn caller
              (λ t. t.org_id)
              (org_division_teams is_uuid icontains user_matches caller org division q db)
    unfolding org_list_teams org_list_members org_division_teams
    listings-ShowsOwn caller division = (
      if_allowed caller (λ t. t.org_id) _
          (listed-IsShort (λ t. t.org_id ≡ org) _ q.limit q.offset _ db.teams
            (rows-All (λ t. t.org_id ≡ org) _ db.teams
              (λ t own. (eq_iff t.org_id org).0 (ground (arith, own))))),
      unless_denied caller (λ m. m.org_id) _
          (if-cases (OnOk (λ p. IsShort (λ m. m.org_id ≡ org) p.results)) (not (has_org db org))
            not_found _ (λ none. tt)
            (λ there.
              listed-IsShort (λ m. m.org_id ≡ org) _ q.limit q.offset _ db.memberships
                (rows-All (λ m. m.org_id ≡ org) _ db.memberships
                  (λ m own. (eq_iff m.org_id org).0 (ground (arith, own)))))),
      if_allowed caller (λ t. t.org_id) _ (teams_found division _ refl),
    )
