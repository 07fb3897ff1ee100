-- ===== src/Permissions.antt =====
-- api/permissions.py and api/permissions_org.py: who is let through, by the claims of the request's
-- token and the memberships. The decisions of Cerbos are not modelled.
pub mod Granted
mod Tests
use django_boilerplate.Prelude.{
  String, Bool, true, false, not, ◌&&◌, ◌||◌, Option, none, some, List, [], ◌∷◌, ◌++◌, ◌==◌, any,
  first, contains, if◌then◌else◌,
}

-- What the classes read of `token_claims`, with missing lists empty; an identifier is its text.
pub record TokenClaims : Type 0 where
  pub sub : Option String
  pub realm_access_roles : List String
  pub realm_roles : List String
  pub client_roles : List String
  pub roles : List String
  pub org_id : Option String

pub record Division : Type 0 where
  pub id : String
  pub org_id : String

pub record Membership : Type 0 where
  pub user_id : String
  pub org_id : String
  pub division_id : Option String
  pub team_id : Option String
  pub org_roles : List String
  pub division_roles : List String

unfoldable pub extract_roles_from_claims : TokenClaims → List String
extract_roles_from_claims c = c.realm_access_roles ++ c.realm_roles ++ c.client_roles ++ c.roles

abbrev pub has_role : String → TokenClaims → Bool
has_role role c = contains (extract_roles_from_claims c) role

-- `has_permission` of `IsPlatformAdmin`, `IsOrgAdmin`, `IsDivisionAdmin` and `IsAuditViewer`; the first
-- argument says whether the user is authenticated.
unfoldable pub is_platform_admin : Bool → TokenClaims → Bool
is_platform_admin authenticated c = authenticated && has_role "platform_admin" c

unfoldable pub is_org_admin : Bool → TokenClaims → Bool
is_org_admin authenticated c = authenticated && has_role "org_admin" c

unfoldable pub is_division_admin : Bool → TokenClaims → Bool
is_division_admin authenticated c =
    authenticated && (has_role "platform_admin" c || has_role "division_admin" c)

abbrev pub audit_roles : List String
audit_roles = "platform_admin" ∷ "org_admin" ∷ "audit_viewer" ∷ []

unfoldable pub is_audit_viewer : Bool → TokenClaims → Bool
is_audit_viewer authenticated c =
    authenticated && any (contains audit_roles) (extract_roles_from_claims c)

-- `x and x != ""`, for what a dictionary may hold.
unfoldable pub given : Option String → Option String
given none = none
given (some x) = if x == "" then none else some x

same_org : Option String → Option String → Bool
same_org (some a) (some b) = a == b
same_org _ _ = false

-- `IsOrgAdminForOrg.has_permission`; the last argument is `org_id` of the URL.
unfoldable pub is_org_admin_for_org : Bool → TokenClaims → Option String → Bool
unfolding same_org given
is_org_admin_for_org authenticated c url_org =
    if not authenticated
    then false
    else if has_role "platform_admin" c
    then true
    else if not (has_role "org_admin" c)
    then false
    else same_org (given c.org_id) (given url_org)

abbrev pub is_no_division : Option String → Bool
is_no_division none = true
is_no_division (some d) = false

abbrev pub is_division : String → Option String → Bool
is_division d none = false
is_division d (some e) = e == d

-- `filter(user_id=..., org=..., division__isnull=True)` and `filter(user_id=..., division=...)`
abbrev pub is_org_level : String → Division → Membership → Bool
is_org_level user_id d m =
    m.user_id == user_id && m.org_id == d.org_id && is_no_division m.division_id

abbrev pub is_in_division : String → Division → Membership → Bool
is_in_division user_id d m = m.user_id == user_id && is_division d.id m.division_id

holds : Option Membership → (Membership → List String) → String → Bool
holds none roles_of role = false
holds (some m) roles_of role = contains (roles_of m) role

module _ (divisions : List Division) (memberships : List Membership) where
  with_user : Division → Option String → Bool
  with_user d none = false
  with_user d (some user_id) =
      holds (first (is_org_level user_id d) memberships) (λ m. m.org_roles) "org_admin"
      || holds (first (is_in_division user_id d) memberships) (λ m. m.division_roles)
          "division_admin"

  with_division : Option Division → TokenClaims → Bool
  with_division none c = false
  with_division (some d) c = with_user d (given c.sub)

  with_id : Option String → TokenClaims → Bool
  with_id none c = false
  with_id (some id) c = with_division (first (λ d. d.id == id) divisions) c

  -- `IsDivisionAdminForDivision.has_permission`; the last argument is the division of the URL.
  unfoldable pub is_division_admin_for_division : Bool → TokenClaims → Option String → Bool
  unfolding holds with_user with_division with_id
  is_division_admin_for_division authenticated c url_division =
      if not authenticated
      then false
      else if has_role "platform_admin" c
      then true
      else with_id (given url_division) c
