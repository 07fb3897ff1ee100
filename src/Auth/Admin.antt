-- ===== src/Auth/Admin.antt =====
-- api/views_admin_users.py and api/serializers_admin_users.py: users in the hands of the platform's
-- administrators. `is_email` is Django's check of an address. The names of a user are not in its
-- row; `matches` is the search in them and in the email. `provider_of` is the column auth_provider.
pub mod Accounts
use Prim.Native.Char.{code}
use Prim.Native.String
use django_boilerplate.Prelude.{
  ℕ, String, Bool, true, false, not, ◌&&◌, ◌||◌, Option, none, some, List, [], ◌∷◌, ◌++◌, ◌==◌, leb,
  ltb, any, first, lower_text, if◌then◌else◌,
}
use django_boilerplate.Permissions.{TokenClaims, is_platform_admin}
use django_boilerplate.Listing.{Number, Listed, listed}
use django_boilerplate.Listing
use django_boilerplate.Auth.{
  User, LocalUserProfile, Db, Hasher, has_email, profile_of, save_profile,
}
use django_boilerplate.Auth.Profile.{set_password}
use django_boilerplate.Auth.Register.{new_user}

pub data AdminReply : Type 0 where
  forbidden invalid server_error not_found : AdminReply
  created : (id : String) → AdminReply
  updated : AdminReply
  deactivated : (id : String) → AdminReply

pub record CreateInput : Type 0 where
  pub email : String
  pub password : String
  pub roles : List String

pub record UpdateInput : Type 0 where
  pub is_active : Option Bool
  pub roles : Option (List String)

-- What a creation draws: the key of the user and the salt of the password's hash.
pub record Draws : Type 0 where
  pub user_id : String
  pub salt : String

abbrev pub has_char : (ℕ → Bool) → String → Bool
has_char p String.[] = false
has_char p (String.◌∷◌ c s) = p (code c) || has_char p s

-- `validate_password`, for ASCII letters and digits.
unfoldable pub is_strong : String → Bool
is_strong value =
    not (ltb (String.count value) 8)
    && has_char (λ c. leb 65 c && leb c 90) value
    && has_char (λ c. leb 97 c && leb c 122) value
    && has_char (λ c. leb 48 c && leb c 57) value

-- `LocalUserProfile.objects.create` of the two serializers.
abbrev pub admin_profile :
    (user_id : String) → (email_verified : Bool) → List String → LocalUserProfile
admin_profile user_id verified roles = record {
  user_id = user_id;
  password_hash = "";
  email_verified = verified;
  email_verification_token = "";
  email_verification_sent_at = none;
  password_reset_token = "";
  password_reset_sent_at = none;
  roles = roles;
  failed_login_attempts = 0;
  locked_until = none;
  last_login_at = none;
  last_login_ip = none;
}

-- `validate_email` of both serializers.
abbrev pub is_taken : String → Db → Bool
is_taken email db = any (has_email email) db.users

unfoldable pub add_account : User → LocalUserProfile → Db → Db
add_account u p db = record db { users = db.users ++ u ∷ []; profiles = db.profiles ++ p ∷ [] }

module _ (h : Hasher) (is_email : String → Bool) where
  -- `UserCreateSerializer.create`
  unfoldable pub create_local : (email : String) → CreateInput → Draws → Db → Db
  create_local email input draws db =
      let p = admin_profile draws.user_id true input.roles in
      save_profile (set_password h draws.salt input.password p)
        (add_account (new_user draws.user_id email) p db)

  -- `AdminUserListCreateView.post`; a username that is taken raises before a row is written.
  unfoldable pub create_user : Bool → TokenClaims → CreateInput → Draws → Db → AdminReply × Db
  create_user authenticated c input draws db =
      let email = lower_text input.email in
      if not (is_platform_admin authenticated c)
      then (forbidden, db)
      else if not (is_email input.email)
          || is_taken input.email db
          || not (is_strong input.password)
      then (invalid, db)
      else if any (λ u. u.username == email) db.users
      then (server_error, db)
      else (created draws.user_id, create_local email input draws db)

  abbrev pub or_user : List String → List String
  or_user [] = "user" ∷ []
  or_user (r ∷ rs) = r ∷ rs

  -- The memberships that an invitation creates, of a user in an organisation with roles.
  abbrev pub grants :
      Option String → (user_id : String) → List String → List (String × String × List String)
  grants none user_id roles = []
  grants (some org) user_id roles = (user_id, org, or_user roles) ∷ []

  abbrev pub has_no_org : (String → Bool) → Option String → Bool
  has_no_org org_exists none = false
  has_no_org org_exists (some org) = not (org_exists org)

  -- `AdminUserInviteView.post`, with the memberships that are created.
  unfoldable pub invite_user :
      (org_exists : String → Bool)
      → Bool
      → TokenClaims
      → CreateInput
      → Option String
      → (org_roles : List String) → (user_id : String) → Db
      → AdminReply × Db × List (String × String × List String)
  invite_user org_exists authenticated c input org org_roles user_id db =
      let email = lower_text input.email in
      if not (is_platform_admin authenticated c)
      then (forbidden, db, [])
      else if not (is_email input.email) || is_taken input.email db || has_no_org org_exists org
      then (invalid, db, [])
      else if any (λ u. u.username == email) db.users
      then (server_error, db, [])
      else (
        created user_id,
        add_account (new_user user_id email) (admin_profile user_id false input.roles) db,
        grants org user_id org_roles,
      )

-- `user.save()`, over the row with its key.
abbrev pub put_user : User → List User → List User
put_user u [] = []
put_user u (w ∷ ws) = (if w.id == u.id then u else w) ∷ put_user u ws

abbrev pub save_user : User → Db → Db
save_user u db = record db { users = put_user u db.users }

abbrev pub by_id : String → Db → Option User
by_id id db = first (λ u. u.id == id) db.users

deactivate_found : Option User → Db → AdminReply × Db
deactivate_found none db = (not_found, db)
deactivate_found (some u) db = (deactivated u.id, save_user (record u { is_active = false }) db)

-- `AdminUserDetailView.delete`
unfoldable pub deactivate_user : Bool → TokenClaims → (id : String) → Db → AdminReply × Db
unfolding deactivate_found
deactivate_user authenticated c id db =
    if is_platform_admin authenticated c then deactivate_found (by_id id db) db else (forbidden, db)

abbrev or_active : Option Bool → User → User
or_active none u = u
or_active (some b) u = record u { is_active = b }

set_roles : Option (List String) → Option LocalUserProfile → Db → Db
set_roles none p db = db
set_roles (some roles) none db = db
set_roles (some roles) (some p) db = save_profile (record p { roles = roles }) db

update_found : Option User → UpdateInput → Db → AdminReply × Db
update_found none c db = (not_found, db)
update_found (some u) c db =
    (updated, set_roles c.roles (profile_of u.id db) (save_user (or_active c.is_active u) db))

-- `AdminUserDetailView.put`, with the `update` of its serializer.
unfoldable pub update_user : Bool → TokenClaims → (id : String) → UpdateInput → Db → AdminReply × Db
unfolding set_roles update_found
update_user authenticated c id changes db =
    if is_platform_admin authenticated c
    then update_found (by_id id db) changes db
    else (forbidden, db)

pub record UserQuery : Type 0 where
  pub search : Option String
  pub is_active : Option String
  pub auth_provider : Option String
  pub org_id : Option String
  pub limit : Number
  pub offset : Number

-- `if value: queryset = queryset.filter(...)`
abbrev pub if_given : Option String → (String → Bool) → Bool
if_given none test = true
if_given (some v) test = v == "" || test v

same_bool : Bool → Bool → Bool
same_bool true b = b
same_bool false b = not b

has_activity : Option String → User → Bool
has_activity none u = true
has_activity (some v) u = same_bool (lower_text v == "true") u.is_active

-- `AdminUserListCreateView.get`
unfoldable pub list_users :
    (matches : String → User → Bool) (provider_of : String → User → Bool)
    (is_member : String → User → Bool) (is_uuid : String → Bool)
    → Bool
    → TokenClaims
    → UserQuery
    → Db
    → Listed User
unfolding has_activity same_bool
list_users matches has_provider is_member is_uuid authenticated c q db =
    if is_platform_admin authenticated c
    then listed (if_given q.org_id is_uuid) q.limit q.offset
        (λ u.
          if_given q.search (λ s. matches s u)
          && has_activity q.is_active u
          && if_given q.auth_provider (λ s. has_provider s u)
          && if_given q.org_id (λ s. is_member s u))
        db.users
    else Listing.forbidden
