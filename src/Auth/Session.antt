-- ===== src/Auth/Session.antt =====
-- `TokenRefreshView`, `LogoutView` and `ChangePasswordView` of api/views_local_auth.py. That file uses
-- the name `timezone` and does not import it: where a refresh would read the clock, Python raises a
-- NameError.
pub mod Validity
pub mod Refresh
use django_boilerplate.Prelude.{
  String, Bool, true, false, not, Option, none, some, List, [], ◌∷◌, ◌==◌, first, if◌then◌else◌,
  Instant,
}
use django_boilerplate.Crypto.{Digests}
use django_boilerplate.Auth.{
  User, LocalUserProfile, RefreshToken, Db, Hasher, Found, missing, many, one, profile_of,
  save_profile,
}
use django_boilerplate.Auth.Profile.{set_password, check_password}
use django_boilerplate.Auth.Tokens.{validate_token, revoke, revoke_all_for_user, Claims}

pub data RefreshReply : Type 0 where
  invalid_token disabled server_error name_error : RefreshReply
  refreshed : Claims → String → RefreshReply

module _ (d : Digests) where
  -- The rest of `post`, for the user of the token's row.
  rotate : RefreshToken → Option User → Instant → Db → RefreshReply × Db
  rotate r none now db = (server_error, db)
  rotate r (some u) now db =
      if u.is_active
      then (name_error, db)
      else (disabled, record db { refresh_tokens = revoke r.id now db.refresh_tokens })

  use_row : RefreshToken → Option String → Instant → Db → RefreshReply × Db
  use_row r (some replacement) now db = (name_error, db)
  use_row r none now db = rotate r (first (λ u. u.id == r.user_id) db.users) now db

  with_row : Found RefreshToken → Instant → Db → RefreshReply × Db
  with_row missing now db = (invalid_token, db)
  with_row many now db = (server_error, db)
  with_row (one r) now db = use_row r r.replaced_by now db

  unfoldable pub refresh : String → Instant → Db → RefreshReply × Db
  unfolding with_row use_row rotate
  refresh token now db = with_row (validate_token d token now db.refresh_tokens) now db

  revoke_found : Found RefreshToken → Instant → Db → Db
  revoke_found (one r) now db = record db { refresh_tokens = revoke r.id now db.refresh_tokens }
  revoke_found _ now db = db

  revoke_all : String → Instant → Db → Db
  revoke_all user_id now db = record db {
    refresh_tokens = revoke_all_for_user user_id now db.refresh_tokens;
  }

  -- `LogoutView.post`; `token` is the `refresh_token` of the request, if there is one.
  unfoldable pub logout : (user_id : String) (token : Option String) → Instant → Db → Db
  unfolding revoke_found revoke_all
  logout user_id none now db = revoke_all user_id now db
  logout user_id (some token) now db =
      if token == ""
      then revoke_all user_id now db
      else revoke_found (validate_token d token now db.refresh_tokens) now db

pub data PasswordReply : Type 0 where
  no_profile wrong_password changed : PasswordReply

module _ (h : Hasher) where
  with_profile :
      Option LocalUserProfile
      → (user_id current new salt : String) → Instant
      → Db
      → PasswordReply × Db
  with_profile none user_id current new salt now db = (no_profile, db)
  with_profile (some p) user_id current new salt now db =
      if not (check_password h current p) then (wrong_password, db) else (
        changed,
        record (save_profile (set_password h salt new p) db) {
          refresh_tokens = revoke_all_for_user user_id now db.refresh_tokens;
        },
      )

  -- `ChangePasswordView.post`, on the data that its serializer has validated.
  unfoldable pub change_password :
      (user_id current new salt : String) → Instant → Db → PasswordReply × Db
  unfolding with_profile
  change_password user_id current new salt now db =
      with_profile (profile_of user_id db) user_id current new salt now db
