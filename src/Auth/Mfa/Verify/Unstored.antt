-- ===== src/Auth/Mfa/Verify/Unstored.antt =====
-- The refresh token that `MFAVerifyView` hands out: the view makes it and does not store it.
use django_boilerplate.Prelude.{
  ◌≡◌, refl, ap, ◌∙◌, String, Bool, true, false, Option, none, some, List, ◌==◌, first,
  if◌then◌else◌, Instant,
}
use django_boilerplate.Crypto.{Digests}
use django_boilerplate.Auth.{
  User, MfaToken, TotpDevice, RefreshToken, Db, Settings, Found, missing, many, one,
}
use django_boilerplate.Auth.Tokens.{validate_token}
use django_boilerplate.Auth.Login.Issued.{IsFresh, validate-of_fresh}
use django_boilerplate.Auth.Session.{refresh, invalid_token}
use django_boilerplate.Auth.Session.Refresh.{refresh-of_missing}
use django_boilerplate.Auth.Mfa.{Totp, get_device, save_device}
use django_boilerplate.Auth.Mfa.Verify.{
  RefreshClaims, MfaReply, verify, with_token, with_device, complete, for_user,
}

module _ (stored : List RefreshToken) where
  abbrev IsKept : MfaReply × Db → Type 0
  IsKept r = r.1.refresh_tokens ≡ stored

  IsKept-if : (b : Bool) (x y : MfaReply × Db) → IsKept x → IsKept y → IsKept (if b then x else y)
  IsKept-if true x y p q = p
  IsKept-if false x y p q = q

module _ (d : Digests) (totp : Totp) (st : Settings) (encode : RefreshClaims → String)
    (code jti : String) (now : Instant) (db : Db) where
  for_user-IsKept :
      (o : Option User) (db' : Db)
      → IsKept db'.refresh_tokens (for_user d totp st encode o jti now db')
  unfolding for_user
  for_user-IsKept none db' = refl
  for_user-IsKept (some u) db' = refl

  with_device-IsKept :
      (t : MfaToken) (f : Found TotpDevice)
      → IsKept db.refresh_tokens (with_device d totp st encode t f code jti now db)
  unfolding with_device complete save_device
  with_device-IsKept t missing = refl
  with_device-IsKept t many = refl
  with_device-IsKept t (one device) =
      IsKept-if db.refresh_tokens _ _ _
        (for_user-IsKept (first (λ u. u.id == t.user_id) db.users) _) refl

  with_token-IsKept :
      (f : Found MfaToken)
      → IsKept db.refresh_tokens (with_token d totp st encode f code jti now db)
  unfolding with_token
  with_token-IsKept missing = refl
  with_token-IsKept many = refl
  with_token-IsKept (one t) =
      IsKept-if db.refresh_tokens _ _ _ refl (with_device-IsKept t (get_device t.user_id true db))

  verify-IsKept :
      (token : String) → IsKept db.refresh_tokens (verify d totp st encode token code jti now db)
  unfolding verify
  verify-IsKept token = IsKept-if db.refresh_tokens _ _ _ refl (with_token-IsKept _)

  -- A token whose digest was not in the table of refresh tokens before the second step of a
  -- login, such as the one that the step makes and hands out, is refused by a refresh after it.
  pub mfa_refresh_refused :
      (mfa_token token : String) (later : Instant)
      → IsFresh d token db.refresh_tokens
      → let after = (verify d totp st encode mfa_token code jti now db).1 in
        refresh d token later after ≡ (invalid_token, after)
  mfa_refresh_refused mfa_token token later fresh =
      let after = (verify d totp st encode mfa_token code jti now db).1 in
      refresh-of_missing d token later after (
        ap (λ rs. validate_token d token later rs) (verify-IsKept mfa_token)
        ∙ validate-of_fresh d token later db.refresh_tokens fresh)
