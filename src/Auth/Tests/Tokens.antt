-- ===== src/Auth/Tests/Tokens.antt =====
-- Mailed tokens, backup codes and second login steps of the example accounts.
use django_boilerplate.Prelude.{
  ◌≡◌, ◌≢◌, ◌≤◌, ◌+◌, refl, String, ◌+++◌, true, false, none, [], ◌∷◌, ◌==◌, eq_iff, arith, leb,
  upper, seconds,
}
use django_boilerplate.Crypto.Toy.{toy, flat}
use django_boilerplate.Auth.{TotpDevice, Db}
use django_boilerplate.Auth.Tokens.{is_valid, consume}
use django_boilerplate.Auth.Profile.{
  verify_password_reset_token, generate_password_reset_token, clear_password_reset_token,
}
use django_boilerplate.Auth.Profile.MailTokens.{reset_token_roundtrip}
use django_boilerplate.Auth.Reset.{confirm_reset, done}
use django_boilerplate.Auth.Reset.Refused.{IsRefusal, reset_refused}
use django_boilerplate.Auth.Reset.Unsaved.{IsKeyed}
use django_boilerplate.Auth.Login.Issued.{IsFresh}
use django_boilerplate.Auth.Mfa.{
  Totp, verify_backup_code, remaining_backup_codes, verify_either, verify_code, get_device,
  save_device,
}
use django_boilerplate.Auth.Mfa.BackupCodes.{copies, backup_code_once}
use django_boilerplate.Auth.Mfa.Verify.{RefreshClaims, verify, token_expired, put_token}
use django_boilerplate.Auth.Mfa.Verify.SingleUse.{is_accepted, mfa_token_once}
use django_boilerplate.Auth.Tests.Accounts.{plain, settings, ann_profile, accounts}

reset_token_roundtrip_example :
    let sent = generate_password_reset_token toy "r2" 50 ann_profile in
    (verify_password_reset_token toy settings "r2" 60 sent ≡ leb 60 (50 + seconds 3600))
    × (toy.sha256 "r2" ≢ toy.sha256 "r3"
        → verify_password_reset_token toy settings "r3" 60 sent ≡ false)
    × (verify_password_reset_token toy settings "r3" 60 (clear_password_reset_token sent) ≡ false)
reset_token_roundtrip_example = reset_token_roundtrip toy settings "r2" "r3" 50 60 ann_profile

within : 60 ≤ 50 + seconds settings.email_verification_token_ttl
within = omega arith

digest_differs : toy.sha256 "r1" ≢ "r1"
digest_differs = ground (arith, eq_iff "r1#" "r1")

reset_refused_example :
    IsRefusal toy plain settings
      (confirm_reset toy plain settings "r1" "rum" "salt" 60 accounts)
      accounts
reset_refused_example =
    reset_refused toy plain settings "r1" "rum" "salt" 60 accounts digest_differs

abbrev asked : Db
asked = record accounts { profiles = record ann_profile { password_reset_token = "#" } ∷ [] }

asked-IsKeyed : IsKeyed asked
asked-IsKeyed = (refl, tt)

-- A reset that is answered as done.
confirm_run : (confirm_reset flat plain settings "#" "rum" "salt" 60 asked).0 ≡ done
unfolding confirm_reset verify_password_reset_token
confirm_run = refl

abbrev device : TotpDevice
device = record {
  user_id = "2";
  secret = "s";
  confirmed = true;
  last_used_at = none;
  backup_codes = "CODE#" ∷ "MORE#" ∷ [];
}

code_single : copies (toy.sha256 (upper "code")) device.backup_codes ≡ 1
unfolding upper
code_single = refl

backup_code_once_example :
    let after = verify_backup_code toy "code" device in
    (after.1 ≡ true)
    × ((verify_backup_code toy "code" after.0).1 ≡ false)
    × (remaining_backup_codes after.0 + 1 ≡ remaining_backup_codes device)
    × (toy.sha256 (upper "code") ≢ toy.sha256 (upper "more")
        → (verify_backup_code toy "more" after.0).1 ≡ (verify_backup_code toy "more" device).1)
backup_code_once_example = backup_code_once toy "code" "more" device code_single

abbrev totp : Totp
totp secret code now = code == "123456"

abbrev encode : RefreshClaims → String
encode claims = "jwt-" +++ claims.jti

m1_accepted : is_accepted (verify toy totp settings encode "m1" "123456" "j1" 60 accounts).0 ≡ true
unfolding verify is_valid consume get_device verify_either verify_code save_device put_token
m1_accepted = refl

m1_named : ◌≢◌ {A = String} "m1" ""
m1_named = ground (arith, eq_iff "m1" "")

again_named : ◌≢◌ {A = String} "654321" ""
again_named = ground (arith, eq_iff "654321" "")

mfa_token_once_example :
    let after = (verify toy totp settings encode "m1" "123456" "j1" 60 accounts).1 in
    verify toy totp settings encode "m1" "654321" "j2" 70 after ≡ (token_expired, after)
mfa_token_once_example =
    mfa_token_once toy totp settings encode "123456" "j1" 60 accounts "m1" "654321" "j2" 70 m1_named
      again_named m1_accepted

jwt-IsFresh : IsFresh toy "jwt-j1" accounts.refresh_tokens
jwt-IsFresh = (ground (arith, eq_iff "a#" "jwt-j1#"), (ground (arith, eq_iff "b#" "jwt-j1#"), tt))
