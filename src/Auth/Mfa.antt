-- ===== src/Auth/Mfa.antt =====
-- `TOTPDevice` of api/models_mfa.py and the views of api/views_mfa.py that manage a device. The
-- codes of an authenticator are checked by pyotp, which is not part of the repository.
pub mod BackupCodes
pub mod Verify
use django_boilerplate.Prelude.{
  ℕ, String, Bool, true, false, not, ◌&&◌, ◌||◌, Option, none, some, List, [], ◌∷◌, ◌++◌, ◌==◌,
  length, rows, any, contains, upper, if◌then◌else◌, Instant,
}
use django_boilerplate.Crypto.{Digests}
use django_boilerplate.Auth.{TotpDevice, Db, Found, missing, many, one, get_one}

-- `pyotp.TOTP(secret).verify(code, valid_window=1)`
abbrev pub Totp : Type 0
Totp = String → String → Instant → Bool

-- `codes.remove(code)`, which removes the first occurrence.
unfoldable pub remove : String → List String → List String
remove code [] = []
remove code (c ∷ codes) = let rest = remove code codes in if c == code then codes else c ∷ rest

unfoldable pub verify_code : Totp → String → Instant → TotpDevice → Bool
verify_code totp code now t = totp t.secret code now

module _ (d : Digests) where
  hash_all : List String → List String
  hash_all [] = []
  hash_all (c ∷ codes) = d.sha256 c ∷ hash_all codes

  -- `create_device`, with the secret and the ten codes that it draws.
  unfoldable pub create_device :
      (user_id secret : String) (codes : List String) (confirmed : Bool) → TotpDevice
  unfolding hash_all
  create_device user_id secret codes confirmed = record {
    user_id = user_id;
    secret = secret;
    confirmed = confirmed;
    last_used_at = none;
    backup_codes = hash_all codes;
  }

  -- `verify_backup_code`: the device, and whether the code was accepted.
  unfoldable pub verify_backup_code : String → TotpDevice → TotpDevice × Bool
  unfolding remove
  verify_backup_code code t =
      let hash = d.sha256 (upper code) in
      if contains t.backup_codes hash
      then (record t { backup_codes = remove hash t.backup_codes }, true)
      else (t, false)

  -- `regenerate_backup_codes`, with the codes that it draws.
  unfoldable pub regenerate_backup_codes : List String → TotpDevice → TotpDevice
  unfolding hash_all
  regenerate_backup_codes codes t = record t { backup_codes = hash_all codes }

unfoldable pub remaining_backup_codes : TotpDevice → ℕ
remaining_backup_codes t = length t.backup_codes

-- A device is saved over the row of its user.
unfoldable pub put_device : TotpDevice → List TotpDevice → List TotpDevice
put_device t [] = []
put_device t (u ∷ us) = (if u.user_id == t.user_id then t else u) ∷ put_device t us

unfoldable pub save_device : TotpDevice → Db → Db
unfolding put_device
save_device t db = record db { totp_devices = put_device t db.totp_devices }

same_bool : Bool → Bool → Bool
same_bool true b = b
same_bool false b = not b

-- `TOTPDevice.objects.get(user=user, confirmed=confirmed)`
unfoldable pub get_device : String → Bool → Db → Found TotpDevice
unfolding same_bool
get_device user_id confirmed db =
    get_one (rows (λ t. t.user_id == user_id && same_bool t.confirmed confirmed) db.totp_devices)

pub data DeviceReply : Type 0 where
  already_enabled code_required not_set_up invalid_code server_error disabled : DeviceReply
  started : (secret : String) (codes : List String) → DeviceReply
  enabled : (remaining : ℕ) → DeviceReply
  regenerated : List String → DeviceReply

module _ (d : Digests) where
  -- `MFASetupView.post`
  unfoldable pub setup : (user_id secret : String) (codes : List String) → Db → DeviceReply × Db
  setup user_id secret codes db =
      if any (λ t. t.user_id == user_id && t.confirmed) db.totp_devices
      then (already_enabled, db)
      else (
        started secret codes,
        record db {
          totp_devices =
              rows (λ t. not (t.user_id == user_id && not t.confirmed)) db.totp_devices
              ++ create_device d user_id secret codes false ∷ [];
        },
      )

module _ (totp : Totp) where
  confirm_device : Found TotpDevice → String → Instant → Db → DeviceReply × Db
  confirm_device missing code now db = (not_set_up, db)
  confirm_device many code now db = (server_error, db)
  confirm_device (one t) code now db =
      if not (verify_code totp code now t) then (invalid_code, db) else (
        enabled (remaining_backup_codes t),
        save_device (record t { confirmed = true; last_used_at = some now }) db,
      )

  -- `MFAConfirmView.post`
  unfoldable pub confirm : (user_id code : String) → Instant → Db → DeviceReply × Db
  unfolding confirm_device
  confirm user_id code now db =
      if code == ""
      then (code_required, db)
      else confirm_device (get_device user_id false db) code now db

module _ (d : Digests) (totp : Totp) where
  -- `verify_code(code) or verify_backup_code(code)`
  unfoldable pub verify_either : String → Instant → TotpDevice → TotpDevice × Bool
  verify_either code now t =
      if verify_code totp code now t then (t, true) else verify_backup_code d code t

  delete_device : String → Db → Db
  delete_device user_id db = record db {
    totp_devices = rows (λ t. not (t.user_id == user_id)) db.totp_devices;
  }

  disable_device : Found TotpDevice → String → Instant → Db → DeviceReply × Db
  disable_device missing code now db = (not_set_up, db)
  disable_device many code now db = (server_error, db)
  disable_device (one t) code now db =
      if (verify_either code now t).1
      then (disabled, delete_device t.user_id db)
      else (invalid_code, db)

  -- `MFADisableView.post`
  unfoldable pub disable : (user_id code : String) → Instant → Db → DeviceReply × Db
  unfolding disable_device delete_device
  disable user_id code now db =
      if code == ""
      then (code_required, db)
      else disable_device (get_device user_id true db) code now db

  renew_codes : Found TotpDevice → String → List String → Instant → Db → DeviceReply × Db
  renew_codes missing code new now db = (not_set_up, db)
  renew_codes many code new now db = (server_error, db)
  renew_codes (one t) code new now db =
      if not (verify_code totp code now t)
      then (invalid_code, db)
      else (regenerated new, save_device (regenerate_backup_codes d new t) db)

  -- `MFABackupCodesView.post`, with the codes that it draws.
  unfoldable pub backup_codes :
      (user_id code : String) (new : List String) → Instant → Db → DeviceReply × Db
  unfolding renew_codes
  backup_codes user_id code new now db =
      if code == ""
      then (code_required, db)
      else renew_codes (get_device user_id true db) code new now db
