-- ===== src/Auth/Reset/Unsaved.antt =====
-- The password that `PasswordResetConfirmView` sets: `clear_password_reset_token` saves two other
-- fields, and nothing saves the hash.
use django_boilerplate.Prelude.{
  ◌≡◌, refl, ap, sym, ◌∙◌, String, Bool-cases, inl, inr, Option, none, some, ◌==◌, All, Instant,
  eq_of_eq-true, ne_of_eq-false,
}
use django_boilerplate.Crypto.{Digests}
use django_boilerplate.Auth.{
  LocalUserProfile, Db, Settings, Hasher, Found, missing, many, one, profile_of, save_profile,
}
use django_boilerplate.Auth.Lookup.{IsOne, IsOne-of_All}
use django_boilerplate.Auth.Saved.{profile-save, profile-save_other}
use django_boilerplate.Auth.Profile.{verify_password_reset_token}
use django_boilerplate.Auth.Reset.{confirm_reset, confirm_for, set_new, save_reset_fields}

-- Each profile is the one of its user.
abbrev pub IsKeyed : Db → Type 0
IsKeyed db = All (λ p. profile_of p.user_id db ≡ some p) db.profiles

abbrev pub hash_in : Option LocalUserProfile → Option String
hash_in none = none
hash_in (some p) = some p.password_hash

abbrev pub hash_of : String → Db → Option String
hash_of user_id db = hash_in (profile_of user_id db)

module _ (d : Digests) (h : Hasher) (st : Settings) where
  hash-save :
      (user_id : String) (p q : LocalUserProfile) (db : Db)
      → q.user_id ≡ p.user_id
      → q.password_hash ≡ p.password_hash
      → profile_of p.user_id db ≡ some p
      → hash_of user_id (save_profile q db) ≡ hash_of user_id db
  hash-save user_id p q db same hash found = elim (Bool-cases (q.user_id == user_id)) [
    | inl own ↦
        let at : p.user_id ≡ user_id = sym same ∙ eq_of_eq-true _ _ own in
        let before : profile_of user_id db ≡ some p = ap (λ u. profile_of u db) (sym at) ∙ found in
        ap hash_in (profile-save user_id p q db same before)
        ∙ ap some hash
        ∙ sym (ap hash_in before)
    | inr other ↦ ap hash_in (profile-save_other user_id q db (ne_of_eq-false _ _ other))
  ]

  kept_for :
      (f : Found LocalUserProfile) (token new salt user_id : String) (now : Instant) (db : Db)
      → IsOne (λ p. profile_of p.user_id db ≡ some p) f
      → hash_of user_id (confirm_for d h st f token new salt now db).1 ≡ hash_of user_id db
  unfolding confirm_for set_new save_reset_fields
  kept_for missing token new salt user_id now db found = refl
  kept_for many token new salt user_id now db found = refl
  kept_for (one p) token new salt user_id now db found =
      elim (Bool-cases (verify_password_reset_token d st token now p)) [
        | inl right ↦ rw right (hash-save user_id p _ db refl refl found)
        | inr wrong ↦ rw wrong refl
      ]

  -- Where each profile is the one of its user, a password reset changes nobody's password, also if
  -- it is answered as done.
  pub reset_keeps_passwords :
      (token new salt user_id : String) (now : Instant) (db : Db)
      → IsKeyed db
      → hash_of user_id (confirm_reset d h st token new salt now db).1 ≡ hash_of user_id db
  unfolding confirm_reset
  reset_keeps_passwords token new salt user_id now db keyed =
      kept_for _ token new salt user_id now db (
        IsOne-of_All (λ p. profile_of p.user_id db ≡ some p) (λ p. p.password_reset_token == token)
          db.profiles keyed)
