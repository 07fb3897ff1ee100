-- ===== src/Auth/Session/Validity.antt =====
-- Which refresh tokens are valid after they were revoked.
use django_boilerplate.Prelude.{
  ◌≡◌, ◌≢◌, refl, ap, sym, ◌∙◌, String, Bool, true, false, not, ◌&&◌, Bool-cases, inl, inr, none,
  some, List, [], ◌∷◌, arith, ◌==◌, eq_iff, ltb, rows, rows-rows, rows-eq, if◌then◌else◌, Instant,
  eq-false_of_ne, ◌≤◌,
}
use django_boilerplate.Crypto.{Digests}
use django_boilerplate.Auth.{
  RefreshToken, LocalUserProfile, Db, Hasher, missing, one, get_one, profile_of,
}
use django_boilerplate.Auth.Lookup.{get_one-one}
use django_boilerplate.Auth.Saved.{profile-save}
use django_boilerplate.Auth.Tokens.{
  validate_token, revoke, revoke_all_for_user, revoke_row, is_valid_row, is_null,
}
use django_boilerplate.Auth.Profile.{set_password, check_password}
use django_boilerplate.Auth.Session.{logout, change_password, changed, wrong_password}

-- The valid rows that are not a user's.
abbrev pub valid_of_others : Digests → String → String → Instant → RefreshToken → Bool
valid_of_others d user_id token now r = not (r.user_id == user_id) && is_valid_row d token now r

module _ (d : Digests) where
  valid-revoke_row :
      (user_id token : String) (now later : Instant) (r : RefreshToken)
      → is_valid_row d token later (revoke_row user_id now r)
        ≡ valid_of_others d user_id token later r
  unfolding is_valid_row revoke_row is_null
  valid-revoke_row user_id token now later r = elim (Bool-cases (r.user_id == user_id)) [
    | inl mine ↦ rw mine (ground arith)
    | inr other ↦ rw other refl
  ]

  other-kept :
      (user_id : String) (now : Instant) (r : RefreshToken)
      → (r.user_id == user_id) ≡ false
      → revoke_row user_id now r ≡ r
  unfolding revoke_row
  other-kept user_id now r other = rw other refl

  pub valid-revoke_all :
      (user_id token : String) (now later : Instant) (ts : List RefreshToken)
      → rows (is_valid_row d token later) (revoke_all_for_user user_id now ts)
        ≡ rows (valid_of_others d user_id token later) ts
  unfolding revoke_all_for_user
  valid-revoke_all user_id token now later [] = refl
  valid-revoke_all user_id token now later (r ∷ ts) =
      rw (valid-revoke_row user_id token now later r, valid-revoke_all user_id token now later ts)
        (elim (Bool-cases (r.user_id == user_id)) [
          | inl mine ↦ rw mine refl
          | inr other ↦ rw (other-kept user_id now r other) refl
        ])

  validate-revoke_all :
      (user_id token : String) (now later : Instant) (ts : List RefreshToken)
      → validate_token d token later (revoke_all_for_user user_id now ts)
        ≡ get_one (rows (valid_of_others d user_id token later) ts)
  unfolding validate_token
  validate-revoke_all user_id token now later ts =
      ap get_one (valid-revoke_all user_id token now later ts)

  -- After a logout without a token the valid rows of any token are those that were valid and are
  -- not the user's: no token of the user is valid, and the tokens of others are as they were.
  pub logout_everywhere :
      (user_id token : String) (now later : Instant) (db : Db)
      → validate_token d token later (logout d user_id none now db).refresh_tokens
        ≡ get_one (rows (valid_of_others d user_id token later) db.refresh_tokens)
  unfolding logout
  logout_everywhere user_id token now later db =
      validate-revoke_all user_id token now later db.refresh_tokens

  -- The rows of `revoke`.
  valid-revoke :
      (id token : String) (now later : Instant) (ts : List RefreshToken)
      → rows (is_valid_row d token later) (revoke id now ts)
        ≡ rows (λ r. not (r.id == id) && is_valid_row d token later r) ts
  unfolding revoke is_valid_row is_null
  valid-revoke id token now later [] = refl
  valid-revoke id token now later (r ∷ ts) = elim (Bool-cases (r.id == id)) [
    | inl this ↦ rw (this, valid-revoke id token now later ts) (ground arith)
    | inr other ↦ rw (other, valid-revoke id token now later ts) refl
  ]

  -- What is valid later is valid now.
  valid_earlier :
      (id token : String) (now later : Instant) (r : RefreshToken)
      → now ≤ later
      → (not (r.id == id) && is_valid_row d token later r)
        ≡ ((not (r.id == id) && ltb later r.expires_at) && is_valid_row d token now r)
  unfolding is_valid_row
  valid_earlier id token now later r le = ground arith

  not-other : (r : RefreshToken) (b : Bool) → (if not (r.id == r.id) && b then r ∷ [] else []) ≡ []
  not-other r b = ground (arith, eq_iff r.id r.id)

  revoked :
      (token : String) (r : RefreshToken) (now later : Instant) (ts : List RefreshToken)
      → now ≤ later
      → validate_token d token now ts ≡ one r
      → validate_token d token later (revoke r.id now ts) ≡ missing
  unfolding validate_token
  revoked token r now later ts le found = ap get_one (
      valid-revoke r.id token now later ts
      ∙ rows-eq _ _ ts (λ x. valid_earlier r.id token now later x le)
      ∙ sym (rows-rows (λ x. not (x.id == r.id) && ltb later x.expires_at) _ ts)
      ∙ ap (rows (λ x. not (x.id == r.id) && ltb later x.expires_at)) (get_one-one _ r found)
      ∙ not-other r (ltb later r.expires_at))

  -- After a logout with a valid token that token is not valid any more.
  pub logout_here :
      (user_id token : String) (r : RefreshToken) (now later : Instant) (db : Db)
      → token ≢ ""
      → now ≤ later
      → validate_token d token now db.refresh_tokens ≡ one r
      → validate_token d token later (logout d user_id (some token) now db).refresh_tokens ≡ missing
  unfolding logout
  logout_here user_id token r now later db given le found =
      rw (eq-false_of_ne token "" given, found)
        (revoked token r now later db.refresh_tokens le found)

-- With the right current password, a change is answered as made; the profile then has the new
-- password, the valid tokens of the user are gone and those of others are as they were. With
-- a wrong current password nothing changes.
pub password_change :
    (d : Digests) (h : Hasher) (user_id current new salt token : String) (p : LocalUserProfile)
    (now later : Instant) (db : Db)
    → profile_of user_id db ≡ some p
    → let after = change_password h user_id current new salt now db in
      if check_password h current p
      then (after.0 ≡ changed)
        × ((q : LocalUserProfile) × (profile_of user_id after.1 ≡ some q)
            × (check_password h new q ≡ true))
        × (validate_token d token later after.1.refresh_tokens
            ≡ get_one (rows (valid_of_others d user_id token later) db.refresh_tokens))
      else after ≡ (wrong_password, db)
unfolding change_password check_password set_password
password_change d h user_id current new salt token p now later db found =
    rw found (elim (Bool-cases (check_password h current p)) [
      | inl right ↦ rw right (
        refl,
        (
          set_password h salt new p,
          profile-save user_id p (set_password h salt new p) db refl found,
          h.check-make salt new,
        ),
        validate-revoke_all d user_id token now later db.refresh_tokens,
      )
      | inr wrong ↦ rw wrong refl
    ])
