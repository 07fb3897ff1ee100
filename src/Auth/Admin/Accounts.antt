-- ===== src/Auth/Admin/Accounts.antt =====
-- What the accounts that an administrator creates or deactivates can do.
use django_boilerplate.Prelude.{
  ◌≡◌, ◌≢◌, refl, ap, subst, ◌∙◌, String, Bool, true, false, not, ◌||◌, inr, Option, none, some,
  List, [], ◌∷◌, ◌++◌, arith, ◌==◌, eq_iff, any, All, rows, rows-append, lower, lower_text,
  if-cases, if-true, Instant,
}
use django_boilerplate.Crypto.{Digests}
use django_boilerplate.Rows.{first-passes}
use django_boilerplate.Permissions.{TokenClaims, is_platform_admin}
use django_boilerplate.Auth.{
  User, LocalUserProfile, Db, Settings, Hasher, one, get_one, has_email, profile_of,
}
use django_boilerplate.Auth.Lookup.{codes_eq-same, rows-none, first-append, IsOne, IsOne-of_All}
use django_boilerplate.Auth.Saved.{profile-save}
use django_boilerplate.Auth.Profile.{set_password, check_password, is_locked}
use django_boilerplate.Auth.Register.{new_user}
use django_boilerplate.Auth.Login as Login
use django_boilerplate.Auth.Login.{login, has_mfa_enabled}
use django_boilerplate.Auth.Login.Guards.{issues_tokens, login_cleared}
use django_boilerplate.Auth.Admin.{
  AdminReply, created, deactivated, CreateInput, Draws, admin_profile, is_taken, add_account,
  create_local, create_user, is_strong, put_user, by_id, deactivate_found, deactivate_user,
}

module _ (h : Hasher) (is_email : String → Bool) (authenticated : Bool) (c : TokenClaims)
    (input : CreateInput) (draws : Draws) (db : Db) where
  abbrev account : Db
  account = create_local h is_email (lower_text input.email) input draws db

  abbrev secured : LocalUserProfile
  secured = set_password h draws.salt input.password (admin_profile draws.user_id true input.roles)

  -- What is known of a creation by its reply.
  abbrev IsCreated : AdminReply × Db → Type 0
  IsCreated (created id, after) =
      (is_platform_admin authenticated c ≡ true)
      × (after ≡ account)
      × (is_taken input.email db ≡ false)
  IsCreated _ = Unit

  create_user-IsCreated : IsCreated (create_user h is_email authenticated c input draws db)
  unfolding create_user
  create_user-IsCreated =
      if-cases IsCreated (not (is_platform_admin authenticated c)) _ _ (λ no. tt)
        (λ admin.
          if-cases IsCreated
            (not (is_email input.email)
              || is_taken input.email db
              || not (is_strong input.password))
            _ _ (λ bad. tt)
            (λ good.
              if-cases IsCreated (any (λ u. u.username == lower_text input.email) db.users) _ _
                (λ taken. tt) (λ free. (ground (arith, admin), refl, ground (arith, good)))))

  account-user :
      lower_text input.email ≡ input.email
      → is_taken input.email db ≡ false
      → get_one (rows (has_email input.email) account.users)
        ≡ one (new_user draws.user_id input.email)
  unfolding create_local add_account new_user
  account-user low new =
      let t = has_email input.email in
      ap (λ e. get_one (rows t (db.users ++ new_user draws.user_id e ∷ []))) low
      ∙ ap get_one (rows-append t db.users (new_user draws.user_id input.email ∷ []))
      ∙ ap (λ us. get_one (us ++ rows t (new_user draws.user_id input.email ∷ [])))
          (rows-none t db.users new)
      ∙ ap get_one (if-true _ _ _ (codes_eq-same (lower input.email)))

  account-profile :
      profile_of draws.user_id db ≡ none → profile_of draws.user_id account ≡ some secured
  unfolding create_local add_account set_password
  account-profile new =
      let p = admin_profile draws.user_id true input.roles in
      profile-save draws.user_id p secured
        (add_account (new_user draws.user_id (lower_text input.email)) p db) refl
        (first-append (λ q. q.user_id == draws.user_id) p db.profiles new
          ((eq_iff draws.user_id draws.user_id).1 refl))

  abbrev pub by_password : (ip : Option String) (user_agent : String) → Login.Input
  by_password ip user_agent = record {
    email = input.email;
    password = input.password;
    ip = ip;
    user_agent = user_agent;
  }

  account_logs_in :
      (d : Digests) (st : Settings) (ip : Option String) (agent : String)
      (login_draws : Login.Draws) (later : Instant)
      → st.local_auth_enabled ≡ true
      → lower_text input.email ≡ input.email
      → is_taken input.email db ≡ false
      → profile_of draws.user_id db ≡ none
      → has_mfa_enabled draws.user_id db ≡ false
      → issues_tokens (login d h st (by_password ip agent) login_draws later account).0 ≡ true
  unfolding new_user set_password check_password is_locked has_mfa_enabled create_local add_account
  account_logs_in d st ip agent login_draws later on low new fresh no_device =
      (login_cleared d h st (by_password ip agent) login_draws later account).1 (
        on,
        (
          new_user draws.user_id input.email,
          secured,
          account-user low new,
          account-profile fresh,
          record {
            unlocked = refl;
            right_password = h.check-make draws.salt input.password;
            active = refl;
            verified = inr refl;
            no_second_factor = no_device;
          },
        ),
      )

  -- A platform administrator's request creates a user; its email is in lower case, and no profile and no
  -- second factor have the key that is drawn. Then, where local login is on, the email and the password
  -- of the request log in: tokens are handed out, whether or not verified emails are required.
  pub created_logs_in :
      (id : String) (d : Digests) (st : Settings) (ip : Option String) (agent : String)
      (login_draws : Login.Draws) (later : Instant)
      → (create_user h is_email authenticated c input draws db).0 ≡ created id
      → st.local_auth_enabled ≡ true
      → lower_text input.email ≡ input.email
      → profile_of draws.user_id db ≡ none
      → has_mfa_enabled draws.user_id db ≡ false
      → issues_tokens
          (login d h st
            (by_password ip agent)
            login_draws
            later
            (create_user h is_email authenticated c input draws db).1).0
        ≡ true
  created_logs_in id d st ip agent login_draws later done on low fresh no_device =
      let r = create_user h is_email authenticated c input draws db in
      let (admin, same, new) = subst (λ x. IsCreated (x, r.1)) done create_user-IsCreated in
      ap (λ after. issues_tokens (login d h st (by_password ip agent) login_draws later after).0)
        same
      ∙ account_logs_in d st ip agent login_draws later on low new fresh no_device

-- Every row with the key is inactive.
abbrev IsOff : String → User → Type 0
IsOff id u = u.id ≡ id → u.is_active ≡ false

put-IsOff :
    (id : String) (u : User) (us : List User)
    → u.id ≡ id
    → u.is_active ≡ false
    → All (IsOff id) (put_user u us)
put-IsOff id u [] named off = tt
put-IsOff id u (w ∷ us) named off = (
  if-cases (IsOff id) (w.id == u.id) u w (λ yes e. off)
      (λ no e. absurd (ground (arith, eq_iff w.id u.id, no, e, named))),
  put-IsOff id u us named off,
)

module _ (d : Digests) (h : Hasher) (st : Settings) (authenticated : Bool) (c : TokenClaims)
    (id : String) (db : Db) where
  IsOff-found :
      (o : Option User) (k : String)
      → by_id id db ≡ o
      → (deactivate_found o db).0 ≡ deactivated k
      → All (IsOff id) (deactivate_found o db).1.users
  unfolding deactivate_found
  IsOff-found none k e done = absurd (ground (arith, done))
  IsOff-found (some u) k e done =
      let named =
        (eq_iff u.id id).0
          (first-passes (λ (x : User). x.id) (λ x. x.id) (λ x. x.id == id) db.users u e) in
      put-IsOff id (record u { is_active = false }) db.users named refl

  deactivated-IsOff :
      (k : String)
      → (deactivate_user authenticated c id db).0 ≡ deactivated k
      → All (IsOff id) (deactivate_user authenticated c id db).1.users
  unfolding deactivate_user
  deactivated-IsOff k =
      if-cases (λ (r : AdminReply × Db). r.0 ≡ deactivated k → All (IsOff id) r.1.users)
        (is_platform_admin authenticated c) _ _
        (λ admin done. IsOff-found (by_id id db) k refl done)
        (λ no done. absurd (ground (arith, done)))

  active_other : (f : User) → IsOff id f → f.is_active ≡ true → f.id ≢ id
  active_other f off active e = ground (arith, off e, active)

  -- A platform administrator deactivates the user with a key. Then a login that hands out tokens is one of
  -- another account, whatever is entered.
  pub deactivated_out :
      (k : String) (input : Login.Input) (draws : Login.Draws) (now : Instant)
      → (deactivate_user authenticated c id db).0 ≡ deactivated k
      → issues_tokens (login d h st input draws now (deactivate_user authenticated c id db).1).0
        ≡ true
      → (u : User) × (get_one
            (rows (has_email input.email) (deactivate_user authenticated c id db).1.users)
          ≡ one u)
        × (u.id ≢ id)
  deactivated_out k input draws now done logged =
      let after = (deactivate_user authenticated c id db).1 in
      let (on, (u, p, found, profile, cleared)) =
        (login_cleared d h st input draws now after).0 logged in
      let off : IsOff id u =
        subst (IsOne (IsOff id)) found (
          IsOne-of_All (IsOff id) (has_email input.email) after.users (deactivated-IsOff k done)) in
      (u, found, active_other u off cleared.active)
