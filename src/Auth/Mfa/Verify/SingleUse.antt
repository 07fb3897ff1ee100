-- ===== src/Auth/Mfa/Verify/SingleUse.antt =====
-- A token of the second login step is used once, and the refresh token that the step hands out is
-- not stored.
use django_boilerplate.Prelude.{
  ◌≡◌, ◌≢◌, refl, ap, subst, sym, ◌∙◌, String, Bool, true, false, not, ◌||◌, Option, none, some,
  List, [], ◌∷◌, arith, ◌==◌, eq_iff, rows, first, if◌then◌else◌, if-true, if-false, Instant,
  eq-false_of_ne, eq_of_eq-true,
}
use django_boilerplate.Crypto.{Digests}
use django_boilerplate.Auth.{
  User, MfaToken, TotpDevice, Db, Settings, Found, missing, many, one, get_one,
}
use django_boilerplate.Auth.Lookup.{IsOne, IsOne-passes, get_one-one}
use django_boilerplate.Auth.Tokens.{is_valid, consume}
use django_boilerplate.Auth.Mfa.{Totp, verify_either, get_device, save_device}
use django_boilerplate.Auth.Mfa.Verify.{
  RefreshClaims, MfaReply, accepted, token_expired, missing_input, put_token, verify, with_token,
  with_device, complete, for_user,
}

abbrev pub is_accepted : MfaReply → Bool
is_accepted (accepted c t) = true
is_accepted _ = false

all_as : MfaToken → List MfaToken → List MfaToken
all_as t [] = []
all_as t (u ∷ us) = t ∷ all_as t us

rows-put_token :
    (t : MfaToken) (ts : List MfaToken)
    → rows (λ x. x.token == t.token) (put_token t ts) ≡ all_as t (rows (λ x. x.token == t.token) ts)
unfolding put_token all_as
rows-put_token t [] = refl
rows-put_token t (u ∷ us) =
    ground (arith, eq_iff t.token t.token, eq_iff u.token t.token, rows-put_token t us)

get_one-put_token :
    (token : String) (t u : MfaToken) (ts : List MfaToken)
    → u.token ≡ token
    → get_one (rows (λ x. x.token == token) ts) ≡ one t
    → get_one (rows (λ x. x.token == token) (put_token u ts)) ≡ one u
unfolding all_as
get_one-put_token token t u ts same found =
    ap (λ k. get_one (rows (λ x. x.token == k) (put_token u ts))) (sym same)
    ∙ ap get_one (rows-put_token u ts)
    ∙ ap (λ k. get_one (all_as u (rows (λ x. x.token == k) ts))) same
    ∙ ap (λ xs. get_one (all_as u xs)) (get_one-one _ t found)

taken :
    (b : Bool) (x y : MfaReply × Db)
    → is_accepted y.0 ≡ false
    → is_accepted (if b then x else y).0 ≡ true
    → b ≡ true
taken true x y n h = refl
taken false x y n h = ground arith

fallen :
    (b : Bool) (x y : MfaReply × Db)
    → is_accepted x.0 ≡ false
    → is_accepted (if b then x else y).0 ≡ true
    → b ≡ false
fallen true x y n h = ground arith
fallen false x y n h = refl

module _ (d : Digests) (totp : Totp) (st : Settings) (encode : RefreshClaims → String) where
  reply-of_given :
      (token code jti : String) (now : Instant) (db : Db)
      → token ≢ ""
      → code ≢ ""
      → verify d totp st encode token code jti now db
        ≡ with_token d totp st encode
            (get_one (rows (λ t. t.token == token) db.mfa_tokens))
            code
            jti
            now
            db
  unfolding verify
  reply-of_given token code jti now db given given' =
      if-false (token == "" || code == "") _ _
        (rw (eq-false_of_ne token "" given, eq-false_of_ne code "" given') refl)

module _ (d : Digests) (totp : Totp) (st : Settings) (encode : RefreshClaims → String)
    (code jti : String) (now : Instant) (db : Db) where
  for_user-keeps : (o : Option User) (db' : Db) → (for_user d totp st encode o jti now db').1 ≡ db'
  unfolding for_user
  for_user-keeps none db' = refl
  for_user-keeps (some u) db' = refl

  complete-tokens :
      (t : MfaToken) (device : TotpDevice)
      → (complete d totp st encode t device jti now db).1.mfa_tokens
        ≡ put_token (consume now t).0 db.mfa_tokens
  unfolding complete save_device
  complete-tokens t device =
      ap (λ x. x.mfa_tokens) (for_user-keeps (first (λ u. u.id == t.user_id) db.users) _)

  with_device-tokens :
      (t : MfaToken) (f : Found TotpDevice)
      → is_accepted (with_device d totp st encode t f code jti now db).0 ≡ true
      → (with_device d totp st encode t f code jti now db).1.mfa_tokens
        ≡ put_token (consume now t).0 db.mfa_tokens
  unfolding with_device
  with_device-tokens t missing h = ground arith
  with_device-tokens t many h = ground arith
  with_device-tokens t (one device) h =
      let right : (verify_either d totp code now device).1 ≡ true = taken _ _ _ refl h in
      ap (λ (r : MfaReply × Db). r.1.mfa_tokens) (if-true _ _ _ right)
      ∙ complete-tokens t (verify_either d totp code now device).0

  with_token-tokens :
      (f : Found MfaToken)
      → is_accepted (with_token d totp st encode f code jti now db).0 ≡ true
      → (t : MfaToken) × (f ≡ one t)
        × (is_valid now t ≡ true)
        × ((with_token d totp st encode f code jti now db).1.mfa_tokens
            ≡ put_token (consume now t).0 db.mfa_tokens)
  unfolding with_token
  with_token-tokens missing h = ground arith
  with_token-tokens many h = ground arith
  with_token-tokens (one t) h =
      let live : not (is_valid now t) ≡ false = fallen _ _ _ refl h in
      let reply : with_token d totp st encode (one t) code jti now db
          ≡ with_device d totp st encode t (get_device t.user_id true db) code jti now db =
        if-false _ _ _ live in
      (
        t,
        refl,
        ground (arith, live),
        ap (λ r. r.1.mfa_tokens) reply
            ∙ with_device-tokens t (get_device t.user_id true db)
                (sym (ap (λ r. is_accepted r.0) reply) ∙ h),
      )

  consumed : (t : MfaToken) → is_valid now t ≡ true → (consume now t).0 ≡ record t { used = true }
  unfolding consume
  consumed t live = ap (λ (r : MfaToken × Bool). r.0) (if-true _ _ _ live)

  -- The row of the token after an accepted step.
  used_row :
      (token : String)
      → is_accepted (verify d totp st encode token code jti now db).0 ≡ true
      → (t : MfaToken) × (t.used ≡ true)
        × (get_one (
              rows
                (λ x. x.token == token)
                (verify d totp st encode token code jti now db).1.mfa_tokens)
            ≡ one t)
  unfolding verify
  used_row token h =
      let given : (token == "" || code == "") ≡ false = fallen _ _ _ refl h in
      let reply =
        if-false _ (missing_input, db)
          (with_token d totp st encode (get_one (rows (λ t. t.token == token) db.mfa_tokens)) code
            jti now db)
          given in
      let (t, found, live, kept) =
        with_token-tokens _ (sym (ap (λ r. is_accepted r.0) reply) ∙ h) in
      let passed : (t.token == token) ≡ true =
        subst (IsOne (λ x. (x.token == token) ≡ true)) found
          (IsOne-passes (λ x. x.token == token) db.mfa_tokens) in
      let u : MfaToken = record t { used = true } in
      (
        u,
        refl,
        ap (λ r. get_one (rows (λ x. x.token == token) r.1.mfa_tokens)) reply
            ∙ ap (λ ts. get_one (rows (λ x. x.token == token) ts))
                (kept ∙ ap (λ v. put_token v db.mfa_tokens) (consumed t live))
            ∙ get_one-put_token token t u db.mfa_tokens (eq_of_eq-true _ _ passed) found,
      )

  with_used :
      (t : MfaToken) (later : Instant) (again jti' : String) (after : Db)
      → t.used ≡ true
      → with_token d totp st encode (one t) again jti' later after ≡ (token_expired, after)
  unfolding with_token is_valid
  with_used t later again jti' after used =
      if-true (not (is_valid later t)) _ _ (ground (arith, used))

  -- Once the second step was accepted with a token, at any time and with any code the same token
  -- is refused as expired, and nothing changes.
  pub mfa_token_once :
      (token again jti' : String) (later : Instant)
      → token ≢ ""
      → again ≢ ""
      → is_accepted (verify d totp st encode token code jti now db).0 ≡ true
      → let after = (verify d totp st encode token code jti now db).1 in
        verify d totp st encode token again jti' later after ≡ (token_expired, after)
  mfa_token_once token again jti' later given given' h =
      let after = (verify d totp st encode token code jti now db).1 in
      let (t, used, found) = used_row token h in
      reply-of_given d totp st encode token again jti' later after given given'
      ∙ ap (λ f. with_token d totp st encode f again jti' later after) found
      ∙ with_used t later again jti' after used
