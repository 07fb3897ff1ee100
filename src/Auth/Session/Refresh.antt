-- ===== src/Auth/Session/Refresh.antt =====
-- What `TokenRefreshView.post` does with a valid token of an active user.
use django_boilerplate.Prelude.{
  ◌≡◌, ap, ◌∙◌, ◌==◌, String, true, none, some, first, if-true, Instant,
}
use django_boilerplate.Crypto.{Digests}
use django_boilerplate.Auth.{User, RefreshToken, Db, one, missing}
use django_boilerplate.Auth.Tokens.{validate_token}
use django_boilerplate.Auth.Session.{refresh, name_error, invalid_token, with_row, use_row, rotate}

pub refresh-of_valid :
    (d : Digests) (token : String) (now : Instant) (db : Db) (r : RefreshToken) (u : User)
    → validate_token d token now db.refresh_tokens ≡ one r
    → r.replaced_by ≡ none
    → first (λ v. v.id == r.user_id) db.users ≡ some u
    → u.is_active ≡ true
    → refresh d token now db ≡ (name_error, db)
unfolding refresh with_row use_row rotate
refresh-of_valid d token now db r u found unused owner active =
    ap (λ f. with_row d f now db) found
    ∙ ap (λ o. use_row d r o now db) unused
    ∙ ap (λ o. rotate d r o now db) owner
    ∙ if-true _ _ _ active

pub refresh-of_missing :
    (d : Digests) (token : String) (now : Instant) (db : Db)
    → validate_token d token now db.refresh_tokens ≡ missing
    → refresh d token now db ≡ (invalid_token, db)
unfolding refresh with_row
refresh-of_missing d token now db gone = ap (λ f. with_row d f now db) gone
