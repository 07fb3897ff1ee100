-- ===== src/ApiKeys/Quota.antt =====
-- The quota of API keys holds over all requests.
use django_boilerplate.Prelude.{
  ◌≡◌, refl, ap, sym, ◌∙◌, ℕ, ◌+◌, ◌≤◌, String, Bool, true, false, not, ◌&&◌, Bool-cases, inl, inr,
  Option, none, some, List, [], ◌∷◌, ◌++◌, arith, ◌==◌, eq_of_eq-true, ltb, length-append, rows,
  rows-append, pos, if◌then◌else◌, if-cases,
}
use django_boilerplate.Licensing.{Feature, num}
use django_boilerplate.ApiKeys.{
  UserApiKey, is_active, active_keys, is_exceeded, create, create_if, RevokeReply, revoke,
}

-- A request of a user.
pub data Op : Type 0 where
  creation : UserApiKey → Op
  revocation : (user_id key_id : String) → Op

module _ (quota : String → Feature) where
  unfoldable pub apply : Op → List UserApiKey → List UserApiKey
  apply (creation key) keys = (create (quota key.user_id) key keys).1
  apply (revocation user_id key_id) keys = (revoke user_id key_id keys).1

  unfoldable pub apply_all : List Op → List UserApiKey → List UserApiKey
  unfolding apply
  apply_all [] keys = keys
  apply_all (op ∷ ops) keys = apply_all ops (apply op keys)

active-revoke :
    (user_id u key_id : String) (keys : List UserApiKey)
    → active_keys user_id (revoke u key_id keys).1 ≤ active_keys user_id keys
unfolding revoke active_keys
active-revoke user_id u key_id [] = omega arith
active-revoke user_id u key_id (k ∷ ks) =
    let P : RevokeReply × List UserApiKey → Type 0 =
      λ x. active_keys user_id x.1 ≤ active_keys user_id (k ∷ ks) in
    if-cases P (k.id == key_id && k.user_id == u) _ _
      (λ this. if-cases P k.revoked _ _ (λ spent. omega arith) (λ live. ground arith))
      (λ other. ground (arith, active-revoke user_id u key_id ks))

active-append :
    (user_id : String) (key : UserApiKey) (keys : List UserApiKey)
    → active_keys user_id (keys ++ key ∷ [])
      ≤ active_keys user_id keys + (if key.user_id == user_id then 1 else 0)
unfolding active_keys
active-append user_id key keys =
    rw
      (
        rows-append (is_active user_id) keys (key ∷ []),
        length-append (rows (is_active user_id) keys) (rows (is_active user_id) (key ∷ [])),
      )
      (ground arith)

-- A creation takes a place only where it is let through.
create_if-le :
    (user_id : String) (n : ℕ) (key : UserApiKey) (keys : List UserApiKey) (b : Option Bool)
    → active_keys user_id keys ≤ n
    → (b ≡ some false → active_keys user_id keys + (if key.user_id == user_id then 1 else 0) ≤ n)
    → active_keys user_id (create_if b key keys).1 ≤ n
unfolding create_if
create_if-le user_id n key keys none le room = le
create_if-le user_id n key keys (some true) le room = le
create_if-le user_id n key keys (some false) le room =
    omega (arith, active-append user_id key keys, room refl)

test-of_own :
    (quota : String → Feature) (user_id : String) (n : ℕ) (key : UserApiKey)
    (keys : List UserApiKey)
    → quota user_id ≡ num (pos n)
    → key.user_id ≡ user_id
    → is_exceeded (quota key.user_id) (active_keys key.user_id keys)
      ≡ some (not (ltb (active_keys user_id keys) n))
unfolding is_exceeded
test-of_own quota user_id n key keys q own =
    ap (λ u. is_exceeded (quota u) (active_keys u keys)) own
    ∙ ap (λ f. is_exceeded f (active_keys user_id keys)) q

create-le :
    (quota : String → Feature) (user_id : String) (n : ℕ) (key : UserApiKey)
    (keys : List UserApiKey)
    → quota user_id ≡ num (pos n)
    → active_keys user_id keys ≤ n
    → active_keys user_id (create (quota key.user_id) key keys).1 ≤ n
unfolding create
create-le quota user_id n key keys q le =
    create_if-le user_id n key keys (is_exceeded (quota key.user_id) (active_keys key.user_id keys))
      le
      (elim (Bool-cases (key.user_id == user_id)) [
        | inl own ↦ λ e.
            ground
              (arith, own, sym (test-of_own quota user_id n key keys q (eq_of_eq-true _ _ own)) ∙ e)
        | inr other ↦ λ e. ground (arith, other)
      ])

-- If the quota of a user is a number that is not exceeded, then no sequence of creations and
-- revocations, by any users, brings more active keys of the user than the quota.
pub quota_kept :
    (quota : String → Feature) (user_id : String) (n : ℕ) (ops : List Op) (keys : List UserApiKey)
    → quota user_id ≡ num (pos n)
    → active_keys user_id keys ≤ n
    → active_keys user_id (apply_all quota ops keys) ≤ n
unfolding apply_all apply
quota_kept quota user_id n [] keys q le = le
quota_kept quota user_id n (creation key ∷ ops) keys q le =
    quota_kept quota user_id n ops _ q (create-le quota user_id n key keys q le)
quota_kept quota user_id n (revocation u key_id ∷ ops) keys q le =
    quota_kept quota user_id n ops _ q (omega (arith, active-revoke user_id u key_id keys, le))
