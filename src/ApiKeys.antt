-- ===== src/ApiKeys.antt =====
-- api/views_api_keys.py: the API keys of a user and their quota, whose value is the one of
-- Licensing/Limits.antt.
pub mod Quota
mod Tests
use django_boilerplate.Prelude.{
  ℕ, zero, suc, String, Bool, true, false, not, ◌&&◌, Option, none, some, List, [], ◌∷◌, ◌++◌, ◌==◌,
  ltb, length, rows, pos, negsuc, if◌then◌else◌, Instant,
}
use django_boilerplate.Licensing.{Feature, null, flag, num, text}

-- `UserAPIKey`, of which `key_hash` is what the key package stores of the key.
pub record UserApiKey : Type 0 where
  pub id : String
  pub user_id : String
  pub prefix : String
  pub key_hash : String
  pub name : String
  pub created : Instant
  pub revoked : Bool

abbrev pub is_active : String → UserApiKey → Bool
is_active user_id k = k.user_id == user_id && not k.revoked

-- `filter(user=user, revoked=False).count()`
unfoldable pub active_keys : String → List UserApiKey → ℕ
active_keys user_id keys = length (rows (is_active user_id) keys)

-- `max_keys != -1 and active_keys_count >= max_keys`; none stands for the TypeError of the comparison.
unfoldable pub is_exceeded : Feature → ℕ → Option Bool
is_exceeded null active = none
is_exceeded (text t) active = none
is_exceeded (num (pos m)) active = some (not (ltb active m))
is_exceeded (num (negsuc zero)) active = some false
is_exceeded (num (negsuc (suc m))) active = some true
is_exceeded (flag true) active = some (not (ltb active 1))
is_exceeded (flag false) active = some true

pub data CreateReply : Type 0 where
  type_error quota_exceeded : CreateReply
  created : UserApiKey → CreateReply

create_if : Option Bool → UserApiKey → List UserApiKey → CreateReply × List UserApiKey
create_if none key keys = (type_error, keys)
create_if (some true) key keys = (quota_exceeded, keys)
create_if (some false) key keys = (created key, keys ++ key ∷ [])

-- `UserAPIKeyCreateView.post`, with the key that `create_key` makes for the user.
unfoldable pub create : Feature → UserApiKey → List UserApiKey → CreateReply × List UserApiKey
unfolding create_if
create max_keys key keys = create_if (is_exceeded max_keys (active_keys key.user_id keys)) key keys

pub data RevokeReply : Type 0 where
  not_found already_revoked revoked : RevokeReply

-- `UserAPIKeyRevokeView.delete`: the first row with the id and the user is saved as revoked.
unfoldable pub revoke : (user_id key_id : String) → List UserApiKey → RevokeReply × List UserApiKey
revoke user_id key_id [] = (not_found, [])
revoke user_id key_id (k ∷ ks) =
    let rest = revoke user_id key_id ks in
    if k.id == key_id && k.user_id == user_id
    then (if k.revoked
        then (already_revoked, k ∷ ks)
        else (revoked, record k { revoked = true } ∷ ks))
    else (rest.0, k ∷ rest.1)
