-- ===== src/Encryption.antt =====
-- api/encryption.py: fields that are encrypted in the database. Fernet and MultiFernet are those of the
-- package cryptography, JSON is Python's `json`.
pub mod Keys
pub mod RoundTrip
mod Tests
use django_boilerplate.Prelude.{
  ℕ, ◌+◌, ◌*◌, ◌/◌, ◌≡◌, ◌≢◌, String, Bool, true, false, Option, none, some, List, [], ◌∷◌, ◌==◌,
  ltb, any, if◌then◌else◌,
}
use Prim.Native.String
use django_boilerplate.Encryption.Keys.{Fernet}

pub data Result (A : Type 0) : Type 0 where
  ok : A → Result A
  value_error : Result A
  invalid_token : Result A

-- A column's value, null or a text.
abbrev pub Value : Type 0
Value = Option String

abbrev pub is_blank : Value → Bool
is_blank none = true
is_blank (some s) = s == ""

abbrev pub length_of : Value → ℕ
length_of none = 0
length_of (some s) = String.count s

module _ (f : Fernet) where
  open f use {Key, encrypt_with, decrypt_with}

  encrypt_text : List Key → (nonce : ℕ) → String → String
  encrypt_text [] nonce s = s
  encrypt_text (k ∷ ks) nonce s = encrypt_with k nonce s

  has_keys : List Key → Bool
  has_keys [] = false
  has_keys (k ∷ ks) = true

  unless_blank : List Key → ℕ → Value → Result Value
  unless_blank keys nonce none = ok none
  unless_blank keys nonce (some s) =
      if s == "" then ok (some s) else ok (some (encrypt_text keys nonce s))

  -- `EncryptionManager.encrypt`; MultiFernet encrypts with the first key.
  unfoldable pub encrypt : List Key → (nonce : ℕ) → Value → Result Value
  unfolding unless_blank encrypt_text has_keys
  encrypt keys nonce v = if has_keys keys then unless_blank keys nonce v else value_error

  found_text : Option String → Result Value
  found_text none = invalid_token
  found_text (some s) = ok (some s)

  decrypt_value : List Key → Value → Result Value
  decrypt_value keys none = ok none
  decrypt_value keys (some s) = if s == "" then ok (some s) else found_text (decrypt_with keys s)

  -- `EncryptionManager.decrypt`
  unfoldable pub decrypt : List Key → Value → Result Value
  unfolding decrypt_value found_text has_keys
  decrypt keys v = if has_keys keys then decrypt_value keys v else value_error

  with_primary : List Key → ℕ → Value → Result Value
  with_primary keys nonce none = ok none
  with_primary keys nonce (some s) = ok (some (encrypt_text keys nonce s))

  encrypt_again : Result Value → List Key → ℕ → Result Value
  encrypt_again (ok v) keys nonce = with_primary keys nonce v
  encrypt_again value_error keys nonce = value_error
  encrypt_again invalid_token keys nonce = invalid_token

  -- `rotate_encryption`
  unfoldable pub rotate_encryption : List Key → (nonce : ℕ) → Value → Result Value
  unfolding has_keys encrypt_again with_primary encrypt_text
  rotate_encryption keys nonce v =
      if has_keys keys
      then (if is_blank v then ok v else encrypt_again (decrypt keys v) keys nonce)
      else value_error

  -- `EncryptedCharField.get_prep_value`
  unfoldable pub prepare_char : (max_length : ℕ) → List Key → (nonce : ℕ) → Value → Result Value
  prepare_char max_length keys nonce v =
      if is_blank v
      then ok v
      else if ltb max_length (length_of v)
      then value_error
      else encrypt keys nonce v

  -- `get_prep_value` of `EncryptedTextField`
  unfoldable pub prepare_text : List Key → (nonce : ℕ) → Value → Result Value
  prepare_text keys nonce v = if is_blank v then ok v else encrypt keys nonce v

  -- `from_db_value` of both
  unfoldable pub from_db : List Key → Value → Result Value
  from_db keys v = if is_blank v then ok v else decrypt keys v

  module _ {V : Type 0} (dumps : V → String) (loads : String → Option V) where
    -- `EncryptedJSONField.get_prep_value`
    unfoldable pub prepare_json : List Key → (nonce : ℕ) → Option V → Result Value
    prepare_json keys nonce none = ok none
    prepare_json keys nonce (some v) = encrypt keys nonce (some (dumps v))

    parsed : Option V → Result (Option V)
    parsed none = value_error
    parsed (some v) = ok (some v)

    read_json : Result Value → Result (Option V)
    read_json (ok none) = value_error
    read_json (ok (some s)) = parsed (loads s)
    read_json value_error = value_error
    read_json invalid_token = invalid_token

    -- `EncryptedJSONField.from_db_value`
    unfoldable pub json_from_db : List Key → Value → Result (Option V)
    unfolding parsed read_json
    json_from_db keys v = if is_blank v then ok none else read_json (decrypt keys v)
