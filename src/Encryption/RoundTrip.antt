-- ===== src/Encryption/RoundTrip.antt =====
-- What a field stores is read back, and still is after the keys have changed.
use django_boilerplate.Prelude.{
  ◌≤◌, ℕ, ◌≡◌, refl, String, true, false, Option, none, some, List, [], ◌∷◌, ◌++◌, ◌==◌, arith,
  eq_iff, inl, inr, Bool-cases,
}
use django_boilerplate.Encryption.Keys.{Fernet}
use django_boilerplate.Encryption.{
  parsed, read_json, unless_blank, encrypt_text, with_primary, encrypt_again, found_text,
  decrypt_value, has_keys, ok, Value, is_blank, length_of, encrypt, decrypt, rotate_encryption,
  prepare_char, prepare_text, from_db, prepare_json, json_from_db,
}

module _ (f : Fernet) where
  open f use {Key, encrypt_with, decrypt_with, encrypt-ne-empty, decrypt-encrypt}

  token-filled : (k : Key) (nonce : ℕ) (s : String) → (encrypt_with k nonce s == "") ≡ false
  token-filled k nonce s =
      let h = encrypt-ne-empty k nonce s in ground (arith, eq_iff (encrypt_with k nonce s) "")

  keys-given : (before after : List Key) (k : Key) → has_keys f (before ++ k ∷ after) ≡ true
  unfolding has_keys
  keys-given [] after k = refl
  keys-given (b ∷ before) after k = refl

  -- A token of a key is decrypted by every list of keys that has the key.
  decrypt-token :
      (before after : List Key) (k : Key) (nonce : ℕ) (s : String)
      → decrypt f (before ++ k ∷ after) (some (encrypt_with k nonce s)) ≡ ok (some s)
  unfolding decrypt decrypt_value found_text
  decrypt-token before after k nonce s = simp (keys-given, token-filled, decrypt-encrypt)

  decrypt-own :
      (k : Key) (nonce : ℕ) (s : String)
      → decrypt f (k ∷ []) (some (encrypt_with k nonce s)) ≡ ok (some s)
  decrypt-own k nonce s = decrypt-token [] [] k nonce s

  rotate-token :
      (before after : List Key) (new k : Key) (nonce again : ℕ) (s : String)
      → rotate_encryption f (new ∷ before ++ k ∷ after) again (some (encrypt_with k nonce s))
        ≡ ok (some (encrypt_with new again s))
  unfolding rotate_encryption has_keys encrypt_again with_primary encrypt_text
  rotate-token before after new k nonce again s = simp (token-filled, decrypt-token (new ∷ before))

  from_db-token :
      (k : Key) (nonce : ℕ) (s : String)
      → from_db f (k ∷ []) (some (encrypt_with k nonce s)) ≡ ok (some s)
  unfolding from_db
  from_db-token k nonce s = simp (token-filled, decrypt-own)

  stored_token :
      (old : Key) (olds : List Key) (nonce : ℕ) (s : String)
      → (s == "") ≡ false
      → prepare_text f (old ∷ olds) nonce (some s) ≡ ok (some (encrypt_with old nonce s))
  unfolding prepare_text encrypt unless_blank encrypt_text has_keys
  stored_token old olds nonce s filled = simp filled

  stored_blank :
      (keys : List Key) (nonce : ℕ) (v : Value)
      → is_blank v ≡ true
      → prepare_text f keys nonce v ≡ ok v
  unfolding prepare_text
  stored_blank keys nonce v blank = simp blank

  rotated_blank :
      (k : Key) (ks : List Key) (again : ℕ) (v : Value)
      → is_blank v ≡ true
      → rotate_encryption f (k ∷ ks) again v ≡ ok v
  unfolding rotate_encryption has_keys
  rotated_blank k ks again v blank = simp blank

  read_blank : (keys : List Key) (v : Value) → is_blank v ≡ true → from_db f keys v ≡ ok v
  unfolding from_db
  read_blank keys v blank = simp blank

  pub IsReadBack : (old new : Key) (olds before after : List Key) (nonce again : ℕ) → Value → Type 0
  IsReadBack old new olds before after nonce again v =
      (stored : Value) × (prepare_text f (old ∷ olds) nonce v ≡ ok stored)
      × (rotated : Value) × (rotate_encryption f (new ∷ before ++ old ∷ after) again stored
          ≡ ok rotated)
      × (from_db f (new ∷ []) rotated ≡ ok v)

  -- A text that a field stored under a key is the text that is read once its column was rotated: whatever
  -- keys come after the first when it is stored, and around the old key when it is rotated, the new
  -- primary key alone reads it. A null or empty text is stored as it is.
  pub text_survives_rotation :
      (old new : Key) (olds before after : List Key) (nonce again : ℕ) (v : Value)
      → IsReadBack old new olds before after nonce again v
  unfolding IsReadBack
  text_survives_rotation old new olds before after nonce again none = (
    none,
    stored_blank (old ∷ olds) nonce none refl,
    none,
    rotated_blank new (before ++ old ∷ after) again none refl,
    read_blank (new ∷ []) none refl,
  )
  text_survives_rotation old new olds before after nonce again (some s) =
      elim (Bool-cases (s == "")) [
        | inl blank ↦ (
          some s,
          stored_blank (old ∷ olds) nonce (some s) blank,
          some s,
          rotated_blank new (before ++ old ∷ after) again (some s) blank,
          read_blank (new ∷ []) (some s) blank,
        )
        | inr filled ↦ (
          some (encrypt_with old nonce s),
          stored_token old olds nonce s filled,
          some (encrypt_with new again s),
          rotate-token before after new old nonce again s,
          from_db-token new again s,
        )
      ]

  -- A text within the length of a character field is stored as a text field stores it.
  pub prepare_char-prepare_text :
      (max_length : ℕ) (keys : List Key) (nonce : ℕ) (v : Value)
      → length_of v ≤ max_length
      → prepare_char f max_length keys nonce v ≡ prepare_text f keys nonce v
  unfolding prepare_char prepare_text
  prepare_char-prepare_text max_length keys nonce v fits = ground arith

  module _ {V : Type 0} (dumps : V → String) (loads : String → Option V) where
    -- A JSON value is read back by every list of keys that has the key it was stored with.
    pub json_roundtrip :
        (k : Key) (olds before after : List Key) (nonce : ℕ) (v : V)
        → (dumps v == "") ≡ false
        → loads (dumps v) ≡ some v
        → (stored : Value) × (prepare_json f dumps loads (k ∷ olds) nonce (some v) ≡ ok stored)
          × (json_from_db f dumps loads (before ++ k ∷ after) stored ≡ ok (some v))
    unfolding prepare_json json_from_db encrypt unless_blank encrypt_text has_keys read_json parsed
    json_roundtrip k olds before after nonce v filled parses = (
      some (encrypt_with k nonce (dumps v)),
      simp filled,
      simp (token-filled, decrypt-token before after, parses),
    )
