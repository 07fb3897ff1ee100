-- ===== src/Encryption/Keys.antt =====
-- The package cryptography's Fernet with several keys, which is not part of the repository: encryption
-- with a key, and decryption with the first of several keys that fits.
use text.Mathlib.TextLemmas.{cons-ne-nil}
use django_boilerplate.Prelude.{none, ◌++◌, ℕ, ◌≡◌, ◌≢◌, refl, String, Option, some, List, ◌∷◌}

pub record Fernet : Type 1 where
  pub Key : Type 0
  pub encrypt_with : Key → (nonce : ℕ) → String → String
  pub decrypt_with : List Key → String → Option String
  pub encrypt-ne-empty : (k : Key) (nonce : ℕ) (s : String) → encrypt_with k nonce s ≢ ""
  pub decrypt-encrypt :
      (before after : List Key) (k : Key) (nonce : ℕ) (s : String)
      → decrypt_with (before ++ k ∷ after) (encrypt_with k nonce s) ≡ some s

-- A mark before the text, which shows that the behaviour can be met.
abbrev pub mark : ℕ → String → String
mark nonce s = String.◌∷◌ "e" s

pub unmark : String → Option String
unmark String.[] = none
unmark (String.◌∷◌ c s) = some s

pub mark-ne-empty : (nonce : ℕ) (s : String) → mark nonce s ≢ ""
mark-ne-empty nonce s = cons-ne-nil "e" s

pub unmark-mark : (nonce : ℕ) (s : String) → unmark (mark nonce s) ≡ some s
unfolding unmark
unmark-mark nonce s = refl

abbrev pub toy : Fernet
toy = record {
  Key = String;
  encrypt_with = λ k nonce s. mark nonce s;
  decrypt_with = λ keys s. unmark s;
  encrypt-ne-empty = λ k nonce s. mark-ne-empty nonce s;
  decrypt-encrypt = λ before after k nonce s. unmark-mark nonce s;
}
