-- ===== src/Crypto/Toy.antt =====
-- Digests for the examples: they show that what `Digests` asks for can be met, and the examples run on them.
use text.Mathlib.TextLemmas.{append-ne-nil_of_right_ne-nil}
use django_boilerplate.Prelude.{◌≢◌, String, ◌+++◌, arith, eq_iff}
use django_boilerplate.Crypto.{Digests}

pub hash-ne-empty : (s : String) → (s +++ "#") ≢ ""
hash-ne-empty s = append-ne-nil_of_right_ne-nil s (ground (arith, eq_iff "#" ""))

abbrev pub toy : Digests
toy = record {
  sha256 = λ s. s +++ "#";
  hmac_sha256 = λ key message. (key +++ message) +++ "#";
  sha256-ne-empty = hash-ne-empty;
  hmac-ne-empty = λ key message. hash-ne-empty (key +++ message);
}

pub hash_sign-ne-empty : ◌≢◌ {A = String} "#" ""
hash_sign-ne-empty = ground (arith, eq_iff "#" "")

-- Digests with a text that is its own digest.
abbrev pub flat : Digests
flat = record {
  sha256 = λ s. "#";
  hmac_sha256 = λ key message. "#";
  sha256-ne-empty = λ s. hash_sign-ne-empty;
  hmac-ne-empty = λ key message. hash_sign-ne-empty;
}
