-- ===== src/Crypto.antt =====
-- Python's `hashlib.sha256(...).hexdigest()` and `hmac.new(key, ..., sha256).hexdigest()`, which are not
-- part of the repository. A digest is never the empty text.
pub mod Toy
use django_boilerplate.Prelude.{◌≢◌, String}

pub record Digests : Type 0 where
  pub sha256 : String → String
  pub hmac_sha256 : (key message : String) → String
  pub sha256-ne-empty : (s : String) → sha256 s ≢ ""
  pub hmac-ne-empty : (key message : String) → hmac_sha256 key message ≢ ""
