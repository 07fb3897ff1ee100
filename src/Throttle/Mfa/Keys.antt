-- ===== src/Throttle/Mfa/Keys.antt =====
-- The cache keys of api/throttling_mfa.py: names and throttles do not share a key.
use django_boilerplate.Prelude.{
  ◌≡◌, ◌≢◌, refl, sym, ◌∙◌, ap, String, arith, code_at, code_at-append,
}
use text.Mathlib.TextLemmas.{append_cancel_left}
use django_boilerplate.Throttle.Mfa.{Kind, token, user, ip, key_format, cache_key}

letters-ne : (k j : Kind) → k ≢ j → code_at 13 (key_format k) ≢ code_at 13 (key_format j)
letters-ne token token ne = absurd (ne refl)
letters-ne token user ne = omega arith
letters-ne token ip ne = omega arith
letters-ne user token ne = omega arith
letters-ne user user ne = absurd (ne refl)
letters-ne user ip ne = omega arith
letters-ne ip token ne = omega arith
letters-ne ip user ne = omega arith
letters-ne ip ip ne = absurd (ne refl)

letter : (k : Kind) (n : String) → code_at 13 (cache_key k n) ≡ code_at 13 (key_format k)
letter token n = code_at-append 13 "throttle:mfa:token:" n (omega arith)
letter user n = code_at-append 13 "throttle:mfa:user:" n (omega arith)
letter ip n = code_at-append 13 "throttle:mfa:ip:" n (omega arith)

-- Different throttles use different keys.
pub cache_key-ne : (k j : Kind) (n m : String) → k ≢ j → cache_key j m ≢ cache_key k n
cache_key-ne k j n m ne e =
    letters-ne k j ne (sym (letter k n) ∙ sym (ap (code_at 13) e) ∙ letter j m)

pub cache_key-injective : (k : Kind) (n m : String) → cache_key k n ≡ cache_key k m → n ≡ m
cache_key-injective k n m e = append_cancel_left (key_format k) n m e
