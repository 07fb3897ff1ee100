-- ===== src/Billing/Signature.antt =====
-- `_verify_stripe_signature` of api/views_licensing.py. The header's characters are ASCII.
use Prim.Native.Char.{code}
use django_boilerplate.Prelude.{
  ℕ, zero, suc, ◌+◌, ◌/◌, ◌%◌, String, ◌+++◌, Bool, false, ◌||◌, Option, none, some, List, [], ◌∷◌,
  ◌==◌, eqb, ltb, Dict, lookup, put, split, int, nth_char, if◌then◌else◌, Instant, seconds,
}
use django_boilerplate.Crypto.{Digests}

-- `str` of a number; a number has no more digits than the fuel that is given below.
digit : ℕ → String
digit n = String.◌∷◌ (nth_char n "0123456789") String.[]

decimal_of : (fuel : ℕ) → ℕ → String
decimal_of zero n = ""
decimal_of (suc fuel) n =
    let rest = decimal_of fuel (n / 10) in if ltb n 10 then digit n else rest +++ digit (n % 10)

unfoldable pub decimal : ℕ → String
unfolding decimal_of digit nth_char
decimal n = decimal_of (suc n) n

onto_key : String → Option (String × String) → Option (String × String)
onto_key c none = none
onto_key c (some (k, v)) = some (c +++ k, v)

-- `item.split("=", 1)`, none where it has one part only.
unfoldable pub key_and_value : String → Option (String × String)
unfolding onto_key
key_and_value String.[] = none
key_and_value (String.◌∷◌ c s) =
    let rest = key_and_value s in
    if eqb (code c) 61 then some ("", s) else onto_key (String.◌∷◌ c String.[]) rest

with_item : Option (String × String) → Option (Dict String) → Option (Dict String)
with_item none rest = none
with_item (some (k, v)) rest = elim rest [ none ↦ none | some m ↦ some ((k, v) ∷ m) ]

pairs : List String → Option (Dict String)
unfolding with_item
pairs [] = some []
pairs (i ∷ items) = with_item (key_and_value i) (pairs items)

-- A later pair with a key takes the place of an earlier one.
in_dict : Dict String → Dict String → Dict String
in_dict m [] = m
in_dict m ((k, v) ∷ rest) = in_dict (put k v m) rest

unfoldable pub elements : (sig_header : String) → Option (Dict String)
unfolding pairs in_dict
elements sig_header = elim (pairs (split 44 sig_header)) [
  | none ↦ none
  | some ps ↦ some (in_dict [] ps)
]

abbrev pub or_none : Option String → String
or_none none = ""
or_none (some v) = v

-- `int(elements.get("t", 0))`
abbrev pub timestamp_of : Option String → Option ℕ
timestamp_of none = some 0
timestamp_of (some t) = int t

-- `abs(time.time() - timestamp) > tolerance`
abbrev pub is_far : (tolerance : ℕ) → Instant → ℕ → Bool
is_far tolerance now t =
    ltb (seconds t + seconds tolerance) now || ltb (now + seconds tolerance) (seconds t)

module _ (d : Digests) (tolerance : ℕ) (payload secret : String) (now : Instant) where
  unfoldable pub check : Option ℕ → (signature : String) → Bool
  check none signature = false
  check (some t) signature =
      if eqb t 0 || signature == ""
      then false
      else if is_far tolerance now t
      then false
      else d.hmac_sha256 secret (decimal t +++ ("." +++ payload)) == signature

  unfoldable pub check_elements : Option (Dict String) → Bool
  unfolding check
  check_elements none = false
  check_elements (some m) = check (timestamp_of (lookup "t" m)) (or_none (lookup "v1" m))

  -- `_verify_stripe_signature`
  unfoldable pub verify_stripe_signature : (sig_header : String) → Bool
  unfolding check check_elements
  verify_stripe_signature sig_header =
      if sig_header == "" || secret == "" then false else check_elements (elements sig_header)
