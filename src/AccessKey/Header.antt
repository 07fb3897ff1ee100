-- ===== src/AccessKey/Header.antt =====
-- `_parse_header` of api/auth_access_key.py.
use Prim.Native.Char.{Char, code}
use django_boilerplate.Prelude.{
  ℕ, String, ◌+++◌, Bool, not, ◌&&◌, ◌||◌, Option, some, List, [], ◌∷◌, ◌==◌, eqb, leb, Dict,
  lookup, put, ◌>>=◌, strip, if◌then◌else◌,
}

-- `\w`, for ASCII.
abbrev is_word : ℕ → Bool
is_word c = (leb 48 c && leb c 57) || (leb 65 c && leb c 90) || eqb c 95 || (leb 97 c && leb c 122)

-- Where `re.findall(r"(\w+)=([^,]+)", ...)` stands in a text: in a word, after the sign behind one, or in
-- a value.
pub data Scan : Type 0 where
  in_word : (word : String) → Scan
  after_sign : (word : String) → Scan
  in_value : (word value : String) → Scan

one_char : Char → String
one_char c = String.◌∷◌ c String.[]

step : Scan → Char → Scan
step (in_word w) c =
    if is_word (code c)
    then in_word (w +++ one_char c)
    else if eqb (code c) b'=' && not (w == "")
    then after_sign w
    else in_word ""
step (after_sign w) c = if eqb (code c) b',' then in_word "" else in_value w (one_char c)
step (in_value w v) c = if eqb (code c) b',' then in_word "" else in_value w (v +++ one_char c)

-- The pair that ends with a character.
found : Scan → Char → List (String × String)
found (in_value w v) c = if eqb (code c) b',' then (w, v) ∷ [] else []
found _ c = []

at_end : Scan → List (String × String)
at_end (in_value w v) = (w, v) ∷ []
at_end _ = []

append_pairs : List (String × String) → List (String × String) → List (String × String)
append_pairs [] qs = qs
append_pairs (p ∷ ps) qs = p ∷ append_pairs ps qs

find_all : Scan → String → List (String × String)
find_all s String.[] = at_end s
find_all s (String.◌∷◌ c text) = append_pairs (found s c) (find_all (step s c) text)

-- `{k.strip(): v.strip() for k, v in matches}`; a later pair wins.
dict_of : Dict String → List (String × String) → Dict String
dict_of m [] = m
dict_of m ((k, v) ∷ ps) = dict_of (put (strip k) (strip v) m) ps

pub record Credentials : Type 0 where
  pub access_key_id : String
  pub timestamp : String
  pub signature : String
  pub nonce : Option String

required : Dict String → Option Credentials
required m = do
  id ← lookup "AccessKeyId" m
  timestamp ← lookup "Timestamp" m
  signature ← lookup "Signature" m
  some (record {
    access_key_id = id;
    timestamp = timestamp;
    signature = signature;
    nonce = lookup "Nonce" m;
  })

-- The credentials in the header behind its keyword; `none` stands for the AuthenticationFailed.
unfoldable pub parse_header : String → Option Credentials
unfolding step found at_end append_pairs find_all dict_of required one_char
parse_header text = required (dict_of [] (find_all (in_word "") text))
