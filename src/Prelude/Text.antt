-- ===== src/Prelude/Text.antt =====
-- Text by its characters: splitting, decimal digits, and lower case.
use Prim.Native.String.count
use Prim.Native.Nat.{ℕ, zero, suc, ◌<◌, ◌+◌, ◌*◌, ◌-◌}
use Prim.Native.Char.{Char, code, nul}
use Prim.Native.String
use Prim.Native.String.{String}
use mathlib.Core.Path.{◌≡◌}
use native.Mathlib.Omega.{arith}
use text.Mathlib.TextLemmas.{cons-append}
use mathlib.Core.Bool.{Bool, true, false, ◌&&◌, ◌||◌}
use mathlib.Core.Option.{Option, none, some}
use mathlib.Core.List.{List, [], ◌∷◌}
use django_boilerplate.Prelude.Tests.{eqb, leb, if◌then◌else◌}

infixr 66 ◌+++◌
-- `s + t`, for texts.
abbrev pub ◌+++◌ : String → String → String
s +++ t = String.◌++◌ s t

abbrev onto_first : Char → List String → List String
onto_first c [] = (String.◌∷◌ c String.[]) ∷ []
onto_first c (p ∷ ps) = (String.◌∷◌ c p) ∷ ps

-- `text.split(sep)`, for a separator of one character.
unfoldable pub split : ℕ → String → List String
split sep String.[] = "" ∷ []
split sep (String.◌∷◌ c s) =
    let rest = split sep s in if eqb (code c) sep then "" ∷ rest else onto_first c rest

-- `int(text)`, for a text of ASCII digits; `none` stands for the ValueError.
unfoldable pub digits : ℕ → String → Option ℕ
digits n String.[] = some n
digits n (String.◌∷◌ c s) =
    let rest = digits (n * 10 + (code c - 48)) s in
    if leb 48 (code c) && leb (code c) 57 then rest else none

unfoldable pub int : String → Option ℕ
unfolding digits
int String.[] = none
int (String.◌∷◌ c s) = digits 0 (String.◌∷◌ c s)

-- The code points of a text, with `text.lower()` applied to its ASCII letters.
abbrev pub lower_code : ℕ → ℕ
lower_code c = if leb 65 c && leb c 90 then c + 32 else c

abbrev pub lower : String → List ℕ
lower String.[] = []
lower (String.◌∷◌ c s) = lower_code (code c) ∷ lower s

abbrev pub codes_eq : List ℕ → List ℕ → Bool
codes_eq [] [] = true
codes_eq (a ∷ xs) (b ∷ bs) = eqb a b && codes_eq xs bs
codes_eq _ _ = false

-- `text.strip()`, for ASCII white space.
is_space : ℕ → Bool
is_space c = eqb c 32 || (leb 9 c && leb c 13) || (leb 28 c && leb c 31)

strip_start : String → String
strip_start String.[] = String.[]
strip_start (String.◌∷◌ c s) =
    let rest = strip_start s in if is_space (code c) then rest else String.◌∷◌ c s

onto_stripped : Char → String → String
onto_stripped c String.[] = if is_space (code c) then String.[] else String.◌∷◌ c String.[]
onto_stripped c (String.◌∷◌ d s) = String.◌∷◌ c (String.◌∷◌ d s)

strip_end : String → String
strip_end String.[] = String.[]
strip_end (String.◌∷◌ c s) = onto_stripped c (strip_end s)

unfoldable pub strip : String → String
unfolding is_space strip_start onto_stripped strip_end
strip s = strip_end (strip_start s)

-- The character at a position, as a number; 0 past the end.
abbrev pub code_at : ℕ → String → ℕ
code_at n String.[] = 0
code_at zero (String.◌∷◌ c s) = code c
code_at (suc n) (String.◌∷◌ c s) = code_at n s

pub code_at-append : (n : ℕ) (s t : String) → n < String.count s → code_at n (s +++ t) ≡ code_at n s
code_at-append n String.[] t h = absurd (omega (arith, count.nil))
code_at-append zero (String.◌∷◌ c s) t h = rw cons-append
code_at-append (suc n) (String.◌∷◌ c s) t h =
    rw cons-append (code_at-append n s t (omega (arith, count.cons c s)))

-- `text[:n]`
unfoldable pub take_text : ℕ → String → String
take_text zero s = String.[]
take_text (suc n) String.[] = String.[]
take_text (suc n) (String.◌∷◌ c s) = String.◌∷◌ c (take_text n s)

unfoldable pub nth_char : ℕ → String → Char
nth_char n String.[] = nul
nth_char zero (String.◌∷◌ c s) = c
nth_char (suc n) (String.◌∷◌ c s) = nth_char n s

-- `text.upper()`, for ASCII letters.
unfoldable pub upper : String → String
unfolding nth_char
upper String.[] = String.[]
upper (String.◌∷◌ c s) =
    String.◌∷◌
      (if leb 97 (code c) && leb (code c) 122
        then nth_char (code c - 97) "ABCDEFGHIJKLMNOPQRSTUVWXYZ"
        else c)
      (upper s)

-- `text.lower()`, for ASCII letters.
unfoldable pub lower_text : String → String
unfolding nth_char
lower_text String.[] = String.[]
lower_text (String.◌∷◌ c s) =
    String.◌∷◌
      (if leb 65 (code c) && leb (code c) 90
        then nth_char (code c - 65) "abcdefghijklmnopqrstuvwxyz"
        else c)
      (lower_text s)

-- `sep.join(texts)`
unfoldable pub join : String → List String → String
join sep [] = ""
join sep (t ∷ []) = t
join sep (t ∷ u ∷ ts) = t +++ (sep +++ join sep (u ∷ ts))

-- The rest of a text after a prefix, none if the text does not start with it.
unfoldable pub after_prefix : String → String → Option String
after_prefix String.[] s = some s
after_prefix (String.◌∷◌ c p) String.[] = none
after_prefix (String.◌∷◌ c p) (String.◌∷◌ d s) =
    let rest = after_prefix p s in if eqb (code c) (code d) then rest else none

abbrev pub is_some {ℓ} : {A : Type ℓ} → Option A → Bool
is_some none = false
is_some (some x) = true

-- `s.startswith(p)`
abbrev pub starts_with : String → String → Bool
starts_with s p = is_some (after_prefix p s)
