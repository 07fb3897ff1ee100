-- ===== src/Prelude/Lists.antt =====
-- Lists measured by native numbers, predicates on all elements, and membership of a text.
use Prim.Native.Nat.{ℕ, suc, ◌+◌, ◌≤◌}
use Prim.Native.String.{String}
use mathlib.Core.Path.{◌≡◌, refl}
use mathlib.Core.Bool.{Bool, true, false, ◌&&◌, ◌||◌}
use mathlib.Core.Option.{Option, none, some}
use mathlib.Core.List.{List, [], ◌∷◌, ◌++◌}
use native.Mathlib.Omega.{arith}
use mathlib.Core.Logic.{◌≢◌}
use text.Mathlib.Text.{◌==◌}
use text.Mathlib.TextEquality.{eq_iff}
use django_boilerplate.Prelude.Tests.{if◌then◌else◌}

module _ {ℓ} {A : Type ℓ} where
  abbrev pub length : List A → ℕ
  length [] = 0
  length (x ∷ xs) = suc (length xs)

  abbrev pub any : (A → Bool) → List A → Bool
  any p [] = false
  any p (x ∷ xs) = p x || any p xs

  abbrev pub all : (A → Bool) → List A → Bool
  all p [] = true
  all p (x ∷ xs) = p x && all p xs

  -- The rows that pass a test, in their order.
  abbrev pub rows : (A → Bool) → List A → List A
  rows p [] = []
  rows p (x ∷ xs) = let rest = rows p xs in if p x then x ∷ rest else rest

  -- The first row that passes a test.
  abbrev pub first : (A → Bool) → List A → Option A
  first p [] = none
  first p (x ∷ xs) = let rest = first p xs in if p x then some x else rest

  pub length-append : (xs ys : List A) → length (xs ++ ys) ≡ length xs + length ys
  length-append [] ys = omega arith
  length-append (x ∷ xs) ys = omega (arith, length-append xs ys)

  pub rows-append : (p : A → Bool) (xs ys : List A) → rows p (xs ++ ys) ≡ rows p xs ++ rows p ys
  rows-append p [] ys = refl
  rows-append p (x ∷ xs) ys = ground (arith, rows-append p xs ys)

  pub length-rows-le : (p : A → Bool) (xs : List A) → length (rows p xs) ≤ length xs
  length-rows-le p [] = omega arith
  length-rows-le p (x ∷ xs) = ground (arith, length-rows-le p xs)

module _ {ℓ κ} {A : Type ℓ} (P : A → Type κ) where
  abbrev pub All : List A → Type κ
  All [] = Unit
  All (x ∷ xs) = P x × All xs

  pub All-append : (xs ys : List A) → All xs → All ys → All (xs ++ ys)
  All-append [] ys h k = k
  All-append (x ∷ xs) ys (p, h) k = (p, All-append xs ys h k)

-- `x in xs`, for a list of texts.
abbrev pub contains : List String → String → Bool
contains xs a = any (λ x. x == a) xs

pub eq-false_of_ne : (a b : String) → a ≢ b → (a == b) ≡ false
eq-false_of_ne a b ne = ground (arith, eq_iff a b)

pub ne_of_eq-false : (a b : String) → (a == b) ≡ false → a ≢ b
ne_of_eq-false a b h = ground (arith, eq_iff a b)

pub eq_of_eq-true : (a b : String) → (a == b) ≡ true → a ≡ b
eq_of_eq-true a b h = (eq_iff a b).0 h

module _ {ℓ} {A : Type ℓ} (p q : A → Bool) where
  pub rows-rows : (xs : List A) → rows p (rows q xs) ≡ rows (λ x. p x && q x) xs
  rows-rows [] = refl
  rows-rows (x ∷ xs) = ground (arith, rows-rows xs)

  -- Equal tests pass the same rows.
  pub rows-eq : (xs : List A) → ((x : A) → p x ≡ q x) → rows p xs ≡ rows q xs
  rows-eq [] same = refl
  rows-eq (x ∷ xs) same = rw (same x, rows-eq xs same)
