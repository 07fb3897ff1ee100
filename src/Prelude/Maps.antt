-- ===== src/Prelude/Maps.antt =====
-- Python's `dict` with text keys, as an association list. The order of the entries is not modelled:
-- the code that uses it only looks keys up.
use Prim.Native.String.{String}
use mathlib.Core.Path.{◌≡◌, refl}
use mathlib.Core.Option.{Option, none, some}
use mathlib.Core.List.{List, [], ◌∷◌}
use native.Mathlib.Omega.{arith}
use text.Mathlib.Text.{◌==◌}
use text.Mathlib.TextEquality.{eq_iff}
use django_boilerplate.Prelude.Tests.{if◌then◌else◌}

abbrev pub Dict {ℓ} : Type ℓ → Type ℓ
Dict V = List (String × V)

abbrev pub or_else {ℓ} : {V : Type ℓ} → Option V → Option V → Option V
or_else none o = o
or_else (some v) o = some v

module _ {ℓ} {V : Type ℓ} where
  -- `m.get(key)`
  unfoldable pub lookup : String → Dict V → Option V
  lookup k [] = none
  lookup k ((j, v) ∷ m) = if j == k then some v else lookup k m

  -- `m[key] = v`
  unfoldable pub put : String → V → Dict V → Dict V
  put k v [] = (k, v) ∷ []
  put k v ((j, w) ∷ m) = if j == k then (k, v) ∷ m else (j, w) ∷ put k v m

  -- `{**a, **b}`
  unfoldable pub merge : Dict V → Dict V → Dict V
  unfolding put
  merge a [] = a
  merge a ((k, v) ∷ b) = put k v (merge a b)

  pub lookup-put :
      (k j : String) (v : V) (m : Dict V)
      → lookup j (put k v m) ≡ (if k == j then some v else lookup j m)
  unfolding lookup put
  lookup-put k j v [] = refl
  lookup-put k j v ((i, w) ∷ m) =
      ground (arith, eq_iff k j, eq_iff i k, eq_iff i j, lookup-put k j v m)

module _ {ℓ} {V : Type ℓ} where
  merge-cons : (a b : Dict V) (k : String) (v : V) → merge a ((k, v) ∷ b) ≡ put k v (merge a b)
  unfolding merge
  merge-cons a b k v = refl

  lookup-cons :
      (k j : String) (v : V) (m : Dict V)
      → lookup k ((j, v) ∷ m) ≡ (if j == k then some v else lookup k m)
  unfolding lookup
  lookup-cons k j v m = refl

  merge-nil : (a : Dict V) → merge a [] ≡ a
  unfolding merge
  merge-nil a = refl

  lookup-nil : (k : String) → lookup {V = V} k [] ≡ none
  unfolding lookup
  lookup-nil k = refl

  -- A key of the merged dictionary has its value in `b`, or else its value in `a`.
  pub lookup-merge :
      (k : String) (a b : Dict V) → lookup k (merge a b) ≡ or_else (lookup k b) (lookup k a)
  lookup-merge k a [] = rw (merge-nil a, lookup-nil k)
  lookup-merge k a ((j, v) ∷ b) =
      rw (merge-cons a b j v, lookup-put j k v (merge a b), lookup-cons k j v b)
        (ground (arith, lookup-merge k a b))

infixl 60 ◌>>=◌
-- A step after a step that may find nothing.
abbrev pub ◌>>=◌ {ℓ κ} : {A : Type ℓ} {B : Type κ} → Option A → (A → Option B) → Option B
none >>= f = none
some a >>= f = f a
