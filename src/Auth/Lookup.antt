-- ===== src/Auth/Lookup.antt =====
-- What `objects.get` finds, for any table: the row passes the test and has what all rows have.
use django_boilerplate.Prelude.{
  refl, ◌++◌, any, ◌≡◌, Bool, true, Bool-cases, inl, inr, List, [], ◌∷◌, arith, rows, All,
}
use django_boilerplate.Auth.{
  some, false, codes_eq, none, first, ℕ, Found, missing, many, one, get_one,
}

module _ {A : Type 0} where
  -- A property of the row, if there is one.
  abbrev pub IsOne : (A → Type 0) → Found A → Type 0
  IsOne P missing = Unit
  IsOne P many = Unit
  IsOne P (one x) = P x

  IsOne-get : (P : A → Type 0) (xs : List A) → All P xs → IsOne P (get_one xs)
  IsOne-get P [] a = tt
  IsOne-get P (x ∷ []) (a, rest) = a
  IsOne-get P (x ∷ y ∷ xs) a = tt

  rows-All : (P : A → Type 0) (t : A → Bool) (xs : List A) → All P xs → All P (rows t xs)
  rows-All P t [] a = tt
  rows-All P t (x ∷ xs) (a, rest) = elim (Bool-cases (t x)) [
    | inl passed ↦ rw passed (a, rows-All P t xs rest)
    | inr failed ↦ rw failed (rows-All P t xs rest)
  ]

  pub IsOne-of_All :
      (P : A → Type 0) (t : A → Bool) (xs : List A) → All P xs → IsOne P (get_one (rows t xs))
  IsOne-of_All P t xs a = IsOne-get P (rows t xs) (rows-All P t xs a)

  rows-pass : (t : A → Bool) (xs : List A) → All (λ x. t x ≡ true) (rows t xs)
  rows-pass t [] = tt
  rows-pass t (x ∷ xs) = elim (Bool-cases (t x)) [
    | inl passed ↦ rw passed (passed, rows-pass t xs)
    | inr failed ↦ rw failed (rows-pass t xs)
  ]

  pub IsOne-passes : (t : A → Bool) (xs : List A) → IsOne (λ x. t x ≡ true) (get_one (rows t xs))
  IsOne-passes t xs = IsOne-get (λ x. t x ≡ true) (rows t xs) (rows-pass t xs)

  pub get_one-one : (xs : List A) (x : A) → get_one xs ≡ one x → xs ≡ x ∷ []
  get_one-one [] x h = ground arith
  get_one-one (y ∷ []) x h = ground arith
  get_one-one (y ∷ z ∷ xs) x h = ground arith

pub codes_eq-same : (cs : List ℕ) → codes_eq cs cs ≡ true
codes_eq-same [] = refl
codes_eq-same (c ∷ cs) = ground (arith, codes_eq-same cs)

pub rows-none {ℓ} : {A : Type ℓ} (t : A → Bool) (us : List A) → any t us ≡ false → rows t us ≡ []
rows-none t [] h = refl
rows-none t (u ∷ us) h = ground (arith, rows-none t us)

pub first-append {ℓ} :
    {A : Type ℓ} (t : A → Bool) (p : A) (ps : List A)
    → first t ps ≡ none
    → t p ≡ true
    → first t (ps ++ p ∷ []) ≡ some p
first-append t p [] h k = rw k refl
first-append t p (q ∷ ps) h k = ground (arith, first-append t p ps)
