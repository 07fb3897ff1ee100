-- ===== src/Listing/Pages.antt =====
-- A client that reads page after page.
use django_boilerplate.Prelude.{
  true, false, All-append, All-append, leb→le, le→leb, ℕ, zero, suc, ◌+◌, ◌*◌, ◌-◌, ◌≤◌, ◌≡◌, refl,
  ap, sym, ◌∙◌, ℤ, negsuc, All, subst, Bool-cases, inl, inr, Option, none, some, List, [], ◌∷◌,
  ◌++◌, arith, leb, pos, length,
}
use django_boilerplate.Listing.{
  forbidden, not_found, server_error, ok, rows, Bool, ok, listed, as_listed, Listed, newest_first,
  int_or, ltb, at_most, Number, number, take, drop, slice, Page, page, between, with_results,
  with_numbers,
}

module _ {ℓ} {A : Type ℓ} where
  results_of : Option (Page A) → List A
  results_of none = []
  results_of (some p) = p.results

  -- The results of so many pages of a size, from an offset.
  pub collect : (pages size offset : ℕ) → List A → List A
  collect zero size offset xs = []
  collect (suc pages) size offset xs =
      results_of (page (number (pos size)) (number (pos offset)) xs)
      ++ collect pages size (offset + size) xs

  page-take :
      (size offset : ℕ) (xs : List A)
      → size ≤ 1000
      → page (number (pos size)) (number (pos offset)) xs
        ≡ some record {
          count = length xs;
          limit = pos size;
          offset = pos offset;
          results = take size (drop offset xs);
        }
  unfolding page slice between with_results with_numbers
  page-take size offset xs small =
      let there : (offset + size) - offset ≡ size = omega arith in
      rw (le→leb size 1000 small, there) refl

  drop-nil : (n : ℕ) → drop {A = A} n [] ≡ []
  unfolding drop
  drop-nil zero = refl
  drop-nil (suc n) = refl

  take-drop : (n : ℕ) (xs : List A) → take n xs ++ drop n xs ≡ xs
  unfolding take drop
  take-drop zero xs = refl
  take-drop (suc n) [] = refl
  take-drop (suc n) (x ∷ xs) = ap (λ ys. x ∷ ys) (take-drop n xs)

  drop-drop : (n m : ℕ) (xs : List A) → drop n (drop m xs) ≡ drop (m + n) xs
  unfolding drop
  drop-drop n zero xs = ap (λ k. drop k xs) (omega arith)
  drop-drop n (suc m) [] = drop-nil n ∙ sym (drop-nil (suc m + n))
  drop-drop n (suc m) (x ∷ xs) =
      let next : suc (m + n) ≡ suc m + n = omega arith in
      drop-drop n m xs ∙ ap (λ k. drop k (x ∷ xs)) next

  drop_all : (n : ℕ) (xs : List A) → length xs ≤ n → drop n xs ≡ []
  unfolding drop
  drop_all zero [] le = refl
  drop_all (suc n) [] le = refl
  drop_all zero (x ∷ xs) le = absurd (omega (arith, le))
  drop_all (suc n) (x ∷ xs) le = drop_all n xs (omega (arith, le))

  next_page :
      (size offset : ℕ) (xs : List A)
      → take size (drop offset xs) ++ drop (offset + size) xs ≡ drop offset xs
  next_page size offset xs =
      ap (λ ys. take size (drop offset xs) ++ ys) (sym (drop-drop size offset xs))
      ∙ take-drop size (drop offset xs)

  collect-drop :
      (pages size offset : ℕ) (xs : List A)
      → size ≤ 1000
      → length xs ≤ offset + pages * size
      → collect pages size offset xs ≡ drop offset xs
  unfolding collect results_of
  collect-drop zero size offset xs small enough = sym (drop_all offset xs (omega (arith, enough)))
  collect-drop (suc pages) size offset xs small enough =
      let more : length xs ≤ (offset + size) + pages * size = omega (arith, enough) in
      ap (λ r. results_of r ++ collect pages size (offset + size) xs)
        (page-take size offset xs small)
      ∙ ap (λ ys. take size (drop offset xs) ++ ys)
          (collect-drop pages size (offset + size) xs small more)
      ∙ next_page size offset xs

  -- A client reads as many pages of a size of at most 1000 as hold all rows, each from where the one before
  -- ended. Then it has read every row once, in their order.
  pub collect-all :
      (pages size : ℕ) (xs : List A)
      → size ≤ 1000
      → length xs ≤ pages * size
      → collect pages size 0 xs ≡ xs
  unfolding drop
  collect-all pages size xs small enough =
      collect-drop pages size 0 xs small (omega (arith, enough))

  take-length : (n : ℕ) (xs : List A) → length (take n xs) ≤ n
  unfolding take
  take-length zero xs = omega arith
  take-length (suc n) [] = omega arith
  take-length (suc n) (x ∷ xs) = omega (arith, take-length n xs)

abbrev pub OnSome {ℓ κ} : {B : Type ℓ} → (B → Type κ) → Option B → Type κ
OnSome Q none = Unit
OnSome Q (some b) = Q b

abbrev pub OnOk {ℓ μ} : {A : Type ℓ} → (Page A → Type μ) → Listed A → Type μ
OnOk Q forbidden = Unit
OnOk Q not_found = Unit
OnOk Q server_error = Unit
OnOk Q (ok p) = Q p

module _ {ℓ κ} {A : Type ℓ} (P : A → Type κ) where
  All-take : (n : ℕ) (xs : List A) → All P xs → All P (take n xs)
  unfolding take
  All-take zero xs h = tt
  All-take (suc n) [] h = tt
  All-take (suc n) (x ∷ xs) (p, h) = (p, All-take n xs h)

  All-drop : (n : ℕ) (xs : List A) → All P xs → All P (drop n xs)
  unfolding drop
  All-drop zero xs h = h
  All-drop (suc n) [] h = h
  All-drop (suc n) (x ∷ xs) (p, h) = All-drop n xs h

  -- Rows that all pass, at most 1000.
  abbrev pub IsShort : List A → Type κ
  IsShort xs = All P xs × (length xs ≤ 1000)

  taken-IsShort :
      (start n : ℕ) (xs : List A) → n ≤ 1000 → All P xs → IsShort (take n (drop start xs))
  taken-IsShort start n xs small h = (
    All-take n (drop start xs) (All-drop start xs h),
    (let le = take-length n (drop start xs) in omega (arith, le)),
  )

  ahead-IsShort :
      (start n : ℕ) (xs : List A)
      → n ≤ 1000
      → All P xs
      → OnSome IsShort (slice (pos start) (pos n) xs)
  unfolding slice between
  ahead-IsShort start n xs small h =
      let there : n ≡ (start + n) - start = omega arith in
      subst (λ k. IsShort (take k (drop start xs))) there (taken-IsShort start n xs small h)

  back-IsShort :
      (start n : ℕ) (xs : List A) → All P xs → OnSome IsShort (slice (pos start) (negsuc n) xs)
  unfolding slice between
  back-IsShort start n xs h = elim (Bool-cases (ltb n start)) [
    | inl before ↦ rw before (taken-IsShort start ((start - suc n) - start) xs (omega arith) h)
    | inr beyond ↦ rw beyond tt
  ]

  slice-IsShort :
      (offset limit : ℤ) (xs : List A)
      → All P xs
      → OnSome IsShort (slice offset (at_most 1000 limit) xs)
  unfolding slice
  slice-IsShort (negsuc m) limit xs h = tt
  slice-IsShort (pos m) (negsuc n) xs h = back-IsShort m n xs h
  slice-IsShort (pos m) (pos n) xs h = elim (Bool-cases (leb n 1000)) [
    | inl small ↦ rw small (ahead-IsShort m n xs (leb→le n 1000 small) h)
    | inr large ↦ rw large (ahead-IsShort m 1000 xs (omega arith) h)
  ]

  results-IsShort :
      (o : Option (List A)) (offset limit : ℤ) (n : ℕ)
      → OnSome IsShort o
      → OnSome (λ p. IsShort p.results × (p.count ≡ n)) (with_results o offset limit n)
  unfolding with_results
  results-IsShort none offset limit n h = tt
  results-IsShort (some ys) offset limit n h = (h, refl)

  numbers-IsShort :
      (limit offset : Option ℤ) (xs : List A)
      → All P xs
      → OnSome (λ p. IsShort p.results × (p.count ≡ length xs)) (with_numbers limit offset xs)
  unfolding with_numbers with_results
  numbers-IsShort none offset xs h = tt
  numbers-IsShort (some limit) none xs h = tt
  numbers-IsShort (some limit) (some offset) xs h =
      results-IsShort (slice offset (at_most 1000 limit) xs) offset (at_most 1000 limit) (length xs)
        (slice-IsShort offset limit xs h)

  -- A page of rows that all pass has such rows, at most 1000, and counts all rows.
  pub page-IsShort :
      (limit offset : Number) (xs : List A)
      → All P xs
      → OnSome (λ p. IsShort p.results × (p.count ≡ length xs)) (page limit offset xs)
  unfolding page
  page-IsShort limit offset xs h = numbers-IsShort (int_or 50 limit) (int_or 0 offset) xs h

  All-newest_first : (xs : List A) → All P xs → All P (newest_first xs)
  unfolding newest_first
  All-newest_first [] h = tt
  All-newest_first (x ∷ xs) (p, h) =
      All-append P (newest_first xs) (x ∷ []) (All-newest_first xs h) (p, tt)

  as_listed-IsShort :
      (o : Option (Page A)) (n : ℕ)
      → OnSome (λ p. IsShort p.results × (p.count ≡ n)) o
      → OnOk (λ p. IsShort p.results) (as_listed o)
  unfolding as_listed
  as_listed-IsShort none n h = tt
  as_listed-IsShort (some p) n (h, counted) = h

  -- A listing shows rows of the table that pass, of which everything holds that holds of those.
  pub listed-IsShort :
      (keys_ok : Bool) (limit offset : Number) (passes : A → Bool) (xs : List A)
      → All P (rows passes xs)
      → OnOk (λ p. IsShort p.results) (listed keys_ok limit offset passes xs)
  unfolding listed
  listed-IsShort false limit offset passes xs h = tt
  listed-IsShort true limit offset passes xs h =
      as_listed-IsShort (page limit offset (newest_first (rows passes xs))) _ (
        page-IsShort limit offset (newest_first (rows passes xs))
          (All-newest_first (rows passes xs) h))
