-- ===== src/Rows.antt =====
-- Tables as lists of rows with a primary key and an organisation, for the models of api/models.py that
-- belong to an organisation: lookups, updates of the rows with a key, and the rows of the others.
use django_boilerplate.Prelude.{
  subst, if-cases, ap, ◌≡◌, refl, sym, ◌∙◌, String, Bool, true, false, not, ◌&&◌, Bool-cases, inl,
  inr, Option, none, some, List, [], ◌∷◌, ◌++◌, arith, ◌==◌, eq_iff, any, first, rows, All,
  if◌then◌else◌, if-true, if-false,
}

module _ {ℓ} {A : Type ℓ} (id org : A → String) where
  -- The organisation of the row with a key.
  abbrev pub owner : String → List A → Option String
  owner k [] = none
  owner k (x ∷ xs) = let rest = owner k xs in if id x == k then some (org x) else rest

  -- `save()` of the row with a key.
  abbrev pub change : String → (A → A) → List A → List A
  change k f [] = []
  change k f (x ∷ xs) = let rest = change k f xs in (if id x == k then f x else x) ∷ rest

  abbrev pub has_id : String → List A → Bool
  has_id k = any (λ x. id x == k)

  -- The rows of the other organisations.
  abbrev pub foreign : String → List A → List A
  foreign o = rows (λ x. not (org x == o))

  abbrev pub IsUnique : List A → Type 0
  IsUnique [] = Unit
  IsUnique (x ∷ xs) = (has_id (id x) xs ≡ false) × IsUnique xs

  -- Every row with the key belongs to the organisation.
  abbrev pub IsOwned : String → String → List A → Type 0
  IsOwned k o = All (λ x. id x == k ≡ true → org x ≡ o)

  pub owner-append :
      (k o : String) (xs ys : List A) → owner k xs ≡ some o → owner k (xs ++ ys) ≡ some o
  owner-append k o [] ys h = ground arith
  owner-append k o (x ∷ xs) ys h = ground (arith, owner-append k o xs ys)

  pub owner-rows :
      (k : String) (p : A → Bool) (xs : List A)
      → any (λ x. id x == k && not (p x)) xs ≡ false
      → owner k (rows p xs) ≡ owner k xs
  owner-rows k p [] h = refl
  owner-rows k p (x ∷ xs) h = ground (arith, owner-rows k p xs)

  pub foreign-append :
      (o : String) (x : A) (xs : List A) → org x ≡ o → foreign o (xs ++ x ∷ []) ≡ foreign o xs
  foreign-append o x [] h = ground (arith, eq_iff (org x) o, h)
  foreign-append o x (y ∷ xs) h = ground (arith, foreign-append o x xs h)

  pub foreign-rows :
      (o : String) (p : A → Bool) (xs : List A)
      → All (λ x. p x ≡ false → org x ≡ o) xs
      → foreign o (rows p xs) ≡ foreign o xs
  foreign-rows o p [] h = refl
  foreign-rows o p (x ∷ xs) (e, h) = ground (arith, foreign-rows o p xs h, e, eq_iff (org x) o)

  module _ (k : String) (f : A → A) where
    pub foreign-change :
        (o : String) (xs : List A)
        → ((x : A) → org (f x) ≡ org x)
        → IsOwned k o xs
        → foreign o (change k f xs) ≡ foreign o xs
    foreign-change o [] same h = refl
    foreign-change o (x ∷ xs) same (e, h) =
        ground
          (arith, foreign-change o xs same h, e, same x, eq_iff (org x) o, eq_iff (org (f x)) o)

    pub owner-change :
        (j : String) (xs : List A)
        → ((x : A) → id (f x) ≡ id x)
        → ((x : A) → org (f x) ≡ org x)
        → owner j (change k f xs) ≡ owner j xs
    owner-change j [] named same = refl
    owner-change j (x ∷ xs) named same =
        ground (arith, owner-change j xs named same, named x, same x)

    pub has_id-change :
        (j : String) (xs : List A)
        → ((x : A) → id (f x) ≡ id x)
        → has_id j (change k f xs) ≡ has_id j xs
    has_id-change j [] named = refl
    has_id-change j (x ∷ xs) named = ground (arith, has_id-change j xs named, named x)

    pub IsUnique-change :
        (xs : List A) → ((x : A) → id (f x) ≡ id x) → IsUnique xs → IsUnique (change k f xs)
    IsUnique-change [] named h = tt
    IsUnique-change (x ∷ xs) named (e, h) =
        (ground (arith, has_id-change (id x) xs named, named x, e), IsUnique-change xs named h)

  has_id-rows :
      (k : String) (p : A → Bool) (xs : List A) → has_id k xs ≡ false → has_id k (rows p xs) ≡ false
  has_id-rows k p [] h = refl
  has_id-rows k p (x ∷ xs) h = ground (arith, has_id-rows k p xs)

  pub IsUnique-rows : (p : A → Bool) (xs : List A) → IsUnique xs → IsUnique (rows p xs)
  IsUnique-rows p [] h = tt
  IsUnique-rows p (x ∷ xs) (e, h) = elim (Bool-cases (p x)) [
    | inl kept ↦ rw kept (has_id-rows (id x) p xs e, IsUnique-rows p xs h)
    | inr gone ↦ rw gone (IsUnique-rows p xs h)
  ]

  has_id-append :
      (k : String) (x : A) (xs : List A)
      → has_id k xs ≡ false
      → (id x == k) ≡ false
      → has_id k (xs ++ x ∷ []) ≡ false
  has_id-append k x [] h e = ground arith
  has_id-append k x (y ∷ xs) h e = ground (arith, has_id-append k x xs)

  pub IsUnique-append :
      (x : A) (xs : List A) → has_id (id x) xs ≡ false → IsUnique xs → IsUnique (xs ++ x ∷ [])
  IsUnique-append x [] h u = (refl, tt)
  IsUnique-append x (y ∷ xs) h (e, u) = (
    has_id-append (id y) x xs e (ground (arith, eq_iff (id x) (id y), eq_iff (id y) (id x))),
    IsUnique-append x xs (ground arith) u,
  )

  unowned : (k o : String) (xs : List A) → has_id k xs ≡ false → IsOwned k o xs
  unowned k o [] h = tt
  unowned k o (x ∷ xs) h = (λ e. absurd (ground (arith, e)), unowned k o xs (ground arith))

  some-inj : (x y : A) → ◌≡◌ {A = Option A} (some x) (some y) → x ≡ y
  some-inj x y h = ground arith

  -- The row that is found passes the test.
  pub first-passes : (p : A → Bool) (xs : List A) (x : A) → first p xs ≡ some x → p x ≡ true
  first-passes p [] x h = ground arith
  first-passes p (y ∷ xs) x h = elim (Bool-cases (p y)) [
    | inl found ↦ ap p (sym (some-inj y x (sym (if-true _ _ _ found) ∙ h))) ∙ found
    | inr other ↦ first-passes p xs x (sym (if-false _ _ _ other) ∙ h)
  ]

  pub first-change :
      (k : String) (f : A → A) (xs : List A) (x : A)
      → ((y : A) → id (f y) ≡ id y)
      → first (λ y. id y == k) xs ≡ some x
      → first (λ y. id y == k) (change k f xs) ≡ some (f x)
  first-change k f [] x named h = ground arith
  first-change k f (y ∷ xs) x named h = elim (Bool-cases (id y == k)) [
    | inl found ↦
        rw (found, named y, found)
          (ap (λ z. some (f z)) (some-inj y x (sym (if-true _ _ _ found) ∙ h)))
    | inr other ↦ rw (other, other) (first-change k f xs x named (sym (if-false _ _ _ other) ∙ h))
  ]

  first-has_id :
      (p : A → Bool) (xs : List A) (x : A) → first p xs ≡ some x → has_id (id x) xs ≡ true
  first-has_id p [] x h = ground arith
  first-has_id p (y ∷ xs) x h = elim (Bool-cases (p y)) [
    | inl found ↦
        let e : y ≡ x = some-inj y x (sym (if-true _ _ _ found) ∙ h) in
        rw (← e) (ground (arith, eq_iff (id y) (id y)))
    | inr other ↦ ground (arith, first-has_id p xs x (sym (if-false _ _ _ other) ∙ h))
  ]

  -- The key of a row that is found is a key of no row of another organisation.
  pub first-IsOwned :
      (p : A → Bool) (xs : List A) (x : A)
      → IsUnique xs
      → first p xs ≡ some x
      → IsOwned (id x) (org x) xs
  first-IsOwned p [] x u h = tt
  first-IsOwned p (y ∷ xs) x (e, u) h = elim (Bool-cases (p y)) [
    | inl found ↦
        let same : y ≡ x = some-inj y x (sym (if-true _ _ _ found) ∙ h) in
        subst (λ z. IsOwned (id z) (org z) (y ∷ xs)) same (λ _. refl, unowned (id y) (org y) xs e)
    | inr other ↦
        let rest = sym (if-false _ _ _ other) ∙ h in
        (
          λ same. absurd (
              ground (
                arith,
                first-has_id p xs x rest,
                ap (λ i. has_id i xs) ((eq_iff (id y) (id x)).0 same),
                e,
              )),
          first-IsOwned p xs x u rest,
        )
  ]

  -- A key other than the one that is removed.
  pub any_removed :
      (j k : String) (xs : List A)
      → (j == k) ≡ false
      → any (λ x. id x == j && not (not (id x == k))) xs ≡ false
  any_removed j k [] h = refl
  any_removed j k (x ∷ xs) h =
      ground (arith, any_removed j k xs h, eq_iff (id x) j, eq_iff (id x) k, eq_iff j k)

  pub owner-IsOwned : (k o p : String) (xs : List A) → IsOwned k o xs → owner k xs ≡ some p → p ≡ o
  owner-IsOwned k o p [] own h = ground arith
  owner-IsOwned k o p (x ∷ xs) (e, own) h = elim (Bool-cases (id x == k)) [
    | inl same ↦ ground (arith, h, same, e same)
    | inr other ↦ owner-IsOwned k o p xs own (ground (arith, h, other))
  ]

  no-any :
      (j : String) (q : A → Bool) (xs : List A)
      → has_id j xs ≡ false
      → any (λ x. q x && j == id x) xs ≡ false
  no-any j q [] h = refl
  no-any j q (x ∷ xs) h = ground (arith, no-any j q xs, eq_iff j (id x), eq_iff (id x) j)

  -- With unique keys, a row with a key that passes a test is the row with that key.
  pub owner-any :
      (j o : String) (q : A → Bool) (xs : List A)
      → IsUnique xs
      → All (λ x. q x ≡ true → org x ≡ o) xs
      → any (λ x. q x && j == id x) xs ≡ true
      → owner j xs ≡ some o
  owner-any j o q [] u a h = ground arith
  owner-any j o q (x ∷ xs) (e, u) (p, a) h = elim (Bool-cases (id x == j)) [
    | inl same ↦
        let nowhere : has_id j xs ≡ false = rw (← (eq_iff (id x) j).0 same) e in
        ground (arith, h, no-any j q xs nowhere, same, p)
    | inr other ↦ ground (arith, h, other, owner-any j o q xs u a, eq_iff j (id x), eq_iff (id x) j)
  ]

  module _ {κ} (P : A → Type κ) where
    pub All-change :
        (k o : String) (f : A → A) (xs : List A)
        → ((x : A) → org x ≡ o → P x → P (f x))
        → IsOwned k o xs
        → All P xs
        → All P (change k f xs)
    All-change k o f [] step own h = tt
    All-change k o f (x ∷ xs) step (e, own) (p, h) = (
      if-cases P (id x == k) (f x) x (λ same. step x (e same) p) (λ other. p),
      All-change k o f xs step own h,
    )

module _ {ℓ κ μ} {A : Type ℓ} (P : A → Type κ) (Q : A → Type μ) where
  pub All-rows :
      (p : A → Bool) (xs : List A)
      → ((x : A) → p x ≡ true → P x → Q x)
      → All P xs
      → All Q (rows p xs)
  All-rows p [] step h = tt
  All-rows p (x ∷ xs) step (e, h) = elim (Bool-cases (p x)) [
    | inl kept ↦ rw kept (step x kept e, All-rows p xs step h)
    | inr gone ↦ rw gone (All-rows p xs step h)
  ]

  pub All-weaken : (xs : List A) → ((x : A) → P x → Q x) → All P xs → All Q xs
  All-weaken [] step h = tt
  All-weaken (x ∷ xs) step (e, h) = (step x e, All-weaken xs step h)
