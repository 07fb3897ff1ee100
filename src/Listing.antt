-- ===== src/Listing.antt =====
-- The pages of the listing views: `limit` and `offset` of the query, and the slice of the query's rows.
-- Used by AuditLogListView of api/views_audit.py and by the listings of api/views_admin_*.py.
pub mod Pages
mod Tests
use django_boilerplate.Prelude.{
  ℕ, zero, suc, ◌+◌, ◌-◌, ◌≡◌, refl, Bool, Option, none, some, List, [], ◌∷◌, ◌++◌, rows, leb, ltb,
  ℤ, pos, negsuc, length, if◌then◌else◌,
}

-- A parameter that `int` is called on.
pub data Number : Type 0 where
  absent : Number
  not_a_number : Number
  number : ℤ → Number

-- `int(request.query_params.get(name, default))`, none for the ValueError.
abbrev pub int_or : (default : ℕ) → Number → Option ℤ
int_or default absent = some (pos default)
int_or default not_a_number = none
int_or default (number z) = some z

-- `min(limit, most)`
abbrev pub at_most : (most : ℕ) → ℤ → ℤ
at_most most (negsuc n) = negsuc n
at_most most (pos n) = if leb n most then pos n else pos most

module _ {ℓ} {A : Type ℓ} where
  unfoldable pub take : ℕ → List A → List A
  take zero xs = []
  take (suc n) [] = []
  take (suc n) (x ∷ xs) = x ∷ take n xs

  unfoldable pub drop : ℕ → List A → List A
  drop zero xs = xs
  drop (suc n) [] = []
  drop (suc n) (x ∷ xs) = drop n xs

-- `offset + limit`, none where it is negative.
abbrev pub stop_of : ℕ → ℤ → Option ℕ
stop_of offset (pos n) = some (offset + n)
stop_of offset (negsuc n) = if ltb n offset then some (offset - suc n) else none

module _ {ℓ} {A : Type ℓ} where
  between : ℕ → Option ℕ → List A → Option (List A)
  between start none xs = none
  between start (some stop) xs = some (take (stop - start) (drop start xs))

  -- `queryset[offset : offset + limit]`; Django raises a ValueError on a negative bound.
  unfoldable pub slice : (offset limit : ℤ) → List A → Option (List A)
  unfolding between
  slice (negsuc n) limit xs = none
  slice (pos n) limit xs = between n (stop_of n limit) xs

pub record Page {ℓ} (A : Type ℓ) : Type ℓ where
  pub count : ℕ
  pub limit : ℤ
  pub offset : ℤ
  pub results : List A

module _ {ℓ} {A : Type ℓ} where
  with_results : Option (List A) → (offset limit : ℤ) → ℕ → Option (Page A)
  with_results none offset limit count = none
  with_results (some xs) offset limit count =
      some record { count = count; limit = limit; offset = offset; results = xs }

  with_numbers : Option ℤ → Option ℤ → List A → Option (Page A)
  with_numbers none offset xs = none
  with_numbers (some limit) none xs = none
  with_numbers (some limit) (some offset) xs =
      with_results (slice offset (at_most 1000 limit) xs) offset (at_most 1000 limit) (length xs)

  -- The answer of a listing, none for a ValueError.
  unfoldable pub page : (limit offset : Number) → List A → Option (Page A)
  unfolding with_results with_numbers
  page limit offset xs = with_numbers (int_or 50 limit) (int_or 0 offset) xs

-- How a listing is answered.
pub data Listed {ℓ} (A : Type ℓ) : Type ℓ where
  forbidden : Listed A
  not_found : Listed A
  server_error : Listed A
  ok : Page A → Listed A

module _ {ℓ} {A : Type ℓ} where
  -- `order_by("-created_at")`, of rows in the order of their creation.
  unfoldable pub newest_first : List A → List A
  newest_first [] = []
  newest_first (x ∷ xs) = newest_first xs ++ x ∷ []

  as_listed : Option (Page A) → Listed A
  as_listed none = server_error
  as_listed (some p) = ok p

  -- The page of the rows that pass, where the keys in the query can be read.
  unfoldable pub listed :
      (keys_ok : Bool) → (limit offset : Number) → (A → Bool) → List A → Listed A
  unfolding as_listed
  listed keys_ok limit offset passes xs =
      if keys_ok
      then as_listed (page limit offset (newest_first (rows passes xs)))
      else server_error
