-- ===== src/Listing/Tests.antt =====
-- Three rows read in pages of two.
use django_boilerplate.Prelude.{ℕ, ◌≡◌, refl, none, List, [], ◌∷◌, arith, pos, negsuc}
use django_boilerplate.Listing.{number, slice, page}
use django_boilerplate.Listing.Pages.{collect, collect-all}

beyond : page {A = ℕ} (number (pos 5)) (number (negsuc 0)) (1 ∷ 2 ∷ []) ≡ none
unfolding page slice
beyond = refl

abbrev three : List ℕ
three = 1 ∷ 2 ∷ 3 ∷ []

collect-all_example : collect 2 2 0 three ≡ three
collect-all_example = collect-all 2 2 three (omega arith) (omega arith)
