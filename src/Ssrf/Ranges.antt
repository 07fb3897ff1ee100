-- ===== src/Ssrf/Ranges.antt =====
-- The ranges of api/ssrf.py as intervals of addresses.
use native.Mathlib.Nat.{div-add-mod, mod-lt, mul-le-mul_left}
use django_boilerplate.Prelude.{
  ◌≡◌, refl, ap, ℕ, ◌+◌, ◌-◌, ◌*◌, ◌/◌, ◌%◌, ◌^◌, ◌≤◌, ◌<◌, ◌⊎◌, ◌↔◌, inl, inr, Bool, true, false,
  ◌&&◌, List, [], ◌∷◌, arith, eqb, leb, ltb, any, all, All, Bool-cases, leb→le,
}
use django_boilerplate.Ssrf.{
  v4, v6, Network, is_in, is_private_ip, private_ipv4_ranges, private_ipv6_ranges,
}

-- Below the first address of a network, or past its last.
abbrev pub IsOutside : ℕ → Network → Type 0
IsOutside n r = (n < r.base) ⊎ (r.base + 2 ^ r.free_bits ≤ n)

-- The first address is a multiple of the size.
abbrev IsAligned : Network → Type 0
IsAligned r = (m : ℕ) × (r.base ≡ m * 2 ^ r.free_bits) × (1 ≤ 2 ^ r.free_bits)

module _ (n m s : ℕ) (positive : 1 ≤ s) where
  quotient-eq : m * s ≤ n → n < m * s + s → n / s ≡ m
  quotient-eq low high = elim (Bool-cases (leb (n / s + 1) m)) [
    | inl less ↦
        absurd
          (omega (arith, mul-le-mul_left s (leb→le _ _ less), div-add-mod n s, mod-lt n positive))
    | inr more ↦ elim (Bool-cases (leb (m + 1) (n / s))) [
      | inl greater ↦
          absurd (omega (arith, mul-le-mul_left s (leb→le _ _ greater), div-add-mod n s))
      | inr rest ↦ ground arith
    ]
  ]

  block-start : n - n % s ≡ (n / s) * s
  block-start = omega (arith, div-add-mod n s)

  is_in-inside : m * s ≤ n → n < m * s + s → n - n % s ≡ m * s
  is_in-inside low high = omega (arith, div-add-mod n s, ap (λ q. q * s) (quotient-eq low high))

  inside-is_in : n - n % s ≡ m * s → (m * s ≤ n) × (n < m * s + s)
  inside-is_in h =
      (omega (arith, div-add-mod n s), omega (arith, div-add-mod n s, mod-lt n positive))

is_in-IsOutside : (n : ℕ) (r : Network) → IsAligned r → is_in n r ≡ false → IsOutside n r
is_in-IsOutside n r (m, base, positive) h = elim (Bool-cases (ltb n r.base)) [
  | inl below ↦ inl (ground arith)
  | inr from ↦ elim (Bool-cases (leb (r.base + 2 ^ r.free_bits) n)) [
    | inl past ↦ inr (leb→le _ _ past)
    | inr until ↦ absurd (
        ground (
          arith,
          is_in-inside n m (2 ^ r.free_bits) positive (ground (arith, base)) (ground (arith, base)),
          base,
        ))
  ]
]

IsOutside-is_in : (n : ℕ) (r : Network) → IsAligned r → IsOutside n r → is_in n r ≡ false
IsOutside-is_in n r (m, base, positive) out =
    ground (arith, inside-is_in n m (2 ^ r.free_bits) positive, base)

module _ (n : ℕ) where
  All-IsOutside :
      (rs : List Network) → All IsAligned rs → any (is_in n) rs ≡ false → All (IsOutside n) rs
  All-IsOutside [] aligned h = tt
  All-IsOutside (r ∷ rs) (a, aligned) h =
      (is_in-IsOutside n r a (ground arith), All-IsOutside rs aligned (ground arith))

  outside-All :
      (rs : List Network) → All IsAligned rs → All (IsOutside n) rs → any (is_in n) rs ≡ false
  outside-All [] aligned out = refl
  outside-All (r ∷ rs) (a, aligned) (o, out) =
      rw (IsOutside-is_in n r a o) (outside-All rs aligned out)

abbrev is_aligned : Network → Bool
is_aligned r = eqb (r.base % 2 ^ r.free_bits) 0 && leb 1 (2 ^ r.free_bits)

IsAligned-of_test : (rs : List Network) → all is_aligned rs ≡ true → All IsAligned rs
IsAligned-of_test [] h = tt
IsAligned-of_test (r ∷ rs) h = (
  (r.base / 2 ^ r.free_bits, ground (arith, div-add-mod r.base (2 ^ r.free_bits)), ground arith),
  IsAligned-of_test rs (ground arith),
)

-- A version 4 address is not private exactly if it is below or past each of the listed networks.
pub public_v4 : (n : ℕ) → (is_private_ip (v4 n) ≡ false) ↔ All (IsOutside n) private_ipv4_ranges
unfolding is_private_ip
public_v4 n =
    let aligned = IsAligned-of_test private_ipv4_ranges refl in
    (All-IsOutside n private_ipv4_ranges aligned, outside-All n private_ipv4_ranges aligned)

-- A version 6 address is not private exactly if it is below or past each of the listed networks.
pub public_v6 : (n : ℕ) → (is_private_ip (v6 n) ≡ false) ↔ All (IsOutside n) private_ipv6_ranges
unfolding is_private_ip
public_v6 n =
    let aligned = IsAligned-of_test private_ipv6_ranges refl in
    (All-IsOutside n private_ipv6_ranges aligned, outside-All n private_ipv6_ranges aligned)
