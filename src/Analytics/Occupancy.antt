-- ===== src/Analytics/Occupancy.antt =====
-- How close the occupancy rate of src/modules/analytics/analytics.service.ts is.
use native.Mathlib.Nat.{mul-le-mul_left, mul-le-mul_right}
use native.Mathlib.Decide.{dec_lt}
use gameclub_backend.Prelude.{ℕ, zero, suc, ◌+◌, ◌*◌, ◌≤◌, ◌<◌, ◌≡◌, ap, ◌∙◌, arith}
use gameclub_backend.Money.Double.{nearest_even, nearest_even_bounds}
use gameclub_backend.Analytics.Doubles.{
  scale, quotient, spacing, to_double, math_round, occupancy_hundredths,
}
use gameclub_backend.Analytics.Rounding.{
  nearest_even_half, scale_large, scale_small, spacing_bound, to_double_close,
}

-- The error of the two roundings is less than what parts a hundredth from the next.
not_above :
    (a t s m r h d : ℕ)
    → 2 * (s * h) ≤ 2 * r + s
    → 2 * r ≤ 2 * (m * 10000) + d
    → 2 * (t * m) ≤ 2 * (a * s) + t
    → t * (10000 + d) < s
    → 2 * (t * h) ≤ 20000 * a + t
not_above a t s m r h d p q u v = elim (dec_lt (20000 * a + t) (2 * (t * h))) [
  | no out ↦ omega arith
  | yes out ↦
      let f1 = mul-le-mul_left t p in
      let f2 = mul-le-mul_left t q in let f3 = mul-le-mul_left s out in absurd (grind arith)
]

not_below :
    (a t s m r h d : ℕ)
    → 2 * r + s ≤ 2 * (s * h) + 2 * s
    → 2 * (m * 10000) ≤ 2 * r + d
    → 2 * (a * s) ≤ 2 * (t * m) + t
    → t * (10000 + d) < s
    → 20000 * a ≤ 2 * (t * h) + t
not_below a t s m r h d p q u v = elim (dec_lt (2 * (t * h) + t) (20000 * a)) [
  | no out ↦ omega arith
  | yes out ↦
      let f1 = mul-le-mul_left t p in
      let f2 = mul-le-mul_left t q in let f3 = mul-le-mul_left s out in absurd (grind arith)
]

math_round_lem :
    (r s : ℕ)
    → 0 < s
    → (2 * (s * math_round r s) ≤ 2 * r + s) × (2 * r + s ≤ 2 * (s * math_round r s) + 2 * s)
unfolding math_round
math_round_lem r s h = (grind arith, grind arith)

-- `h` hundredths are a nearest whole number of hundredths to `a / t`, which is times 10000.
abbrev pub IsNearest : ℕ → ℕ → ℕ → Type 0
IsNearest a t h = (2 * (t * h) ≤ 20000 * a + t) × (20000 * a ≤ 2 * (t * h) + t)

cancel_le : (t m x b : ℕ) → 1 ≤ t → 2 * (t * m) ≤ 2 * x + t → x < t * b → m ≤ b
cancel_le t m x b ht h k = elim (dec_lt b m) [
  | no out ↦ omega arith
  | yes out ↦ let f = mul-le-mul_left t out in absurd (grind arith)
]

scale_bound : (a t s b : ℕ) → 1 ≤ t → a ≤ t → t * b ≤ a * s → b ≤ s
scale_bound a t s b ht le h = elim (dec_lt s b) [
  | no out ↦ omega arith
  | yes out ↦ let f = mul-le-mul_left t out in let g = mul-le-mul_right s le in absurd (grind arith)
]

gap_lem : (t d s : ℕ) → t ≤ 1000000000 → d ≤ 16384 → 4503599627370496 ≤ s → t * (10000 + d) < s
gap_lem t d s ht hd hs = let f = mul-le-mul_left t hd in omega arith

occupancy_close :
    (a t s : ℕ)
    → 1 ≤ t
    → t ≤ 1000000000
    → a ≤ t
    → t * 4503599627370496 ≤ a * s
    → a * s < t * 9007199254740992
    → IsNearest a t (math_round (to_double (nearest_even (a * s) t * 10000)) s)
occupancy_close a t s ht small le large below =
    let m = nearest_even (a * s) t in
    let (low, high) = nearest_even_bounds (a * s) t ht in
    let half = nearest_even_half (a * s) t ht in
    let m_small : m ≤ 9007199254740992 = cancel_le t m (a * s) 9007199254740992 ht high below in
    let d = spacing (m * 10000) in
    let d_small : d ≤ 16384 = spacing_bound (m * 10000) (omega arith) in
    let (over, under) = to_double_close (m * 10000) in
    let s_large : 4503599627370496 ≤ s = scale_bound a t s 4503599627370496 ht le large in
    let (h1, h2) = math_round_lem (to_double (m * 10000)) s (omega arith) in
    let gap : t * (10000 + d) < s = gap_lem t d s small d_small s_large in
    (
      not_above a t s m (to_double (m * 10000)) _ d h1 over high gap,
      not_below a t s m (to_double (m * 10000)) _ d h2 under half gap,
    )

one-le-scale : (fuel a t : ℕ) → 1 ≤ scale fuel a t
unfolding scale
one-le-scale zero a t = omega arith
one-le-scale (suc fuel) a t = ground (arith, one-le-scale fuel (2 * a) t)

nearest_even_zero : (t : ℕ) → 1 ≤ t → nearest_even 0 t ≡ 0
unfolding nearest_even
nearest_even_zero t h = grind arith

to_double_zero : to_double 0 ≡ 0
unfolding to_double
to_double_zero = omega arith

zero_close :
    (t s : ℕ) → 1 ≤ t → 1 ≤ s → math_round (to_double (nearest_even (0 * s) t * 10000)) s ≡ 0
unfolding math_round
zero_close t s ht hs =
    let none_there : nearest_even (0 * s) t ≡ 0 =
      ap (λ x. nearest_even x t) (omega arith) ∙ nearest_even_zero t ht in
    rw (none_there, to_double_zero) (grind arith)

-- With up to 10 ^ 9 computers and no more active sessions than computers, the occupancy rate is a
-- nearest hundredth of a percent to the exact one; of two that are as near it may be either.
pub occupancy-IsNearest :
    (active total : ℕ)
    → 1 ≤ total
    → total ≤ 1000000000
    → active ≤ total
    → IsNearest active total (occupancy_hundredths active total)
unfolding occupancy_hundredths quotient
occupancy-IsNearest zero t ht small le =
    let nothing = zero_close t (scale 106 0 t) ht (one-le-scale 106 0 t) in
    (rw nothing (omega arith), omega arith)
occupancy-IsNearest (suc a) t ht small le =
    occupancy_close (suc a) t (scale 106 (suc a) t) ht small le
      (scale_large 106 (suc a) t (omega arith)) (scale_small 106 (suc a) t (omega arith))
