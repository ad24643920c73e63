-- ===== src/Analytics/Rounding.antt =====
-- How close the averages and the occupancy rate of src/modules/analytics/analytics.service.ts are.
use native.Mathlib.Nat.{le-div_iff_mul-le, div-le_of_le-mul, pow-suc}
use gameclub_backend.Prelude.{
  ℕ, zero, suc, ◌+◌, ◌*◌, ◌-◌, ◌/◌, ◌≤◌, ◌<◌, ◌^◌, ◌≡◌, ap, ◌∙◌, arith, leb, ltb, true, refl, ◌%◌,
  Bool-cases, inl, inr, leb→le,
}
use gameclub_backend.Prelude.Int.{ℤ, pos, negsuc, pos_part, neg_part, neg}
use gameclub_backend.Money.{is_safe, max_safe}
use gameclub_backend.Money.Double.{
  nearest_even, top_power, nearest_even_bounds, top_power_bound, one-le-top_power, one_le_pow,
}
use gameclub_backend.Analytics.Doubles.{number, scale, spacing, to_double, round_quotient}

-- `q` is `p / n` rounded to the nearest whole number, halves up.
pub record IsRounded (p : ℤ) (n : ℕ) (q : ℤ) : Type 0 where
  pub below : 2 * (n * pos_part q) + 2 * neg_part p ≤ 2 * pos_part p + n + 2 * (n * neg_part q)
  pub above :
      2 * pos_part p + n + 2 * (n * neg_part q) < 2 * (n * pos_part q) + 2 * neg_part p + 2 * n

neg_parts : (q : ℕ) → (pos_part (neg q) ≡ 0) × (neg_part (neg q) ≡ q)
neg_parts q = (ground arith, ground arith)

rounded_down :
    (m n : ℕ)
    → 0 < n
    → (2 * (n * ((2 * m + n - 1) / (2 * n))) ≤ 2 * m + n - 1)
      × (2 * m + n - 1 < 2 * (n * ((2 * m + n - 1) / (2 * n))) + 2 * n)
rounded_down m n h = (grind arith, grind arith)

pub round_quotient-IsRounded : (p : ℤ) (n : ℕ) → 0 < n → IsRounded p n (round_quotient p n)
unfolding round_quotient
round_quotient-IsRounded (pos p) n h = grind arith
round_quotient-IsRounded (negsuc p) n h =
    let (zero_part, part) = neg_parts ((2 * suc p + n - 1) / (2 * n)) in
    let (low, high) = rounded_down (suc p) n h in
    record {
      below = rw (zero_part, part) (omega arith);
      above = rw (zero_part, part) (omega arith);
    }

-- Both sides of the rounding to the nearest, ties either way.
pub nearest_even_half : (n step : ℕ) → 0 < step → 2 * n ≤ 2 * (step * nearest_even n step) + step
unfolding nearest_even
nearest_even_half n step h = grind arith

regroup : (a x : ℕ) → 2 * a * x ≡ a * (2 * x)
regroup a x = grind arith

doubled : (a fuel : ℕ) → 2 * a * 2 ^ fuel ≡ a * 2 ^ suc fuel
doubled a fuel = regroup a (2 ^ fuel) ∙ ap (λ y. a * y) (omega (arith, pow-suc 2 fuel))

-- The scaled number has 53 bits before the point.
pub scale_large :
    (fuel a t : ℕ) → t * 4503599627370496 ≤ a * 2 ^ fuel → t * 4503599627370496 ≤ a * scale fuel a t
unfolding scale
scale_large zero a t k = omega arith
scale_large (suc fuel) a t k =
    let rest = scale_large fuel (2 * a) t (rw (doubled a fuel) k) in
    elim (Bool-cases (leb (4503599627370496 * t) a)) [
      | inl e ↦ rw e (omega (arith, leb→le (4503599627370496 * t) a e))
      | inr e ↦ rw e (omega (arith, regroup a (scale fuel (2 * a) t)))
    ]

pub scale_small :
    (fuel a t : ℕ) → a < t * 9007199254740992 → a * scale fuel a t < t * 9007199254740992
unfolding scale
scale_small zero a t h = omega arith
scale_small (suc fuel) a t h = elim (Bool-cases (leb (4503599627370496 * t) a)) [
  | inl e ↦ rw e (omega arith)
  | inr e ↦ rw e (grind (arith, scale_small fuel (2 * a) t (ground arith)))
]

top_power_least : (fuel k m : ℕ) → m ≤ fuel → 2 ^ m ≤ k → 2 ^ m ≤ top_power fuel k
unfolding top_power
top_power_least fuel k zero h e = one-le-top_power fuel k
top_power_least zero k (suc m) h e = absurd (omega arith)
top_power_least (suc fuel) k (suc m) h e =
    let twice : 2 ^ suc m ≡ 2 * 2 ^ m = omega (arith, pow-suc 2 m) in
    let one = one_le_pow m in
    let rest = top_power_least fuel (k / 2) m (omega arith) (omega arith) in rw twice (ground arith)

spacing_pos : (n : ℕ) → 1 ≤ spacing n
unfolding spacing
spacing_pos n = elim (Bool-cases (ltb n 9007199254740992)) [
  | inl e ↦ rw e (omega arith)
  | inr e ↦
      let large : 9007199254740992 ≤ n = ground arith in
      let least : 9007199254740992 ≤ top_power 70 n =
        top_power_least 70 n 53 (omega arith) (omega arith) in
      rw e ((le-div_iff_mul-le (omega arith)).1 (omega arith))
]

pub spacing_bound : (n : ℕ) → n < 147573952589676412928 → spacing n ≤ 16384
unfolding spacing
spacing_bound n h = elim (Bool-cases (ltb n 9007199254740992)) [
  | inl e ↦ rw e (omega arith)
  | inr e ↦
      rw e
        (div-le_of_le-mul 4503599627370496 (omega (arith, top_power_bound 70 n 66 (omega arith))))
]

nearest_even_one : (n : ℕ) → nearest_even n 1 ≡ n
unfolding nearest_even
nearest_even_one n = let whole : n % 1 ≡ 0 = omega arith in rw whole (omega arith)

spacing_one : (n : ℕ) → n ≤ max_safe → spacing n ≡ 1
unfolding spacing
spacing_one n h = elim (Bool-cases (ltb n 9007199254740992)) [
  | inl e ↦ rw e refl
  | inr e ↦ absurd (ground arith)
]

to_double_exact : (n : ℕ) → n ≤ max_safe → to_double n ≡ n
unfolding to_double
to_double_exact n h = rw (spacing_one n h, nearest_even_one n) (omega arith)

-- `Number` changes no safe integer.
pub number_exact : (v : ℤ) → is_safe v ≡ true → number v ≡ v
unfolding number
number_exact (pos n) h = ap pos (to_double_exact n (ground arith))
number_exact (negsuc n) h = ap neg (to_double_exact (suc n) (ground arith)) ∙ ground arith

-- A double is at most half a spacing away.
pub to_double_close :
    (n : ℕ) → (2 * to_double n ≤ 2 * n + spacing n) × (2 * n ≤ 2 * to_double n + spacing n)
unfolding to_double
to_double_close n =
    let (low, high) = nearest_even_bounds n (spacing n) (omega (arith, spacing_pos n)) in
    let half = nearest_even_half n (spacing n) (omega (arith, spacing_pos n)) in
    (grind arith, grind arith)
