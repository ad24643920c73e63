-- ===== src/Money/Double.antt =====
-- The two operations on doubles in `Money.forDuration` (src/common/money/money.ts) whose result
-- may be rounded: a sum of integers below 2 ^ 55, and the floor of a quotient of such integers.
-- Both follow IEEE 754, rounding to the nearest double and from the middle to the even one.
use native.Mathlib.Nat.{
  pow-suc, mul-le-mul_right, div-add-mod, le-div_iff_mul-le, div-le_of_le-mul, div-eq_of_lt-le,
}
use mathlib.Core.Path.{subst}
use gameclub_backend.Prelude.{
  ℕ, zero, suc, ◌+◌, ◌*◌, ◌/◌, ◌%◌, ◌^◌, ◌≤◌, ◌<◌, ◌≡◌, arith, ltb, lt→ltb, ◌==◌, if◌then◌else◌,
}

-- The multiple of the step next to `n`, or of the two the even one: counted in steps.
unfoldable pub nearest_even : ℕ → ℕ → ℕ
nearest_even n step =
    if ltb (2 * (n % step)) step
    then n / step
    else if ltb step (2 * (n % step))
    then n / step + 1
    else if (n / step) % 2 == 0
    then n / step
    else n / step + 1

-- Doubles lie 1 apart below 2 ^ 53, then 2 apart, and 4 apart from 2 ^ 54 to 2 ^ 55.
unfoldable pub double_sum : ℕ → ℕ → ℕ
double_sum a b =
    if ltb (a + b) 9007199254740992
    then a + b
    else if ltb (a + b) 18014398509481984
    then 2 * nearest_even (a + b) 2
    else 4 * nearest_even (a + b) 4

-- The largest power of two that is at most `k`, for `k` below 2 ^ fuel.
unfoldable pub top_power : ℕ → ℕ → ℕ
top_power zero k = 1
top_power (suc fuel) k = let rest = top_power fuel (k / 2) in if ltb k 2 then 1 else 2 * rest

-- How many doubles there are to each unit between `k` and `k + 1`.
unfoldable pub density : ℕ → ℕ
density k = 4503599627370496 / top_power 52 k

-- `Math.floor(x / d)`. Quotients below 1 are taken at the density of [1, 2), which is no finer.
unfoldable pub floor_div : ℕ → ℕ → ℕ
floor_div x d = nearest_even (x * density (x / d)) d / density (x / d)

-- The rounded value is less than one step away, and never below the whole part.
pub nearest_even_bounds :
    (n step : ℕ)
    → 0 < step
    → (n / step ≤ nearest_even n step) × (2 * (step * nearest_even n step) ≤ 2 * n + step)
unfolding nearest_even
nearest_even_bounds n step h = (grind arith, grind arith)

-- A multiple of the step is kept.
nearest_even-multiple : (n step : ℕ) → 0 < step → n % step ≡ 0 → nearest_even n step ≡ n / step
unfolding nearest_even
nearest_even-multiple n step h e = rw e (rw (lt→ltb (2 * 0) step h))

-- Up to 2 ^ 54 the sum of two even numbers is exact.
pub double_sum-exact :
    (a b : ℕ) → (a + b) % 2 ≡ 0 → a + b ≤ 18014398509481984 → double_sum a b ≡ a + b
unfolding double_sum
double_sum-exact a b e h = ground (
  arith,
  nearest_even-multiple (a + b) 2 (omega arith) e,
  nearest_even-multiple (a + b) 4 (omega arith),
)

pub one_le_pow : (m : ℕ) → 1 ≤ 2 ^ m
one_le_pow zero = omega arith
one_le_pow (suc m) = omega (arith, pow-suc 2 m, one_le_pow m)

pub one-le-top_power : (fuel k : ℕ) → 1 ≤ top_power fuel k
unfolding top_power
one-le-top_power zero k = omega arith
one-le-top_power (suc fuel) k = ground (arith, one-le-top_power fuel (k / 2))

pub top_power_bound : (fuel k m : ℕ) → k < 2 ^ suc m → top_power fuel k ≤ 2 ^ m
unfolding top_power
top_power_bound zero k m h = one_le_pow m
top_power_bound (suc fuel) k zero h = rw (lt→ltb k 2 h) (omega arith)
top_power_bound (suc fuel) k (suc m) h =
    let half : k / 2 < 2 ^ suc m = omega (arith, pow-suc 2 (suc m)) in
    grind (arith, top_power_bound fuel (k / 2) m half, pow-suc 2 m, one_le_pow m)

density_bound : (k : ℕ) → k < 4398046511104 → 2048 ≤ density k
unfolding density
density_bound k h =
    (le-div_iff_mul-le (one-le-top_power 52 k)).1 (omega (arith, top_power_bound 52 k 41 h))

floor_close : (k s r : ℕ) → k * s ≤ r → r < k * s + s → r / s ≡ k
floor_close k s r lo hi = div-eq_of_lt-le s lo (omega arith)

scaled_low : (k r s : ℕ) → k * s ≤ (7200 * k + r) * s / 7200
scaled_low k r s = (le-div_iff_mul-le (omega arith)).1 (omega arith)

-- At 2048 doubles to the unit, a quotient with an even remainder by 7200 stays below the next unit.
floor_scaled : (k r s : ℕ) → r ≤ 7198 → 2048 ≤ s → nearest_even ((7200 * k + r) * s) 7200 / s ≡ k
floor_scaled k r s hr hs =
    let near = nearest_even_bounds ((7200 * k + r) * s) 7200 (omega arith) in
    let part : r * s ≤ 7198 * s = mul-le-mul_right s hr in
    let low = scaled_low k r s in
    floor_close k s (nearest_even ((7200 * k + r) * s) 7200) (omega arith) (omega arith)

-- The quotient of an even number by 7200 is never rounded up to the next whole number.
pub floor_div-exact : (x : ℕ) → x % 2 ≡ 0 → x / 7200 < 4398046511104 → floor_div x 7200 ≡ x / 7200
unfolding floor_div
floor_div-exact x e h =
    let split : 7200 * (x / 7200) + x % 7200 ≡ x = div-add-mod x 7200 in
    subst (λ y. nearest_even (y * density (x / 7200)) 7200 / density (x / 7200) ≡ x / 7200) split
      (floor_scaled (x / 7200) (x % 7200) (density (x / 7200)) (omega arith) (density_bound _ h))

-- Rounding adds at most one to the quotient, and at most two to the sum.
floor_div_scaled :
    (k r s : ℕ) → r < 7200 → 1 ≤ s → nearest_even ((7200 * k + r) * s) 7200 / s ≤ k + 1
floor_div_scaled k r s hr hs =
    let near = nearest_even_bounds ((7200 * k + r) * s) 7200 (omega arith) in
    let part : r * s ≤ 7199 * s = mul-le-mul_right s (omega arith) in
    div-le_of_le-mul s (omega arith)

pub floor_div-le : (x : ℕ) → x / 7200 < 4398046511104 → floor_div x 7200 ≤ x / 7200 + 1
unfolding floor_div
floor_div-le x h =
    let split : 7200 * (x / 7200) + x % 7200 ≡ x = div-add-mod x 7200 in
    let dense : 2048 ≤ density (x / 7200) = density_bound _ h in
    subst (λ y. nearest_even (y * density (x / 7200)) 7200 / density (x / 7200) ≤ x / 7200 + 1)
      split
      (floor_div_scaled (x / 7200) (x % 7200) (density (x / 7200)) (omega arith) (omega arith))

pub double_sum-le : (a b : ℕ) → double_sum a b ≤ a + b + 2
unfolding double_sum
double_sum-le a b = ground (
  arith,
  nearest_even_bounds (a + b) 2 (omega arith),
  nearest_even_bounds (a + b) 4 (omega arith),
)
