-- ===== src/Money/Charge.antt =====
-- What `Money.forDuration` (src/common/money/money.ts) promises of its result: half-up rounding,
-- a charge that grows with the time, and the range of rates and durations that it accepts.
use native.Mathlib.Nat.{mul-le-mul_left}
use gameclub_backend.Prelude.{ℕ, ◌+◌, ◌*◌, ◌/◌, ◌≤◌, ◌<◌, ◌≡◌, refl, ap, ◌∙◌, ◌↔◌, arith}
use gameclub_backend.Prelude.Int.{pos, negsuc}
use gameclub_backend.Common.Errors.{ok}
use gameclub_backend.Money.{
  JsNumber, integer, other, Money, max_safe, round_charge, charge, for_duration,
}
use gameclub_backend.Money.Double.{
  floor_div, double_sum, floor_div-exact, double_sum-exact, nearest_even, density, top_power,
  floor_div-le, double_sum-le,
}

-- `c` is `n / 3600` rounded to the nearest whole number, halves up.
pub record IsHalfUp (n c : ℕ) : Type 0 where
  pub below : 3600 * c ≤ n + 1800
  pub above : n + 1800 < 3600 * c + 3600

-- The largest numerator whose rounding is certain.
abbrev pub exact_limit : ℕ
exact_limit = 9007199254739192

pub round_charge-exact : (n : ℕ) → n ≤ exact_limit → round_charge n ≡ (n * 2 + 3600) / 7200
unfolding round_charge
round_charge-exact n h =
    rw (double_sum-exact (n * 2) 3600 (omega arith) (omega arith))
      (floor_div-exact (n * 2 + 3600) (omega arith) (omega arith))

pub round_charge-IsHalfUp : (n : ℕ) → n ≤ exact_limit → IsHalfUp n (round_charge n)
round_charge-IsHalfUp n h = omega (arith, round_charge-exact n h)

-- The charge of a rate and a duration whose product is at most 2 ^ 53 - 1800 is their product
-- divided by 3600, rounded to the nearest whole number and halves up.
pub for_duration-IsHalfUp :
    (rate seconds : ℕ)
    → rate * seconds ≤ exact_limit
    → (c : ℕ) × (for_duration (integer (pos rate)) (integer (pos seconds))
        ≡ ok (record { minor = pos c }))
      × IsHalfUp (rate * seconds) c
unfolding for_duration charge
for_duration-IsHalfUp rate seconds h =
    let half_up = round_charge-IsHalfUp (rate * seconds) h in
    (round_charge (rate * seconds), ground arith, half_up)

-- Non-negative integers with a product in the safe integer range.
abbrev pub Accepts : JsNumber → JsNumber → Type 0
Accepts (integer (pos rate)) (integer (pos seconds)) = rate * seconds ≤ max_safe
Accepts (integer (pos rate)) _ = ⊥
Accepts _ _ = ⊥

round_charge-le : (n : ℕ) → n ≤ max_safe → round_charge n ≤ max_safe
unfolding round_charge
round_charge-le n h =
    let sum = double_sum-le (n * 2) 3600 in
    let quotient = floor_div-le (double_sum (n * 2) 3600) (omega arith) in omega arith

charge_ok :
    (rate seconds : ℕ)
    → rate * seconds ≤ max_safe
    → charge rate seconds ≡ ok (record { minor = pos (round_charge (rate * seconds)) })
unfolding charge
charge_ok rate seconds h = ground (arith, round_charge-le (rate * seconds) h)

charge_safe :
    (rate seconds : ℕ) (m : Money) → charge rate seconds ≡ ok m → rate * seconds ≤ max_safe
unfolding charge
charge_safe rate seconds m h = ground arith

-- `forDuration` succeeds exactly for a rate and a duration that are non-negative integers with a
-- product in the safe integer range.
pub for_duration-Accepts :
    (rate seconds : JsNumber)
    → ((m : Money) × (for_duration rate seconds ≡ ok m)) ↔ Accepts rate seconds
unfolding for_duration
for_duration-Accepts (integer (pos rate)) (integer (pos seconds)) = (
  λ r. charge_safe rate seconds r.0 r.1,
  λ h. (record { minor = pos (round_charge (rate * seconds)) }, charge_ok rate seconds h),
)
for_duration-Accepts (integer (pos rate)) (integer (negsuc n)) =
    (λ r. absurd (cc r.1), λ h. absurd h)
for_duration-Accepts (integer (pos rate)) other = (λ r. absurd (cc r.1), λ h. absurd h)
for_duration-Accepts (integer (negsuc n)) seconds = (λ r. absurd (cc r.1), λ h. absurd h)
for_duration-Accepts other seconds = (λ r. absurd (cc r.1), λ h. absurd h)

charge_value :
    (rate s c : ℕ) → charge rate s ≡ ok (record { minor = pos c }) → c ≡ round_charge (rate * s)
unfolding charge
charge_value rate s c h = ground arith

pub for_duration_safe :
    (rate n : ℕ) (m : Money)
    → for_duration (integer (pos rate)) (integer (pos n)) ≡ ok m
    → rate * n ≤ max_safe
unfolding for_duration
for_duration_safe rate n m h = charge_safe rate n m h

-- A longer time at one rate never costs less.
pub for_duration_mono :
    (rate s t c d : ℕ)
    → s ≤ t
    → rate * t ≤ exact_limit
    → for_duration (integer (pos rate)) (integer (pos s)) ≡ ok (record { minor = pos c })
    → for_duration (integer (pos rate)) (integer (pos t)) ≡ ok (record { minor = pos d })
    → c ≤ d
unfolding for_duration
for_duration_mono rate s t c d h lim p q =
    let grown : rate * s ≤ rate * t = mul-le-mul_left rate h in
    let first = charge_value rate s c p in
    let second = charge_value rate t d q in
    omega (arith, round_charge-exact (rate * s) (omega arith), round_charge-exact (rate * t) lim)

charge_at_edge : round_charge 9007199254740599 ≡ 2501999792984
unfolding round_charge double_sum floor_div nearest_even density top_power
charge_at_edge = refl

-- At the upper end of the safe integers the sum with 3600 is rounded, and the charge is too high
-- by one: the double division is not the integer division of the comment.
pub for_duration-off_by_one :
    (rate seconds : ℕ)
    → rate * seconds ≡ 9007199254740599
    → (for_duration (integer (pos rate)) (integer (pos seconds))
        ≡ ok (record { minor = pos 2501999792984 }))
      × IsHalfUp (rate * seconds) 2501999792983
unfolding for_duration
for_duration-off_by_one rate seconds h = (
  charge_ok rate seconds (omega arith)
      ∙ ap (λ n. ok (record { minor = pos (round_charge n) })) h
      ∙ ap (λ c. ok (record { minor = pos c })) charge_at_edge,
  omega arith,
)
