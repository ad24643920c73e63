-- ===== src/Analytics/Doubles.antt =====
-- The arithmetic on doubles in src/modules/analytics/analytics.service.ts. A double is a fraction
-- over a power of two; quotients and products are rounded to 53 bits as IEEE 754 says.
use gameclub_backend.Prelude.{ℕ, zero, suc, ◌+◌, ◌*◌, ◌-◌, ◌/◌, leb, ltb, if◌then◌else◌}
use gameclub_backend.Prelude.Int.{ℤ, pos, negsuc, neg}
use gameclub_backend.Money.Double.{nearest_even, top_power}

-- The power of two by which `a / t` has its 53 bits before the point; `fuel` is the largest exponent.
unfoldable pub scale : ℕ → ℕ → ℕ → ℕ
scale zero a t = 1
scale (suc fuel) a t =
    let rest = scale fuel (2 * a) t in if leb (4503599627370496 * t) a then 1 else 2 * rest

-- `a / t`, times its scale.
unfoldable pub quotient : ℕ → ℕ → ℕ
unfolding scale nearest_even
quotient a t = nearest_even (a * scale 106 a t) t

-- The distance of the doubles at `n`, and the double next to `n`: for `n` below 2 ^ 71.
unfoldable pub spacing : ℕ → ℕ
unfolding top_power
spacing n = if ltb n 9007199254740992 then 1 else top_power 70 n / 4503599627370496

unfoldable pub to_double : ℕ → ℕ
unfolding spacing nearest_even
to_double n = nearest_even n (spacing n) * spacing n

-- `Number` of the text of a sum.
unfoldable pub number : ℤ → ℤ
unfolding to_double
number (pos n) = pos (to_double n)
number (negsuc n) = neg (to_double (suc n))

-- `Math.round(x)` of the double `x = r / s`.
unfoldable pub math_round : ℕ → ℕ → ℕ
math_round r s = (2 * r + s) / (2 * s)

-- `Math.round((active / total) * 10000)`; the service divides this by 100.
unfoldable pub occupancy_hundredths : ℕ → ℕ → ℕ
unfolding quotient scale to_double math_round
occupancy_hundredths active total =
    math_round (to_double (quotient active total * 10000)) (scale 106 active total)

-- `Math.round(p / n)`. The double quotient of integers below 2 ^ 52 lies on the same side of each
-- half as the exact one, so it is rounded here from the exact one.
unfoldable pub round_quotient : ℤ → ℕ → ℤ
round_quotient (pos p) n = pos ((2 * p + n) / (2 * n))
round_quotient (negsuc p) n = neg ((2 * suc p + n - 1) / (2 * n))
