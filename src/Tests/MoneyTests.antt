-- ===== src/Tests/MoneyTests.antt =====
-- Money and plans at concrete rates: 1,200,000 an hour.
use gameclub_backend.Prelude.{ℕ, ◌≡◌, ◌↔◌, ◌≤◌, ◌*◌, ◌+◌, refl, some, none, arith}
use gameclub_backend.Prelude.Int.{pos, pos_part}
use gameclub_backend.Common.Errors.{ok}
use gameclub_backend.Money.{Money, integer, for_duration, charge, round_charge, from_minor}
use gameclub_backend.Money.Double.{floor_div, nearest_even, double_sum, density, top_power}
use gameclub_backend.Money.Charge.{IsHalfUp, Accepts, for_duration-IsHalfUp, for_duration-Accepts}
use gameclub_backend.Money.Text.{from_string, to_string, from_string-to_string}
use gameclub_backend.Entities.Club.{Session, fixed_duration}
use gameclub_backend.Pricing.{ExtendParams, plan, extend, quote, diff_seconds}
use gameclub_backend.Pricing.Plans.{for_minutes, extend-eq-plan}
use gameclub_backend.Tests.Data.{running}

for_duration-IsHalfUp_example :
    (c : ℕ) × (for_duration (integer (pos 1200000)) (integer (pos 5400))
      ≡ ok (record { minor = pos c }))
    × IsHalfUp (1200000 * 5400) c
for_duration-IsHalfUp_example = for_duration-IsHalfUp 1200000 5400 (omega arith)

for_duration-Accepts_example :
    ((m : Money) × (for_duration (integer (pos 1200000)) (integer (pos 5400)) ≡ ok m))
    ↔ Accepts (integer (pos 1200000)) (integer (pos 5400))
for_duration-Accepts_example = for_duration-Accepts (integer (pos 1200000)) (integer (pos 5400))

from_string-to_string_example :
    from_string (to_string (record { minor = pos 1200000 })) ≡ ok (record { minor = pos 1200000 })
from_string-to_string_example = from_string-to_string (record { minor = pos 1200000 }) refl

-- A fixed session of one hour from the time 0.
abbrev fixed_hour : Session
fixed_hour = record running {
  type = fixed_duration;
  planned_end_at = some 3600000;
  amount_due = pos 1200000;
}

abbrev half_more : ExtendParams
half_more = record { add_minutes = some (pos 30); new_end_at = none }

extend-eq-plan_example :
    extend fixed_hour half_more ≡ plan fixed_duration (pos 1200000) 0 (for_minutes (pos (60 + 30)))
extend-eq-plan_example = extend-eq-plan fixed_hour 60 30 refl refl (omega arith)

extended :
    extend fixed_hour half_more
    ≡ ok (record { planned_end_at = some 5400000; planned_amount = record { minor = pos 1800000 } })
unfolding extend for_duration charge round_charge floor_div nearest_even double_sum density
    top_power from_minor diff_seconds
extended = refl

to_old_end :
    for_duration (integer (pos 1200000)) (integer (diff_seconds 0 3600000))
    ≡ ok (record { minor = pos 1200000 })
unfolding for_duration charge round_charge floor_div nearest_even double_sum density top_power
    from_minor diff_seconds
to_old_end = refl

within : 1200000 * pos_part (diff_seconds 0 5400000) ≤ 9007199254739192
unfolding diff_seconds
within = omega arith

quote_first : quote running 3600000 ≡ ok (record { minor = pos 1200000 })
unfolding quote for_duration charge round_charge floor_div nearest_even double_sum density top_power
    from_minor diff_seconds
quote_first = refl

quote_later : quote running 5400000 ≡ ok (record { minor = pos 1800000 })
unfolding quote for_duration charge round_charge floor_div nearest_even double_sum density top_power
    from_minor diff_seconds
quote_later = refl
