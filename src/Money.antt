-- ===== src/Money.antt =====
-- The value object of src/common/money/money.ts: whole minor units in the safe integer range.
-- Sums, differences and products are taken exactly and then tested: where the exact result is a
-- safe integer the double is that integer, and where it is not, the rounded double is not safe.
pub mod Double
pub mod Charge
pub mod Text
pub mod Column
use gameclub_backend.Prelude.{
  ℕ, ◌+◌, ◌*◌, ◌-◌, ◌/◌, ◌^◌, Bool, true, false, not, ◌&&◌, List, [], ◌∷◌, leb, ltb, ◌==◌,
  if◌then◌else◌,
}
use gameclub_backend.Prelude.Int.{
  ℤ, pos, negsuc, pos_part, neg_part, ◌+ℤ◌, ◌-ℤ◌, ◌*ℤ◌, ltb_ℤ, leb_ℤ, eqb_ℤ,
}
use gameclub_backend.Common.Errors.{Part, lit, num, error, Result, ok, throw}
use Double.{floor_div, double_sum}

-- A JavaScript number: an integer, or none (a fraction, an infinity or NaN).
pub data JsNumber : Type 0 where
  integer : ℤ → JsNumber
  other : JsNumber

pub record Money : Type 0 where
  pub minor : ℤ

abbrev pub zero_money : Money
zero_money = record { minor = pos 0 }

-- `Number.MAX_SAFE_INTEGER`.
abbrev pub max_safe : ℕ
max_safe = 9007199254740991

-- `Number.isSafeInteger` of an integer.
abbrev pub is_safe : ℤ → Bool
is_safe v = leb (pos_part v + neg_part v) max_safe

unfoldable pub from_minor : JsNumber → Result Money
from_minor other = throw (error (lit "Money requires an integer amount" ∷ []))
from_minor (integer v) =
    if not (is_safe v)
    then throw (error (lit "Money amount " ∷ num v ∷ lit " exceeds the safe integer range" ∷ []))
    else ok (record { minor = v })

-- The charge from its exact numerator: `Math.floor((numerator * 2 + 3600) / 7200)` over doubles.
unfoldable pub round_charge : ℕ → ℕ
round_charge numerator = floor_div (double_sum (numerator * 2) 3600) 7200

-- The arguments that pass the two integer checks of `forDuration` are the natural numbers.
unfoldable pub charge : ℕ → ℕ → Result Money
unfolding from_minor
charge rate seconds =
    if not (is_safe (pos (rate * seconds)))
    then throw (error (lit "Duration charge overflows the safe integer range" ∷ []))
    else from_minor (integer (pos (round_charge (rate * seconds))))

abbrev with_seconds : ℕ → JsNumber → Result Money
with_seconds rate (integer (pos seconds)) = charge rate seconds
with_seconds rate (integer (negsuc n)) =
    throw (error (lit "Invalid duration: " ∷ num (negsuc n) ∷ []))
with_seconds rate other = throw (error (lit "Invalid duration" ∷ []))

unfoldable pub for_duration : JsNumber → JsNumber → Result Money
for_duration (integer (pos rate)) seconds = with_seconds rate seconds
for_duration (integer (negsuc n)) seconds =
    throw (error (lit "Invalid hourly rate: " ∷ num (negsuc n) ∷ []))
for_duration other seconds = throw (error (lit "Invalid hourly rate" ∷ []))

unfoldable pub add : Money → Money → Result Money
unfolding from_minor
add a b = from_minor (integer (a.minor +ℤ b.minor))

unfoldable pub subtract : Money → Money → Result Money
unfolding from_minor
subtract a b = from_minor (integer (a.minor -ℤ b.minor))

unfoldable pub multiply : Money → JsNumber → Result Money
unfolding from_minor
multiply a other = throw (error (lit "Money can only be multiplied by an integer" ∷ []))
multiply a (integer factor) = from_minor (integer (a.minor *ℤ factor))

abbrev pub is_zero : Money → Bool
is_zero a = eqb_ℤ a.minor (pos 0)

abbrev pub is_negative : Money → Bool
is_negative a = ltb_ℤ a.minor (pos 0)

abbrev pub is_positive : Money → Bool
is_positive a = ltb_ℤ (pos 0) a.minor

abbrev pub greater_than : Money → Money → Bool
greater_than a b = ltb_ℤ b.minor a.minor

abbrev pub greater_than_or_equal : Money → Money → Bool
greater_than_or_equal a b = leb_ℤ b.minor a.minor

abbrev pub less_than : Money → Money → Bool
less_than a b = ltb_ℤ a.minor b.minor

abbrev pub equals : Money → Money → Bool
equals a b = eqb_ℤ a.minor b.minor

unfoldable pub clamp_to_zero : Money → Money
clamp_to_zero a = if ltb_ℤ a.minor (pos 0) then zero_money else a
