-- ===== src/Money/Column.antt =====
-- src/common/money/money.transformer.ts: a money column of PostgreSQL is a bigint, which the driver
-- reads and writes as a text, the list of its character codes.
use gameclub_backend.Prelude.{
  ℕ, suc, ◌≡◌, refl, ap, ◌∙◌, true, Option, none, some, List, [], ◌∷◌, arith, ◌==◌, is_space,
  if◌then◌else◌,
}
use gameclub_backend.Prelude.Int.{ℤ, pos, negsuc, neg}
use gameclub_backend.Money.{JsNumber, integer, other, is_safe}
use gameclub_backend.Money.Text.{
  is_digit, all_digits, is_numeral, numeral_value, digits, print, neg-suc, is_numeral-digits,
  numeral_value-digits,
}

unfoldable pub skip_spaces : List ℕ → List ℕ
skip_spaces [] = []
skip_spaces (c ∷ s) = if is_space c then skip_spaces s else c ∷ s

-- The digits that a text starts with.
unfoldable pub take_digits : List ℕ → List ℕ
take_digits [] = []
take_digits (c ∷ s) = if is_digit c then c ∷ take_digits s else []

abbrev pub digits_value : (ℕ → ℤ) → List ℕ → JsNumber
digits_value sign [] = other
digits_value sign (c ∷ s) = integer (sign (numeral_value 0 (c ∷ s)))

-- A sign, and the digits after it; what follows them is ignored, and no digits are NaN.
unfoldable pub signed_prefix : List ℕ → JsNumber
unfolding take_digits
signed_prefix [] = other
signed_prefix (c ∷ s) =
    if c == b'-'
    then digits_value neg (take_digits s)
    else if c == b'+'
    then digits_value pos (take_digits s)
    else digits_value pos (take_digits (c ∷ s))

-- `parseInt(value, 10)` of JavaScript, exact for safe integers.
unfoldable pub parse_int : List ℕ → JsNumber
unfolding skip_spaces signed_prefix
parse_int text = signed_prefix (skip_spaces text)

-- `to`: the amounts of the entities are integers, of which `Math.trunc` is the identity.
unfoldable pub to_column : Option ℤ → Option (List ℕ)
unfolding digits
to_column none = none
to_column (some v) = some (print v)

-- `from`.
unfoldable pub from_column : Option (List ℕ) → Option JsNumber
unfolding parse_int
from_column none = none
from_column (some text) = some (parse_int text)

take_digits-all : (s : List ℕ) → all_digits s ≡ true → take_digits s ≡ s
unfolding take_digits
take_digits-all [] h = refl
take_digits-all (c ∷ s) h = ground (arith, take_digits-all s)

parse_int-numeral :
    (s : List ℕ) → is_numeral s ≡ true → parse_int s ≡ integer (pos (numeral_value 0 s))
unfolding parse_int skip_spaces signed_prefix
parse_int-numeral [] h = absurd (ground arith)
parse_int-numeral (c ∷ s) h = ground (arith, take_digits-all (c ∷ s) h)

parse_int-minus :
    (s : List ℕ) → is_numeral s ≡ true → parse_int (b'-' ∷ s) ≡ integer (neg (numeral_value 0 s))
unfolding parse_int skip_spaces signed_prefix
parse_int-minus [] h = absurd (ground arith)
parse_int-minus (c ∷ s) h = rw (take_digits-all (c ∷ s) h) refl

pub parse_int-print : (v : ℤ) → is_safe v ≡ true → parse_int (print v) ≡ integer v
parse_int-print (pos n) h =
    parse_int-numeral (digits 15 n) (is_numeral-digits 15 n)
    ∙ ap (λ k. integer (pos k)) (numeral_value-digits 15 n (ground arith))
parse_int-print (negsuc n) h =
    parse_int-minus (digits 15 (suc n)) (is_numeral-digits 15 (suc n))
    ∙ ap (λ k. integer (neg k)) (numeral_value-digits 15 (suc n) (ground arith))
    ∙ ap integer (neg-suc n)

abbrev pub IsSafe : Option ℤ → Type 0
IsSafe none = Unit {0}
IsSafe (some v) = is_safe v ≡ true

abbrev pub read_back : Option ℤ → Option JsNumber
read_back none = none
read_back (some v) = some (integer v)

-- An amount in the safe range, or none, that is written to a money column is read back as it was.
pub from_column-to_column : (v : Option ℤ) → IsSafe v → from_column (to_column v) ≡ read_back v
unfolding from_column to_column
from_column-to_column none h = refl
from_column-to_column (some v) h = ap some (parse_int-print v h)
