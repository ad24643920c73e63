-- ===== src/Money/Text.antt =====
-- The decimal form of money: `toString` and `fromString` of src/common/money/money.ts. A text is
-- the list of its character codes.
use mathlib.Core.Bool.{false≢true}
use native.Mathlib.Nat.{pow-suc}
use gameclub_backend.Prelude.{
  ℕ, zero, suc, ◌+◌, ◌-◌, ◌*◌, ◌/◌, ◌%◌, ◌^◌, ◌<◌, ◌≡◌, refl, ap, ◌∙◌, Bool, true, false, not, ◌&&◌,
  List, [], ◌∷◌, ◌++◌, arith, leb, ltb, ltb→lt, Bool-cases, inl, inr, ◌==◌, if◌then◌else◌,
}
use gameclub_backend.Prelude.Int.{ℤ, pos, negsuc, neg}
use gameclub_backend.Common.Errors.{lit, error, Result, ok, throw}
use gameclub_backend.Money.{integer, Money, is_safe, from_minor}

abbrev pub is_digit : ℕ → Bool
is_digit c = leb b'0' c && leb c b'9'

abbrev pub all_digits : List ℕ → Bool
all_digits [] = true
all_digits (c ∷ s) = is_digit c && all_digits s

-- `\d+`.
abbrev pub is_numeral : List ℕ → Bool
is_numeral [] = false
is_numeral (c ∷ s) = all_digits (c ∷ s)

-- The value of a run of digits.
abbrev digit_step : ℕ → ℕ → ℕ
digit_step acc c = acc * 10 + (c - b'0')

unfoldable pub numeral_value : ℕ → List ℕ → ℕ
numeral_value acc [] = acc
numeral_value acc (c ∷ s) = numeral_value (digit_step acc c) s

-- The text without its `-`, and whether there was one.
abbrev pub split_sign : List ℕ → Bool × List ℕ
split_sign [] = (false, [])
split_sign (c ∷ s) = if c == b'-' then (true, s) else (false, c ∷ s)

unfoldable pub from_string : List ℕ → Result Money
from_string text =
    let (minus, digits) = split_sign text in
    if not (is_numeral digits)
    then throw (error (lit "Cannot parse Money" ∷ []))
    else if minus
    then from_minor (integer (neg (numeral_value 0 digits)))
    else from_minor (integer (pos (numeral_value 0 digits)))

-- The decimal digits of a number below 10 ^ (fuel + 1).
unfoldable pub digits : ℕ → ℕ → List ℕ
digits zero n = (n % 10 + b'0') ∷ []
digits (suc fuel) n =
    let rest = digits fuel (n / 10) ++ (n % 10 + b'0') ∷ [] in
    if ltb n 10 then (n + b'0') ∷ [] else rest

abbrev pub print : ℤ → List ℕ
print (pos n) = digits 15 n
print (negsuc n) = b'-' ∷ digits 15 (suc n)

-- A safe integer has at most 16 digits.
unfoldable pub to_string : Money → List ℕ
unfolding digits
to_string m = print m.minor

numeral_value-append :
    (acc : ℕ) (s : List ℕ) (c : ℕ)
    → numeral_value acc (s ++ c ∷ []) ≡ digit_step (numeral_value acc s) c
unfolding numeral_value
numeral_value-append acc [] c = refl
numeral_value-append acc (d ∷ s) c = numeral_value-append (digit_step acc d) s c

all_digits-append :
    (s : List ℕ) (c : ℕ) → all_digits s ≡ true → is_digit c ≡ true → all_digits (s ++ c ∷ []) ≡ true
all_digits-append [] c h k = ground arith
all_digits-append (d ∷ s) c h k = ground (arith, all_digits-append s c)

numeral_value-one : (n : ℕ) → numeral_value 0 ((n + b'0') ∷ []) ≡ n
unfolding numeral_value
numeral_value-one n = omega arith

pub neg-suc : (n : ℕ) → neg (suc n) ≡ negsuc n
neg-suc n = ground arith

pub numeral_value-digits : (fuel n : ℕ) → n < 10 ^ suc fuel → numeral_value 0 (digits fuel n) ≡ n
unfolding digits
numeral_value-digits zero n h = numeral_value-one (n % 10) ∙ omega arith
numeral_value-digits (suc fuel) n h =
    let fewer : n / 10 < 10 ^ suc fuel = omega (arith, pow-suc 10 (suc fuel)) in
    let tens = numeral_value-digits fuel (n / 10) fewer in
    let last = numeral_value-append 0 (digits fuel (n / 10)) (n % 10 + b'0') in
    elim (Bool-cases (ltb n 10)) [
      | inl one_digit ↦ rw one_digit (numeral_value-one n)
      | inr more ↦ rw more (last ∙ ap (λ t. digit_step t (n % 10 + b'0')) tens ∙ omega arith)
    ]

is_numeral-append :
    (s : List ℕ) (c : ℕ) → is_numeral s ≡ true → is_digit c ≡ true → is_numeral (s ++ c ∷ []) ≡ true
is_numeral-append [] c h k = absurd (false≢true h)
is_numeral-append (d ∷ s) c h k = all_digits-append (d ∷ s) c h k

is_numeral-one : (n : ℕ) → n < 10 → is_numeral ((n + b'0') ∷ []) ≡ true
is_numeral-one n h = ground arith

pub is_numeral-digits : (fuel n : ℕ) → is_numeral (digits fuel n) ≡ true
unfolding digits
is_numeral-digits zero n = is_numeral-one (n % 10) (omega arith)
is_numeral-digits (suc fuel) n =
    let longer =
      is_numeral-append (digits fuel (n / 10)) (n % 10 + b'0') (is_numeral-digits fuel (n / 10))
        (ground arith) in
    elim (Bool-cases (ltb n 10)) [
      | inl one_digit ↦ rw one_digit (is_numeral-one n (ltb→lt n 10 one_digit))
      | inr more ↦ rw more longer
    ]

-- A run of digits has no sign.
split_sign-numeral : (s : List ℕ) → is_numeral s ≡ true → split_sign s ≡ (false, s)
split_sign-numeral [] h = refl
split_sign-numeral (c ∷ s) h = ground arith

from_string-numeral :
    (s : List ℕ)
    → is_numeral s ≡ true
    → from_string s ≡ from_minor (integer (pos (numeral_value 0 s)))
unfolding from_string
from_string-numeral s h = rw (split_sign-numeral s h) (rw h)

from_string-minus :
    (s : List ℕ)
    → is_numeral s ≡ true
    → from_string (b'-' ∷ s) ≡ from_minor (integer (neg (numeral_value 0 s)))
unfolding from_string
from_string-minus s h = rw h

pub from_minor-safe :
    (v : ℤ) → is_safe v ≡ true → from_minor (integer v) ≡ ok (record { minor = v })
unfolding from_minor
from_minor-safe v h = rw h

printed_value : (v : ℤ) → is_safe v ≡ true → from_string (print v) ≡ ok (record { minor = v })
printed_value (pos n) h =
    from_string-numeral (digits 15 n) (is_numeral-digits 15 n)
    ∙ ap (λ k. from_minor (integer (pos k))) (numeral_value-digits 15 n (ground arith))
    ∙ from_minor-safe (pos n) h
printed_value (negsuc n) h =
    from_string-minus (digits 15 (suc n)) (is_numeral-digits 15 (suc n))
    ∙ ap (λ k. from_minor (integer (neg k))) (numeral_value-digits 15 (suc n) (ground arith))
    ∙ ap (λ v. from_minor (integer v)) (neg-suc n)
    ∙ from_minor-safe (negsuc n) h

-- Money in the safe range that is printed and parsed again is the same money.
pub from_string-to_string : (m : Money) → is_safe m.minor ≡ true → from_string (to_string m) ≡ ok m
unfolding to_string
from_string-to_string m h = printed_value m.minor h

-- Money that is parsed is in the safe integer range.
pub from_string-safe :
    (text : List ℕ) (m : Money) → from_string text ≡ ok m → is_safe m.minor ≡ true
unfolding from_string from_minor
from_string-safe text m h = ground arith
