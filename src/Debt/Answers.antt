-- ===== src/Debt/Answers.antt =====
-- A payment as it is posted: src/modules/debt/debt.controller.ts and the rules of
-- src/modules/debt/dto/debt.dto.ts, with what the client is answered.
use gameclub_backend.Prelude.{
  ℕ, ◌≡◌, ◌⊎◌, refl, ap, ◌∙◌, inl, inr, none, some, Bool, true, false, not, ◌&&◌, String, [], ◌∷◌,
  ◌++◌, arith, length, leb, codes, Uuid, Date, find_one, Bool-cases, Option-cases,
}
use gameclub_backend.Prelude.Int.{ℤ, pos, leb_ℤ, ltb_ℤ, eqb_ℤ, ◌≤ℤ◌, ◌<ℤ◌, ◌-ℤ◌, not_less}
use gameclub_backend.Common.Errors.{Result, ok, throw, lit, num, error, business_rule, Exception}
use gameclub_backend.Common.Filter.{normalise}
use gameclub_backend.Money.{JsNumber, integer, other, is_safe, from_minor}
use gameclub_backend.Entities.Club.{
  BaseEntity, Customer, customer_entity, DebtTransaction, debt_transaction_entity,
}
use gameclub_backend.Store.{World}
use gameclub_backend.Store.Transaction.{has_key, inserted, find_one-has_key}
use gameclub_backend.Store.Action.{Action}
use gameclub_backend.Auth.{Claims}
use gameclub_backend.Debt.{
  LedgerEntryInput, ledger_sum, get_balance, insert, record_payment_in, payment_entry,
}
use gameclub_backend.Debt.Service.{check_payment, record_payment, correct}
use gameclub_backend.Debt.Payments.{report, report-ok, record_payment_as}

pub record RecordPaymentDto : Type 0 where
  pub amount : JsNumber
  pub reason : String

-- `@IsInt()`, with a test of the integer.
abbrev pub is_int : (ℤ → Bool) → JsNumber → Bool
is_int p other = false
is_int p (integer v) = p v

abbrev pub max_length : ℕ → String → Bool
max_length n s = leb (length (codes s)) n

-- The rules of `RecordPaymentDto`.
unfoldable pub is_payment : RecordPaymentDto → Bool
is_payment dto = is_int (λ v. leb_ℤ (pos 1) v) dto.amount && max_length 255 dto.reason

abbrev pub payment_input : Uuid → RecordPaymentDto → Claims → LedgerEntryInput
payment_input customer dto user = record {
  customer_id = customer;
  amount = dto.amount;
  session_id = none;
  actor_id = some user.sub;
  reason = some (lit dto.reason ∷ []);
}

-- `recordPayment` of the controller.
unfoldable pub post_payment :
    Uuid → RecordPaymentDto → Claims → BaseEntity → Date → Action DebtTransaction
post_payment customer dto user base at = record_payment (payment_input customer dto user) base at

pub record CorrectionDto : Type 0 where
  pub signed_amount : JsNumber
  pub reason : String

-- The rules of `CorrectionDto`.
unfoldable pub is_correction : CorrectionDto → Bool
is_correction dto =
    is_int (λ v. not (eqb_ℤ v (pos 0))) dto.signed_amount
    && leb 1 (length (codes dto.reason))
    && max_length 255 dto.reason

-- `correct` of the controller.
unfoldable pub post_correction :
    Uuid → CorrectionDto → Claims → BaseEntity → Date → Action DebtTransaction
post_correction customer dto user base at =
    correct customer dto.signed_amount user.sub dto.reason base at

-- The answer is an error with this status and code, and nothing has changed.
abbrev pub Refused : ℕ → String → World → Result DebtTransaction × World → Type 0
Refused status code w out =
    (e : Exception) × (out ≡ (throw e, w))
    × ((normalise e).status ≡ status)
    × ((normalise e).code ≡ code)

-- The answer is the new row of the customer, which stands in the ledger, and no other table has
-- changed.
abbrev pub Accepted : Uuid → ℤ → World → Result DebtTransaction × World → Type 0
Accepted customer v w out =
    (t : DebtTransaction) × (out.0 ≡ ok t)
    × (t.customer_id ≡ customer)
    × (t.signed_amount ≡ pos 0 -ℤ v)
    × (out.1.db ≡ record w.db { ledger = w.db.ledger ++ t ∷ [] })

-- What a payment of `v` is answered: just one of four, by its size, the customer and the balance.
abbrev pub Decides : Uuid → ℤ → World → Result DebtTransaction × World → Type 0
Decides customer v w out =
    ((is_safe v ≡ false) × Refused 500 "INTERNAL_ERROR" w out)
    ⊎ ((is_safe v ≡ true)
        × (find_one customer w.db.customers ≡ none)
        × Refused 422 "CUSTOMER_NOT_FOUND" w out)
    ⊎ ((is_safe v ≡ true)
        × ((c : Customer) × (find_one customer w.db.customers ≡ some c))
        × (ledger_sum customer w.db.ledger <ℤ v)
        × Refused 422 "OVERPAYMENT" w out)
    ⊎ ((is_safe v ≡ true)
        × ((c : Customer) × (find_one customer w.db.customers ≡ some c))
        × (v ≤ℤ ledger_sum customer w.db.ledger)
        × Accepted customer v w out)

module _ (input : LedgerEntryInput) (v : ℤ) (base : BaseEntity) (at : Date) (w : World)
    (amount : input.amount ≡ integer v) where
  unsafe-Refused :
      is_safe v ≡ false → Refused 500 "INTERNAL_ERROR" w (record_payment input base at w)
  unfolding record_payment from_minor normalise
  unsafe-Refused unsafe = (
    error (lit "Money amount " ∷ num v ∷ lit " exceeds the safe integer range" ∷ []),
    ground arith,
    refl,
    refl,
  )

  module _ (safe : is_safe v ≡ true) (positive : pos 0 <ℤ v) where
    made : from_minor input.amount ≡ ok (record { minor = v })
    unfolding from_minor
    made = ground arith

    passed : check_payment (record { minor = v }) ≡ ok (record { minor = v })
    unfolding check_payment
    passed = ground arith

    as_report :
        record_payment input base at w
        ≡ report input at w (record_payment_in input base (record { minor = v }) w.db)
    as_report = record_payment_as input base at w (record { minor = v }) made passed

    missing-Refused :
        find_one input.customer_id w.db.customers ≡ none
        → Refused 422 "CUSTOMER_NOT_FOUND" w (record_payment input base at w)
    unfolding record_payment_in normalise
    missing-Refused none_found = (
      business_rule "CUSTOMER_NOT_FOUND" (lit "Customer does not exist" ∷ []) none,
      as_report ∙ ground arith,
      refl,
      refl,
    )

    module _ (c : Customer) (found : find_one input.customer_id w.db.customers ≡ some c)
        (balanced : is_safe (ledger_sum input.customer_id w.db.ledger) ≡ true) where
      over-Refused :
          ledger_sum input.customer_id w.db.ledger <ℤ v
          → Refused 422 "OVERPAYMENT" w (record_payment input base at w)
      unfolding record_payment_in normalise get_balance from_minor
      over-Refused over = (
        business_rule "OVERPAYMENT" (lit "Payment exceeds the outstanding balance" ∷ []) (
            some (
              ("balance", num (ledger_sum input.customer_id w.db.ledger))
              ∷ ("attempted", num v)
              ∷ [])),
        as_report ∙ ground arith,
        refl,
        refl,
      )

      covered-commits :
          v ≤ℤ ledger_sum input.customer_id w.db.ledger
          → has_key base.id w.db.ledger ≡ false
          → record_payment_in input base (record { minor = v }) w.db
            ≡ ok (
              payment_entry input base (record { minor = v }),
              record w.db {
                ledger = w.db.ledger ++ payment_entry input base (record { minor = v }) ∷ [];
              },
            )
      unfolding record_payment_in get_balance from_minor insert inserted
      covered-commits covered unused =
          ground (arith, find_one-has_key input.customer_id c w.db.customers found)

      covered-Accepted :
          v ≤ℤ ledger_sum input.customer_id w.db.ledger
          → has_key base.id w.db.ledger ≡ false
          → base.deleted_at ≡ none
          → Accepted input.customer_id v w (record_payment input base at w)
      covered-Accepted covered unused live =
          let commits = covered-commits covered unused in
          let whole =
            as_report
            ∙ ap (report input at w) commits
            ∙ report-ok input v base at w _ _ live positive commits in
          (
            payment_entry input base (record { minor = v }),
            ap (λ r. r.0) whole,
            refl,
            refl,
            ap (λ r. r.1.db) whole,
          )

less_of : (a b : ℤ) → ltb_ℤ a b ≡ true → a <ℤ b
less_of a b h = ground arith

is_payment-positive :
    (dto : RecordPaymentDto) (v : ℤ) → dto.amount ≡ integer v → is_payment dto ≡ true → pos 0 <ℤ v
unfolding is_payment
is_payment-positive dto v amount valid = ground arith

-- A payment that passes the rules of its DTO, with a balance in the safe range and a fresh key, is
-- answered in just one of four ways: 500 if its amount exceeds the safe range; else CUSTOMER_NOT_FOUND
-- (422) if there is no such customer; else OVERPAYMENT (422) if it exceeds the balance, each of them
-- without effect; else by the new row, of the customer and the negated amount, which is all that the
-- tables gain.
pub post_payment-Decides :
    (customer : Uuid) (dto : RecordPaymentDto) (user : Claims) (base : BaseEntity) (at : Date)
    (w : World) (v : ℤ)
    → dto.amount ≡ integer v
    → is_payment dto ≡ true
    → base.deleted_at ≡ none
    → has_key base.id w.db.ledger ≡ false
    → is_safe (ledger_sum customer w.db.ledger) ≡ true
    → Decides customer v w (post_payment customer dto user base at w)
unfolding post_payment
post_payment-Decides customer dto user base at w v amount valid live unused balanced =
    let input = payment_input customer dto user in
    let positive = is_payment-positive dto v amount valid in
    elim (Bool-cases (is_safe v)) [
      | inr unsafe ↦ inl (unsafe, unsafe-Refused input v base at w amount unsafe)
      | inl safe ↦ elim (Option-cases (find_one customer w.db.customers)) [
        | inl missing ↦
            inr
              (inl (safe, missing, missing-Refused input v base at w amount safe positive missing))
        | inr (c, found) ↦ elim (Bool-cases (ltb_ℤ (ledger_sum customer w.db.ledger) v)) [
          | inl more ↦
              let over = less_of (ledger_sum customer w.db.ledger) v more in
              let refused =
                over-Refused input v base at w amount safe positive c found balanced over in
              inr (inr (inl (safe, (c, found), over, refused)))
          | inr enough ↦
              let covered = not_less (ledger_sum customer w.db.ledger) v enough in
              let accepted =
                covered-Accepted input v base at w amount safe positive c found balanced covered
                  unused live in
              inr (inr (inr (safe, (c, found), covered, accepted)))
        ]
      ]
    ]
