-- ===== src/Tests/DebtTests.antt =====
-- The ledger of the example club: a guest who owes 200,000.
use gameclub_backend.Prelude.{◌≡◌, refl, some, none, [], ◌∷◌, arith, find_one}
use gameclub_backend.Prelude.Int.{ℤ, pos, negsuc, ◌+ℤ◌, ◌-ℤ◌, ◌≤ℤ◌}
use gameclub_backend.Common.Errors.{ok}
use gameclub_backend.Money.{integer, from_minor}
use gameclub_backend.Entities.Club.{DebtTransaction}
use gameclub_backend.Store.{Db}
use gameclub_backend.Store.Transaction.{inserted, has_key}
use gameclub_backend.Debt.{
  LedgerEntryInput, ledger_sum, get_balance, insert, add_debt_in, added_entry, record_payment_in,
  payment_entry, correct_in, correction_entry,
}
use gameclub_backend.Debt.Service.{record_payment}
use gameclub_backend.Debt.History.{new_row, adds, pays, run_ops, NonNegative, run_ops-NonNegative}
use gameclub_backend.Debt.Payments.{Pays, record_payment-Pays}
use gameclub_backend.Debt.Answers.{
  RecordPaymentDto, is_payment, post_payment, Decides, post_payment-Decides,
}
use gameclub_backend.Auth.{Claims}
use gameclub_backend.Entities.Staff.{cashier}
use gameclub_backend.Tests.Data.{busy, after_hour, hour_debt}

abbrev pub payment : ℤ → LedgerEntryInput
payment v = record {
  customer_id = 21;
  amount = integer v;
  session_id = none;
  actor_id = some 7;
  reason = none;
}

record_payment-Pays_example :
    Pays
      (payment (pos 150000))
      (pos 150000)
      9
      (record { db = after_hour; emitted = [] })
      (record_payment
        (payment (pos 150000))
        (new_row 42 9)
        9
        (record { db = after_hour; emitted = [] }))
record_payment-Pays_example =
    record_payment-Pays (payment (pos 150000)) (pos 150000) (new_row 42 9) 9
      (record { db = after_hour; emitted = [] }) refl refl

abbrev pub paid_row : DebtTransaction
paid_row = payment_entry (payment (pos 150000)) (new_row 42 9) (record { minor = pos 150000 })

abbrev pub paid_off : Db
paid_off = record after_hour { ledger = hour_debt ∷ paid_row ∷ [] }

pub pays_in :
    record_payment_in
      (payment (pos 150000))
      (new_row 42 9)
      (record { minor = pos 150000 })
      after_hour
    ≡ ok (paid_row, paid_off)
unfolding record_payment_in find_one get_balance ledger_sum from_minor insert inserted has_key ◌+ℤ◌
    ◌-ℤ◌
pays_in = refl

abbrev added_row : DebtTransaction
added_row = added_entry (payment (pos 500)) (new_row 43 9) (record { minor = pos 500 })

adds_in :
    add_debt_in (payment (pos 500)) (new_row 43 9) busy
    ≡ ok (added_row, record busy { ledger = added_row ∷ [] })
unfolding add_debt_in from_minor insert inserted has_key
adds_in = refl

abbrev corrected_row : DebtTransaction
corrected_row = correction_entry 21 7 "Goodwill" (new_row 44 9) (record { minor = negsuc 99 })

corrects_in :
    correct_in 21 (integer (negsuc 99)) 7 "Goodwill" (new_row 44 9) busy
    ≡ ok (corrected_row, record busy { ledger = corrected_row ∷ [] })
unfolding correct_in from_minor insert inserted has_key
corrects_in = refl

busy-NonNegative : NonNegative busy
unfolding ledger_sum
busy-NonNegative c = ground arith

run_ops-NonNegative_example :
    pos 0
    ≤ℤ ledger_sum 21
        (run_ops
          (adds (payment (pos 500)) 43 9
            ∷ pays (payment (pos 900)) (record { minor = pos 900 }) 45 9
            ∷ pays (payment (pos 400)) (record { minor = pos 400 }) 46 9
            ∷ [])
          busy).ledger
run_ops-NonNegative_example =
    run_ops-NonNegative
      (adds (payment (pos 500)) 43 9
        ∷ pays (payment (pos 900)) (record { minor = pos 900 }) 45 9
        ∷ pays (payment (pos 400)) (record { minor = pos 400 }) 46 9
        ∷ [])
      busy tt busy-NonNegative 21

abbrev dto : RecordPaymentDto
dto = record { amount = integer (pos 150000); reason = "Cash" }

abbrev cashier_claims : Claims
cashier_claims = record { sub = 7; email = "c@b.uz"; role = cashier }

post_payment-Decides_example :
    Decides 21
      (pos 150000)
      (record { db = after_hour; emitted = [] })
      (post_payment 21 dto cashier_claims
        (new_row 42 9)
        9
        (record { db = after_hour; emitted = [] }))
unfolding is_payment has_key ledger_sum ◌+ℤ◌
post_payment-Decides_example =
    post_payment-Decides 21 dto cashier_claims (new_row 42 9) 9
      (record { db = after_hour; emitted = [] }) (pos 150000) refl refl refl refl refl
