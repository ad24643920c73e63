-- ===== src/Debt.antt =====
-- The debt ledger, src/modules/debt/debt.service.ts: its operations on the tables. What they emit
-- stands in `Debt.Service`. The sum over the ledger is exact in PostgreSQL, and `Money.fromString`
-- of its text is `Money.fromMinor` of its value.
pub mod Service
pub mod Balance
pub mod Ledger
pub mod History
pub mod Payments
pub mod Statement
pub mod Answers
use gameclub_backend.Prelude.{
  Option, none, some, Bool, true, false, not, List, [], ◌∷◌, ◌++◌, String, ◌==◌, if◌then◌else◌,
  Uuid, find_one,
}
use gameclub_backend.Prelude.Int.{ℤ, pos, ◌+ℤ◌, ◌-ℤ◌}
use gameclub_backend.Common.Errors.{Result, ok, throw, business_rule, Part, lit, num}
use gameclub_backend.Money.{
  Money, JsNumber, integer, from_minor, is_positive, is_zero, greater_than,
}
use gameclub_backend.Entities.Club.{
  BaseEntity, Customer, customer_entity, DebtTransaction, DebtTransactionType, debt_add,
  debt_payment, debt_correction, debt_transaction_entity,
}
use gameclub_backend.Store.{Db}
use gameclub_backend.Store.Transaction.{
  Tx, pure, gets, lift, or_raise, ◌>>=◌, ◌>>◌, raise_if, modify, inserted, has_key,
  foreign_key_violation,
}

pub record LedgerEntryInput : Type 0 where
  pub customer_id : Uuid
  pub amount : JsNumber
  pub session_id : Option Uuid
  pub actor_id : Option Uuid
  pub reason : Option (List Part)

-- What one row adds to the balance of a customer; deleted rows are not read.
abbrev pub effect_on : Uuid → DebtTransaction → ℤ
effect_on customer t = elim t.base.deleted_at [
  | none ↦ if t.customer_id == customer then t.signed_amount else pos 0
  | some _ ↦ pos 0
]

-- `SELECT COALESCE(SUM(t.signed_amount), 0) … WHERE t.customer_id = :customerId`.
unfoldable pub ledger_sum : Uuid → List DebtTransaction → ℤ
ledger_sum customer [] = pos 0
ledger_sum customer (t ∷ rows) = effect_on customer t +ℤ ledger_sum customer rows

unfoldable pub get_balance : Uuid → Db → Result Money
get_balance customer db = from_minor (integer (ledger_sum customer db.ledger))

abbrev live_amount : DebtTransaction → ℤ
live_amount t = elim t.base.deleted_at [ none ↦ t.signed_amount | some _ ↦ pos 0 ]

unfoldable pub outstanding_sum : List DebtTransaction → ℤ
outstanding_sum [] = pos 0
outstanding_sum (t ∷ rows) = live_amount t +ℤ outstanding_sum rows

unfoldable pub get_total_outstanding : Db → Result Money
get_total_outstanding db = from_minor (integer (outstanding_sum db.ledger))

-- `insert`: the database gives the new row its key and times, `base`. The foreign key of
-- `customer_id` asks for a row of customers, deleted or not.
unfoldable pub insert : DebtTransaction → Tx DebtTransaction
unfolding inserted has_key
insert entry = do
  rows ← (λ db. lift (inserted entry db.ledger) db)
  known ← gets (λ db. has_key entry.customer_id db.customers)
  raise_if (not known) foreign_key_violation
  modify (λ db. record db { ledger = rows })
  pure entry

abbrev pub added_entry : LedgerEntryInput → BaseEntity → Money → DebtTransaction
added_entry input base magnitude = record {
  base = base;
  customer_id = input.customer_id;
  type = debt_add;
  signed_amount = magnitude.minor;
  session_id = input.session_id;
  actor_id = input.actor_id;
  reason = input.reason;
}

-- `addDebt`, up to the event.
unfoldable pub add_debt_in : LedgerEntryInput → BaseEntity → Tx DebtTransaction
add_debt_in input base = do
  magnitude ← lift (from_minor input.amount)
  raise_if (not (is_positive magnitude))
      (business_rule "INVALID_DEBT_AMOUNT" (lit "Debt amount must be positive" ∷ []) none)
  insert (added_entry input base magnitude)

abbrev pub payment_entry : LedgerEntryInput → BaseEntity → Money → DebtTransaction
payment_entry input base magnitude = record {
  base = base;
  customer_id = input.customer_id;
  type = debt_payment;
  signed_amount = pos 0 -ℤ magnitude.minor;
  session_id = input.session_id;
  actor_id = input.actor_id;
  reason = input.reason;
}

-- The transaction of `recordPayment`, behind its test of the amount.
unfoldable pub record_payment_in : LedgerEntryInput → BaseEntity → Money → Tx DebtTransaction
record_payment_in input base magnitude = do
  found ← gets (λ db. find_one input.customer_id db.customers)
  customer ←
      or_raise found (business_rule "CUSTOMER_NOT_FOUND" (lit "Customer does not exist" ∷ []) none)
  balance ← (λ db. lift (get_balance input.customer_id db) db)
  raise_if (greater_than magnitude balance) (
      business_rule "OVERPAYMENT" (lit "Payment exceeds the outstanding balance" ∷ [])
        (some (("balance", num balance.minor) ∷ ("attempted", num magnitude.minor) ∷ [])))
  insert (payment_entry input base magnitude)

abbrev pub correction_entry : Uuid → Uuid → String → BaseEntity → Money → DebtTransaction
correction_entry customer actor reason base value = record {
  base = base;
  customer_id = customer;
  type = debt_correction;
  signed_amount = value.minor;
  session_id = none;
  actor_id = some actor;
  reason = some (lit reason ∷ []);
}

-- `correct`, up to the event. It takes no lock.
unfoldable pub correct_in : Uuid → JsNumber → Uuid → String → BaseEntity → Tx DebtTransaction
correct_in customer signed_amount actor reason base = do
  value ← lift (from_minor signed_amount)
  raise_if (is_zero value)
      (business_rule "INVALID_CORRECTION" (lit "Correction amount cannot be zero" ∷ []) none)
  insert (correction_entry customer actor reason base value)
