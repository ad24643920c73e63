-- ===== src/Debt/Ledger.antt =====
-- What the operations on the ledger promise (src/modules/debt/debt.service.ts).
use gameclub_backend.Prelude.{◌≡◌, ◌≢◌, refl, ap, ◌∙◌, none, [], ◌∷◌, ◌++◌, arith, Uuid, String}
use gameclub_backend.Prelude.Int.{ℤ, pos, ◌+ℤ◌, ◌-ℤ◌, ◌≤ℤ◌, ◌<ℤ◌, int_laws}
use gameclub_backend.Common.Errors.{ok}
use gameclub_backend.Money.{Money, integer, from_minor}
use gameclub_backend.Entities.Club.{BaseEntity, DebtTransaction}
use gameclub_backend.Store.{Db}
use gameclub_backend.Debt.{
  LedgerEntryInput, ledger_sum, get_balance, insert, added_entry, payment_entry, correction_entry,
  add_debt_in, record_payment_in, correct_in,
}
use gameclub_backend.Debt.Balance.{
  ledger_sum-append, effect_on_self, effect_on_other, insert_result,
}

-- One row for `customer` was appended, and it moved that customer's balance by `change`.
pub record Moved (customer : Uuid) (change : ℤ) (db db' : Db) : Type 0 where
  pub balance : ledger_sum customer db'.ledger ≡ ledger_sum customer db.ledger +ℤ change
  pub others : (c : Uuid) → customer ≢ c → ledger_sum c db'.ledger ≡ ledger_sum c db.ledger
  pub tables : db' ≡ record db { ledger = db'.ledger }

appended-Moved :
    (t : DebtTransaction) (db : Db)
    → t.base.deleted_at ≡ none
    → Moved t.customer_id t.signed_amount db (record db { ledger = db.ledger ++ t ∷ [] })
appended-Moved t db live = record {
  balance =
      ledger_sum-append t.customer_id t db.ledger
      ∙ ap (λ e. ledger_sum t.customer_id db.ledger +ℤ e) (effect_on_self t live);
  others = λ c ne.
      ledger_sum-append c t db.ledger
      ∙ ap (λ e. ledger_sum c db.ledger +ℤ e) (effect_on_other c t ne)
      ∙ omega int_laws;
  tables = refl;
}

insert-Moved :
    (t : DebtTransaction) (db : Db) {u : DebtTransaction} {db' : Db}
    → t.base.deleted_at ≡ none
    → insert t db ≡ ok (u, db')
    → Moved t.customer_id t.signed_amount db db'
insert-Moved t db {u} {db'} live h = rw (insert_result t db h).1 (appended-Moved t db live)

-- A payment that goes through is positive, is covered by the balance, and lowers the balance of
-- its customer by its amount; nothing else changes.
pub record_payment_in-Moved :
    (input : LedgerEntryInput) (base : BaseEntity) (m : Money) (db : Db) (t : DebtTransaction)
    (db' : Db)
    → base.deleted_at ≡ none
    → record_payment_in input base m db ≡ ok (t, db')
    → (m.minor ≤ℤ ledger_sum input.customer_id db.ledger)
      × Moved input.customer_id (pos 0 -ℤ m.minor) db db'
unfolding record_payment_in get_balance from_minor
record_payment_in-Moved input base m db t db' live h = (
  ground arith,
  ground (arith, insert-Moved (payment_entry input base m) db {u = t} {db' = db'} live),
)

-- A debt that is added is positive and raises the balance of its customer by its amount; nothing
-- else changes.
pub add_debt_in-Moved :
    (input : LedgerEntryInput) (base : BaseEntity) (v : ℤ) (db : Db) (t : DebtTransaction)
    (db' : Db)
    → base.deleted_at ≡ none
    → input.amount ≡ integer v
    → add_debt_in input base db ≡ ok (t, db')
    → (pos 0 <ℤ v) × Moved input.customer_id v db db'
unfolding add_debt_in from_minor
add_debt_in-Moved input base v db t db' live amount h = (
  ground arith,
  ground (
    arith,
    insert-Moved (added_entry input base (record { minor = v })) db {u = t} {db' = db'} live,
  ),
)

-- A correction that goes through is not zero and moves the balance by its signed amount, in either
-- direction and by no bound; nothing else changes.
pub correct_in-Moved :
    (customer actor : Uuid) (v : ℤ) (reason : String) (base : BaseEntity) (db : Db)
    (t : DebtTransaction) (db' : Db)
    → base.deleted_at ≡ none
    → correct_in customer (integer v) actor reason base db ≡ ok (t, db')
    → (v ≢ pos 0) × Moved customer v db db'
unfolding correct_in from_minor
correct_in-Moved customer actor v reason base db t db' live h = (
  λ e. ground arith,
  ground (
    arith,
    insert-Moved (correction_entry customer actor reason base (record { minor = v })) db {u = t}
        {db' = db'} live,
  ),
)
