-- ===== src/Debt/Balance.antt =====
-- How the sums over the ledger of src/modules/debt/debt.service.ts change with a new row.
use gameclub_backend.Prelude.{◌≡◌, ◌≢◌, none, List, [], ◌∷◌, ◌++◌, arith, Uuid}
use gameclub_backend.Prelude.Int.{pos, ◌+ℤ◌, int_laws}
use gameclub_backend.Common.Errors.{ok}
use gameclub_backend.Entities.Club.{DebtTransaction, debt_transaction_entity}
use gameclub_backend.Store.{Db}
use gameclub_backend.Debt.{effect_on, ledger_sum, insert}

pub ledger_sum-append :
    (c : Uuid) (t : DebtTransaction) (rows : List DebtTransaction)
    → ledger_sum c (rows ++ t ∷ []) ≡ ledger_sum c rows +ℤ effect_on c t
unfolding ledger_sum
ledger_sum-append c t [] = omega int_laws
ledger_sum-append c t (r ∷ rows) = rw (ledger_sum-append c t rows) (omega int_laws)

-- A row that is not deleted counts for its customer, and for nobody else.
pub effect_on_self :
    (t : DebtTransaction) → t.base.deleted_at ≡ none → effect_on t.customer_id t ≡ t.signed_amount
effect_on_self t live = ground arith

pub effect_on_other : (c : Uuid) (t : DebtTransaction) → t.customer_id ≢ c → effect_on c t ≡ pos 0
effect_on_other c t ne = ground arith

-- What an insertion that succeeds has done to the tables.
pub insert_result :
    (t : DebtTransaction) (db : Db) {u : DebtTransaction} {db' : Db}
    → insert t db ≡ ok (u, db')
    → (u ≡ t) × (db' ≡ record db { ledger = db.ledger ++ t ∷ [] })
unfolding insert
insert_result t db {u} {db'} h = ground arith
