-- ===== src/Debt/History.antt =====
-- A history of the ledger of src/modules/debt/debt.service.ts: the operations of the service, one
-- after the other, each with the key and the time that its row is given.
use Prim.Native.Nat.{ℕ}
use native.Mathlib.Decide.{ℕ_discrete}
use gameclub_backend.Prelude.{◌≡◌, refl, none, List, [], ◌∷◌, arith, Uuid, Date, String}
use gameclub_backend.Prelude.Int.{ℤ, pos, ◌+ℤ◌, ◌-ℤ◌, ◌≤ℤ◌, int_laws}
use gameclub_backend.Common.Errors.{Result, ok, throw}
use gameclub_backend.Money.{Money, JsNumber, integer, other, from_minor}
use gameclub_backend.Entities.Club.{BaseEntity, DebtTransaction}
use gameclub_backend.Store.{Db}
use gameclub_backend.Debt.{LedgerEntryInput, ledger_sum, add_debt_in, record_payment_in, correct_in}
use gameclub_backend.Debt.Ledger.{
  Moved, add_debt_in-Moved, record_payment_in-Moved, correct_in-Moved,
}

abbrev pub new_row : Uuid → Date → BaseEntity
new_row id at = record { id = id; created_at = at; deleted_at = none }

pub data LedgerOp : Type 0 where
  adds : LedgerEntryInput → Uuid → Date → LedgerOp
  pays : LedgerEntryInput → Money → Uuid → Date → LedgerOp
  corrects : Uuid → ℤ → Uuid → String → Uuid → Date → LedgerOp

abbrev committed : Db → Result (DebtTransaction × Db) → Db
committed db (ok (_, db')) = db'
committed db (throw _) = db

unfoldable pub apply_op : LedgerOp → Db → Db
apply_op (adds input id at) db = committed db (add_debt_in input (new_row id at) db)
apply_op (pays input m id at) db = committed db (record_payment_in input (new_row id at) m db)
apply_op (corrects customer v actor reason id at) db =
    committed db (correct_in customer (integer v) actor reason (new_row id at) db)

unfoldable pub run_ops : List LedgerOp → Db → Db
run_ops [] db = db
run_ops (op ∷ ops) db = run_ops ops (apply_op op db)

-- No customer has paid more than was owed.
abbrev pub NonNegative : Db → Type 0
NonNegative db = (c : Uuid) → pos 0 ≤ℤ ledger_sum c db.ledger

-- Corrections are the owner's, and may take any amount off.
abbrev pub IsForward : List LedgerOp → Type 0
IsForward [] = Unit
IsForward (corrects _ v _ _ _ _ ∷ ops) = (pos 0 ≤ℤ v) × IsForward ops
IsForward (_ ∷ ops) = IsForward ops

Moved-NonNegative :
    (k : Uuid) (change : ℤ) (db db' : Db)
    → Moved k change db db'
    → pos 0 ≤ℤ ledger_sum k db.ledger +ℤ change
    → NonNegative db
    → NonNegative db'
Moved-NonNegative k change db db' moved enough safe c = elim (ℕ_discrete k c) [
  | yes same ↦ rw (← same) (rw moved.balance enough)
  | no ne ↦ rw (moved.others c ne) (safe c)
]

add_debt_in-other :
    (input : LedgerEntryInput) (base : BaseEntity) (db : Db) (t : DebtTransaction) (db' : Db)
    → input.amount ≡ other
    → ¬ (add_debt_in input base db ≡ ok (t, db'))
unfolding add_debt_in from_minor
add_debt_in-other input base db t db' a h = ground arith

adds-NonNegative :
    (input : LedgerEntryInput) (n : JsNumber) (id at : ℕ) (db : Db)
    (r : Result (DebtTransaction × Db))
    → input.amount ≡ n
    → add_debt_in input (new_row id at) db ≡ r
    → NonNegative db
    → NonNegative (committed db r)
adds-NonNegative input n id at db (throw e) a h safe = safe
adds-NonNegative input (integer v) id at db (ok (t, db')) a h safe =
    let (positive, moved) = add_debt_in-Moved input (new_row id at) v db t db' refl a h in
    Moved-NonNegative input.customer_id v db db' moved (omega (int_laws, safe input.customer_id))
      safe
adds-NonNegative input other id at db (ok (t, db')) a h safe =
    absurd (add_debt_in-other input (new_row id at) db t db' a h)

pays-NonNegative :
    (input : LedgerEntryInput) (m : Money) (id at : ℕ) (db : Db) (r : Result (DebtTransaction × Db))
    → record_payment_in input (new_row id at) m db ≡ r
    → NonNegative db
    → NonNegative (committed db r)
pays-NonNegative input m id at db (throw e) h safe = safe
pays-NonNegative input m id at db (ok (t, db')) h safe =
    let (covered, moved) = record_payment_in-Moved input (new_row id at) m db t db' refl h in
    Moved-NonNegative input.customer_id (pos 0 -ℤ m.minor) db db' moved (omega int_laws) safe

corrects-NonNegative :
    (customer actor : Uuid) (v : ℤ) (reason : String) (id at : ℕ) (db : Db)
    (r : Result (DebtTransaction × Db))
    → pos 0 ≤ℤ v
    → correct_in customer (integer v) actor reason (new_row id at) db ≡ r
    → NonNegative db
    → NonNegative (committed db r)
corrects-NonNegative customer actor v reason id at db (throw e) up h safe = safe
corrects-NonNegative customer actor v reason id at db (ok (t, db')) up h safe =
    let (nonzero, moved) =
      correct_in-Moved customer actor v reason (new_row id at) db t db' refl h in
    Moved-NonNegative customer v db db' moved (omega (int_laws, safe customer)) safe

-- After any history of debts, payments and corrections, some of which may fail, no balance is
-- negative, provided that no correction takes anything off.
pub run_ops-NonNegative :
    (ops : List LedgerOp) (db : Db) → IsForward ops → NonNegative db → NonNegative (run_ops ops db)
unfolding run_ops apply_op
run_ops-NonNegative [] db f safe = safe
run_ops-NonNegative (adds input id at ∷ ops) db f safe =
    run_ops-NonNegative ops _ f (adds-NonNegative input input.amount id at db _ refl refl safe)
run_ops-NonNegative (pays input m id at ∷ ops) db f safe =
    run_ops-NonNegative ops _ f (pays-NonNegative input m id at db _ refl safe)
run_ops-NonNegative (corrects customer v actor reason id at ∷ ops) db f safe =
    run_ops-NonNegative ops _ f.1
      (corrects-NonNegative customer actor v reason id at db _ f.0 refl safe)
