-- ===== src/Debt/Payments.antt =====
-- The whole of `recordPayment` (src/modules/debt/debt.service.ts): checks, transaction and event.
use mathlib.Core.Path.{subst}
use gameclub_backend.Prelude.{
  ◌≡◌, refl, sym, none, true, [], ◌∷◌, ◌++◌, arith, Uuid, Date, inl, inr,
}
use gameclub_backend.Prelude.Int.{ℤ, pos, ◌-ℤ◌, ◌≤ℤ◌, ◌<ℤ◌, +ℤ_parts, -ℤ_parts}
use gameclub_backend.Common.Errors.{Result, ok, throw, Result-cases}
use gameclub_backend.Money.{Money, JsNumber, integer, from_minor, is_safe}
use gameclub_backend.Entities.Club.{BaseEntity, DebtTransaction}
use gameclub_backend.Events.{Envelope, debt_updated, of_debt, build_event}
use gameclub_backend.Store.{Db, World}
use gameclub_backend.Store.Action.{pure, settle, ◌>>=◌, ◌>>◌}
use gameclub_backend.Debt.{LedgerEntryInput, ledger_sum, get_balance, record_payment_in}
use gameclub_backend.Debt.Service.{emit_after_change, check_payment, record_payment}
use gameclub_backend.Debt.Ledger.{Moved, record_payment_in-Moved}

-- The event that reports a change of the ledger and the balance after it.
abbrev pub debt_envelope : Uuid → DebtTransaction → ℤ → Date → Envelope
debt_envelope customer t balance at =
    build_event debt_updated
      (of_debt (record {
        customer_id = customer;
        transaction_id = t.base.id;
        type = t.type;
        signed_amount = t.signed_amount;
        balance = balance;
      }))
      at

-- A payment as the client sees it: it is refused, with tables and events as they were, or it is
-- positive and covered, lowers the balance by its amount, and the event tells the new balance.
abbrev pub Pays : LedgerEntryInput → ℤ → Date → World → Result DebtTransaction × World → Type 0
Pays input v at w (throw e, w') = w' ≡ w
Pays input v at w (ok t, w') =
    (pos 0 <ℤ v)
    × (v ≤ℤ ledger_sum input.customer_id w.db.ledger)
    × Moved input.customer_id (pos 0 -ℤ v) w.db w'.db
    × (w'.emitted
        ≡ w.emitted
          ++ debt_envelope input.customer_id t (ledger_sum input.customer_id w'.db.ledger) at ∷ [])

-- With a balance in the safe range the event is emitted.
emit_after_change_lem :
    (customer : Uuid) (t : DebtTransaction) (at : Date) (w : World)
    → is_safe (ledger_sum customer w.db.ledger) ≡ true
    → emit_after_change customer debt_updated t at w ≡ (
      ok tt,
      record w {
        emitted = w.emitted ++ debt_envelope customer t (ledger_sum customer w.db.ledger) at ∷ [];
      },
    )
unfolding emit_after_change get_balance from_minor
emit_after_change_lem customer t at w safe = ground arith

-- The payment found a balance that is a safe integer.
paid_from_safe :
    (input : LedgerEntryInput) (base : BaseEntity) (m : Money) (db : Db) (t : DebtTransaction)
    (db' : Db)
    → record_payment_in input base m db ≡ ok (t, db')
    → is_safe (ledger_sum input.customer_id db.ledger) ≡ true
unfolding record_payment_in get_balance from_minor
paid_from_safe input base m db t db' h = ground arith

-- What is left of the payment once its transaction has ended with `r`.
abbrev pub report :
    LedgerEntryInput → Date → World → Result (DebtTransaction × Db) → Result DebtTransaction × World
report input at w r =
    (◌>>=◌ (λ v. settle v r)
        (λ entry. emit_after_change input.customer_id debt_updated entry at >> pure entry))
      w

-- A payment whose transaction has committed is answered, and its event emitted.
pub report-ok :
    (input : LedgerEntryInput) (v : ℤ) (base : BaseEntity) (at : Date) (w : World)
    (t : DebtTransaction) (db' : Db)
    → base.deleted_at ≡ none
    → pos 0 <ℤ v
    → record_payment_in input base (record { minor = v }) w.db ≡ ok (t, db')
    → report input at w (ok (t, db')) ≡ (
      ok t,
      record w {
        db = db';
        emitted =
            w.emitted
            ++ debt_envelope input.customer_id t (ledger_sum input.customer_id db'.ledger) at ∷ [];
      },
    )
report-ok input v base at w t db' live positive h =
    let (covered, moved) =
      record_payment_in-Moved input base (record { minor = v }) w.db t db' live h in
    let before = paid_from_safe input base (record { minor = v }) w.db t db' h in
    let safe : is_safe (ledger_sum input.customer_id db'.ledger) ≡ true = ground (
      arith,
      moved.balance,
      -ℤ_parts (pos 0) v,
      +ℤ_parts (ledger_sum input.customer_id w.db.ledger) (pos 0 -ℤ v),
    ) in
    ground (arith, emit_after_change_lem input.customer_id t at (record w { db = db' }) safe)

report-Pays :
    (input : LedgerEntryInput) (v : ℤ) (base : BaseEntity) (at : Date) (w : World)
    (r : Result (DebtTransaction × Db))
    → base.deleted_at ≡ none
    → pos 0 <ℤ v
    → record_payment_in input base (record { minor = v }) w.db ≡ r
    → Pays input v at w (report input at w r)
report-Pays input v base at w (throw e) live positive h = refl
report-Pays input v base at w (ok (t, db')) live positive h =
    let (covered, moved) =
      record_payment_in-Moved input base (record { minor = v }) w.db t db' live h in
    subst (Pays input v at w) (sym (report-ok input v base at w t db' live positive h))
      (positive, covered, moved, refl)

amount_of :
    (n : JsNumber) (v : ℤ) (m : Money)
    → n ≡ integer v
    → from_minor n ≡ ok m
    → m ≡ record { minor = v }
unfolding from_minor
amount_of n v m e h = ground arith

positive_of :
    (v : ℤ) (m : Money)
    → check_payment (record { minor = v }) ≡ ok m
    → (m ≡ record { minor = v }) × (pos 0 <ℤ v)
unfolding check_payment
positive_of v m h = (ground arith, ground arith)

pub record_payment_as :
    (input : LedgerEntryInput) (base : BaseEntity) (at : Date) (w : World) (m : Money)
    → from_minor input.amount ≡ ok m
    → check_payment m ≡ ok m
    → record_payment input base at w ≡ report input at w (record_payment_in input base m w.db)
unfolding record_payment
record_payment_as input base at w m e c = ground arith

-- A payment of an integer amount is refused and changes nothing, or it is positive, is covered by
-- the balance, lowers it by the amount, leaves all other balances and tables, and one event is
-- emitted, which reports the new balance.
pub record_payment-Pays :
    (input : LedgerEntryInput) (v : ℤ) (base : BaseEntity) (at : Date) (w : World)
    → base.deleted_at ≡ none
    → input.amount ≡ integer v
    → Pays input v at w (record_payment input base at w)
unfolding record_payment
record_payment-Pays input v base at w live amount = elim (Result-cases (from_minor input.amount)) [
  | inr (e, refused) ↦ subst (Pays input v at w) {x = (throw e, w)} (ground arith) refl
  | inl (m, made) ↦ elim (Result-cases (check_payment m)) [
    | inr (e, refused) ↦ subst (Pays input v at w) {x = (throw e, w)} (ground arith) refl
    | inl (m', passed) ↦
        let same = amount_of input.amount v m amount made in
        let checked = positive_of v m' (rw same at passed) in
        subst (Pays input v at w)
          (sym (
            record_payment_as input base at w (record { minor = v }) (rw same at made)
              (rw (same, checked.0) at passed)))
          (report-Pays input v base at w (record_payment_in input base (record { minor = v }) w.db)
            live checked.1 refl)
  ]
]
