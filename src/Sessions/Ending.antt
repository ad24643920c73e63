-- ===== src/Sessions/Ending.antt =====
-- What `end` does (src/modules/sessions/sessions.service.ts): the money, the ledger, the tables.
use native.Mathlib.Decide.{ℕ_discrete}
use gameclub_backend.Prelude.{
  ◌⊎◌, ◌≡◌, refl, Option, none, some, true, false, arith, ◌==◌, if◌then◌else◌, Uuid, Date,
  Option-cases, Bool-cases, inl, inr,
}
use gameclub_backend.Prelude.Int.{ℤ, pos, ◌+ℤ◌, ◌-ℤ◌, ◌≤ℤ◌, int_laws, not_less, +ℤ_zero}
use gameclub_backend.Common.Errors.{ok}
use gameclub_backend.Money.{Money, JsNumber, from_minor, subtract, is_positive}
use gameclub_backend.Pricing.{finalize}
use gameclub_backend.Entities.Club.{BaseEntity, Session, session_entity, DebtTransaction}
use gameclub_backend.Store.{Db}
use gameclub_backend.Store.Transaction.{pure, >>=-then}
use gameclub_backend.Debt.{ledger_sum, add_debt_in}
use gameclub_backend.Debt.Ledger.{Moved, add_debt_in-Moved}
use gameclub_backend.Sessions.Settlement.{Settlement, settlement, collected}
use gameclub_backend.Sessions.End.{record_shortfall, shortfall_input}

settlement_steps :
    (s : Session) (paid : Option JsNumber) (at : Date) (r : Settlement)
    → settlement s paid at ≡ ok r
    → (r.shortfall.minor ≡ r.due.minor -ℤ r.paid.minor)
      × (r.paid.minor ≤ℤ r.due.minor)
      × (s.customer_id ≡ none → is_positive r.shortfall ≡ false)
unfolding settlement subtract from_minor
settlement_steps s paid at r h = (ground arith, ground arith, λ e. ground arith)

-- A session that is settled has its final charge as the amount due; what is paid and what is left
-- unpaid add up to it; nothing is paid in excess; a session without a customer is paid in full.
pub settlement_lem :
    (s : Session) (paid : Option JsNumber) (at : Date) (r : Settlement)
    → settlement s paid at ≡ ok r
    → (finalize s at ≡ ok r.due)
      × (collected paid r.due ≡ ok r.paid)
      × (r.paid.minor +ℤ r.shortfall.minor ≡ r.due.minor)
      × (pos 0 ≤ℤ r.shortfall.minor)
      × (((k : Uuid) × (s.customer_id ≡ some k)) ⊎ (r.shortfall.minor ≡ pos 0))
unfolding settlement subtract from_minor
settlement_lem s paid at r h =
    let (rest, within, full) = settlement_steps s paid at r h in
    (
      ground arith,
      ground arith,
      rw rest (omega int_laws),
      rw rest (omega (int_laws, within)),
      elim (Option-cases s.customer_id) [
        | inr found ↦ inl found
        | inl e ↦
            let most = not_less (pos 0) r.shortfall.minor (full e) in
            let least : pos 0 ≤ℤ r.shortfall.minor = rw rest (omega (int_laws, within)) in
            inr (omega int_laws)
      ],
    )

-- The part of `v` that falls to `c` when `k` is the customer.
abbrev pub share_of : Uuid → Option Uuid → ℤ → ℤ
share_of c none v = pos 0
share_of c (some k) v = if k == c then v else pos 0

pub Moved-share_of :
    (c k : Uuid) (v : ℤ) (db db' : Db)
    → Moved k v db db'
    → ledger_sum c db'.ledger ≡ ledger_sum c db.ledger +ℤ share_of c (some k) v
Moved-share_of c k v db db' moved = elim (ℕ_discrete k c) [
  | yes e ↦ ground (arith, moved.balance)
  | no ne ↦ ground (arith, moved.others c ne, +ℤ_zero (ledger_sum c db.ledger))
]

record_shortfall-adds :
    (k : Uuid) (s : Session) (due : Money) (actor : Uuid) (row : BaseEntity) (db : Db)
    (debt : Option DebtTransaction) (db' : Db)
    → s.customer_id ≡ some k
    → is_positive due ≡ true
    → record_shortfall s due actor row db ≡ ok (debt, db')
    → (t : DebtTransaction) × (debt ≡ some t)
      × (add_debt_in (shortfall_input s due actor k) row db ≡ ok (t, db'))
unfolding record_shortfall
record_shortfall-adds k s due actor row db debt db' e p h =
    >>=-then (add_debt_in (shortfall_input s due actor k) row) (λ entry. pure (some entry)) db
      (rw (e, p) at h) λ t next adds rest. (t, ground arith, ground arith)

record_shortfall-skips :
    (s : Session) (due : Money) (actor : Uuid) (row : BaseEntity) (db : Db)
    (debt : Option DebtTransaction) (db' : Db)
    → (s.customer_id ≡ none) ⊎ (is_positive due ≡ false)
    → record_shortfall s due actor row db ≡ ok (debt, db')
    → db' ≡ db
unfolding record_shortfall
record_shortfall-skips s due actor row db debt db' e h = ground arith

pub record_shortfall_lem :
    (c : Uuid) (s : Session) (due : Money) (actor : Uuid) (row : BaseEntity) (db : Db)
    (debt : Option DebtTransaction) (db' : Db)
    → row.deleted_at ≡ none
    → pos 0 ≤ℤ due.minor
    → record_shortfall s due actor row db ≡ ok (debt, db')
    → (db' ≡ record db { ledger = db'.ledger })
      × (ledger_sum c db'.ledger ≡ ledger_sum c db.ledger +ℤ share_of c s.customer_id due.minor)
record_shortfall_lem c s due actor row db debt db' live least h =
    elim (Option-cases s.customer_id) [
      | inl e ↦
          let same = record_shortfall-skips s due actor row db debt db' (inl e) h in
          (ground arith, ground (arith, +ℤ_zero (ledger_sum c db.ledger)))
      | inr (k, e) ↦ elim (Bool-cases (is_positive due)) [
        | inl p ↦
            let (t, noted, adds) = record_shortfall-adds k s due actor row db debt db' e p h in
            let (positive, moved) =
              add_debt_in-Moved (shortfall_input s due actor k) row due.minor db t db' live refl
                adds in
            (moved.tables, rw e (Moved-share_of c k due.minor db db' moved))
        | inr p ↦
            let same = record_shortfall-skips s due actor row db debt db' (inr p) h in
            let zero : due.minor ≡ pos 0 = omega (int_laws, not_less (pos 0) due.minor p) in
            (ground arith, ground (arith, +ℤ_zero (ledger_sum c db.ledger)))
      ]
    ]
