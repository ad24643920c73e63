-- ===== src/Sessions/Enabled.antt =====
-- An end whose money is settled goes through (src/modules/sessions/sessions.service.ts).
use gameclub_backend.Prelude.{
  ◌≡◌, Option, none, some, true, false, [], ◌∷◌, ◌++◌, arith, Uuid, Date, find_one, save,
  Option-cases, Bool-cases, inl, inr,
}
use gameclub_backend.Prelude.Int.{ℤ, pos, ◌-ℤ◌, ◌≤ℤ◌, -ℤ_parts}
use gameclub_backend.Common.Errors.{ok}
use gameclub_backend.Money.{Money, from_minor, is_safe, is_positive, for_duration, charge}
use gameclub_backend.Pricing.{finalize}
use gameclub_backend.Entities.Club.{
  BaseEntity, Session, session_entity, DebtTransaction, debt_transaction_entity, customer_entity,
  is_active_status,
}
use gameclub_backend.Store.{Db}
use gameclub_backend.Store.Transaction.{has_key}
use gameclub_backend.Debt.{add_debt_in, added_entry, insert}
use gameclub_backend.Sessions.{EndSessionDto, lock_active, save_session}
use gameclub_backend.Sessions.Settlement.{Settlement, settlement}
use gameclub_backend.Sessions.End.{end_in, ended_session, record_shortfall, shortfall_input}
use gameclub_backend.Sessions.Progress.{release_computer-enabled}

record_shortfall-enabled :
    (s : Session) (due : Money) (actor : Uuid) (row : BaseEntity) (db : Db)
    → is_safe due.minor ≡ true
    → has_key row.id db.ledger ≡ false
    → ((k : Uuid) → s.customer_id ≡ some k → has_key k db.customers ≡ true)
    → (debt : Option DebtTransaction) × (db' : Db) × (record_shortfall s due actor row db
        ≡ ok (debt, db'))
unfolding record_shortfall add_debt_in from_minor insert
record_shortfall-enabled s due actor row db safe fresh known = elim (Option-cases s.customer_id) [
  | inl e ↦ (none, db, ground arith)
  | inr (k, e) ↦
      let there = known k e in
      elim (Bool-cases (is_positive due)) [
        | inl p ↦
            let entry = added_entry (shortfall_input s due actor k) row due in
            (some entry, record db { ledger = db.ledger ++ entry ∷ [] }, ground arith)
        | inr p ↦ (none, db, ground arith)
      ]
]

pub finalize-safe :
    (s : Session) (at : Date) (due : ℤ)
    → finalize s at ≡ ok (record { minor = due })
    → is_safe due ≡ true
unfolding finalize for_duration charge from_minor
finalize-safe s at due h = ground arith

pub difference_safe :
    (due v : ℤ) → is_safe due ≡ true → pos 0 ≤ℤ v → v ≤ℤ due → is_safe (due -ℤ v) ≡ true
difference_safe due v safe least within = ground (arith, -ℤ_parts due v)

-- The transaction after the money is settled.
pub end_in-settled :
    (id : Uuid) (dto : EndSessionDto) (actor : Uuid) (at : Date) (row : BaseEntity) (db : Db)
    (s : Session) (r : Settlement)
    → find_one id db.sessions ≡ some s
    → is_active_status s.status ≡ true
    → settlement s dto.amount_paid at ≡ ok r
    → is_safe r.shortfall.minor ≡ true
    → has_key row.id db.ledger ≡ false
    → ((k : Uuid) → s.customer_id ≡ some k → has_key k db.customers ≡ true)
    → (debt : Option DebtTransaction) × (db' : Db) × (end_in id dto actor at row db
        ≡ ok ((ended_session s r dto actor at, debt), db'))
unfolding end_in lock_active save_session
end_in-settled id dto actor at row db s r found active settles safe fresh known =
    let new = ended_session s r dto actor at in
    let mid : Db = record db { sessions = save new db.sessions } in
    let (debt, noted, notes) =
      record_shortfall-enabled new r.shortfall actor row mid safe fresh known in
    let (db', releases) = release_computer-enabled s.computer_id noted in
    (debt, db', ground (arith, notes, releases))
