-- ===== src/Sessions/Announced.antt =====
-- The whole of `end` (src/modules/sessions/sessions.service.ts): its transaction and its events.
use mathlib.Core.List.{append_assoc}
use gameclub_backend.Prelude.{
  ◌≡◌, refl, Option, none, some, true, List, [], ◌∷◌, ◌++◌, arith, Uuid, Date, inl, inr,
  Option-cases,
}
use gameclub_backend.Prelude.Int.{ℤ}
use gameclub_backend.Common.Errors.{ok, throw, Exception}
use gameclub_backend.Money.{is_safe, from_minor}
use gameclub_backend.Entities.Club.{BaseEntity, Session, DebtTransaction}
use gameclub_backend.Events.{
  Envelope, debt_created, session_ended, session_event, of_debt, build_event,
}
use gameclub_backend.Store.{Db, World}
use gameclub_backend.Store.Action.{◌>>=◌}
use gameclub_backend.Debt.{ledger_sum, get_balance}
use gameclub_backend.Debt.Service.{emit_after_change, announce_debt_change}
use gameclub_backend.Sessions.{EndSessionDto}
use gameclub_backend.Sessions.End.{end_in}
use gameclub_backend.Sessions.Service.{end_session, announce}

abbrev pub ended_envelope : Session → Date → Envelope
ended_envelope s at = build_event session_ended (session_event s) at

abbrev pub owed_envelope : Uuid → DebtTransaction → ℤ → Date → Envelope
owed_envelope customer t balance at =
    build_event debt_created
      (of_debt (record {
        customer_id = customer;
        transaction_id = t.base.id;
        type = t.type;
        signed_amount = t.signed_amount;
        balance = balance;
      }))
      at

-- The events of an end: the session's, and for a debt the new balance of the customer.
abbrev pub end_events : Session → Option DebtTransaction → Date → Date → Db → List Envelope
end_events s none at debt_at db = ended_envelope s at ∷ []
end_events s (some t) at debt_at db = elim s.customer_id [
  | none ↦ ended_envelope s at ∷ []
  | some k ↦ ended_envelope s at ∷ owed_envelope k t (ledger_sum k db.ledger) debt_at ∷ []
]

-- All balances are in the safe range.
abbrev pub SafeBalances : Db → Type 0
SafeBalances db = (c : Uuid) → is_safe (ledger_sum c db.ledger) ≡ true

announce_lem :
    (debt : Option DebtTransaction) (s : Session) (at debt_at : Date) (w : World)
    → SafeBalances w.db
    → ◌>>=◌
        (λ v. (ok tt, record v { emitted = v.emitted ++ ended_envelope s at ∷ [] }))
        (λ _. announce debt s.customer_id debt_at)
        w
      ≡ (ok tt, record w { emitted = w.emitted ++ end_events s debt at debt_at w.db })
unfolding announce announce_debt_change emit_after_change get_balance from_minor
announce_lem none s at debt_at w safe = refl
announce_lem (some t) s at debt_at w safe = elim (Option-cases s.customer_id) [
  | inl e ↦ ground arith
  | inr (k, e) ↦ ground (
    arith,
    safe k,
    append_assoc w.emitted (ended_envelope s at ∷ [])
        (owed_envelope k t (ledger_sum k w.db.ledger) debt_at ∷ []),
  )
]

-- An `end` whose transaction throws answers that error, changes nothing and announces nothing.
pub end_session-fails :
    (id : Uuid) (dto : EndSessionDto) (actor : Uuid) (ended_at : Date) (row : BaseEntity)
    (at debt_at : Date) (w : World) (e : Exception)
    → end_in id dto actor ended_at row w.db ≡ throw e
    → end_session id dto actor ended_at row at debt_at w ≡ (throw e, w)
unfolding end_session
end_session-fails id dto actor ended_at row at debt_at w e h = ground arith

-- When the transaction of `end` commits and leaves every balance in the safe range, `end` answers
-- the session, the end is announced, and after it the debt, if there is one, with the customer's
-- balance after the commit.
pub end_session-announces :
    (id : Uuid) (dto : EndSessionDto) (actor : Uuid) (ended_at : Date) (row : BaseEntity)
    (at debt_at : Date) (w : World) (saved : Session) (debt : Option DebtTransaction) (db' : Db)
    → end_in id dto actor ended_at row w.db ≡ ok ((saved, debt), db')
    → SafeBalances db'
    → end_session id dto actor ended_at row at debt_at w
      ≡ (ok saved, record { db = db'; emitted = w.emitted ++ end_events saved debt at debt_at db' })
unfolding end_session
end_session-announces id dto actor ended_at row at debt_at w saved debt db' h safe =
    ground (arith, announce_lem debt saved at debt_at (record w { db = db' }) safe)
