-- ===== src/Sessions/End.antt =====
-- The transaction of `end` in src/modules/sessions/sessions.service.ts.
use gameclub_backend.Prelude.{Option, none, some, [], ◌∷◌, if◌then◌else◌, Uuid, Date}
use gameclub_backend.Common.Errors.{lit, uuid}
use gameclub_backend.Money.{Money, integer, is_positive}
use gameclub_backend.Entities.Club.{
  BaseEntity, room_entity, computer_entity, customer_entity, Session, session_entity, SessionStatus,
  DebtTransaction,
}
use gameclub_backend.Store.Transaction.{Tx, pure, lift, ◌>>=◌, ◌>>◌}
use gameclub_backend.Debt.{LedgerEntryInput, add_debt_in}
use gameclub_backend.Sessions.{
  EndSessionDto, is_truthy, save_session, lock_active, release_computer,
}
use gameclub_backend.Sessions.Settlement.{Settlement, settlement}

abbrev pub ended_session : Session → Settlement → EndSessionDto → Uuid → Date → Session
ended_session session s dto actor_id ended_at = record session {
  status = SessionStatus.ended;
  ended_at = some ended_at;
  amount_due = s.due.minor;
  amount_paid = s.paid.minor;
  ended_by = some actor_id;
  notes = if is_truthy dto.notes then dto.notes else session.notes;
}

abbrev pub shortfall_input : Session → Money → Uuid → Uuid → LedgerEntryInput
shortfall_input session shortfall actor_id customer = record {
  customer_id = customer;
  amount = integer shortfall.minor;
  session_id = some session.base.id;
  actor_id = some actor_id;
  reason = some (lit "Unpaid balance for session " ∷ uuid session.base.id ∷ []);
}

-- `if (shortfall.isPositive() && session.customerId) debt = await addDebt(…)`.
unfoldable pub record_shortfall : Session → Money → Uuid → BaseEntity → Tx (Option DebtTransaction)
record_shortfall session shortfall actor_id debt_row = elim session.customer_id [
  | none ↦ pure none
  | some customer ↦
      if is_positive shortfall
      then (add_debt_in (shortfall_input session shortfall actor_id customer) debt_row >>= λ entry.
          pure (some entry))
      else pure none
]

-- The transaction of `end`; `debt_row` is what the database gives a row of the ledger.
unfoldable pub end_in :
    Uuid → EndSessionDto → Uuid → Date → BaseEntity → Tx (Session × Option DebtTransaction)
end_in id dto actor_id ended_at debt_row = do
  session ← lock_active id
  s ← lift (settlement session dto.amount_paid ended_at)
  saved ← save_session (ended_session session s dto actor_id ended_at)
  debt ← record_shortfall saved s.shortfall actor_id debt_row
  release_computer session.computer_id
  pure (saved, debt)
