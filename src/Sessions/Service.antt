-- ===== src/Sessions/Service.antt =====
-- The operations of `SessionsService` (src/modules/sessions/sessions.service.ts): a transaction,
-- and after it the events.
use gameclub_backend.Prelude.{
  suc, ℕ, Option, none, some, List, [], ◌∷◌, ltb, length, Uuid, Date, if◌then◌else◌, find_one,
}
use gameclub_backend.Prelude.Int.{ℤ}
use gameclub_backend.Common.Errors.{Result, ok, throw, resource_not_found}
use gameclub_backend.Entities.Club.{
  BaseEntity, Session, session_entity, DebtTransaction, is_active_status,
}
use gameclub_backend.Pricing
use gameclub_backend.Pricing.{ExtendParams}
use gameclub_backend.Events.{
  session_started, session_extended, session_ended, session_event, build_event,
}
use gameclub_backend.Store.{Db}
use gameclub_backend.Store.Action.{Action, pure, ◌>>=◌, ◌>>◌, transaction, emit}
use gameclub_backend.Debt.Service.{announce_debt_change}
use gameclub_backend.Sessions.{StartSessionDto, EndSessionDto, extend_in, cancel_in}
use gameclub_backend.Sessions.Start.{start_in}
use gameclub_backend.Sessions.End.{end_in}

-- `isGroup ? randomUUID() : null`.
abbrev pub group_of : StartSessionDto → Uuid → Option Uuid
group_of dto random = if ltb 1 (length dto.computer_ids) then some random else none

-- The loop of events; each reads the clock, numbered by the round.
unfoldable pub emit_started : (ℕ → Date) → ℕ → List Session → Action (Unit {0})
emit_started at i [] = pure tt
emit_started at i (s ∷ ss) =
    emit (build_event session_started (session_event s) (at i)) >>= λ _. emit_started at (suc i) ss

-- `start`. The clock is read once before the transaction, and at each event.
unfoldable pub start :
    StartSessionDto → Uuid → Date → Uuid → (ℕ → BaseEntity) → (ℕ → Date) → Action (List Session)
start dto random started_at actor new_row at = do
  created ← transaction (start_in dto (group_of dto random) started_at actor new_row)
  emit_started at 0 created
  pure created

unfoldable pub extend : Uuid → ExtendParams → Date → Action Session
extend id params at = do
  updated ← transaction (extend_in id params)
  emit (build_event session_extended (session_event updated) at)
  pure updated

-- `if (debtEntry && result.customerId) await this.debt.announceDebtChange(…)`.
unfoldable pub announce : Option DebtTransaction → Option Uuid → Date → Action (Unit {0})
announce none customer at = pure tt
announce (some entry) none at = pure tt
announce (some entry) (some customer) at = announce_debt_change customer entry at

unfoldable pub end_session :
    Uuid → EndSessionDto → Uuid → Date → BaseEntity → Date → Date → Action Session
end_session id dto actor ended_at row at debt_at = do
  ended ← transaction (end_in id dto actor ended_at row)
  emit (build_event session_ended (session_event ended.0) at)
  announce ended.1 ended.0.customer_id debt_at
  pure ended.0

unfoldable pub cancel : Uuid → Uuid → Date → Date → Action Session
cancel id actor ended_at at = do
  result ← transaction (cancel_in id actor ended_at)
  emit (build_event session_ended (session_event result) at)
  pure result

unfoldable pub find_by_id : Uuid → Db → Result Session
find_by_id id db = elim (find_one id db.sessions) [
  | none ↦ throw (resource_not_found "Session" (some id))
  | some s ↦ ok s
]

-- `quote`: the amount and the time of the answer.
unfoldable pub quote : Uuid → Date → Date → Db → Result (ℤ × Date)
unfolding find_by_id
quote id now at db = elim (find_by_id id db) [
  | throw e ↦ throw e
  | ok session ↦
      if is_active_status session.status
      then (elim (Pricing.quote session now) [
        | throw e ↦ throw e
        | ok amount ↦ ok (amount.minor, at)
      ])
      else ok (session.amount_due, at)
]
