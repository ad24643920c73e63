-- ===== src/Sessions.antt =====
-- src/modules/sessions/sessions.service.ts: the requests, the writes under the constraints of the
-- table, and the transactions of `extend` and `cancel`. Those of `start` and `end` stand in
-- `Sessions.Start` and `Sessions.End`, the actions with their events in `Sessions.Service`.
pub mod Start
pub mod Settlement
pub mod End
pub mod Service
pub mod Listing
pub mod Rows
pub mod Stages
pub mod Ending
pub mod Closing
pub mod Starting
pub mod Coupling
pub mod Group
pub mod Reach
pub mod Quotes
pub mod Announced
pub mod Board
pub mod Refinement
pub mod Once
pub mod Progress
pub mod Requests
pub mod Refusals
pub mod Enabled
pub mod Exit
use Prim.Native.String
use gameclub_backend.Prelude.{
  ℕ, suc, Option, none, some, Bool, true, false, not, ◌&&◌, ◌||◌, List, [], ◌∷◌, String, ◌==◌,
  if◌then◌else◌, Uuid, Date, find_one, save,
}
use gameclub_backend.Prelude.Int.{ℤ, pos}
use gameclub_backend.Common.Errors.{
  Result, ok, throw, Exception, Part, resource_not_found, business_rule, conflict_exception, lit,
  uuid, num,
}
use gameclub_backend.Money.{
  Money, JsNumber, integer, from_minor, subtract, is_positive, greater_than,
}
use gameclub_backend.Entities.Club.{
  BaseEntity, Room, room_entity, Computer, computer_entity, ComputerStatus, is_available, is_in_use,
  computer_status_text, session_status_text, Customer, customer_entity, Session, session_entity,
  SessionType, SessionStatus, is_active_status, DebtTransaction,
}
use gameclub_backend.Pricing
use gameclub_backend.Pricing.{PricingPlan, ExtendParams, finalize}
use gameclub_backend.Store.{Db}
use gameclub_backend.Store.Transaction.{
  Tx, pure, gets, lift, or_raise, ◌>>=◌, ◌>>◌, raise_if, raise, modify, inserted, unique_violation,
}
use gameclub_backend.Debt.{LedgerEntryInput, add_debt_in}

pub record StartSessionDto : Type 0 where
  pub computer_ids : List Uuid
  pub type : SessionType
  pub customer_id : Option Uuid
  pub duration_minutes : Option ℤ
  pub planned_end_at : Option Date
  pub notes : Option String

pub record EndSessionDto : Type 0 where
  pub amount_paid : Option JsNumber
  pub notes : Option String

-- `if (dto.notes)`: a text that is there and is not empty.
abbrev pub is_truthy : Option String → Bool
is_truthy none = false
is_truthy (some String.[]) = false
is_truthy (some (String.◌∷◌ _ _)) = true

-- The partial unique index `uq_session_active_computer`: another active session on the computer.
unfoldable pub index_conflict : Session → List Session → Bool
index_conflict s [] = false
index_conflict s (r ∷ rows) =
    (is_active_status r.status && r.computer_id == s.computer_id && not (r.base.id == s.base.id))
    || index_conflict s rows

-- INSERT and UPDATE of a session, under its primary key and that index.
unfoldable pub insert_session : Session → Tx Session
unfolding inserted
insert_session s = do
  raise_if (is_active_status s.status && (← gets (λ db. index_conflict s db.sessions)))
      unique_violation
  rows ← (λ db. lift (inserted s db.sessions) db)
  modify (λ db. record db { sessions = rows })
  pure s

unfoldable pub save_session : Session → Tx Session
save_session s = do
  raise_if (is_active_status s.status && (← gets (λ db. index_conflict s db.sessions)))
      unique_violation
  modify (λ db. record db { sessions = save s db.sessions })
  pure s

unfoldable pub save_computer : Computer → Tx (Unit {0})
save_computer c = modify (λ db. record db { computers = save c db.computers })

-- `lockActive`.
unfoldable pub lock_active : Uuid → Tx Session
lock_active id = do
  found ← gets (λ db. find_one id db.sessions)
  session ← or_raise found (resource_not_found "Session" (some id))
  raise_if (not (is_active_status session.status)) (
      conflict_exception "SESSION_NOT_ACTIVE"
        (lit "Session is "
          ∷ lit (session_status_text session.status)
          ∷ lit " and cannot be modified"
          ∷ [])
        none)
  pure session

-- `releaseComputer`: only a computer in use is freed.
unfoldable pub release_computer : Uuid → Tx (Unit {0})
unfolding save_computer
release_computer id = do
  found ← gets (λ db. find_one id db.computers)
  elim found [
    | none ↦ pure tt
    | some computer ↦
        if is_in_use computer.status
        then save_computer (record computer { status = ComputerStatus.available })
        else pure tt
  ]

-- The transaction of `extend`.
unfoldable pub extend_in : Uuid → ExtendParams → Tx Session
extend_in id params = do
  session ← lock_active id
  plan ← lift (Pricing.extend session params)
  save_session (record session {
    planned_end_at = plan.planned_end_at;
    amount_due = plan.planned_amount.minor;
  })

abbrev pub cancelled_session : Session → Uuid → Date → Session
cancelled_session session actor_id ended_at = record session {
  status = SessionStatus.cancelled;
  ended_at = some ended_at;
  amount_due = pos 0;
  amount_paid = pos 0;
  ended_by = some actor_id;
}

-- The transaction of `cancel`.
unfoldable pub cancel_in : Uuid → Uuid → Date → Tx Session
cancel_in id actor_id ended_at = do
  session ← lock_active id
  saved ← save_session (cancelled_session session actor_id ended_at)
  release_computer session.computer_id
  pure saved
