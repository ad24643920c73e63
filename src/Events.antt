-- ===== src/Events.antt =====
-- The domain events: src/modules/realtime/realtime.events.ts, with the payloads that the services
-- give them. Emitting appends to a list, in order; a payload's time comes from the clock.
use gameclub_backend.Prelude.{String, Option, Uuid, Date}
use gameclub_backend.Prelude.Int.{ℤ}
use gameclub_backend.Entities.Club.{
  ComputerStatus, SessionType, SessionStatus, DebtTransactionType, Session, Computer,
}

pub data DomainEvent : Type 0 where
  computer_created computer_updated session_started session_extended : DomainEvent
  session_ended debt_created debt_updated analytics_updated : DomainEvent

pub record SessionEvent : Type 0 where
  pub id : Uuid
  pub group_id : Option Uuid
  pub computer_id : Uuid
  pub customer_id : Option Uuid
  pub type : SessionType
  pub status : SessionStatus
  pub started_at : Date
  pub planned_end_at : Option Date
  pub ended_at : Option Date
  pub amount_due : ℤ
  pub amount_paid : ℤ

pub record DebtEvent : Type 0 where
  pub customer_id : Uuid
  pub transaction_id : Uuid
  pub type : DebtTransactionType
  pub signed_amount : ℤ
  pub balance : ℤ

pub record ComputerEvent : Type 0 where
  pub id : Uuid
  pub label : String
  pub room_id : Uuid
  pub status : ComputerStatus

pub data Payload : Type 0 where
  of_session : SessionEvent → Payload
  of_debt : DebtEvent → Payload
  of_computer : ComputerEvent → Payload
  of_analytics : Date → Payload

pub record Envelope : Type 0 where
  pub event : DomainEvent
  pub payload : Payload
  pub at : Date

abbrev pub build_event : DomainEvent → Payload → Date → Envelope
build_event event payload at = record { event = event; payload = payload; at = at }

-- `toEvent` of the sessions service and of the computers service.
abbrev pub session_event : Session → Payload
session_event s = of_session (record {
  id = s.base.id;
  group_id = s.group_id;
  computer_id = s.computer_id;
  customer_id = s.customer_id;
  type = s.type;
  status = s.status;
  started_at = s.started_at;
  planned_end_at = s.planned_end_at;
  ended_at = s.ended_at;
  amount_due = s.amount_due;
  amount_paid = s.amount_paid;
})

abbrev pub computer_event : Computer → Payload
computer_event c =
    of_computer (record { id = c.base.id; label = c.label; room_id = c.room_id; status = c.status })
