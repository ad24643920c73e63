-- ===== src/Sessions/Start.antt =====
-- The transaction of `start` in src/modules/sessions/sessions.service.ts.
use mathlib.Core.Option
use gameclub_backend.Prelude.{
  ℕ, suc, Option, none, some, not, ◌||◌, List, [], ◌∷◌, Uuid, Date, find_one,
}
use gameclub_backend.Prelude.Int.{pos}
use gameclub_backend.Common.Errors.{
  Exception, resource_not_found, business_rule, conflict_exception, lit, uuid,
}
use gameclub_backend.Entities.Club.{
  BaseEntity, Room, room_entity, Computer, computer_entity, ComputerStatus, is_available,
  computer_status_text, Customer, customer_entity, Session, session_entity, SessionStatus,
}
use gameclub_backend.Pricing
use gameclub_backend.Pricing.{PricingPlan, ExtendParams, finalize}
use gameclub_backend.Store.Transaction.{Tx, pure, gets, lift, or_raise, ◌>>=◌, ◌>>◌, raise_if}
use gameclub_backend.Sessions.{StartSessionDto, insert_session, save_computer}

abbrev unblocked : Customer → Tx (Option Customer)
unblocked customer = do
  raise_if customer.is_blocked (
      business_rule "CUSTOMER_BLOCKED"
        (lit "This customer is blocked and cannot start sessions" ∷ []) none)
  pure (some customer)

-- `resolveCustomer`.
unfoldable pub resolve_customer : Option Uuid → Tx (Option Customer)
resolve_customer none = pure none
resolve_customer (some id) = do
  found ← gets (λ db. find_one id db.customers)
  customer ← or_raise found (resource_not_found "Customer" (some id))
  unblocked customer

abbrev room_inactive : Exception
room_inactive =
    business_rule "ROOM_INACTIVE" (lit "The room for this computer is inactive" ∷ []) none

-- `if (!room || !room.isActive) throw …`.
unfoldable pub active_room : Uuid → Tx Room
active_room id = do
  found ← gets (λ db. find_one id db.rooms)
  room ← or_raise found room_inactive
  raise_if (not room.is_active) room_inactive
  pure room

-- The computer of one round of `start`, locked and tested.
unfoldable pub available_computer : Uuid → Tx Computer
available_computer id = do
  found ← gets (λ db. find_one id db.computers)
  computer ← or_raise found (resource_not_found "Computer" (some id))
  raise_if (not computer.is_active || not (is_available computer.status)) (
      conflict_exception "COMPUTER_NOT_AVAILABLE"
        (lit "Computer " ∷ lit computer.label ∷ lit " is not available" ∷ [])
        (some
          (("computerId", uuid id) ∷ ("status", lit (computer_status_text computer.status)) ∷ [])))
  pure computer

-- What `start` knows before its loop: the request, its customer, group, time and actor.
pub record StartContext : Type 0 where
  pub dto : StartSessionDto
  pub customer : Option Customer
  pub group_id : Option Uuid
  pub started_at : Date
  pub actor_id : Uuid

abbrev pub new_session : StartContext → BaseEntity → Computer → Room → PricingPlan → Session
new_session c base computer room plan = record {
  base = base;
  group_id = c.group_id;
  computer_id = computer.base.id;
  room_id = room.base.id;
  customer_id = Option.map (λ (k : Customer). k.base.id) c.customer;
  type = c.dto.type;
  status = SessionStatus.active;
  rate_per_hour = room.price_per_hour;
  started_at = c.started_at;
  planned_end_at = plan.planned_end_at;
  ended_at = none;
  amount_due = plan.planned_amount.minor;
  amount_paid = pos 0;
  started_by = some c.actor_id;
  ended_by = none;
  notes = c.dto.notes;
}

-- One round of the loop of `start`; `base` is what the database gives the new row.
unfoldable pub start_one : StartContext → BaseEntity → Uuid → Tx Session
start_one c base computer_id = do
  computer ← available_computer computer_id
  room ← active_room computer.room_id
  plan ← lift (
      Pricing.plan c.dto.type room.price_per_hour c.started_at (record {
        duration_minutes = c.dto.duration_minutes;
        planned_end_at = c.dto.planned_end_at;
      }))
  saved ← insert_session (new_session c base computer room plan)
  save_computer (record computer { status = ComputerStatus.in_use })
  pure saved

-- The loop; the rows' keys and times are numbered by the round.
unfoldable pub start_each : StartContext → (ℕ → BaseEntity) → ℕ → List Uuid → Tx (List Session)
start_each c new_row i [] = pure []
start_each c new_row i (id ∷ ids) = do
  session ← start_one c (new_row i) id
  rest ← start_each c new_row (suc i) ids
  pure (session ∷ rest)

-- The transaction of `start`.
unfoldable pub start_in :
    StartSessionDto → Option Uuid → Date → Uuid → (ℕ → BaseEntity) → Tx (List Session)
start_in dto group_id started_at actor_id new_row = do
  customer ← resolve_customer dto.customer_id
  start_each
      (record {
        dto = dto;
        customer = customer;
        group_id = group_id;
        started_at = started_at;
        actor_id = actor_id;
      })
      new_row 0 dto.computer_ids
