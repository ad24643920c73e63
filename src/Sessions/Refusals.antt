-- ===== src/Sessions/Refusals.antt =====
-- The errors of `start` (src/modules/sessions/sessions.service.ts) as the client sees them, for a
-- request that passes the rules of src/modules/sessions/dto/start-session.dto.ts.
use gameclub_backend.Prelude.{
  ℕ, suc, ◌+◌, ◌≤◌, ◌≡◌, ◌⊎◌, ap, inl, inr, Option, none, some, true, List, [], ◌∷◌, arith, Uuid,
  Date, find_one,
}
use gameclub_backend.Common.Errors.{Exception, Result, ok, throw, Result-cases}
use gameclub_backend.Common.Filter.{normalise}
use gameclub_backend.Entities.Club.{
  BaseEntity, Room, room_entity, computer_entity, Customer, customer_entity, Session,
  session_entity,
}
use gameclub_backend.Pricing
use gameclub_backend.Pricing.{PlanParams, diff_seconds}
use gameclub_backend.Store.{Db}
use gameclub_backend.Store.Transaction.{Tx, lift, inserted, ◌>>=◌}
use gameclub_backend.Sessions.{StartSessionDto, insert_session, save_computer}
use gameclub_backend.Sessions.Start.{
  StartContext, resolve_customer, active_room, available_computer, new_session, start_one,
  start_each, start_in,
}
use gameclub_backend.Sessions.Requests.{
  IsClientError, IsAffordable, BooksDay, params_of, plan-throws, is_start, is_start-minutes,
}
use gameclub_backend.Sessions.Starting.{start_one-StartStages, available_computer_lem}

-- A sequence throws in its first half or in its second.
>>=-eq-throw :
    {A B : Type 0} (m : Tx A) (f : A → Tx B) (db : Db) {e : Exception}
    → (m >>= f) db ≡ throw e
    → (m db ≡ throw e) ⊎ ((a : A) × (next : Db) × (m db ≡ ok (a, next)) × (f a next ≡ throw e))
>>=-eq-throw m f db h = elim (Result-cases (m db)) [
  | inl (r, q) ↦ inr (r.0, r.1, q, ground arith)
  | inr (x, q) ↦ inl (ground arith)
]

resolve_customer-throws :
    (id : Option Uuid) (db : Db) (e : Exception)
    → resolve_customer id db ≡ throw e
    → IsClientError e
unfolding resolve_customer normalise
resolve_customer-throws none db e h = absurd (ground arith)
resolve_customer-throws (some id) db e h = ground arith

available_computer-throws :
    (id : Uuid) (db : Db) (e : Exception) → available_computer id db ≡ throw e → IsClientError e
unfolding available_computer normalise
available_computer-throws id db e h = ground arith

active_room-throws :
    (id : Uuid) (db : Db) (e : Exception) → active_room id db ≡ throw e → IsClientError e
unfolding active_room normalise
active_room-throws id db e h = ground arith

active_room-finds :
    (id : Uuid) (r : Room) (db db' : Db)
    → active_room id db ≡ ok (r, db')
    → find_one id db.rooms ≡ some r
unfolding active_room
active_room-finds id r db db' h = ground arith

insert_session-throws :
    (s : Session) (db : Db) (e : Exception) → insert_session s db ≡ throw e → IsClientError e
unfolding insert_session inserted normalise
insert_session-throws s db e h = ground arith

-- Every room that a request can find is affordable.
abbrev pub AllAffordable : Db → Type 0
AllAffordable db =
    (id : Uuid) (room : Room) → find_one id db.rooms ≡ some room → IsAffordable room.price_per_hour

lift-throw :
    {A : Type 0} (r : Result A) (db : Db) {e : Exception} → lift r db ≡ throw e → r ≡ throw e
lift-throw (ok a) db h = absurd (ground arith)
lift-throw (throw x) db h = ground arith

start_one-throws :
    (c : StartContext) (base : BaseEntity) (id : Uuid) (db : Db) (e : Exception)
    → AllAffordable db
    → BooksDay (params_of c.dto) c.started_at
    → start_one c base id db ≡ throw e
    → IsClientError e
unfolding start_one save_computer
start_one-throws c base id db e affordable books h =
    elim (>>=-eq-throw (available_computer id) _ db h) [
      | inl refused ↦ available_computer-throws id db e refused
      | inr (computer, db1, offered, h1) ↦
          elim (>>=-eq-throw (active_room computer.room_id) _ db1 h1) [
            | inl refused ↦ active_room-throws computer.room_id db1 e refused
            | inr (room, db2, opened, h2) ↦
                let same = available_computer_lem id computer db db1 offered in
                let found = active_room-finds computer.room_id room db1 db2 opened in
                let (r, rate, fits) = affordable computer.room_id room (rw same at found) in
                elim (>>=-eq-throw
                  (lift
                    (Pricing.plan c.dto.type room.price_per_hour c.started_at (params_of c.dto)))
                  _ db2 h2) [
                    | inl refused ↦
                        plan-throws c.dto.type r c.started_at (params_of c.dto) e fits books
                          (rw rate at (lift-throw _ db2 refused))
                    | inr (plan, db3, priced, h3) ↦
                        elim (>>=-eq-throw (insert_session (new_session c base computer room plan))
                          _ db3 h3) [
                            | inl refused ↦
                                insert_session-throws (new_session c base computer room plan) db3 e
                                  refused
                            | inr (s, db4, stored, h4) ↦ absurd (ground arith)
                          ]
                  ]
          ]
    ]

start_each-throws :
    (c : StartContext) (new_row : ℕ → BaseEntity) (i : ℕ) (ids : List Uuid) (db : Db)
    (e : Exception)
    → AllAffordable db
    → BooksDay (params_of c.dto) c.started_at
    → start_each c new_row i ids db ≡ throw e
    → IsClientError e
unfolding start_each
start_each-throws c new_row i [] db e affordable books h = absurd (ground arith)
start_each-throws c new_row i (id ∷ ids) db e affordable books h =
    elim (>>=-eq-throw (start_one c (new_row i) id) _ db h) [
      | inl refused ↦ start_one-throws c (new_row i) id db e affordable books refused
      | inr (s, next, started, h1) ↦
          let stages = start_one-StartStages c (new_row i) id db s next started in
          let kept : next.rooms ≡ db.rooms = ap (λ (d : Db). d.rooms) stages.written in
          elim (>>=-eq-throw (start_each c new_row (suc i) ids) _ next h1) [
            | inl refused ↦
                start_each-throws c new_row (suc i) ids next e
                  (λ k room found. affordable k room (rw kept at found)) books refused
            | inr (rest, last, went, h2) ↦ absurd (ground arith)
          ]
    ]

resolve_customer_same :
    (id : Option Uuid) (k : Option Customer) (db db' : Db)
    → resolve_customer id db ≡ ok (k, db')
    → db' ≡ db
unfolding resolve_customer
resolve_customer_same none k db db' h = ground arith
resolve_customer_same (some id) k db db' h = ground arith

-- If the rates of the rooms are not negative and their charge for a day is in the safe range, then
-- a start that passes the rules of its DTO, with a planned end at most a day ahead, when it fails,
-- fails with a status below 500, whatever is in the other tables.
pub start_in-IsClientError :
    (dto : StartSessionDto) (group_id : Option Uuid) (started_at : Date) (actor_id : Uuid)
    (new_row : ℕ → BaseEntity) (db : Db) (e : Exception)
    → is_start dto ≡ true
    → ((end : Date) → dto.planned_end_at ≡ some end → end ≤ started_at + 86400000)
    → AllAffordable db
    → start_in dto group_id started_at actor_id new_row db ≡ throw e
    → IsClientError e
unfolding start_in
start_in-IsClientError dto group_id started_at actor_id new_row db e valid soon affordable h =
    elim (>>=-eq-throw (resolve_customer dto.customer_id) _ db h) [
      | inl refused ↦ resolve_customer-throws dto.customer_id db e refused
      | inr (k, next, resolved, h1) ↦
          let same = resolve_customer_same dto.customer_id k db next resolved in
          start_each-throws _ new_row 0 dto.computer_ids next e (rw same affordable)
            ((λ m given. is_start-minutes dto m valid given), soon) h1
    ]
