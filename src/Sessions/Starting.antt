-- ===== src/Sessions/Starting.antt =====
-- What `start` does (src/modules/sessions/sessions.service.ts), one computer and then a group.
use gameclub_backend.Prelude.{◌≡◌, [], ◌∷◌, ◌++◌, arith, Uuid, save}
use gameclub_backend.Common.Errors.{ok}
use gameclub_backend.Entities.Club.{
  BaseEntity, Room, Computer, computer_entity, ComputerStatus, Session, session_entity,
}
use gameclub_backend.Pricing
use gameclub_backend.Pricing.{PricingPlan}
use gameclub_backend.Store.{Db}
use gameclub_backend.Store.Transaction.{lift, >>=-then}
use gameclub_backend.Sessions.{insert_session, save_computer}
use gameclub_backend.Sessions.Start.{
  StartContext, available_computer, active_room, new_session, start_one,
}
use gameclub_backend.Sessions.Stages.{insert_session_lem}

-- One round of `start`: the computer was free, the room active, the plan priced, and both rows
-- were written.
pub record StartStages (c : StartContext) (base : BaseEntity) (id : Uuid) (db : Db) (s : Session)
    (db' : Db) : Type 0 where
  pub computer : Computer
  pub room : Room
  pub plan : PricingPlan
  pub offered : available_computer id db ≡ ok (computer, db)
  pub priced :
      Pricing.plan c.dto.type room.price_per_hour c.started_at (record {
        duration_minutes = c.dto.duration_minutes;
        planned_end_at = c.dto.planned_end_at;
      })
      ≡ ok plan
  pub made : s ≡ new_session c base computer room plan
  pub written : db' ≡ record db {
    sessions = db.sessions ++ s ∷ [];
    computers = save (record computer { status = ComputerStatus.in_use }) db.computers;
  }

pub active_room_lem :
    (id : Uuid) (r : Room) (db db' : Db) → active_room id db ≡ ok (r, db') → db' ≡ db
unfolding active_room
active_room_lem id r db db' h = ground arith

pub available_computer_lem :
    (id : Uuid) (k : Computer) (db db' : Db) → available_computer id db ≡ ok (k, db') → db' ≡ db
unfolding available_computer
available_computer_lem id k db db' h = ground arith

pub start_one-StartStages :
    (c : StartContext) (base : BaseEntity) (id : Uuid) (db : Db) (s : Session) (db' : Db)
    → start_one c base id db ≡ ok (s, db')
    → StartStages c base id db s db'
unfolding start_one save_computer
start_one-StartStages c base id db s db' h =
    >>=-then (available_computer id) _ db h λ computer db1 offers h1.
      >>=-then (active_room computer.room_id) _ db1 h1 λ room db2 opens h2.
        >>=-then
          (lift (
            Pricing.plan c.dto.type room.price_per_hour c.started_at (record {
              duration_minutes = c.dto.duration_minutes;
              planned_end_at = c.dto.planned_end_at;
            })))
          _ db2 h2
          λ plan db3 prices h3.
            >>=-then (insert_session (new_session c base computer room plan)) _ db3 h3
              λ made db4 inserts h4.
                let same1 = available_computer_lem id computer db db1 offers in
                let same2 = active_room_lem computer.room_id room db1 db2 opens in
                let (as_made, stored) =
                  insert_session_lem (new_session c base computer room plan) made db3 db4 inserts in
                record {
                  computer = computer;
                  room = room;
                  plan = plan;
                  offered = ground arith;
                  priced = ground arith;
                  made = ground arith;
                  written = ground arith;
                }
