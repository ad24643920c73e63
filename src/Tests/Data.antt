-- ===== src/Tests/Data.antt =====
-- A club with one room, two computers, one customer, and a session that has been open for an hour.
use gameclub_backend.Prelude.{
  ℕ, if◌then◌else◌, ◌==◌, ◌+◌, none, some, true, false, List, [], ◌∷◌, Uuid,
}
use gameclub_backend.Prelude.Int.{pos}
use gameclub_backend.Money.{integer}
use gameclub_backend.Entities.Club.{
  BaseEntity, Room, Computer, ComputerStatus, Customer, Session, SessionType, SessionStatus,
  DebtTransaction,
}
use gameclub_backend.Store.{Db}
use gameclub_backend.Debt.{added_entry}
use gameclub_backend.Debt.History.{new_row}
use gameclub_backend.Sessions.{StartSessionDto, EndSessionDto}
use gameclub_backend.Sessions.Start.{new_session}
use gameclub_backend.Sessions.Settlement.{Settlement}
use gameclub_backend.Sessions.End.{ended_session, shortfall_input}

abbrev pub hall : Room
hall = record {
  base = new_row 1 0;
  name = "Hall";
  description = none;
  price_per_hour = pos 1200000;
  is_active = true;
}

abbrev pub machine : Uuid → ComputerStatus → Computer
machine id status = record {
  base = new_row id 0;
  label = if id == 11 then "A" else "B";
  room_id = 1;
  status = status;
  specs = none;
  is_active = true;
}

abbrev pub guest : Customer
guest = record {
  base = new_row 21 0;
  full_name = "Guest";
  phone = none;
  note = none;
  is_blocked = false;
}

abbrev pub idle : Db
idle = record {
  rooms = hall ∷ [];
  computers = machine 11 ComputerStatus.available ∷ machine 12 ComputerStatus.available ∷ [];
  customers = guest ∷ [];
  sessions = [];
  ledger = [];
}

abbrev pub running : Session
running = record {
  base = new_row 31 0;
  group_id = none;
  computer_id = 11;
  room_id = 1;
  customer_id = some 21;
  type = SessionType.open_session;
  status = SessionStatus.active;
  rate_per_hour = pos 1200000;
  started_at = 0;
  planned_end_at = none;
  ended_at = none;
  amount_due = pos 0;
  amount_paid = pos 0;
  started_by = some 7;
  ended_by = none;
  notes = none;
}

abbrev pub busy : Db
busy = record idle {
  computers = machine 11 ComputerStatus.in_use ∷ machine 12 ComputerStatus.available ∷ [];
  sessions = running ∷ [];
}

abbrev pub partly_paid : EndSessionDto
partly_paid = record { amount_paid = some (integer (pos 1000000)); notes = none }

abbrev pub hour_bill : Settlement
hour_bill = record {
  due = record { minor = pos 1200000 };
  paid = record { minor = pos 1000000 };
  shortfall = record { minor = pos 200000 };
}

abbrev pub ended_running : Session
ended_running = ended_session running hour_bill partly_paid 7 3600000

abbrev pub hour_debt : DebtTransaction
hour_debt =
    added_entry (shortfall_input ended_running hour_bill.shortfall 7 21) (new_row 41 3600000)
      (record { minor = pos 200000 })

abbrev pub after_hour : Db
after_hour = record busy {
  computers = machine 11 ComputerStatus.available ∷ machine 12 ComputerStatus.available ∷ [];
  sessions = ended_running ∷ [];
  ledger = hour_debt ∷ [];
}

-- Two computers for an hour, as a group.
abbrev pub pair : StartSessionDto
pair = record {
  computer_ids = 11 ∷ 12 ∷ [];
  type = SessionType.fixed_duration;
  customer_id = some 21;
  duration_minutes = some (pos 60);
  planned_end_at = none;
  notes = none;
}

abbrev pub pair_rows : ℕ → BaseEntity
pair_rows i = new_row (i + 31) 0

abbrev pub pair_session : ℕ → Uuid → Session
pair_session i computer =
    new_session
      (record {
        dto = pair;
        customer = some guest;
        group_id = some 5;
        started_at = 0;
        actor_id = 7;
      })
      (pair_rows i) (machine computer ComputerStatus.available) hall
      (record { planned_end_at = some 3600000; planned_amount = record { minor = pos 1200000 } })

abbrev pub pair_sessions : List Session
pair_sessions = pair_session 0 11 ∷ pair_session 1 12 ∷ []

abbrev pub paired : Db
paired = record idle {
  computers = machine 11 ComputerStatus.in_use ∷ machine 12 ComputerStatus.in_use ∷ [];
  sessions = pair_sessions;
}
