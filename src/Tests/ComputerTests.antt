-- ===== src/Tests/ComputerTests.antt =====
-- The administration of the computers of the example club, during a session.
use gameclub_backend.Prelude.{◌≡◌, refl, some, none, [], ◌∷◌, ◌≤◌, find_one, save}
use gameclub_backend.Common.Errors.{ok, throw}
use gameclub_backend.Money.{from_minor, for_duration, charge, round_charge}
use gameclub_backend.Money.Double.{floor_div, nearest_even, double_sum, density, top_power}
use gameclub_backend.Pricing.{plan}
use gameclub_backend.Entities.Club.{session_entity, ComputerStatus}
use gameclub_backend.Store.{World}
use gameclub_backend.Store.Transaction.{inserted, has_key}
use gameclub_backend.Sessions.{insert_session, index_conflict, save_computer}
use gameclub_backend.Sessions.Start.{
  start_in, start_each, start_one, available_computer, active_room, resolve_customer,
}
use gameclub_backend.Sessions.Rows.{active_on, in_use_at}
use gameclub_backend.Sessions.Coupling.{one_if}
use gameclub_backend.Events.{computer_updated, computer_event, build_event}
use gameclub_backend.Computers
use gameclub_backend.Computers.{UpdateComputerDto, update, save_row, label_conflict}
use gameclub_backend.Computers.Status.{update-Coupled}
use gameclub_backend.Store.Transaction.{unique_violation}
use gameclub_backend.Entities.Club.{Computer}
use gameclub_backend.Prelude.{inl}
use gameclub_backend.Tests.Data.{idle, busy, running, machine, pair, pair_rows}
use gameclub_backend.Tests.SessionTests.{busy-Coupled}

-- A request for a new label, while the computer is in use.
abbrev relabel : UpdateComputerDto
relabel = record {
  label = some "PC-1";
  room_id = none;
  specs = none;
  status = none;
  is_active = none;
}

abbrev relabelled : Computer
relabelled = record (machine 11 ComputerStatus.in_use) { label = "PC-1" }

abbrev after_relabel : World
after_relabel = record {
  db = record busy { computers = relabelled ∷ machine 12 ComputerStatus.available ∷ [] };
  emitted = build_event computer_updated (computer_event relabelled) 5 ∷ [];
}

relabels : update 11 relabel 5 (record { db = busy; emitted = [] }) ≡ (ok relabelled, after_relabel)
unfolding update find_one Computers.find_by_id save_row label_conflict save
relabels = refl

update-Coupled_example :
    active_on 11 busy.sessions ≤ one_if (in_use_at 11 after_relabel.db.computers)
update-Coupled_example =
    update-Coupled 11 relabel 5 (record { db = busy; emitted = [] }) relabelled after_relabel
      busy-Coupled (inl refl) relabels 11

-- A request that sets the status AVAILABLE during a session is accepted, and the next start on the
-- computer meets the unique index.
abbrev reset : UpdateComputerDto
reset = record {
  label = none;
  room_id = none;
  specs = none;
  status = some ComputerStatus.available;
  is_active = none;
}

reset_accepted :
    (update 11 reset 5 (record { db = busy; emitted = [] })).1.db
    ≡ record idle { sessions = running ∷ [] }
unfolding update find_one Computers.find_by_id save_row label_conflict save
reset_accepted = refl

reset_then_start :
    start_in pair (some 5) 0 7 pair_rows (record idle { sessions = running ∷ [] })
    ≡ throw unique_violation
unfolding start_in resolve_customer find_one start_each start_one available_computer active_room
    plan for_duration charge round_charge floor_div nearest_even double_sum density top_power
    from_minor insert_session index_conflict inserted has_key save_computer save
reset_then_start = refl
