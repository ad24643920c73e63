-- ===== src/Tests/SessionTests.antt =====
-- Sessions of the example club.
use gameclub_backend.Prelude.{
  ◌+◌, ◌⊎◌, ◌≡◌, refl, some, true, false, [], ◌∷◌, ◌≤◌, arith, Uuid, Date, find_one, save,
}
use gameclub_backend.Prelude.Int.{pos, ◌+ℤ◌, ◌-ℤ◌}
use gameclub_backend.Common.Errors.{ok, throw, conflict_exception, lit, uuid}
use gameclub_backend.Money
use gameclub_backend.Money.{from_minor, subtract, for_duration, charge, round_charge}
use gameclub_backend.Money.Double.{floor_div, nearest_even, double_sum, density, top_power}
use gameclub_backend.Pricing.{finalize, diff_seconds, plan, ExtendParams}
use gameclub_backend.Debt.{add_debt_in, insert, ledger_sum}
use gameclub_backend.Debt.History.{new_row}
use gameclub_backend.Entities.Club.{
  BaseEntity, Session, session_entity, SessionStatus, ComputerStatus,
}
use gameclub_backend.Store.{Db}
use gameclub_backend.Store.Transaction.{inserted, has_key}
use gameclub_backend.Sessions.{
  EndSessionDto, lock_active, save_session, insert_session, index_conflict, release_computer,
  save_computer, extend_in, cancel_in, cancelled_session,
}
use gameclub_backend.Sessions.Start.{
  start_in, start_each, start_one, available_computer, active_room, resolve_customer,
}
use gameclub_backend.Sessions.Settlement.{settlement, collected}
use gameclub_backend.Sessions.End.{end_in, record_shortfall}
use gameclub_backend.Sessions.Rows.{active_on, in_use_at}
use gameclub_backend.Sessions.Coupling.{Coupled, one_if}
use gameclub_backend.Sessions.Ending.{share_of}
use gameclub_backend.Sessions.Closing.{end_in-charges, end_in-frees, not_active}
use gameclub_backend.Sessions.Once.{end_in-once}
use gameclub_backend.Sessions.Group.{start_in-group, times, Started}
use gameclub_backend.Sessions.Reach.{rests, goes, ends, Run-Coupled}
use gameclub_backend.Sessions.Service.{start, quote}
use gameclub_backend.Sessions.Quotes.{quote-eq-charge, start-Starts, Starts}
use gameclub_backend.Sessions.Service.{end_session}
use gameclub_backend.Sessions.Announced.{SafeBalances, end_events, end_session-announces}
use gameclub_backend.Tests.Data.{
  idle, busy, running, hour_bill, partly_paid, ended_running, hour_debt, after_hour, machine, pair,
  pair_rows, pair_sessions, paired,
}

pub busy-Coupled : Coupled busy
unfolding active_on find_one
busy-Coupled c = ground arith

idle-Coupled : Coupled idle
unfolding active_on find_one
idle-Coupled c = ground arith

-- An hour is charged at the rate, a part of it is paid, and the rest is a debt.
pub end_hour :
    end_in 31 partly_paid 7 3600000 (new_row 41 3600000) busy
    ≡ ok ((ended_running, some hour_debt), after_hour)
unfolding end_in lock_active find_one settlement finalize for_duration charge diff_seconds
    round_charge floor_div nearest_even double_sum density top_power collected subtract ◌-ℤ◌
    save_session add_debt_in insert from_minor save record_shortfall index_conflict release_computer
    save_computer inserted has_key
end_hour = refl

settle_hour : settlement running (some (Money.integer (pos 1000000))) 3600000 ≡ ok hour_bill
unfolding settlement finalize for_duration charge diff_seconds round_charge floor_div nearest_even
    double_sum density top_power collected subtract ◌-ℤ◌ from_minor
settle_hour = refl

end_in-charges_example :
    ((old : Session) × (find_one 31 busy.sessions ≡ some old)
      × (finalize old 3600000 ≡ ok (record { minor = pos 1200000 })))
    × ((c : Uuid)
        → ledger_sum c after_hour.ledger
          ≡ ledger_sum c [] +ℤ share_of c (some 21) (pos 1200000 -ℤ pos 1000000))
    × (((k : Uuid) × (ended_running.customer_id ≡ some k)) ⊎ (pos 1000000 ≡ pos 1200000))
end_in-charges_example =
    end_in-charges 31 partly_paid 7 3600000 (new_row 41 3600000) busy ended_running (some hour_debt)
      after_hour refl end_hour

end_in-frees_example :
    (find_one 31 after_hour.sessions ≡ some ended_running)
    × (ended_running.status ≡ SessionStatus.ended)
    × (ended_running.ended_at ≡ some 3600000)
    × (in_use_at 11 after_hour.computers ≡ false)
    × (active_on 11 after_hour.sessions ≡ 0)
    × Coupled after_hour
end_in-frees_example =
    end_in-frees 31 partly_paid 7 3600000 (new_row 41 3600000) busy ended_running (some hour_debt)
      after_hour refl busy-Coupled end_hour

end_in-once_example :
    (find_one 31 after_hour.sessions ≡ some ended_running)
    × ((dto' : EndSessionDto) (actor' : Uuid) (at' : Date) (row' : BaseEntity)
        → end_in 31 dto' actor' at' row' after_hour ≡ throw (not_active ended_running))
    × ((actor' : Uuid) (at' : Date)
        → cancel_in 31 actor' at' after_hour ≡ throw (not_active ended_running))
    × ((params : ExtendParams) → extend_in 31 params after_hour ≡ throw (not_active ended_running))
end_in-once_example =
    end_in-once 31 partly_paid 7 3600000 (new_row 41 3600000) busy ended_running (some hour_debt)
      after_hour after_hour refl busy-Coupled end_hour rests

Run-Coupled_example : active_on 11 after_hour.sessions ≤ one_if (in_use_at 11 after_hour.computers)
Run-Coupled_example =
    Run-Coupled
      (goes
        (ends 31 partly_paid 7 3600000 (new_row 41 3600000) ended_running (some hour_debt) refl
          end_hour)
        rests)
      busy-Coupled 11

quote-eq-charge_example :
    (quote 31 3600000 5000000 busy ≡ ok (pos 1200000, 5000000))
    × ((later : Date) → quote 31 later 5000000 after_hour ≡ ok (pos 1200000, 5000000))
quote-eq-charge_example =
    quote-eq-charge 31 partly_paid 7 3600000 (new_row 41 3600000) busy ended_running
      (some hour_debt) after_hour 5000000 refl busy-Coupled end_hour

start_pair : start_in pair (some 5) 0 7 pair_rows idle ≡ ok (pair_sessions, paired)
unfolding start_in resolve_customer find_one start_each start_one available_computer active_room
    plan for_duration charge round_charge floor_div nearest_even double_sum density top_power
    from_minor insert_session index_conflict inserted has_key save_computer save
start_pair = refl

start_in-group_example :
    Started (11 ∷ 12 ∷ []) idle pair_sessions paired
    × ((c : Uuid) → times c (11 ∷ 12 ∷ []) ≤ 1)
    × ((c : Uuid)
        → (times c (11 ∷ 12 ∷ []) ≡ 0)
          ⊎ ((active_on c paired.sessions ≡ 1) × (in_use_at c paired.computers ≡ true)))
start_in-group_example =
    start_in-group pair (some 5) 0 7 pair_rows idle pair_sessions paired idle-Coupled start_pair

-- The second request for the same computer is refused, and with it the whole group.
start_twice :
    start_in (record pair { computer_ids = 11 ∷ 11 ∷ [] }) (some 5) 0 7 pair_rows idle
    ≡ throw (
        conflict_exception "COMPUTER_NOT_AVAILABLE"
          (lit "Computer " ∷ lit "A" ∷ lit " is not available" ∷ [])
          (some (("computerId", uuid 11) ∷ ("status", lit "IN_USE") ∷ [])))
unfolding start_in resolve_customer find_one start_each start_one available_computer active_room
    plan for_duration charge round_charge floor_div nearest_even double_sum density top_power
    from_minor insert_session index_conflict inserted has_key save_computer save
start_twice = refl

start-Starts_example :
    Starts
      (11 ∷ 12 ∷ [])
      (λ i. i + 9)
      (record { db = idle; emitted = [] })
      (start pair 5 0 7 pair_rows (λ i. i + 9) (record { db = idle; emitted = [] }))
start-Starts_example =
    start-Starts pair 5 0 7 pair_rows (λ i. i + 9) (record { db = idle; emitted = [] }) idle-Coupled

cancel_hour :
    cancel_in 31 7 3600000 busy
    ≡ ok (
      cancelled_session running 7 3600000,
      record after_hour { sessions = cancelled_session running 7 3600000 ∷ []; ledger = [] },
    )
unfolding cancel_in lock_active find_one save_session save release_computer save_computer
cancel_hour = refl

abbrev voided : Db
voided = record after_hour { sessions = cancelled_session running 7 3600000 ∷ []; ledger = [] }

offered : available_computer 11 idle ≡ ok (machine 11 ComputerStatus.available, idle)
unfolding available_computer find_one
offered = refl

after_hour-SafeBalances : SafeBalances after_hour
unfolding ledger_sum ◌+ℤ◌
after_hour-SafeBalances c = ground arith

end_session-announces_example :
    end_session 31 partly_paid 7 3600000
      (new_row 41 3600000)
      3600001
      3600002
      (record { db = busy; emitted = [] })
    ≡ (
      ok ended_running,
      record {
        db = after_hour;
        emitted = end_events ended_running (some hour_debt) 3600001 3600002 after_hour;
      },
    )
end_session-announces_example =
    end_session-announces 31 partly_paid 7 3600000 (new_row 41 3600000) 3600001 3600002
      (record { db = busy; emitted = [] }) ended_running (some hour_debt) after_hour end_hour
      after_hour-SafeBalances
