-- ===== src/Tests/StartTests.antt =====
-- A start that is refused, and what its client is told.
use gameclub_backend.Prelude.{◌≡◌, refl, some, [], ◌∷◌, arith, find_one}
use gameclub_backend.Common.Errors.{Exception, throw, conflict_exception, lit, uuid}
use gameclub_backend.Entities.Club.{room_entity, ComputerStatus}
use gameclub_backend.Sessions.Start.{
  start_in, start_each, start_one, available_computer, active_room, resolve_customer,
}
use gameclub_backend.Sessions.Requests.{IsClientError, is_start, all_different, member}
use gameclub_backend.Sessions.Refusals.{AllAffordable, start_in-IsClientError}
use gameclub_backend.Tests.Data.{busy, machine, pair, pair_rows}

-- One of the two computers is in use.
abbrev taken : Exception
taken =
    conflict_exception "COMPUTER_NOT_AVAILABLE"
      (lit "Computer "
        ∷ lit (machine 11 ComputerStatus.in_use).label
        ∷ lit " is not available"
        ∷ [])
      (some (("computerId", uuid 11) ∷ ("status", lit "IN_USE") ∷ []))

start_taken : start_in pair (some 5) 0 7 pair_rows busy ≡ throw taken
unfolding start_in resolve_customer find_one start_each start_one available_computer active_room
start_taken = refl

busy-AllAffordable : AllAffordable busy
unfolding find_one
busy-AllAffordable id room found = (1200000, ground arith, omega arith)

start_in-IsClientError_example : IsClientError taken
unfolding is_start all_different member
start_in-IsClientError_example =
    start_in-IsClientError pair (some 5) 0 7 pair_rows busy taken refl
      (λ end given. absurd (ground arith)) busy-AllAffordable start_taken
