-- ===== src/Tests/BoardTests.antt =====
-- The example club as a board, and the ways out of its session.
use gameclub_backend.Prelude.{◌≡◌, refl, some, Uuid}
use gameclub_backend.Prelude.Int.{pos}
use gameclub_backend.Debt.History.{new_row}
use gameclub_backend.Entities.Club.{session_entity}
use gameclub_backend.Store.{Db}
use gameclub_backend.Store.Transaction.{has_key}
use gameclub_backend.Sessions.Rows.{active_on}
use gameclub_backend.Sessions.Reach.{Step}
use gameclub_backend.Sessions.Board.{board}
use gameclub_backend.Sessions.Refinement.{
  ClubStep, ClubRun, moves_of, play_all, AllAllowed, ClubRun-Allowed,
}
use gameclub_backend.Debt.Service.{check_payment}
use gameclub_backend.Common.Errors.{ok}
use gameclub_backend.Entities.Club.{customer_entity}
use gameclub_backend.Sessions.Progress.{Cancellations, Cancellations-close}
use gameclub_backend.Tests.Data.{busy, partly_paid, ended_running, hour_debt}
use gameclub_backend.Tests.SessionTests.{busy-Coupled, end_hour}
use gameclub_backend.Tests.DebtTests.{payment, paid_row, paid_off, pays_in}

-- The hour of the session ends, and a part of its debt is paid.
passes : check_payment (record { minor = pos 150000 }) ≡ ok (record { minor = pos 150000 })
unfolding check_payment
passes = refl

abbrev evening : ClubRun busy paid_off
evening =
    ClubRun.goes
      (ClubStep.plays (
        Step.ends 31 partly_paid 7 3600000 (new_row 41 3600000) ended_running (some hour_debt) refl
          end_hour))
      (ClubRun.goes
        (ClubStep.pays (payment (pos 150000)) (new_row 42 9) (record { minor = pos 150000 })
          paid_row refl passes pays_in)
        ClubRun.rests)

ClubRun-Allowed_example :
    AllAllowed (moves_of evening) (board busy)
    × (board paid_off ≡ play_all (moves_of evening) (board busy))
ClubRun-Allowed_example = ClubRun-Allowed evening busy-Coupled

Cancellations-close_example :
    (db' : Db) × Cancellations 7 3600000 busy db' × ((c : Uuid) → active_on c db'.sessions ≡ 0)
unfolding has_key
Cancellations-close_example = Cancellations-close 7 3600000 busy (refl, refl, tt)
