-- ===== src/Tests.antt =====
-- Tests of the definitions, and the theorems at concrete inputs.
mod Data
mod SessionTests
mod ComputerTests
mod DebtTests
mod StartTests
mod BoardTests
mod AuthTests
mod VisitTests
mod RequestTests
mod PageTests
mod MoneyTests
mod CommonTests
mod AnalyticsTests
