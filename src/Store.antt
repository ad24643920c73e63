-- ===== src/Store.antt =====
-- The state of the club: the tables, and the events emitted so far. A transaction works on the
-- tables and throws or commits; an action of a service may throw after it has committed.
pub mod Transaction
pub mod Action
use gameclub_backend.Prelude.{List}
use gameclub_backend.Entities.Club.{Room, Computer, Customer, Session, DebtTransaction}
use gameclub_backend.Events.{Envelope}

pub record Db : Type 0 where
  pub rooms : List Room
  pub computers : List Computer
  pub customers : List Customer
  pub sessions : List Session
  pub ledger : List DebtTransaction

pub record World : Type 0 where
  pub db : Db
  pub emitted : List Envelope
