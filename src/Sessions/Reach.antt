-- ===== src/Sessions/Reach.antt =====
-- The life of the club's sessions: the transactions that commit, one after the other
-- (src/modules/sessions/sessions.service.ts). A row lock makes the bodies of two transactions on
-- the same computer or session run in some order, and this is a run in that order.
use gameclub_backend.Prelude.{
  ℕ, ◌≡◌, refl, Option, none, some, false, List, arith, Uuid, Date, find_one, save,
}
use gameclub_backend.Prelude.Int.{pos}
use gameclub_backend.Common.Errors.{ok}
use gameclub_backend.Entities.Club.{
  BaseEntity, Session, session_entity, SessionStatus, DebtTransaction, is_active_status,
}
use gameclub_backend.Pricing.{ExtendParams}
use gameclub_backend.Store.{Db}
use gameclub_backend.Sessions.{StartSessionDto, EndSessionDto, extend_in, cancel_in}
use gameclub_backend.Sessions.Start.{start_in}
use gameclub_backend.Sessions.End.{end_in}
use gameclub_backend.Sessions.Rows.{active_on, active_on-save, in_use_at}
use gameclub_backend.Sessions.Coupling.{
  Coupled, closed-free, close-Coupled, release_computer-Coupled, release_computer_lem,
}
use gameclub_backend.Sessions.Stages.{cancel_in-CancelStages, extend_in-ExtendStages}
use gameclub_backend.Sessions.Closing.{end_in-frees}
use gameclub_backend.Sessions.Group.{start_in-group}

-- One committed transaction.
pub data Step : Db → Db → Type 0 where
  starts :
      {db db' : Db} (dto : StartSessionDto) (group : Option Uuid) (at : Date) (actor : Uuid)
      (new_row : ℕ → BaseEntity) (ss : List Session)
      → start_in dto group at actor new_row db ≡ ok (ss, db')
      → Step db db'
  extends :
      {db db' : Db} (id : Uuid) (params : ExtendParams) (s : Session)
      → extend_in id params db ≡ ok (s, db')
      → Step db db'
  ends :
      {db db' : Db} (id : Uuid) (dto : EndSessionDto) (actor : Uuid) (at : Date) (row : BaseEntity)
      (s : Session) (debt : Option DebtTransaction)
      → row.deleted_at ≡ none
      → end_in id dto actor at row db ≡ ok ((s, debt), db')
      → Step db db'
  cancels :
      {db db' : Db} (id actor : Uuid) (at : Date) (s : Session)
      → cancel_in id actor at db ≡ ok (s, db')
      → Step db db'

pub data Run : Db → Db → Type 0 where
  rests : {db : Db} → Run db db
  goes : {db mid db' : Db} → Step db mid → Run mid db' → Run db db'

-- A session that is cancelled costs nothing and adds nothing to any balance; its computer is free.
pub cancel_in-frees :
    (id actor : Uuid) (at : Date) (db : Db) (saved : Session) (db' : Db)
    → Coupled db
    → cancel_in id actor at db ≡ ok (saved, db')
    → (saved.amount_due ≡ pos 0)
      × (saved.status ≡ SessionStatus.cancelled)
      × (db'.ledger ≡ db.ledger)
      × (in_use_at saved.computer_id db'.computers ≡ false)
      × (active_on saved.computer_id db'.sessions ≡ 0)
      × Coupled db'
cancel_in-frees id actor at db saved db' coupled h =
    let st = cancel_in-CancelStages id actor at db saved db' h in
    let mid : Db = record db { sessions = save saved db.sessions } in
    let (released, free, others) = release_computer_lem st.old.computer_id mid db' st.releases in
    let place : saved.computer_id ≡ st.old.computer_id = ground (arith, st.row_saved) in
    let over : is_active_status saved.status ≡ false = ground (arith, st.row_saved) in
    let here : find_one saved.base.id db.sessions ≡ some st.old =
      ground (arith, st.found, st.key, st.row_saved) in
    let gone = closed-free st.old saved db coupled here st.was_active over in
    let closed = close-Coupled st.old saved db coupled here over in
    (
      ground (arith, st.row_saved),
      ground (arith, st.row_saved),
      rw released refl,
      rw place free,
      rw (place, released) gone,
      release_computer-Coupled st.old.computer_id mid db' closed gone st.releases,
    )

extend_in-Coupled :
    (id : Uuid) (params : ExtendParams) (db : Db) (saved : Session) (db' : Db)
    → Coupled db
    → extend_in id params db ≡ ok (saved, db')
    → Coupled db'
extend_in-Coupled id params db saved db' coupled h =
    let st = extend_in-ExtendStages id params db saved db' h in
    let here : find_one saved.base.id db.sessions ≡ some st.old =
      ground (arith, st.found, st.key, st.row_saved) in
    λ c.
      ground
        (arith, coupled c, st.row_saved, st.stored, active_on-save c st.old saved db.sessions here)

pub Step-Coupled : {db db' : Db} → Step db db' → Coupled db → Coupled db'
Step-Coupled {db} {db'} (starts dto group at actor new_row ss h) coupled =
    (start_in-group dto group at actor new_row db ss db' coupled h).0.coupled
Step-Coupled {db} {db'} (extends id params s h) coupled =
    extend_in-Coupled id params db s db' coupled h
Step-Coupled {db} {db'} (ends id dto actor at row s debt live h) coupled =
    (end_in-frees id dto actor at row db s debt db' live coupled h).5
Step-Coupled {db} {db'} (cancels id actor at s h) coupled =
    (cancel_in-frees id actor at db s db' coupled h).5

-- From coupled tables, no sequence of starts, extensions, ends and cancellations gives a computer
-- two active sessions, or an active session while it is not IN_USE.
pub Run-Coupled : {db db' : Db} → Run db db' → Coupled db → Coupled db'
Run-Coupled rests coupled = coupled
Run-Coupled (goes step run) coupled = Run-Coupled run (Step-Coupled step coupled)
