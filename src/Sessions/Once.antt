-- ===== src/Sessions/Once.antt =====
-- A session that has ended stays as it is (src/modules/sessions/sessions.service.ts).
use gameclub_backend.Prelude.{
  ◌≡◌, refl, Option, none, some, true, false, List, [], ◌∷◌, ◌++◌, arith, Uuid, Date, find_one,
  save, find_one-save, find_one-key,
}
use gameclub_backend.Common.Errors.{ok, throw}
use gameclub_backend.Pricing.{ExtendParams}
use gameclub_backend.Entities.Club.{
  BaseEntity, Session, session_entity, DebtTransaction, is_active_status,
}
use gameclub_backend.Store.{Db}
use gameclub_backend.Sessions.{EndSessionDto, extend_in, cancel_in}
use gameclub_backend.Sessions.End.{end_in}
use gameclub_backend.Sessions.Coupling.{Coupled, release_computer_lem}
use gameclub_backend.Sessions.Stages.{
  extend_in-ExtendStages, cancel_in-CancelStages, end_in-EndStages,
}
use gameclub_backend.Sessions.Ending.{settlement_lem, record_shortfall_lem}
use gameclub_backend.Sessions.Closing.{end_in-frees, not_active, closed-refuses}
use gameclub_backend.Sessions.Group.{start_in-group}
use gameclub_backend.Sessions.Reach.{Step, Run, Step-Coupled}

find_one-append :
    (k : Uuid) (s : Session) (rows more : List Session)
    → find_one k rows ≡ some s
    → find_one k (rows ++ more) ≡ some s
unfolding find_one
find_one-append k s [] more h = absurd (ground arith)
find_one-append k s (r ∷ rows) more h = ground (arith, find_one-append k s rows more)

-- A write to a session that was active leaves a session that is not.
save-other :
    (id : Uuid) (s old new : Session) (rows : List Session)
    → find_one id rows ≡ some s
    → is_active_status s.status ≡ false
    → find_one new.base.id rows ≡ some old
    → is_active_status old.status ≡ true
    → find_one id (save new rows) ≡ some s
save-other id s old new rows found over there active =
    ground (arith, find_one-save id new rows, find_one-key id s rows found)

Step-keeps :
    {db db' : Db} (id : Uuid) (s : Session)
    → Step db db'
    → Coupled db
    → find_one id db.sessions ≡ some s
    → is_active_status s.status ≡ false
    → find_one id db'.sessions ≡ some s
Step-keeps {db} {db'} id s (Step.starts dto group at actor new_row ss h) coupled found over =
    let (all, once, busy) = start_in-group dto group at actor new_row db ss db' coupled h in
    rw all.appended (find_one-append id s db.sessions ss found)
Step-keeps {db} {db'} id s (Step.extends id' params new h) coupled found over =
    let st = extend_in-ExtendStages id' params db new db' h in
    let there : find_one new.base.id db.sessions ≡ some st.old =
      ground (arith, st.found, st.key, st.row_saved) in
    rw st.stored (save-other id s st.old new db.sessions found over there st.was_active)
Step-keeps {db} {db'} id s (Step.ends id' dto actor at row new debt live h) coupled found over =
    let st = end_in-EndStages id' dto actor at row db new debt db' h in
    let (final, paid, sum, least, full) =
      settlement_lem st.old dto.amount_paid at st.settled st.settles in
    let (kept, added) =
      record_shortfall_lem id new st.settled.shortfall actor row _ debt st.noted live least
        st.notes_debt in
    let (released, free, others) =
      release_computer_lem st.old.computer_id st.noted db' st.releases in
    let there : find_one new.base.id db.sessions ≡ some st.old =
      ground (arith, st.found, st.key, st.row_saved) in
    rw (released, kept) (save-other id s st.old new db.sessions found over there st.was_active)
Step-keeps {db} {db'} id s (Step.cancels id' actor at new h) coupled found over =
    let st = cancel_in-CancelStages id' actor at db new db' h in
    let mid : Db = record db { sessions = save new db.sessions } in
    let (released, free, others) = release_computer_lem st.old.computer_id mid db' st.releases in
    let there : find_one new.base.id db.sessions ≡ some st.old =
      ground (arith, st.found, st.key, st.row_saved) in
    rw released (save-other id s st.old new db.sessions found over there st.was_active)

Run-keeps :
    {db db' : Db} (id : Uuid) (s : Session)
    → Run db db'
    → Coupled db
    → find_one id db.sessions ≡ some s
    → is_active_status s.status ≡ false
    → find_one id db'.sessions ≡ some s
Run-keeps id s Run.rests coupled found over = found
Run-keeps id s (Run.goes step run) coupled found over =
    Run-keeps id s run (Step-Coupled step coupled) (Step-keeps id s step coupled found over) over

-- With sessions and computers coupled, a session that has ended is never charged again: after any
-- further starts, extensions, ends and cancellations that commit, it is stored as it was when it
-- ended, and to end it, to cancel it or to extend it fails with SESSION_NOT_ACTIVE.
pub end_in-once :
    (id : Uuid) (dto : EndSessionDto) (actor : Uuid) (at : Date) (row : BaseEntity) (db : Db)
    (saved : Session) (debt : Option DebtTransaction) (db' : Db) (later : Db)
    → row.deleted_at ≡ none
    → Coupled db
    → end_in id dto actor at row db ≡ ok ((saved, debt), db')
    → Run db' later
    → (find_one id later.sessions ≡ some saved)
      × ((dto' : EndSessionDto) (actor' : Uuid) (at' : Date) (row' : BaseEntity)
          → end_in id dto' actor' at' row' later ≡ throw (not_active saved))
      × ((actor' : Uuid) (at' : Date) → cancel_in id actor' at' later ≡ throw (not_active saved))
      × ((params : ExtendParams) → extend_in id params later ≡ throw (not_active saved))
end_in-once id dto actor at row db saved debt db' later live coupled h run =
    let left = end_in-frees id dto actor at row db saved debt db' live coupled h in
    let over : is_active_status saved.status ≡ false = rw left.1 refl in
    let kept = Run-keeps id saved run left.5 left.0 over in
    let (ends, cancels, extends) = closed-refuses id saved later kept over in
    (kept, ends, cancels, extends)
