-- ===== src/Sessions/Stages.antt =====
-- What the transactions of src/modules/sessions/sessions.service.ts have gone through when they
-- succeed: the values of their steps, with the steps shut.
use gameclub_backend.Prelude.{
  ◌≡◌, Option, some, true, [], ◌∷◌, ◌++◌, arith, Uuid, Date, find_one, find_one-key, save,
}
use gameclub_backend.Common.Errors.{ok}
use gameclub_backend.Entities.Club.{
  BaseEntity, Session, session_entity, DebtTransaction, is_active_status,
}
use gameclub_backend.Store.{Db}
use gameclub_backend.Store.Transaction.{lift, >>=-then}
use gameclub_backend.Sessions.{
  EndSessionDto, save_session, insert_session, lock_active, release_computer, extend_in, cancel_in,
  cancelled_session,
}
use gameclub_backend.Pricing
use gameclub_backend.Pricing.{PricingPlan, ExtendParams}
use gameclub_backend.Sessions.Settlement.{Settlement, settlement}
use gameclub_backend.Sessions.End.{end_in, ended_session, record_shortfall}

-- A session that is locked is stored and active.
pub lock_active_lem :
    (id : Uuid) (s : Session) (db db' : Db)
    → lock_active id db ≡ ok (s, db')
    → (db' ≡ db)
      × (find_one id db.sessions ≡ some s)
      × (s.base.id ≡ id)
      × (is_active_status s.status ≡ true)
unfolding lock_active
lock_active_lem id s db db' h =
    (ground arith, ground arith, ground (arith, find_one-key id s db.sessions), ground arith)

pub save_session_lem :
    (s t : Session) (db db' : Db)
    → save_session s db ≡ ok (t, db')
    → (t ≡ s) × (db' ≡ record db { sessions = save s db.sessions })
unfolding save_session
save_session_lem s t db db' h = (ground arith, ground arith)

pub insert_session_lem :
    (s t : Session) (db db' : Db)
    → insert_session s db ≡ ok (t, db')
    → (t ≡ s) × (db' ≡ record db { sessions = db.sessions ++ s ∷ [] })
unfolding insert_session
insert_session_lem s t db db' h = (ground arith, ground arith)

-- A successful `end`: an active session, its settlement, the saved row, the debt and the release.
pub record EndStages (id : Uuid) (dto : EndSessionDto) (actor : Uuid) (at : Date) (row : BaseEntity)
    (db : Db) (saved : Session) (debt : Option DebtTransaction) (db' : Db) : Type 0 where
  pub old : Session
  pub settled : Settlement
  pub noted : Db
  pub found : find_one id db.sessions ≡ some old
  pub key : old.base.id ≡ id
  pub was_active : is_active_status old.status ≡ true
  pub settles : settlement old dto.amount_paid at ≡ ok settled
  pub row_saved : saved ≡ ended_session old settled dto actor at
  pub notes_debt :
      record_shortfall saved settled.shortfall actor row
        (record db { sessions = save saved db.sessions })
      ≡ ok (debt, noted)
  pub releases : release_computer old.computer_id noted ≡ ok (tt, db')

pub end_in-EndStages :
    (id : Uuid) (dto : EndSessionDto) (actor : Uuid) (at : Date) (row : BaseEntity) (db : Db)
    (saved : Session) (debt : Option DebtTransaction) (db' : Db)
    → end_in id dto actor at row db ≡ ok ((saved, debt), db')
    → EndStages id dto actor at row db saved debt db'
unfolding end_in
end_in-EndStages id dto actor at row db saved debt db' h =
    >>=-then (lock_active id) _ db h λ old db1 locks h1.
      >>=-then (lift (settlement old dto.amount_paid at)) _ db1 h1 λ settled db2 settles h2.
        >>=-then (save_session (ended_session old settled dto actor at)) _ db2 h2
          λ row_saved db3 saves h3.
            >>=-then (record_shortfall row_saved settled.shortfall actor row) _ db3 h3
              λ noted db4 notes h4.
                >>=-then (release_computer old.computer_id) _ db4 h4 λ done db5 releases h5.
                  let (same, found, key, active) = lock_active_lem id old db db1 locks in
                  let (as_ended, stored) =
                    save_session_lem (ended_session old settled dto actor at) row_saved db2 db3
                      saves in
                  record {
                    old = old;
                    settled = settled;
                    noted = db4;
                    found = found;
                    key = key;
                    was_active = active;
                    settles = ground arith;
                    row_saved = ground arith;
                    notes_debt = ground arith;
                    releases = ground arith;
                  }

-- A successful `cancel`: an active session, its saved row and the release.
pub record CancelStages (id actor : Uuid) (at : Date) (db : Db) (saved : Session) (db' : Db)
    : Type 0 where
  pub old : Session
  pub found : find_one id db.sessions ≡ some old
  pub key : old.base.id ≡ id
  pub was_active : is_active_status old.status ≡ true
  pub row_saved : saved ≡ cancelled_session old actor at
  pub releases :
      release_computer old.computer_id (record db { sessions = save saved db.sessions })
      ≡ ok (tt, db')

pub cancel_in-CancelStages :
    (id actor : Uuid) (at : Date) (db : Db) (saved : Session) (db' : Db)
    → cancel_in id actor at db ≡ ok (saved, db')
    → CancelStages id actor at db saved db'
unfolding cancel_in
cancel_in-CancelStages id actor at db saved db' h =
    >>=-then (lock_active id) _ db h λ old db1 locks h1.
      >>=-then (save_session (cancelled_session old actor at)) _ db1 h1 λ stored db2 saves h2.
        >>=-then (release_computer old.computer_id) _ db2 h2 λ done db3 releases h3.
          let (same, found, key, active) = lock_active_lem id old db db1 locks in
          let (as_made, written) =
            save_session_lem (cancelled_session old actor at) stored db1 db2 saves in
          record {
            old = old;
            found = found;
            key = key;
            was_active = active;
            row_saved = ground arith;
            releases = ground arith;
          }

-- A successful `extend`: an active session, its plan and its saved row.
pub record ExtendStages (id : Uuid) (params : ExtendParams) (db : Db) (saved : Session) (db' : Db)
    : Type 0 where
  pub old : Session
  pub plan : PricingPlan
  pub found : find_one id db.sessions ≡ some old
  pub key : old.base.id ≡ id
  pub was_active : is_active_status old.status ≡ true
  pub row_saved :
      saved
      ≡ record old { planned_end_at = plan.planned_end_at; amount_due = plan.planned_amount.minor }
  pub stored : db' ≡ record db { sessions = save saved db.sessions }

pub extend_in-ExtendStages :
    (id : Uuid) (params : ExtendParams) (db : Db) (saved : Session) (db' : Db)
    → extend_in id params db ≡ ok (saved, db')
    → ExtendStages id params db saved db'
unfolding extend_in
extend_in-ExtendStages id params db saved db' h =
    >>=-then (lock_active id) _ db h λ old db1 locks h1.
      >>=-then (lift (Pricing.extend old params)) _ db1 h1 λ plan db2 plans h2.
        let (same, found, key, active) = lock_active_lem id old db db1 locks in
        let (as_made, written) =
          save_session_lem
            (record old {
              planned_end_at = plan.planned_end_at;
              amount_due = plan.planned_amount.minor;
            })
            saved db2 db' h2 in
        record {
          old = old;
          plan = plan;
          found = found;
          key = key;
          was_active = active;
          row_saved = ground arith;
          stored = ground arith;
        }
