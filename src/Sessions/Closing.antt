-- ===== src/Sessions/Closing.antt =====
-- What `end` of src/modules/sessions/sessions.service.ts leaves behind: the ledger and the tables.
use gameclub_backend.Prelude.{
  ◌⊎◌, inl, inr, ◌≡◌, refl, sym, ◌∙◌, none, some, false, arith, Option, Uuid, Date, find_one, save,
  find_one-save, find_one-live, [], ◌∷◌,
}
use gameclub_backend.Prelude.Int.{◌+ℤ◌, ◌-ℤ◌, int_laws, +ℤ_zero}
use gameclub_backend.Common.Errors.{ok, throw, Exception, conflict_exception, lit}
use gameclub_backend.Pricing.{finalize, ExtendParams}
use gameclub_backend.Entities.Club.{
  BaseEntity, Session, session_entity, SessionStatus, DebtTransaction, is_active_status,
  session_status_text,
}
use gameclub_backend.Store.{Db}
use gameclub_backend.Debt.{ledger_sum}
use gameclub_backend.Sessions.{EndSessionDto, lock_active, extend_in, cancel_in}
use gameclub_backend.Sessions.End.{end_in}
use gameclub_backend.Sessions.Rows.{active_on, in_use_at}
use gameclub_backend.Sessions.Coupling.{
  Coupled, closed-free, close-Coupled, release_computer_lem, release_computer-Coupled,
}
use gameclub_backend.Sessions.Stages.{end_in-EndStages}
use gameclub_backend.Sessions.Ending.{share_of, settlement_lem, record_shortfall_lem}

-- A session that ends is charged its final amount; what the customer has not paid of it is added to
-- the customer's balance, and to no other balance; without a customer it is paid in full.
pub end_in-charges :
    (id : Uuid) (dto : EndSessionDto) (actor : Uuid) (at : Date) (row : BaseEntity) (db : Db)
    (saved : Session) (debt : Option DebtTransaction) (db' : Db)
    → row.deleted_at ≡ none
    → end_in id dto actor at row db ≡ ok ((saved, debt), db')
    → ((old : Session) × (find_one id db.sessions ≡ some old)
        × (finalize old at ≡ ok (record { minor = saved.amount_due })))
      × ((c : Uuid)
          → ledger_sum c db'.ledger
            ≡ ledger_sum c db.ledger
              +ℤ share_of c saved.customer_id (saved.amount_due -ℤ saved.amount_paid))
      × (((k : Uuid) × (saved.customer_id ≡ some k)) ⊎ (saved.amount_paid ≡ saved.amount_due))
end_in-charges id dto actor at row db saved debt db' live h =
    let st = end_in-EndStages id dto actor at row db saved debt db' h in
    let (final, paid, sum, least, full) =
      settlement_lem st.old dto.amount_paid at st.settled st.settles in
    let due : saved.amount_due ≡ st.settled.due.minor = ground (arith, st.row_saved) in
    let got : saved.amount_paid ≡ st.settled.paid.minor = ground (arith, st.row_saved) in
    let whose : saved.customer_id ≡ st.old.customer_id = ground (arith, st.row_saved) in
    let left : st.settled.shortfall.minor ≡ saved.amount_due -ℤ saved.amount_paid =
      rw (due, got, ← sum) (omega int_laws) in
    (
      (st.old, st.found, ground (arith, final, due)),
      λ c.
          let (kept, added) =
            record_shortfall_lem c saved st.settled.shortfall actor row _ debt st.noted live least
              st.notes_debt in
          let (released, free, others) =
            release_computer_lem st.old.computer_id st.noted db' st.releases in
          rw (released, ← left) added,
      elim full [
        | inl (k, e) ↦ inl (k, whose ∙ e)
        | inr z ↦ inr (got ∙ +ℤ_zero st.settled.paid.minor ∙ (rw z at sum) ∙ sym due)
      ],
    )

-- The session that `end` answers is the one it has stored.
pub end_in-find_one :
    (id : Uuid) (dto : EndSessionDto) (actor : Uuid) (at : Date) (row : BaseEntity) (db : Db)
    (saved : Session) (debt : Option DebtTransaction) (db' : Db)
    → row.deleted_at ≡ none
    → end_in id dto actor at row db ≡ ok ((saved, debt), db')
    → find_one id db'.sessions ≡ some saved
end_in-find_one id dto actor at row db saved debt db' live h =
    let st = end_in-EndStages id dto actor at row db saved debt db' h in
    let (final, paid, sum, least, full) =
      settlement_lem st.old dto.amount_paid at st.settled st.settles in
    let (kept, added) =
      record_shortfall_lem id saved st.settled.shortfall actor row _ debt st.noted live least
        st.notes_debt in
    let (released, free, others) =
      release_computer_lem st.old.computer_id st.noted db' st.releases in
    let there : saved.base.id ≡ id = ground (arith, st.row_saved, st.key) in
    let alive = find_one-live id st.old db.sessions st.found in
    let stored : find_one id (save saved db.sessions) ≡ some saved =
      ground (arith, find_one-save id saved db.sessions, st.row_saved, alive, there) in
    rw (released, kept) stored

-- With sessions and computers coupled, a session that ends is stored as ended, its computer is no
-- longer in use and has no active session, and sessions and computers are coupled again.
pub end_in-frees :
    (id : Uuid) (dto : EndSessionDto) (actor : Uuid) (at : Date) (row : BaseEntity) (db : Db)
    (saved : Session) (debt : Option DebtTransaction) (db' : Db)
    → row.deleted_at ≡ none
    → Coupled db
    → end_in id dto actor at row db ≡ ok ((saved, debt), db')
    → (find_one id db'.sessions ≡ some saved)
      × (saved.status ≡ SessionStatus.ended)
      × (saved.ended_at ≡ some at)
      × (in_use_at saved.computer_id db'.computers ≡ false)
      × (active_on saved.computer_id db'.sessions ≡ 0)
      × Coupled db'
end_in-frees id dto actor at row db saved debt db' live coupled h =
    let st = end_in-EndStages id dto actor at row db saved debt db' h in
    let (final, paid, sum, least, full) =
      settlement_lem st.old dto.amount_paid at st.settled st.settles in
    let (kept, added) =
      record_shortfall_lem id saved st.settled.shortfall actor row _ debt st.noted live least
        st.notes_debt in
    let (released, free, others) =
      release_computer_lem st.old.computer_id st.noted db' st.releases in
    let there : saved.base.id ≡ id = ground (arith, st.row_saved, st.key) in
    let over : saved.status ≡ SessionStatus.ended = ground (arith, st.row_saved) in
    let place : saved.computer_id ≡ st.old.computer_id = ground (arith, st.row_saved) in
    let found : find_one saved.base.id db.sessions ≡ some st.old = rw there st.found in
    let over' : is_active_status saved.status ≡ false = rw over refl in
    let closed = close-Coupled st.old saved db coupled found over' in
    let gone = closed-free st.old saved db coupled found st.was_active over' in
    let noted : Coupled st.noted = rw kept closed in
    (
      end_in-find_one id dto actor at row db saved debt db' live h,
      over,
      ground (arith, st.row_saved),
      rw place free,
      rw (place, released, kept) gone,
      release_computer-Coupled st.old.computer_id st.noted db' noted (rw kept gone) st.releases,
    )

abbrev pub not_active : Session → Exception
not_active s =
    conflict_exception "SESSION_NOT_ACTIVE"
      (lit "Session is " ∷ lit (session_status_text s.status) ∷ lit " and cannot be modified" ∷ [])
      none

lock_active-refuses :
    (id : Uuid) (s : Session) (db : Db)
    → find_one id db.sessions ≡ some s
    → is_active_status s.status ≡ false
    → lock_active id db ≡ throw (not_active s)
unfolding lock_active
lock_active-refuses id s db found over = ground arith

-- A session that is stored and not active can be neither ended nor cancelled nor extended.
pub closed-refuses :
    (id : Uuid) (s : Session) (db : Db)
    → find_one id db.sessions ≡ some s
    → is_active_status s.status ≡ false
    → ((dto : EndSessionDto) (actor : Uuid) (at : Date) (row : BaseEntity)
        → end_in id dto actor at row db ≡ throw (not_active s))
      × ((actor : Uuid) (at : Date) → cancel_in id actor at db ≡ throw (not_active s))
      × ((params : ExtendParams) → extend_in id params db ≡ throw (not_active s))
unfolding end_in cancel_in extend_in
closed-refuses id s db found over =
    let refused = lock_active-refuses id s db found over in
    (
      λ dto actor at row. ground (arith, refused),
      λ actor at. ground (arith, refused),
      λ params. ground (arith, refused),
    )
