-- ===== src/Sessions/Board.antt =====
-- What the transactions of src/modules/sessions/sessions.service.ts and
-- src/modules/debt/debt.service.ts promise together: a board of the computers that are taken, and
-- the account of each customer. Rows, groups, prices and times are forgotten.
use gameclub_backend.Prelude.{
  ◌≤◌, ◌≡◌, ◌≢◌, refl, Option, none, some, Bool, true, false, ◌||◌, List, arith, ltb, ◌==◌,
  if◌then◌else◌, Uuid, Date, find_one, save,
}
use gameclub_backend.Prelude.Int.{ℤ, pos, ◌+ℤ◌, ◌-ℤ◌, ◌≤ℤ◌, ◌<ℤ◌, int_laws}
use gameclub_backend.Common.Errors.{ok}
use gameclub_backend.Entities.Club.{
  BaseEntity, Session, session_entity, DebtTransaction, is_active_status,
}
use gameclub_backend.Pricing.{ExtendParams}
use gameclub_backend.Store.{Db}
use gameclub_backend.Debt.{ledger_sum}
use gameclub_backend.Sessions.{EndSessionDto, extend_in, cancel_in}
use gameclub_backend.Sessions.End.{end_in}
use gameclub_backend.Sessions.Rows.{active_on, active_on-save}
use gameclub_backend.Sessions.Coupling.{Coupled, release_computer_lem}
use gameclub_backend.Sessions.Ending.{share_of, settlement_lem, record_shortfall_lem}
use gameclub_backend.Sessions.Stages.{
  extend_in-ExtendStages, cancel_in-CancelStages, end_in-EndStages,
}
use gameclub_backend.Sessions.Group.{times, start_in-group}
use gameclub_backend.Sessions.Reach.{Step}

pub record Board : Type 0 where
  pub taken : Uuid → Bool
  pub owes : Uuid → ℤ

-- What the tables show of the board.
abbrev pub board : Db → Board
board db = record {
  taken = λ c. ltb 0 (active_on c db.sessions);
  owes = λ c. ledger_sum c db.ledger;
}

-- A move on the board. Computers are taken; nothing changes; one leaves a computer and owes what is
-- left unpaid; one leaves it and the session is cancelled; one pays; one borrows; an account is
-- corrected.
pub data Move : Type 0 where
  seats : List Uuid → Move
  stays : Move
  leaves : (place : Uuid) (customer : Option Uuid) (unpaid : ℤ) → Move
  walks_out : (place : Uuid) → Move
  pays borrows amends : (customer : Uuid) (amount : ℤ) → Move

abbrev vacated : Uuid → Board → Uuid → Bool
vacated place b c = if place == c then false else b.taken c

abbrev charged : Option Uuid → ℤ → Board → Uuid → ℤ
charged customer amount b c = b.owes c +ℤ share_of c customer amount

-- The board after a move.
abbrev pub play : Move → Board → Board
play (Move.seats ids) b = record b { taken = λ c. b.taken c || ltb 0 (times c ids) }
play Move.stays b = b
play (Move.leaves place customer unpaid) b = record {
  taken = vacated place b;
  owes = charged customer unpaid b;
}
play (Move.walks_out place) b = record b { taken = vacated place b }
play (Move.pays customer amount) b = record b { owes = charged (some customer) (pos 0 -ℤ amount) b }
play (Move.borrows customer amount) b = record b { owes = charged (some customer) amount b }
play (Move.amends customer amount) b = record b { owes = charged (some customer) amount b }

-- The rules of the board. Only free computers are taken, each once; one leaves a computer that is
-- taken, and owes nothing without an account; one pays a positive amount that is owed.
abbrev pub Allowed : Move → Board → Type 0
Allowed (Move.seats ids) b =
    ((c : Uuid) → times c ids ≤ 1) × ((c : Uuid) → b.taken c ≡ true → times c ids ≡ 0)
Allowed Move.stays b = Unit {0}
Allowed (Move.leaves place customer unpaid) b =
    (b.taken place ≡ true) × (pos 0 ≤ℤ unpaid) × (customer ≡ none → unpaid ≡ pos 0)
Allowed (Move.walks_out place) b = b.taken place ≡ true
Allowed (Move.pays customer amount) b = (pos 0 <ℤ amount) × (amount ≤ℤ b.owes customer)
Allowed (Move.borrows customer amount) b = pos 0 <ℤ amount
Allowed (Move.amends customer amount) b = amount ≢ pos 0

-- A move that the rules allow, and that leads to just this board.
abbrev pub Leads : Move → Board → Board → Type 0
Leads m b b' = Allowed m b × (b' ≡ play m b)

pub same_board :
    (b b' : Board)
    → ((c : Uuid) → b'.taken c ≡ b.taken c)
    → ((c : Uuid) → b'.owes c ≡ b.owes c)
    → b' ≡ b
same_board b b' taken owes i = record { taken = λ c. taken c i; owes = λ c. owes c i }

-- Closing an active session frees its computer and no other.
close-taken :
    (old new : Session) (db : Db)
    → Coupled db
    → find_one new.base.id db.sessions ≡ some old
    → is_active_status old.status ≡ true
    → is_active_status new.status ≡ false
    → new.computer_id ≡ old.computer_id
    → (ltb 0 (active_on new.computer_id db.sessions) ≡ true)
      × ((c : Uuid)
          → ltb 0 (active_on c (save new db.sessions))
            ≡ (if new.computer_id == c then false else ltb 0 (active_on c db.sessions)))
close-taken old new db coupled found was now place = (
  ground (arith, active_on-save new.computer_id old new db.sessions found),
  λ c. ground (arith, coupled c, active_on-save c old new db.sessions found),
)

extend_in-stays :
    (id : Uuid) (params : ExtendParams) (db : Db) (saved : Session) (db' : Db)
    → extend_in id params db ≡ ok (saved, db')
    → Leads Move.stays (board db) (board db')
extend_in-stays id params db saved db' h =
    let st = extend_in-ExtendStages id params db saved db' h in
    let here : find_one saved.base.id db.sessions ≡ some st.old =
      ground (arith, st.found, st.key, st.row_saved) in
    (
      tt,
      same_board _ _
          (λ c.
            ground (arith, st.row_saved, st.stored, active_on-save c st.old saved db.sessions here))
          (λ c. rw st.stored refl),
    )

cancel_in-walks_out :
    (id actor : Uuid) (at : Date) (db : Db) (saved : Session) (db' : Db)
    → Coupled db
    → cancel_in id actor at db ≡ ok (saved, db')
    → Leads (Move.walks_out saved.computer_id) (board db) (board db')
cancel_in-walks_out id actor at db saved db' coupled h =
    let st = cancel_in-CancelStages id actor at db saved db' h in
    let mid : Db = record db { sessions = save saved db.sessions } in
    let (released, free, others) = release_computer_lem st.old.computer_id mid db' st.releases in
    let over : is_active_status saved.status ≡ false = ground (arith, st.row_saved) in
    let place : saved.computer_id ≡ st.old.computer_id = ground (arith, st.row_saved) in
    let here : find_one saved.base.id db.sessions ≡ some st.old =
      ground (arith, st.found, st.key, st.row_saved) in
    let (was, frees) = close-taken st.old saved db coupled here st.was_active over place in
    (was, same_board _ _ (λ c. rw released (frees c)) (λ c. rw released refl))

end_in-leaves :
    (id : Uuid) (dto : EndSessionDto) (actor : Uuid) (at : Date) (row : BaseEntity) (db : Db)
    (saved : Session) (debt : Option DebtTransaction) (db' : Db)
    → row.deleted_at ≡ none
    → Coupled db
    → end_in id dto actor at row db ≡ ok ((saved, debt), db')
    → Leads
        (Move.leaves saved.computer_id saved.customer_id (saved.amount_due -ℤ saved.amount_paid))
        (board db)
        (board db')
end_in-leaves id dto actor at row db saved debt db' live coupled h =
    let st = end_in-EndStages id dto actor at row db saved debt db' h in
    let (final, paid, sum, least, full) =
      settlement_lem st.old dto.amount_paid at st.settled st.settles in
    let due : saved.amount_due ≡ st.settled.due.minor = ground (arith, st.row_saved) in
    let got : saved.amount_paid ≡ st.settled.paid.minor = ground (arith, st.row_saved) in
    let left : st.settled.shortfall.minor ≡ saved.amount_due -ℤ saved.amount_paid =
      rw (due, got, ← sum) (omega int_laws) in
    let adds = λ (c : Uuid).
      record_shortfall_lem c saved st.settled.shortfall actor row _ debt st.noted live least
        st.notes_debt in
    let (released, free, others) =
      release_computer_lem st.old.computer_id st.noted db' st.releases in
    let over : is_active_status saved.status ≡ false = ground (arith, st.row_saved) in
    let place : saved.computer_id ≡ st.old.computer_id = ground (arith, st.row_saved) in
    let whose : saved.customer_id ≡ st.old.customer_id = ground (arith, st.row_saved) in
    let here : find_one saved.base.id db.sessions ≡ some st.old =
      ground (arith, st.found, st.key, st.row_saved) in
    let (was, frees) = close-taken st.old saved db coupled here st.was_active over place in
    let kept = (adds id).0 in
    (
      (was, rw (← left) least, λ e. ground (arith, full, whose, left)),
      same_board _ _ (λ c. rw (released, kept) (frees c)) (λ c. rw (released, ← left) (adds c).1),
    )

-- The move of a transaction: the computers that a start asks for, and of an end or a cancellation
-- the session that it answers.
abbrev pub move_of : {db db' : Db} → Step db db' → Move
move_of (Step.starts dto group at actor new_row ss h) = Move.seats dto.computer_ids
move_of (Step.extends id params s h) = Move.stays
move_of (Step.ends id dto actor at row s debt live h) =
    Move.leaves s.computer_id s.customer_id (s.amount_due -ℤ s.amount_paid)
move_of (Step.cancels id actor at s h) = Move.walks_out s.computer_id

-- Every committed transaction makes its move on the board.
pub Step-Leads :
    {db db' : Db} (step : Step db db') → Coupled db → Leads (move_of step) (board db) (board db')
Step-Leads {db} {db'} (Step.starts dto group at actor new_row ss h) coupled =
    let (all, once, busy) = start_in-group dto group at actor new_row db ss db' coupled h in
    (
      (once, λ c t. ground (arith, all.counts c, all.coupled c)),
      same_board _ _ (λ c. ground (arith, all.counts c)) (λ c. ground (arith, all.tables)),
    )
Step-Leads {db} {db'} (Step.extends id params s h) coupled = extend_in-stays id params db s db' h
Step-Leads {db} {db'} (Step.ends id dto actor at row s debt live h) coupled =
    end_in-leaves id dto actor at row db s debt db' live coupled h
Step-Leads {db} {db'} (Step.cancels id actor at s h) coupled =
    cancel_in-walks_out id actor at db s db' coupled h
