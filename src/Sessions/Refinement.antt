-- ===== src/Sessions/Refinement.antt =====
-- The committed transactions of src/modules/sessions/sessions.service.ts and
-- src/modules/debt/debt.service.ts against the board of `Sessions.Board`.
use mathlib.Core.Path.{subst}
use gameclub_backend.Prelude.{
  ◌≡◌, refl, sym, ap, ◌∙◌, none, some, Uuid, String, List, [], ◌∷◌, arith,
}
use gameclub_backend.Prelude.Int.{ℤ, pos, ◌+ℤ◌, ◌<ℤ◌}
use gameclub_backend.Common.Errors.{ok}
use gameclub_backend.Money.{Money, integer}
use gameclub_backend.Entities.Club.{BaseEntity, session_entity, DebtTransaction}
use gameclub_backend.Store.{Db}
use gameclub_backend.Debt.{LedgerEntryInput, record_payment_in, add_debt_in, correct_in}
use gameclub_backend.Debt.Ledger.{
  Moved, record_payment_in-Moved, add_debt_in-Moved, correct_in-Moved,
}
use gameclub_backend.Sessions.Coupling.{Coupled}
use gameclub_backend.Sessions.Ending.{share_of, Moved-share_of}
use gameclub_backend.Sessions.Reach.{Step, Step-Coupled}
use gameclub_backend.Sessions.Board.{
  Board, board, Move, play, Allowed, Leads, same_board, move_of, Step-Leads,
}
use gameclub_backend.Debt.Service.{check_payment}

-- One committed transaction of the club, of sessions or of the ledger.
pub data ClubStep : Db → Db → Type 0 where
  plays : {db db' : Db} → Step db db' → ClubStep db db'
  pays :
      {db db' : Db} (input : LedgerEntryInput) (base : BaseEntity) (m : Money) (t : DebtTransaction)
      → base.deleted_at ≡ none
      → check_payment m ≡ ok m
      → record_payment_in input base m db ≡ ok (t, db')
      → ClubStep db db'
  adds :
      {db db' : Db} (input : LedgerEntryInput) (base : BaseEntity) (v : ℤ) (t : DebtTransaction)
      → base.deleted_at ≡ none
      → input.amount ≡ integer v
      → add_debt_in input base db ≡ ok (t, db')
      → ClubStep db db'
  corrects :
      {db db' : Db} (customer actor : Uuid) (v : ℤ) (reason : String) (base : BaseEntity)
      (t : DebtTransaction)
      → base.deleted_at ≡ none
      → correct_in customer (integer v) actor reason base db ≡ ok (t, db')
      → ClubStep db db'

pub data ClubRun : Db → Db → Type 0 where
  rests : {db : Db} → ClubRun db db
  goes : {db mid db' : Db} → ClubStep db mid → ClubRun mid db' → ClubRun db db'

Moved-Coupled : (k : Uuid) (v : ℤ) (db db' : Db) → Moved k v db db' → Coupled db → Coupled db'
Moved-Coupled k v db db' moved coupled = rw moved.tables coupled

-- The move of a transaction, read off its request and its answer.
abbrev pub club_move : {db db' : Db} → ClubStep db db' → Move
club_move (ClubStep.plays step) = move_of step
club_move (ClubStep.pays input base m t live passed h) = Move.pays input.customer_id m.minor
club_move (ClubStep.adds input base v t live amount h) = Move.borrows input.customer_id v
club_move (ClubStep.corrects customer actor v reason base t live h) = Move.amends customer v

abbrev pub moves_of : {db db' : Db} → ClubRun db db' → List Move
moves_of ClubRun.rests = []
moves_of (ClubRun.goes step run) = club_move step ∷ moves_of run

-- The board after moves, and whether the rules allow each where it is made.
abbrev pub play_all : List Move → Board → Board
play_all [] b = b
play_all (m ∷ moves) b = play_all moves (play m b)

abbrev pub AllAllowed : List Move → Board → Type 0
AllAllowed [] b = Unit {0}
AllAllowed (m ∷ moves) b = Allowed m b × AllAllowed moves (play m b)

check_payment-positive : (m : Money) → check_payment m ≡ ok m → pos 0 <ℤ m.minor
unfolding check_payment
check_payment-positive m h = ground arith

Moved-Leads :
    (k : Uuid) (v : ℤ) (db db' : Db) (b : Board)
    → Moved k v db db'
    → b ≡ record (board db) { owes = λ c. (board db).owes c +ℤ share_of c (some k) v }
    → board db' ≡ b
Moved-Leads k v db db' b moved is =
    same_board _ _ (λ c. rw moved.tables refl) (λ c. Moved-share_of c k v db db' moved) ∙ sym is

ClubStep-Leads :
    {db db' : Db} (step : ClubStep db db')
    → Coupled db
    → Leads (club_move step) (board db) (board db') × Coupled db'
ClubStep-Leads (ClubStep.plays step) coupled = (Step-Leads step coupled, Step-Coupled step coupled)
ClubStep-Leads {db} {db'} (ClubStep.pays input base m t live passed h) coupled =
    let (covered, moved) = record_payment_in-Moved input base m db t db' live h in
    (
      ((check_payment-positive m passed, covered), Moved-Leads _ _ db db' _ moved refl),
      Moved-Coupled _ _ db db' moved coupled,
    )
ClubStep-Leads {db} {db'} (ClubStep.adds input base v t live amount h) coupled =
    let (positive, moved) = add_debt_in-Moved input base v db t db' live amount h in
    ((positive, Moved-Leads _ _ db db' _ moved refl), Moved-Coupled _ _ db db' moved coupled)
ClubStep-Leads {db} {db'} (ClubStep.corrects customer actor v reason base t live h) coupled =
    let (nonzero, moved) = correct_in-Moved customer actor v reason base db t db' live h in
    ((nonzero, Moved-Leads _ _ db db' _ moved refl), Moved-Coupled _ _ db db' moved coupled)

-- The club refines the board: from coupled tables, whatever transactions of the sessions and of the
-- ledger commit, one after the other, the rules of the board allow the moves of these transactions,
-- and the tables show in the end just the board that the moves lead to. The move of a start takes
-- the computers it asks for; that of an end leaves the computer of the session it answers and adds
-- what this session lacks to the account of its customer; a cancellation leaves a computer, an
-- extension changes nothing; a payment, a debt and a correction move one account by their amount.
pub ClubRun-Allowed :
    {db db' : Db} (run : ClubRun db db')
    → Coupled db
    → AllAllowed (moves_of run) (board db) × (board db' ≡ play_all (moves_of run) (board db))
ClubRun-Allowed ClubRun.rests coupled = (tt, refl)
ClubRun-Allowed (ClubRun.goes step run) coupled =
    let ((allowed, led), kept) = ClubStep-Leads step coupled in
    let (rest, last) = ClubRun-Allowed run kept in
    ((allowed, subst (AllAllowed (moves_of run)) led rest), last ∙ ap (play_all (moves_of run)) led)
