-- ===== src/Sessions/Progress.antt =====
-- What can always be done with active sessions (src/modules/sessions/sessions.service.ts).
use gameclub_backend.Prelude.{
  ℕ, zero, suc, ◌+◌, ◌≤◌, ◌≡◌, refl, Option, none, some, true, false, List, [], ◌∷◌, arith, ◌==◌,
  if◌then◌else◌, Uuid, Date, find_one, save, Option-cases, find_one-live, inl, inr,
}
use gameclub_backend.Common.Errors.{ok}
use gameclub_backend.Entities.Club.{
  Session, session_entity, computer_entity, ComputerStatus, is_active_status, is_in_use,
}
use gameclub_backend.Store.{Db}
use gameclub_backend.Store.Transaction.{has_key}
use gameclub_backend.Sessions.{
  lock_active, save_session, release_computer, cancel_in, cancelled_session,
}
use gameclub_backend.Sessions.Rows.{active_on}
use gameclub_backend.Sessions.Coupling.{release_computer_lem}

-- `releaseComputer` never fails.
pub release_computer-enabled :
    (id : Uuid) (db : Db) → (db' : Db) × (release_computer id db ≡ ok (tt, db'))
unfolding release_computer
release_computer-enabled id db = elim (Option-cases (find_one id db.computers)) [
  | inl absent ↦ (db, ground arith)
  | inr (k, found) ↦ (
    if is_in_use k.status
        then record db {
          computers = save (record k { status = ComputerStatus.available }) db.computers;
        }
        else db,
    ground arith,
  )
]

-- An active session can be cancelled.
cancel_in-enabled :
    (id actor : Uuid) (at : Date) (s : Session) (db : Db)
    → find_one id db.sessions ≡ some s
    → is_active_status s.status ≡ true
    → (db' : Db) × (cancel_in id actor at db ≡ ok (cancelled_session s actor at, db'))
      × (db'.sessions ≡ save (cancelled_session s actor at) db.sessions)
unfolding cancel_in lock_active save_session
cancel_in-enabled id actor at s db found active =
    let mid : Db = record db { sessions = save (cancelled_session s actor at) db.sessions } in
    let (db', releases) = release_computer-enabled s.computer_id mid in
    let (released, free, others) = release_computer_lem s.computer_id mid db' releases in
    (db', ground (arith, releases), rw released refl)

-- Every row can be read by its key: none is deleted, and no key stands twice.
abbrev pub IsReadable : List Session → Type 0
IsReadable [] = Unit {0}
IsReadable (s ∷ rows) =
    (s.base.deleted_at ≡ none) × (has_key s.base.id rows ≡ false) × IsReadable rows

unfoldable pub active_rows : List Session → ℕ
active_rows [] = 0
active_rows (s ∷ rows) = (if is_active_status s.status then 1 else 0) + active_rows rows

unfoldable next_active : List Session → Option Session
next_active [] = none
next_active (s ∷ rows) = if is_active_status s.status then some s else next_active rows

has_key-save :
    (k : Uuid) (s : Session) (rows : List Session)
    → has_key k (save s rows) ≡ (if s.base.id == k then true else has_key k rows)
unfolding has_key save
has_key-save k s [] = ground arith
has_key-save k s (r ∷ rows) = ground (arith, has_key-save k s rows)

save-IsReadable :
    (s : Session) (rows : List Session)
    → s.base.deleted_at ≡ none
    → IsReadable rows
    → IsReadable (save s rows)
unfolding save has_key
save-IsReadable s [] live h = (live, refl, tt)
save-IsReadable s (r ∷ rows) live h =
    ground (arith, save-IsReadable s rows live, has_key-save r.base.id s rows)

next_active-found :
    (s : Session) (rows : List Session)
    → IsReadable rows
    → next_active rows ≡ some s
    → (find_one s.base.id rows ≡ some s)
      × (is_active_status s.status ≡ true)
      × (has_key s.base.id rows ≡ true)
unfolding next_active find_one has_key
next_active-found s [] h e = absurd (cc)
next_active-found s (r ∷ rows) h e = ground (arith, next_active-found s rows)

next_active-none : (rows : List Session) → next_active rows ≡ none → active_rows rows ≡ 0
unfolding next_active active_rows
next_active-none [] e = refl
next_active-none (r ∷ rows) e = ground (arith, next_active-none rows)

active_on-le : (c : Uuid) (rows : List Session) → active_on c rows ≤ active_rows rows
unfolding active_on active_rows
active_on-le c [] = omega arith
active_on-le c (r ∷ rows) = ground (arith, active_on-le c rows)

active_rows-save :
    (old new : Session) (rows : List Session)
    → find_one new.base.id rows ≡ some old
    → is_active_status old.status ≡ true
    → is_active_status new.status ≡ false
    → active_rows (save new rows) + 1 ≡ active_rows rows
unfolding active_rows find_one save
active_rows-save old new [] h was now = absurd (cc)
active_rows-save old new (r ∷ rows) h was now = ground (arith, active_rows-save old new rows)

-- Cancellations by `actor` at the time `at`, one after the other, each of them committed.
pub data Cancellations (actor : Uuid) (at : Date) : Db → Db → Type 0 where
  rests : {db : Db} → Cancellations actor at db db
  goes :
      {db mid db' : Db} (id : Uuid) (s : Session)
      → cancel_in id actor at db ≡ ok (s, mid)
      → Cancellations actor at mid db'
      → Cancellations actor at db db'

-- With `n` active rows, `n` cancellations leave none.
cancel_each :
    (n : ℕ) (actor : Uuid) (at : Date) (db : Db)
    → IsReadable db.sessions
    → active_rows db.sessions ≡ n
    → (db' : Db) × Cancellations actor at db db' × (active_rows db'.sessions ≡ 0)
cancel_each zero actor at db readable count = (db, Cancellations.rests, count)
cancel_each (suc n) actor at db readable count = elim (Option-cases (next_active db.sessions)) [
  | inl over ↦ absurd (omega (arith, next_active-none db.sessions over))
  | inr (s, next) ↦
      let (found, active, there) = next_active-found s db.sessions readable next in
      let (mid, cancelled, saved) = cancel_in-enabled s.base.id actor at s db found active in
      let alive = find_one-live s.base.id s db.sessions found in
      let new = cancelled_session s actor at in
      let fewer = active_rows-save s new db.sessions found active refl in
      let readable' : IsReadable mid.sessions =
        rw saved (save-IsReadable new db.sessions (ground arith) readable) in
      let (db', run, none_left) =
        cancel_each n actor at mid readable' (rw saved (omega (arith, fewer))) in
      (db', Cancellations.goes s.base.id new cancelled run, none_left)
]

-- The club can always be closed by cancellations alone: when each session can be read by its key,
-- there are cancellations that commit one after the other, all by the same member of the staff and at
-- the same time, and after which no computer has an active session.
pub Cancellations-close :
    (actor : Uuid) (at : Date) (db : Db)
    → IsReadable db.sessions
    → (db' : Db) × Cancellations actor at db db' × ((c : Uuid) → active_on c db'.sessions ≡ 0)
Cancellations-close actor at db readable =
    let (db', run, none_left) = cancel_each (active_rows db.sessions) actor at db readable refl in
    (db', run, λ c. omega (arith, active_on-le c db'.sessions))
