-- ===== src/Sessions/Coupling.antt =====
-- Sessions and computers agree: a computer has an active session only while it is IN_USE, and then
-- one. The transactions of src/modules/sessions/sessions.service.ts keep this.
use mathlib.Core.Path.{subst}
use native.Mathlib.Decide.{ℕ_discrete}
use gameclub_backend.Prelude.{
  ℕ, ◌≤◌, ◌≡◌, ◌≢◌, sym, some, Bool, true, false, List, [], ◌∷◌, ◌++◌, arith, ◌==◌, if◌then◌else◌,
  Uuid, find_one, save, find_one-save, find_one-key, find_one-live, Option-cases, inl, inr,
}
use gameclub_backend.Common.Errors.{ok}
use gameclub_backend.Entities.Club.{
  Computer, computer_entity, ComputerStatus, is_in_use, Session, session_entity, is_active_status,
}
use gameclub_backend.Store.{Db}
use gameclub_backend.Sessions.{release_computer, index_conflict}
use gameclub_backend.Sessions.Start.{available_computer}
use gameclub_backend.Sessions.Rows.{
  active_on, in_use_at, active_on-append, active_on-save, index_conflict-none,
}

abbrev pub one_if : Bool → ℕ
one_if true = 1
one_if false = 0

abbrev pub Coupled : Db → Type 0
Coupled db = (c : Uuid) → active_on c db.sessions ≤ one_if (in_use_at c db.computers)

-- The computer that passes the test of `start` has no active session.
pub available_computer-free :
    (id : Uuid) (k : Computer) (db db' : Db)
    → Coupled db
    → available_computer id db ≡ ok (k, db')
    → (db' ≡ db)
      × (k.base.id ≡ id)
      × (active_on id db.sessions ≡ 0)
      × (find_one id db.computers ≡ some k)
unfolding available_computer
available_computer-free id k db db' coupled h = (
  ground arith,
  ground (arith, find_one-key id k db.computers),
  ground (arith, coupled id),
  ground arith,
)

-- So its new session meets no conflict in the unique index.
pub available_computer-no_conflict :
    (id : Uuid) (k : Computer) (s : Session) (db db' : Db)
    → Coupled db
    → available_computer id db ≡ ok (k, db')
    → s.computer_id ≡ k.base.id
    → index_conflict s db.sessions ≡ false
available_computer-no_conflict id k s db db' coupled h e =
    let (same, key, free, found) = available_computer-free id k db db' coupled h in
    index_conflict-none s db.sessions (rw (e, key) free)

-- Giving a computer the status `status` changes what is found under its key alone.
in_use_at-save :
    (c : Uuid) (k : Computer) (status : ComputerStatus) (rows : List Computer)
    → find_one k.base.id rows ≡ some k
    → in_use_at c (save (record k { status = status }) rows)
      ≡ (if k.base.id == c then is_in_use status else in_use_at c rows)
in_use_at-save c k status rows h =
    let alive = find_one-live k.base.id k rows h in
    ground (arith, find_one-save c (record k { status = status }) rows)

-- A new active session and the status IN_USE keep the tables coupled.
pub start_writes-Coupled :
    (k : Computer) (s : Session) (db : Db)
    → Coupled db
    → find_one k.base.id db.computers ≡ some k
    → active_on k.base.id db.sessions ≡ 0
    → s.computer_id ≡ k.base.id
    → Coupled (record db {
      sessions = db.sessions ++ s ∷ [];
      computers = save (record k { status = ComputerStatus.in_use }) db.computers;
    })
start_writes-Coupled k s db coupled found free e c = ground (
  arith,
  coupled c,
  active_on-append c s db.sessions,
  in_use_at-save c k ComputerStatus.in_use db.computers found,
)

-- Closing an active session leaves no active session on its computer.
pub closed-free :
    (old new : Session) (db : Db)
    → Coupled db
    → find_one new.base.id db.sessions ≡ some old
    → is_active_status old.status ≡ true
    → is_active_status new.status ≡ false
    → active_on old.computer_id (save new db.sessions) ≡ 0
closed-free old new db coupled found was now =
    ground
      (arith, coupled old.computer_id, active_on-save old.computer_id old new db.sessions found)

pub close-Coupled :
    (old new : Session) (db : Db)
    → Coupled db
    → find_one new.base.id db.sessions ≡ some old
    → is_active_status new.status ≡ false
    → Coupled (record db { sessions = save new db.sessions })
close-Coupled old new db coupled found now c =
    ground (arith, coupled c, active_on-save c old new db.sessions found)

-- `releaseComputer` touches the computers alone, and leaves no computer under this key IN_USE.
pub release_computer_lem :
    (id : Uuid) (db db' : Db)
    → release_computer id db ≡ ok (tt, db')
    → (db' ≡ record db { computers = db'.computers })
      × (in_use_at id db'.computers ≡ false)
      × ((c : Uuid) → id ≢ c → in_use_at c db'.computers ≡ in_use_at c db.computers)
unfolding release_computer
release_computer_lem id db db' h = elim (Option-cases (find_one id db.computers)) [
  | inl absent ↦ (ground arith, ground arith, λ c ne. ground arith)
  | inr (k, found) ↦
      let key = find_one-key id k db.computers found in
      let here = subst (λ i. find_one i db.computers ≡ some k) (sym key) found in
      let freed = in_use_at-save id k ComputerStatus.available db.computers here in
      (
        ground arith,
        ground arith,
        λ c ne. ground (arith, in_use_at-save c k ComputerStatus.available db.computers here),
      )
]

pub release_computer-Coupled :
    (id : Uuid) (db db' : Db)
    → Coupled db
    → active_on id db.sessions ≡ 0
    → release_computer id db ≡ ok (tt, db')
    → Coupled db'
release_computer-Coupled id db db' coupled free h c =
    let (same, freed, others) = release_computer_lem id db db' h in
    elim (ℕ_discrete id c) [ yes e ↦ ground arith | no ne ↦ ground (arith, coupled c, others c ne) ]
