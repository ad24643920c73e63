-- ===== src/Sessions/Rows.antt =====
-- The active sessions on a computer and its status, under the writes of
-- src/modules/sessions/sessions.service.ts.
use gameclub_backend.Prelude.{
  ℕ, ◌+◌, ◌≡◌, refl, Option, none, some, Bool, false, ◌&&◌, List, [], ◌∷◌, ◌++◌, arith, ◌==◌,
  if◌then◌else◌, Uuid, find_one, save,
}
use gameclub_backend.Entities.Club.{
  Computer, computer_entity, is_in_use, Session, session_entity, is_active_status,
}
use gameclub_backend.Sessions.{index_conflict}

-- 1 for an active session on computer `c`, else 0.
abbrev pub on_computer : Uuid → Session → ℕ
on_computer c s = if is_active_status s.status && s.computer_id == c then 1 else 0

unfoldable pub active_on : Uuid → List Session → ℕ
active_on c [] = 0
active_on c (s ∷ rows) = on_computer c s + active_on c rows

-- A computer that the program finds IN_USE.
abbrev pub found_in_use : Option Computer → Bool
found_in_use none = false
found_in_use (some k) = is_in_use k.status

abbrev pub in_use_at : Uuid → List Computer → Bool
in_use_at c rows = found_in_use (find_one c rows)

pub active_on-append :
    (c : Uuid) (s : Session) (rows : List Session)
    → active_on c (rows ++ s ∷ []) ≡ active_on c rows + on_computer c s
unfolding active_on
active_on-append c s [] = ground arith
active_on-append c s (r ∷ rows) = ground (arith, active_on-append c s rows)

-- Saving a row in place of one that is found exchanges their parts of the count.
pub active_on-save :
    (c : Uuid) (old new : Session) (rows : List Session)
    → find_one new.base.id rows ≡ some old
    → active_on c (save new rows) + on_computer c old ≡ active_on c rows + on_computer c new
unfolding active_on find_one save
active_on-save c old new [] h = absurd (cc)
active_on-save c old new (r ∷ rows) h = ground (arith, active_on-save c old new rows)

-- With no active session on its computer a session is no conflict.
pub index_conflict-none :
    (s : Session) (rows : List Session)
    → active_on s.computer_id rows ≡ 0
    → index_conflict s rows ≡ false
unfolding active_on index_conflict
index_conflict-none s [] h = refl
index_conflict-none s (r ∷ rows) h = ground (arith, index_conflict-none s rows)
