-- ===== src/Computers/Status.antt =====
-- The status of a computer that a request sets (src/modules/computers/computers.service.ts) against
-- the sessions on it (src/modules/sessions/sessions.service.ts).
use gameclub_backend.Prelude.{
  ◌⊎◌, inl, inr, Option-cases, ◌≡◌, none, some, arith, Uuid, Date, find_one, save, find_one-save,
  find_one-key, find_one-live,
}
use gameclub_backend.Common.Errors.{ok}
use gameclub_backend.Entities.Club.{Computer, computer_entity}
use gameclub_backend.Store.{World}
use gameclub_backend.Computers.{
  UpdateComputerDto, update, save_row, require_room, find_by_id, assigned,
}
use gameclub_backend.Sessions.Rows.{active_on}
use gameclub_backend.Sessions.Coupling.{Coupled}

update_lem :
    (id : Uuid) (dto : UpdateComputerDto) (at : Date) (w w' : World) (c : Computer)
    → update id dto at w ≡ (ok c, w')
    → (old : Computer) × (find_one id w.db.computers ≡ some old)
      × (c ≡ assigned old dto)
      × (w'.db ≡ record w.db { computers = save c w.db.computers })
unfolding update find_by_id save_row require_room
update_lem id dto at w w' c h = elim (Option-cases (find_one id w.db.computers)) [
  | inl absent ↦ absurd (ground arith)
  | inr (old, found) ↦ (old, found, ground arith, ground arith)
]

-- A request that leaves the status of a computer as it is, or that is made while no session is
-- active on the computer, keeps sessions and computers coupled.
pub update-Coupled :
    (id : Uuid) (dto : UpdateComputerDto) (at : Date) (w : World) (c : Computer) (w' : World)
    → Coupled w.db
    → (dto.status ≡ none) ⊎ (active_on id w.db.sessions ≡ 0)
    → update id dto at w ≡ (ok c, w')
    → Coupled w'.db
update-Coupled id dto at w c w' coupled quiet h k =
    let (old, found, made, wrote) = update_lem id dto at w w' c h in
    let key = find_one-key id old w.db.computers found in
    let alive = find_one-live id old w.db.computers found in
    ground (arith, wrote, made, coupled k, find_one-save k c w.db.computers, quiet)
