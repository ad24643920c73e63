-- ===== src/Computers.antt =====
-- src/modules/computers/computers.service.ts, with its events. The unique index
-- `uq_computer_room_label` counts the deleted rows also.
pub mod Status
use gameclub_backend.Prelude.{
  Option, none, some, Bool, true, false, not, ◌&&◌, ◌||◌, String, List, [], ◌∷◌, ◌++◌, ◌==◌,
  if◌then◌else◌, same_text, Uuid, Date, find_one, save,
}
use gameclub_backend.Common.Errors.{Result, ok, throw, resource_not_found}
use gameclub_backend.Common.Pagination.{PaginationQueryDto, PaginatedResult}
use gameclub_backend.Common.Listing.{is_kept, if_given, Scan, list_page}
use gameclub_backend.Entities.Json.{Json}
use gameclub_backend.Entities.Club.{
  BaseEntity, Computer, ComputerStatus, computer_entity, room_entity,
}
use gameclub_backend.Events.{computer_created, computer_updated, computer_event, build_event}
use gameclub_backend.Store.{Db}
use gameclub_backend.Store.Transaction.{unique_violation}
use gameclub_backend.Store.Action.{Action, pure, ◌>>=◌, ◌>>◌, transaction, emit}
use gameclub_backend.Rooms.{or_kept, kept_or}

pub record CreateComputerDto : Type 0 where
  pub label : String
  pub room_id : Uuid
  pub specs : Option Json

pub record UpdateComputerDto : Type 0 where
  pub label : Option String
  pub room_id : Option Uuid
  pub specs : Option Json
  pub status : Option ComputerStatus
  pub is_active : Option Bool

unfoldable pub label_conflict : Computer → List Computer → Bool
label_conflict a [] = false
label_conflict a (r ∷ rows) =
    (r.room_id == a.room_id && same_text r.label a.label && not (r.base.id == a.base.id))
    || label_conflict a rows

-- One call of the repository; each commits by itself.
unfoldable pub save_row : Computer → Action Computer
save_row c w =
    if label_conflict c w.db.computers
    then (throw unique_violation, w)
    else (ok c, record w { db = record w.db { computers = save c w.db.computers } })

-- `rooms.findById`, which only validates here.
unfoldable pub require_room : Uuid → Action (Unit {0})
require_room id w = elim (find_one id w.db.rooms) [
  | none ↦ (throw (resource_not_found "Room" (some id)), w)
  | some _ ↦ (ok tt, w)
]

unfoldable pub find_by_id : Uuid → Action Computer
find_by_id id w = elim (find_one id w.db.computers) [
  | none ↦ (throw (resource_not_found "Computer" (some id)), w)
  | some c ↦ (ok c, w)
]

abbrev pub created_computer : CreateComputerDto → BaseEntity → Computer
created_computer dto base = record {
  base = base;
  label = dto.label;
  room_id = dto.room_id;
  status = ComputerStatus.available;
  specs = dto.specs;
  is_active = true;
}

unfoldable pub create : CreateComputerDto → BaseEntity → Date → Action Computer
unfolding require_room save_row
create dto base at = do
  require_room dto.room_id
  computer ← save_row (created_computer dto base)
  emit (build_event computer_created (computer_event computer) at)
  pure computer

abbrev pub assigned : Computer → UpdateComputerDto → Computer
assigned c dto = record c {
  label = or_kept dto.label c.label;
  room_id = or_kept dto.room_id c.room_id;
  specs = kept_or dto.specs c.specs;
  status = or_kept dto.status c.status;
  is_active = or_kept dto.is_active c.is_active;
}

-- `if (dto.roomId && dto.roomId !== computer.roomId)`.
abbrev pub check_room : Option Uuid → Uuid → Action (Unit {0})
check_room none current = pure tt
check_room (some room) current = if room == current then pure tt else require_room room

unfoldable pub update : Uuid → UpdateComputerDto → Date → Action Computer
unfolding find_by_id save_row
update id dto at = do
  computer ← find_by_id id
  check_room dto.room_id computer.room_id
  saved ← save_row (assigned computer dto)
  emit (build_event computer_updated (computer_event saved) at)
  pure saved

unfoldable pub remove : Uuid → Date → Action (Unit {0})
unfolding find_by_id
remove id now = find_by_id id >>= λ computer. λ w. (
  ok tt,
  record w {
    db = record w.db {
      computers =
          save (record computer { base = record computer.base { deleted_at = some now } })
            w.db.computers;
    };
  },
)

abbrev pub same_state : ComputerStatus → ComputerStatus → Bool
same_state ComputerStatus.available ComputerStatus.available = true
same_state ComputerStatus.in_use ComputerStatus.in_use = true
same_state ComputerStatus.maintenance ComputerStatus.maintenance = true
same_state ComputerStatus.offline ComputerStatus.offline = true
same_state _ _ = false

-- The optional filters of `findAll`.
abbrev pub matches : Option Uuid → Option ComputerStatus → Computer → Bool
matches room status c =
    is_kept c.base && if_given room (λ k. c.room_id == k) && if_given status (same_state c.status)

-- `findAll`; `collate` is the order of texts of the database.
unfoldable pub find_all :
    (String → String → Bool)
    → Scan Computer
    → PaginationQueryDto
    → Option Uuid
    → Option ComputerStatus
    → Db
    → PaginatedResult Computer
find_all collate scan q room status db =
    list_page (matches room status) (λ a b. collate a.label b.label) scan db.computers q
