-- ===== src/Rooms.antt =====
-- src/modules/rooms/rooms.service.ts. The unique index `uq_rooms_name` counts the deleted rows also.
-- A field that a request does not give is left as it is.
pub mod Names
use gameclub_backend.Prelude.{
  Option, none, some, Bool, true, false, not, ◌&&◌, ◌||◌, String, List, [], ◌∷◌, ◌++◌, ◌==◌,
  if◌then◌else◌, same_text, Uuid, Date, find_one, save,
}
use gameclub_backend.Prelude.Int.{ℤ}
use gameclub_backend.Common.Errors.{Result, ok, throw, resource_not_found, conflict_exception, lit}
use gameclub_backend.Common.Stateful.{
  Does, pure, gets, lift, modify, or_raise, raise_if, ◌>>=◌, ◌>>◌,
}
use gameclub_backend.Common.Pagination.{PaginationQueryDto, PaginatedResult}
use gameclub_backend.Common.Listing.{Scan, is_kept, list_page}
use gameclub_backend.Entities.Club.{BaseEntity, Room, room_entity}
use gameclub_backend.Store.{Db}
use gameclub_backend.Store.Transaction.{unique_violation, inserted}

pub record CreateRoomDto : Type 0 where
  pub name : String
  pub description : Option String
  pub price_per_hour : ℤ

pub record UpdateRoomDto : Type 0 where
  pub name : Option String
  pub description : Option String
  pub price_per_hour : Option ℤ
  pub is_active : Option Bool

-- `exists({ where: { name } })`.
unfoldable pub name_exists : String → List Room → Bool
name_exists n [] = false
name_exists n (r ∷ rows) = (is_kept r.base && same_text r.name n) || name_exists n rows

-- The index `uq_rooms_name`: another row with this name, deleted or not.
unfoldable pub name_conflict : Room → List Room → Bool
name_conflict a [] = false
name_conflict a (r ∷ rows) =
    (same_text r.name a.name && not (r.base.id == a.base.id)) || name_conflict a rows

abbrev pub created_room : CreateRoomDto → BaseEntity → Room
created_room dto base = record {
  base = base;
  name = dto.name;
  description = dto.description;
  price_per_hour = dto.price_per_hour;
  is_active = true;
}

abbrev pub saved_rooms : Room → Db → Db
saved_rooms r db = record db { rooms = save r db.rooms }

-- `save` of a room under the index.
unfoldable pub save_room : Room → Does Db Room
save_room r = do
  raise_if (← gets (λ db. name_conflict r db.rooms)) unique_violation
  modify (saved_rooms r)
  pure r

unfoldable pub create : CreateRoomDto → BaseEntity → Does Db Room
unfolding save_room
create dto base = do
  raise_if (← gets (λ db. name_exists dto.name db.rooms))
      (conflict_exception "ROOM_NAME_TAKEN" (lit "A room with this name already exists" ∷ []) none)
  save_room (created_room dto base)

unfoldable pub find_by_id : Uuid → Does Db Room
find_by_id id = do
  found ← gets (λ db. find_one id db.rooms)
  or_raise found (resource_not_found "Room" (some id))

abbrev pub or_kept {ℓ} : {A : Type ℓ} → Option A → A → A
or_kept none a = a
or_kept (some b) a = b

abbrev pub kept_or : {A : Type 0} → Option A → Option A → Option A
kept_or none a = a
kept_or (some b) a = some b

abbrev pub assigned : Room → UpdateRoomDto → Room
assigned room dto = record room {
  name = or_kept dto.name room.name;
  description = kept_or dto.description room.description;
  price_per_hour = or_kept dto.price_per_hour room.price_per_hour;
  is_active = or_kept dto.is_active room.is_active;
}

unfoldable pub update : Uuid → UpdateRoomDto → Does Db Room
unfolding find_by_id save_room
update id dto = do room ← find_by_id id; save_room (assigned room dto)

-- `softRemove`: the row stays, with the time of its deletion.
unfoldable pub remove : Uuid → Date → Does Db (Unit {0})
unfolding find_by_id
remove id now = do
  room ← find_by_id id
  modify (saved_rooms (record room { base = record room.base { deleted_at = some now } }))

-- `findAll`; `collate` is the order of texts of the database.
unfoldable pub find_all :
    (String → String → Bool) → Scan Room → PaginationQueryDto → Db → PaginatedResult Room
find_all collate scan q db =
    list_page (λ r. is_kept r.base) (λ a b. collate a.name b.name) scan db.rooms q
