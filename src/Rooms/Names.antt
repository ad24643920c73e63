-- ===== src/Rooms/Names.antt =====
-- When a room can be created (src/modules/rooms/rooms.service.ts).
use gameclub_backend.Prelude.{
  ◌≡◌, ◌⊎◌, refl, none, Bool, true, false, ◌||◌, String, List, [], ◌∷◌, same_text, arith,
  Bool-cases, inl, inr,
}
use gameclub_backend.Common.Errors.{Result, ok, throw, conflict_exception, lit}
use gameclub_backend.Entities.Club.{BaseEntity, Room, room_entity}
use gameclub_backend.Store.{Db}
use gameclub_backend.Store.Transaction.{unique_violation, has_key}
use gameclub_backend.Rooms.{
  CreateRoomDto, name_exists, name_conflict, created_room, saved_rooms, save_room, create,
}

-- Some row has the name, deleted or not.
unfoldable pub has_name : String → List Room → Bool
has_name n [] = false
has_name n (r ∷ rows) = same_text r.name n || has_name n rows

name_exists-has_name :
    (n : String) (rows : List Room) → name_exists n rows ≡ true → has_name n rows ≡ true
unfolding name_exists has_name
name_exists-has_name n [] h = absurd (ground arith)
name_exists-has_name n (r ∷ rows) h = ground (arith, name_exists-has_name n rows)

-- For a row with a new key the index refuses just a name that is there.
name_conflict-has_name :
    (a : Room) (rows : List Room)
    → has_key a.base.id rows ≡ false
    → name_conflict a rows ≡ has_name a.name rows
unfolding name_conflict has_name has_key
name_conflict-has_name a [] h = refl
name_conflict-has_name a (r ∷ rows) h = ground (arith, name_conflict-has_name a rows)

-- What `create` answers, and the tables after it.
abbrev pub Created : CreateRoomDto → BaseEntity → Db → Result Room × Db → Type 0
Created dto base db r =
    ((has_name dto.name db.rooms ≡ false)
      × (r ≡ (ok (created_room dto base), saved_rooms (created_room dto base) db)))
    ⊎ ((name_exists dto.name db.rooms ≡ true)
        × (r ≡ (
          throw (
              conflict_exception "ROOM_NAME_TAKEN" (lit "A room with this name already exists" ∷ [])
                none),
          db,
        )))
    ⊎ ((has_name dto.name db.rooms ≡ true)
        × (name_exists dto.name db.rooms ≡ false)
        × (r ≡ (throw unique_violation, db)))

-- A room with a new key is created exactly if no row has its name. A name of a room that is there
-- is refused with ROOM_NAME_TAKEN; a name that only deleted rooms have passes that test, and is
-- refused by the unique index. A refusal changes nothing.
pub create-Created :
    (dto : CreateRoomDto) (base : BaseEntity) (db : Db)
    → has_key base.id db.rooms ≡ false
    → Created dto base db (create dto base db)
unfolding create save_room
create-Created dto base db new =
    let index = name_conflict-has_name (created_room dto base) db.rooms new in
    elim (Bool-cases (name_exists dto.name db.rooms)) [
      | inl there ↦ inr (inl (there, ground arith))
      | inr absent ↦ elim (Bool-cases (has_name dto.name db.rooms)) [
        | inl deleted ↦ inr (inr (deleted, absent, ground (arith, index)))
        | inr free ↦ inl (free, ground (arith, index))
      ]
    ]
