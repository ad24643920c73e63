-- ===== src/Tests/CommonTests.antt =====
-- Pages, redaction, roles, the cache, rooms and searches at concrete inputs.
use gameclub_backend.Prelude.{none, false}
use gameclub_backend.Prelude.Int.{pos}
use gameclub_backend.Common.Cache.{Key, CacheEntry, get, lookup}
use gameclub_backend.Debt.History.{new_row}
use gameclub_backend.Entities.Club.{room_entity}
use gameclub_backend.Store.Transaction.{has_key}
use gameclub_backend.Rooms.{CreateRoomDto, create}
use gameclub_backend.Rooms.Names.{Created, create-Created}
use gameclub_backend.Customers.Search.{
  literal, any_text, contains_pattern, read_like, read_like-contains_pattern,
}
use gameclub_backend.Tests.Data.{idle}
use gameclub_backend.Prelude.{ℕ, ◌≡◌, refl, List, [], ◌∷◌}
use gameclub_backend.Common.Pagination.{page_of, paginate, skip}
use gameclub_backend.Entities.Json.{Json, Fields}
use gameclub_backend.Audit.{redact, redact_fields}

abbrev five : List ℕ
five = 1 ∷ 2 ∷ 3 ∷ 4 ∷ 5 ∷ []

last_page : (page_of five (record { page = 3; limit = 2 })).items ≡ 5 ∷ []
unfolding page_of paginate skip
last_page = refl

abbrev signed_in : Json
signed_in =
    Json.obj (
      Fields.field "email" (Json.str "a@b.uz") (Fields.field "password" (Json.str "pw") Fields.end))

-- The fields of a nested object are left as they are.
abbrev nested : Json
nested = Json.obj (Fields.field "user" signed_in Fields.end)

nested_shown : redact nested ≡ nested
unfolding redact redact_fields
nested_shown = refl

abbrev cached : List (Key × CacheEntry ℕ)
cached = ((7 ∷ 8 ∷ []), record { value = 3; expires_at = 50 }) ∷ []

missed : (get (9 ∷ []) 10 cached).0 ≡ none
unfolding get lookup
missed = refl

abbrev vip : CreateRoomDto
vip = record { name = "VIP"; description = none; price_per_hour = pos 1500000 }

new_key : has_key 2 idle.rooms ≡ false
unfolding has_key
new_key = refl

create-Created_example : Created vip (new_row 2 5) idle (create vip (new_row 2 5) idle)
create-Created_example = create-Created vip (new_row 2 5) idle new_key

read_like-contains_pattern_example :
    read_like (contains_pattern (b'5' ∷ b'%' ∷ []))
    ≡ any_text ∷ literal b'5' ∷ literal b'%' ∷ any_text ∷ []
read_like-contains_pattern_example = read_like-contains_pattern (b'5' ∷ b'%' ∷ [])
