-- ===== src/Sessions/Listing.antt =====
-- The lists of sessions: `findAll` and `findActive` of src/modules/sessions/sessions.service.ts.
use gameclub_backend.Prelude.{Option, none, some, Bool, true, false, ◌&&◌, List, leb, ◌==◌, Uuid}
use gameclub_backend.Common.Pagination.{PaginationQueryDto, PaginatedResult}
use gameclub_backend.Common.Listing.{Scan, is_kept, select, order_by, list_page, if_given}
use gameclub_backend.Entities.Club.{Session, session_entity, SessionStatus, is_active_status}
use gameclub_backend.Store.{Db}

abbrev pub same_status : SessionStatus → SessionStatus → Bool
same_status SessionStatus.active SessionStatus.active = true
same_status SessionStatus.ended SessionStatus.ended = true
same_status SessionStatus.cancelled SessionStatus.cancelled = true
same_status _ _ = false

abbrev pub is_some_key : Option Uuid → Uuid → Bool
is_some_key none k = false
is_some_key (some c) k = c == k

abbrev pub not_deleted : Session → Bool
not_deleted s = is_kept s.base

-- The optional filters of `findAll`.
abbrev pub matches : Option SessionStatus → Option Uuid → Session → Bool
matches status customer s =
    not_deleted s
    && if_given status (λ k. same_status s.status k)
    && if_given customer (λ k. is_some_key s.customer_id k)

unfoldable pub find_all :
    Scan Session
    → PaginationQueryDto
    → Option SessionStatus
    → Option Uuid
    → Db
    → PaginatedResult Session
find_all scan q status customer db =
    list_page (matches status customer) (λ a b. leb b.started_at a.started_at) scan db.sessions q

unfoldable pub find_active : Scan Session → Db → List Session
find_active scan db =
    order_by (λ a b. leb a.started_at b.started_at)
      (scan (select (λ s. not_deleted s && is_active_status s.status) db.sessions))
