-- ===== src/Notifications.antt =====
-- src/modules/notifications/notifications.service.ts: a notification for each new debt, and the
-- marks of those that are read. A failure to store one is logged and contained there; here every row
-- is stored.
use gameclub_backend.Prelude.{
  Option, some, Bool, true, false, not, ◌&&◌, String, List, [], ◌∷◌, ◌++◌, ◌==◌, if◌then◌else◌,
  Uuid,
}
use gameclub_backend.Common.Errors.{Part, lit, uuid, num}
use gameclub_backend.Common.Pagination.{PaginationQueryDto, PaginatedResult}
use gameclub_backend.Common.Listing.{Scan, is_kept, newest_first, list_page}
use gameclub_backend.Entities.Club.{BaseEntity}
use gameclub_backend.Events.{DebtEvent, Envelope, debt_created, of_debt}

pub data NotificationLevel : Type 0 where
  info warning critical : NotificationLevel

pub record Notification : Type 0 where
  pub base : BaseEntity
  pub type : String
  pub level : NotificationLevel
  pub title : String
  pub message : List Part
  pub entity_type : Option String
  pub entity_id : Option Uuid
  pub is_read : Bool

-- The row that `onDebtCreated` creates of the payload of an event.
abbrev pub debt_notification : DebtEvent → BaseEntity → Notification
debt_notification e base = record {
  base = base;
  type = "DEBT_CREATED";
  level = NotificationLevel.warning;
  title = "New debt recorded";
  message =
      lit "Customer "
      ∷ uuid e.customer_id
      ∷ lit " incurred "
      ∷ num e.signed_amount
      ∷ lit ". Balance is now "
      ∷ num e.balance
      ∷ lit "."
      ∷ [];
  entity_type = some "Customer";
  entity_id = some e.customer_id;
  is_read = false;
}

-- `@OnEvent(DomainEvent.DebtCreated)`: other events, and other payloads, are not for it.
unfoldable pub on_event : Envelope → BaseEntity → List Notification → List Notification
on_event envelope base rows = elim envelope.event [
  | debt_created ↦ elim envelope.payload [
    | of_debt e ↦ rows ++ debt_notification e base ∷ []
    | _ ↦ rows
  ]
  | _ ↦ rows
]

-- `update({ id }, { isRead: true })`.
unfoldable pub mark_read : Uuid → List Notification → List Notification
mark_read id [] = []
mark_read id (n ∷ rows) =
    (if n.base.id == id then record n { is_read = true } else n) ∷ mark_read id rows

-- `update({ isRead: false }, { isRead: true })`.
unfoldable pub mark_all_read : List Notification → List Notification
mark_all_read [] = []
mark_all_read (n ∷ rows) =
    (if n.is_read then n else record n { is_read = true }) ∷ mark_all_read rows

-- `findAll`: the newest first, all or those that are not read.
unfoldable pub find_all :
    Scan Notification → PaginationQueryDto → Bool → List Notification → PaginatedResult Notification
find_all scan q unread_only rows =
    list_page (λ n. is_kept n.base && (if unread_only then not n.is_read else true))
      (λ a b. newest_first a.base b.base) scan rows q
