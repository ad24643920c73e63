-- ===== src/Audit.antt =====
-- src/modules/audit/audit.service.ts: the audit log. A failure to store an entry is logged and
-- swallowed there; here the log accepts every entry.
pub mod Redaction
use gameclub_backend.Prelude.{
  leb, Option, none, some, Bool, true, false, ◌||◌, String, List, [], ◌∷◌, ◌++◌, Uuid, Date,
  if◌then◌else◌, same_text,
}
use gameclub_backend.Common.Pagination.{PaginationQueryDto, PaginatedResult}
use gameclub_backend.Common.Listing.{Scan, list_page}
use gameclub_backend.Entities.Json.{Json, Items, Fields}
use gameclub_backend.Entities.Staff.{AuditLog}

-- `AuditEntryInput`; an `undefined` and a `null` are both `none`, except in the two values.
pub record AuditEntryInput : Type 0 where
  pub actor_id : Option Uuid
  pub actor_email : Option String
  pub action : String
  pub entity : String
  pub entity_id : Option Uuid
  pub old_value : Option Json
  pub new_value : Option Json
  pub ip_address : Option String
  pub user_agent : Option String
  pub request_id : Option String

abbrev pub is_sensitive : String → Bool
is_sensitive k =
    same_text k "password"
    || same_text k "passwordHash"
    || same_text k "token"
    || same_text k "refreshToken"

unfoldable pub redact_fields : Fields → Fields
redact_fields Fields.end = Fields.end
redact_fields (Fields.field k v rest) =
    Fields.field k (if is_sensitive k then Json.str "[REDACTED]" else v) (redact_fields rest)

unfoldable mutual
  -- `redact`: an array item by item, of an object its own fields.
  pub redact : Json → Json
  redact (Json.arr items) = Json.arr (redact_items items)
  redact (Json.obj fields) = Json.obj (redact_fields fields)
  redact Json.null = Json.null
  redact (Json.bool b) = Json.bool b
  redact (Json.num n) = Json.num n
  redact (Json.str s) = Json.str s
  redact (Json.uuid k) = Json.uuid k

  pub redact_items : Items → Items
  redact_items Items.nil = Items.nil
  redact_items (Items.cons v rest) = Items.cons (redact v) (redact_items rest)

-- `this.redact(value) ?? null`: a `null` becomes the column's null.
abbrev pub stored_value : Option Json → Option Json
stored_value none = none
stored_value (some Json.null) = none
stored_value (some v) = some (redact v)

-- The row that `record` saves; the database gives its key and time.
unfoldable pub audit_row : AuditEntryInput → Uuid → Date → AuditLog
audit_row entry id at = record {
  id = id;
  actor_id = entry.actor_id;
  actor_email = entry.actor_email;
  action = entry.action;
  entity = entry.entity;
  entity_id = entry.entity_id;
  old_value = stored_value entry.old_value;
  new_value = stored_value entry.new_value;
  ip_address = entry.ip_address;
  user_agent = entry.user_agent;
  request_id = entry.request_id;
  created_at = at;
}

-- `record`: always an INSERT.
unfoldable pub record_entry : AuditEntryInput → Uuid → Date → List AuditLog → List AuditLog
unfolding audit_row
record_entry entry id at logs = logs ++ audit_row entry id at ∷ []

-- `findAll`: the newest first.
unfoldable pub find_all :
    Scan AuditLog → PaginationQueryDto → List AuditLog → PaginatedResult AuditLog
find_all scan q logs = list_page (λ _. true) (λ a b. leb b.created_at a.created_at) scan logs q
