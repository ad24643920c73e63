-- ===== src/Http.antt =====
-- What surrounds a handler: src/common/middleware/request-id.middleware.ts,
-- src/modules/audit/audit.interceptor.ts, src/common/interceptors/response.interceptor.ts and the
-- answer of src/common/filters/all-exceptions.filter.ts, in the order of src/app.module.ts: the
-- interceptor of the audit is the outer one, so it sees the envelope and not the handler's value. A
-- handler answers a JSON value or nothing (`undefined`).
pub mod Envelope
pub mod Trail
use Prim.Native.String
use gameclub_backend.Prelude.{
  ℕ, Option, none, some, Bool, true, false, not, String, List, [], ◌∷◌, if◌then◌else◌, same_text,
  Uuid, Date,
}
use gameclub_backend.Prelude.Int.{ℤ, pos, eqb_ℤ}
use gameclub_backend.Common.Errors.{Result, ok, throw, Part}
use gameclub_backend.Common.Filter.{ErrorDetails, Normalised, normalise}
use gameclub_backend.Common.Roles.{Credentials}
use gameclub_backend.Entities.Json.{Json, Items, Fields}
use gameclub_backend.Entities.Staff.{AuditLog, Role}
use gameclub_backend.Audit.{AuditEntryInput, record_entry}
use gameclub_backend.Auth.{Claims}
use gameclub_backend.Routes.{AuditMetadata, Route, enter}
use Envelope.{
  is_empty, find_field, SuccessResponse, ErrorResponse, Response, envelope, error_response,
  format_answer, response_json, respond,
}

-- A header may come several times.
pub data Header : Type 0 where
  absent : Header
  one : String → Header
  many : List String → Header

pub record HttpRequest : Type 0 where
  pub credentials : Credentials
  pub request_id_header : Header
  pub param_id : Option Uuid
  pub body : Option Json
  pub ip : Option String
  pub user_agent : Option String

-- `RequestIdMiddleware.use`: the identifier of the request; `random` is `randomUUID()`.
unfoldable pub assign_request_id : Header → String → String
assign_request_id (one incoming) random = if not (is_empty incoming) then incoming else random
assign_request_id absent random = random
assign_request_id (many _) random = random

-- `extractId`. The identifiers of the rows that the handlers answer are `Json.uuid`; another text
-- under `id` does not occur.
unfoldable pub extract_id : Option Json → Option Uuid
unfolding find_field
extract_id (some (Json.obj fields)) = elim (find_field "id" fields) [
  | some (Json.uuid k) ↦ some k
  | _ ↦ none
]
extract_id _ = none

abbrev pub or_else {ℓ} : {A : Type ℓ} → Option A → Option A → Option A
or_else none b = b
or_else (some a) b = some a

-- `Object.keys(body).length`: are there any?
abbrev pub has_keys : Option Json → Bool
has_keys (some (Json.obj (Fields.field k v rest))) = true
has_keys (some (Json.arr (Items.cons v rest))) = true
has_keys (some (Json.str s)) = not (is_empty s)
has_keys (some (Json.uuid k)) = true
has_keys _ = false

abbrev pub actor_of : Option Claims → Option Uuid
actor_of none = none
actor_of (some c) = some c.sub

abbrev pub email_of : Option Claims → Option String
email_of none = none
email_of (some c) = some c.email

-- What the interceptor records of a request and the value it sees.
unfoldable pub captured :
    AuditMetadata → Option Claims → HttpRequest → String → Option Json → AuditEntryInput
unfolding extract_id
captured meta user req request_id result = record {
  actor_id = actor_of user;
  actor_email = email_of user;
  action = meta.action;
  entity = meta.entity;
  entity_id = or_else (extract_id result) req.param_id;
  old_value = none;
  new_value = if has_keys req.body then req.body else result;
  ip_address = req.ip;
  user_agent = req.user_agent;
  request_id = some request_id;
}

-- `AuditInterceptor.intercept`, after the interceptors inside it: the log.
unfoldable pub audit_intercept :
    Option AuditMetadata
    → Option Claims
    → HttpRequest
    → String
    → Result SuccessResponse
    → Uuid
    → Date
    → List AuditLog
    → List AuditLog
unfolding captured
audit_intercept none user req request_id answer log_id at logs = logs
audit_intercept (some meta) user req request_id (throw e) log_id at logs = logs
audit_intercept (some meta) user req request_id (ok response) log_id at logs =
    record_entry (captured meta user req request_id (some (response_json response))) log_id at logs

-- The handler runs on the state of the services once the guards have let the request pass.
abbrev pub Handler : Type 0 → Type 0
Handler S = Option Claims → S → Result (Option Json) × S

-- What one request is given: a random identifier, the key and the time of a log row, the text of the
-- time of its answer.
pub record Given : Type 0 where
  pub random_id : String
  pub log_id : Uuid
  pub at : Date
  pub timestamp : String

-- A request from its arrival to the answer.
unfoldable pub serve :
    {S : Type 0}
    → (String → Option Claims)
    → Option (List Role)
    → Route
    → Handler S
    → HttpRequest
    → Given
    → S × List AuditLog
    → Response × (S × List AuditLog)
unfolding audit_intercept format_answer respond assign_request_id
serve verify of_class route handler req g (s, logs) =
    let request_id = assign_request_id req.request_id_header g.random_id in
    elim (enter verify of_class route req.credentials) [
      | throw e ↦ (respond (throw e) request_id g.timestamp, (s, logs))
      | ok user ↦
          let (answer, s') = handler user s in
          let response = format_answer answer request_id g.timestamp in
          (
            respond response request_id g.timestamp,
            (s', audit_intercept route.audited user req request_id response g.log_id g.at logs),
          )
    ]
