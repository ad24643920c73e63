-- ===== src/Common/Filter.antt =====
-- src/common/filters/all-exceptions.filter.ts: what a client is told of an error.
use gameclub_backend.Prelude.{
  ℕ, Option, none, some, Bool, false, String, List, [], ◌∷◌, ◌==◌, same_text, if◌then◌else◌,
}
use gameclub_backend.Common.Errors.{
  Part, lit, Details, ResponseMessage, messages, text, absent, Exception, domain, http,
  query_failed, error, bad_request, conflict, internal_server_error,
}

pub data ErrorDetails : Type 0 where
  fields : Details → ErrorDetails
  validation : List String → ErrorDetails

pub record Normalised : Type 0 where
  pub status : ℕ
  pub code : String
  pub message : List Part
  pub details : Option ErrorDetails

-- `map[status] ?? 'ERROR'`.
unfoldable pub status_to_code : ℕ → String
status_to_code status =
    if status == 400
    then "BAD_REQUEST"
    else if status == 401
    then "UNAUTHORIZED"
    else if status == 403
    then "FORBIDDEN"
    else if status == 404
    then "NOT_FOUND"
    else if status == 409
    then "CONFLICT"
    else if status == 429
    then "RATE_LIMITED"
    else if status == 422
    then "UNPROCESSABLE_ENTITY"
    else "ERROR"

abbrev pub from_response : String → ResponseMessage → List Part × Option ErrorDetails
from_response message (messages list) = (lit "Validation failed" ∷ [], some (validation list))
from_response message (text m) = (lit m ∷ [], none)
from_response message absent = (lit message ∷ [], none)

abbrev pub unique_conflict : Normalised
unique_conflict = record {
  status = conflict;
  code = "RESOURCE_CONFLICT";
  message = lit "A record with the same unique value already exists" ∷ [];
  details = none;
}

abbrev pub constraint_violated : Normalised
constraint_violated = record {
  status = bad_request;
  code = "DATABASE_CONSTRAINT";
  message = lit "The operation violates a data constraint" ∷ [];
  details = none;
}

abbrev pub internal : Normalised
internal = record {
  status = internal_server_error;
  code = "INTERNAL_ERROR";
  message = lit "An unexpected error occurred" ∷ [];
  details = none;
}

abbrev pub is_unique_code : Option String → Bool
is_unique_code none = false
is_unique_code (some c) = same_text c "23505"

unfoldable pub normalise : Exception → Normalised
unfolding status_to_code
normalise (domain e) = record {
  status = e.http_status;
  code = e.code;
  message = e.message;
  details = elim e.details [ none ↦ none | some d ↦ some (fields d) ];
}
normalise (http e) = record {
  status = e.status;
  code = status_to_code e.status;
  message = (from_response e.message e.response).0;
  details = (from_response e.message e.response).1;
}
normalise (query_failed code) = if is_unique_code code then unique_conflict else constraint_violated
normalise (error m) = internal
