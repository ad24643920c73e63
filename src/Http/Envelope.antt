-- ===== src/Http/Envelope.antt =====
-- The envelopes of answers: src/common/interceptors/response.interceptor.ts,
-- src/common/http/api-response.ts and the answer of src/common/filters/all-exceptions.filter.ts.
use gameclub_backend.Prelude.{
  ℕ, Option, none, some, Bool, true, false, not, String, List, if◌then◌else◌, same_text,
}
use gameclub_backend.Prelude.Int.{pos, eqb_ℤ}
use gameclub_backend.Common.Errors.{Result, ok, throw, Part}
use gameclub_backend.Common.Filter.{ErrorDetails, Normalised, normalise}
use gameclub_backend.Entities.Json.{Json, Fields}

abbrev pub is_empty : String → Bool
is_empty String.[] = true
is_empty (String.◌∷◌ c s) = false

unfoldable pub find_field : String → Fields → Option Json
find_field k Fields.end = none
find_field k (Fields.field l v rest) = if same_text l k then some v else find_field k rest

-- `ApiSuccessResponse` and `ApiErrorResponse`; a time is the text of `toISOString()`.
pub record SuccessResponse : Type 0 where
  pub data_value : Option Json
  pub meta : Option Json
  pub request_id : String
  pub timestamp : String

pub record ErrorResponse : Type 0 where
  pub status : ℕ
  pub code : String
  pub message : List Part
  pub details : Option ErrorDetails
  pub request_id : String
  pub timestamp : String

pub data Response : Type 0 where
  success : SuccessResponse → Response
  failure : ErrorResponse → Response

-- Is a value true to JavaScript?
abbrev pub is_true : Json → Bool
is_true Json.null = false
is_true (Json.bool b) = b
is_true (Json.num n) = not (eqb_ℤ n (pos 0))
is_true (Json.str s) = not (is_empty s)
is_true _ = true

abbrev pub true_only : Option Json → Option Json
true_only none = none
true_only (some v) = if is_true v then some v else none

-- `ResponseInterceptor.intercept`: an object with a field `data` is an envelope already.
unfoldable pub envelope : Option Json → String → String → SuccessResponse
unfolding find_field
envelope (some (Json.obj fields)) request_id timestamp = elim (find_field "data" fields) [
  | some v ↦ record {
    data_value = some v;
    meta = true_only (find_field "meta" fields);
    request_id = request_id;
    timestamp = timestamp;
  }
  | none ↦ record {
    data_value = some (Json.obj fields);
    meta = none;
    request_id = request_id;
    timestamp = timestamp;
  }
]
envelope payload request_id timestamp = record {
  data_value = payload;
  meta = none;
  request_id = request_id;
  timestamp = timestamp;
}

-- `AllExceptionsFilter.catch`.
unfoldable pub error_response : Normalised → String → String → ErrorResponse
error_response n request_id timestamp = record {
  status = n.status;
  code = n.code;
  message = n.message;
  details = n.details;
  request_id = request_id;
  timestamp = timestamp;
}

-- `ResponseInterceptor.intercept` on the answer of a handler.
unfoldable pub format_answer : Result (Option Json) → String → String → Result SuccessResponse
unfolding envelope
format_answer (ok payload) request_id timestamp = ok (envelope payload request_id timestamp)
format_answer (throw e) request_id timestamp = throw e

-- The envelope as the object that it is; a field that is `undefined` is left out.
abbrev meta_fields : Option Json → Fields → Fields
meta_fields none rest = rest
meta_fields (some m) rest = Fields.field "meta" m rest

abbrev data_fields : Option Json → Fields → Fields
data_fields none rest = rest
data_fields (some d) rest = Fields.field "data" d rest

unfoldable pub response_json : SuccessResponse → Json
response_json r = Json.obj (
    Fields.field "success" (Json.bool true) (
      data_fields r.data_value (
        meta_fields r.meta (
          Fields.field "requestId" (Json.str r.request_id)
            (Fields.field "timestamp" (Json.str r.timestamp) Fields.end)))))

unfoldable pub respond : Result SuccessResponse → String → String → Response
unfolding error_response
respond (ok response) request_id timestamp = success response
respond (throw e) request_id timestamp = failure (error_response (normalise e) request_id timestamp)
