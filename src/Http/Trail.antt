-- ===== src/Http/Trail.antt =====
-- The trail that a request to an audited handler leaves in the audit log.
use gameclub_backend.Prelude.{
  ◌≡◌, ◌⊎◌, inl, inr, refl, Option, some, String, List, [], ◌∷◌, ◌++◌, arith, none, if◌then◌else◌,
}
use gameclub_backend.Common.Errors.{ok, throw, Exception, Result-cases}
use gameclub_backend.Common.Filter.{normalise}
use gameclub_backend.Entities.Json.{Json}
use gameclub_backend.Entities.Staff.{AuditLog, Role}
use gameclub_backend.Audit.{record_entry, audit_row, stored_value}
use gameclub_backend.Audit.Redaction.{Hidden, stored_value-Hidden}
use gameclub_backend.Auth.{Claims}
use gameclub_backend.Routes.{AuditMetadata, Route, enter}
use gameclub_backend.Http.{
  HttpRequest, Given, Handler, assign_request_id, actor_of, captured, has_keys, extract_id,
  audit_intercept, serve,
}
use gameclub_backend.Http.Envelope.{
  Response, success, failure, SuccessResponse, response_json, format_answer, find_field, envelope,
  error_response, respond,
}

-- An envelope has no field `id`.
extract_id-response_json : (r : SuccessResponse) → extract_id (some (response_json r)) ≡ none
unfolding extract_id find_field response_json
extract_id-response_json r = go r.data_value r.meta
  where
    go :
        (d m : Option Json)
        → extract_id (some (response_json (record r { data_value = d; meta = m }))) ≡ none
    go none none = refl
    go none (some m) = refl
    go (some d) none = refl
    go (some d) (some m) = refl

module _ {S : Type 0} (verify : String → Option Claims) (of_class : Option (List Role))
    (route : Route) (handler : Handler S) (req : HttpRequest) (g : Given) (s : S)
    (logs : List AuditLog) where
  abbrev answer_id : String
  answer_id = assign_request_id req.request_id_header g.random_id

  -- The guards refuse: nothing has happened.
  abbrev pub IsRefused : Response × (S × List AuditLog) → Type 0
  IsRefused out =
      (e : Exception) × (enter verify of_class route req.credentials ≡ throw e)
      × (out ≡ (failure (error_response (normalise e) answer_id g.timestamp), (s, logs)))

  -- The handler throws: what it has written stays, and nothing is logged.
  abbrev pub IsFailed : Response × (S × List AuditLog) → Type 0
  IsFailed out =
      (user : Option Claims) × (e : Exception) × (enter verify of_class route req.credentials
        ≡ ok user)
      × ((handler user s).0 ≡ throw e)
      × (out ≡ (
        failure (error_response (normalise e) answer_id g.timestamp),
        ((handler user s).1, logs),
      ))

  -- The handler answers: one row is logged.
  abbrev pub IsLogged : AuditMetadata → Response × (S × List AuditLog) → Type 0
  IsLogged meta out =
      (user : Option Claims) × (payload : Option Json) × (row : AuditLog) × (enter verify of_class
          route req.credentials
        ≡ ok user)
      × ((handler user s).0 ≡ ok payload)
      × (out ≡ (
        success (envelope payload answer_id g.timestamp),
        ((handler user s).1, logs ++ row ∷ []),
      ))
      × (row.actor_id ≡ actor_of user)
      × (row.action ≡ meta.action)
      × (row.entity ≡ meta.entity)
      × (row.entity_id ≡ req.param_id)
      × (row.request_id ≡ some answer_id)
      × (row.new_value
          ≡ stored_value (
              if has_keys req.body
              then req.body
              else some (response_json (envelope payload answer_id g.timestamp))))
      × Hidden row.new_value

  -- A request to an audited handler is refused by the guards without effect, or fails in the handler
  -- and is not logged, or is answered and leaves one row: for its principal, the action and entity of
  -- the route, the identifier in its path, and that of the answer. The row's value is the body of the
  -- request or, if it has no keys, the envelope of the answer; no sensitive field among its own, or
  -- among those of the objects that it lists, keeps its value (fields further in are not looked at).
  pub serve-logs :
      (meta : AuditMetadata)
      → route.audited ≡ some meta
      → IsRefused (serve verify of_class route handler req g (s, logs))
        ⊎ (IsFailed (serve verify of_class route handler req g (s, logs))
            ⊎ IsLogged meta (serve verify of_class route handler req g (s, logs)))
  unfolding serve audit_intercept format_answer respond record_entry captured audit_row
  serve-logs meta audited = elim (Result-cases (enter verify of_class route req.credentials)) [
    | inr (e, q) ↦ inl (e, q, ground arith)
    | inl (user, q) ↦ elim (Result-cases (handler user s).0) [
      | inr (e, t) ↦ inr (inl (user, e, q, t, ground arith))
      | inl (payload, t) ↦ inr (
          inr (
            user,
            payload,
            audit_row
                (captured meta user req answer_id
                  (some (response_json (envelope payload answer_id g.timestamp))))
                g.log_id g.at,
            q,
            t,
            ground arith,
            refl,
            refl,
            refl,
            rw (extract_id-response_json (envelope payload answer_id g.timestamp)) refl,
            refl,
            refl,
            stored_value-Hidden _,
          ))
    ]
  ]
