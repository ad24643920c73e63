-- ===== src/Tests/RequestTests.antt =====
-- Requests at concrete inputs: the guards of an endpoint, an audited handler, and sockets.
use gameclub_backend.Prelude.{
  ℕ, ◌≡◌, ◌↔◌, ◌⊎◌, suc, refl, some, none, true, Option, String, [], ◌∷◌, codes, same_text,
  if◌then◌else◌, ◌==◌,
}
use gameclub_backend.Common.Errors.{ok}
use gameclub_backend.Common.Roles.{Credentials}
use gameclub_backend.Entities.Staff.{owner}
use gameclub_backend.Entities.Json.{Json, Fields}
use gameclub_backend.Auth.{Claims}
use gameclub_backend.Auth.Accounts.{to_claims}
use gameclub_backend.Entities.Staff.{user_entity}
use gameclub_backend.Routes.{enter}
use gameclub_backend.Routes.Table.{
  Endpoint, of_debt, DebtHandler, of_rooms, RoomsHandler, route, rooms_route, class_roles,
}
use gameclub_backend.Routes.Access.{Permits, policy, enter-Permits}
use gameclub_backend.Http.{HttpRequest, Header, Given, Handler, serve}
use gameclub_backend.Http.Trail.{IsRefused, IsFailed, IsLogged, serve-logs}
use gameclub_backend.Realtime.{
  Text, Handshake, AuthToken, arriving, handle_connection, extract_token, match_cookie, after,
  until_semicolon,
}
use gameclub_backend.Realtime.Clients.{
  arrives, settles, AllChecked, history, happens, settle, history-AllChecked,
}
use gameclub_backend.Tests.AuthTests.{boss}

-- The token "t" is the boss's.
abbrev verify : String → Option Claims
verify t = if same_text t "t" then some (to_claims boss) else none

abbrev credentials : Credentials
credentials = record { bearer = some "t"; cookie = none }

enter-Permits_example :
    (enter verify
        (class_roles (of_debt DebtHandler.correct))
        (route (of_debt DebtHandler.correct))
        credentials
      ≡ ok (some (to_claims boss)))
    ↔ Permits (policy (of_debt DebtHandler.correct)) verify credentials (some (to_claims boss))
enter-Permits_example =
    enter-Permits (of_debt DebtHandler.correct) verify credentials (some (to_claims boss))

abbrev posted : HttpRequest
posted = record {
  credentials = credentials;
  request_id_header = Header.absent;
  param_id = none;
  body = some (Json.obj (Fields.field "name" (Json.str "VIP") Fields.end));
  ip = none;
  user_agent = none;
}

abbrev arrived : Given
arrived = record { random_id = "r2"; log_id = 80; at = 9; timestamp = "1970-01-01T00:00:00.009Z" }

-- A handler that counts its calls and answers a key.
abbrev handler : Handler ℕ
handler user n = (ok (some (Json.obj (Fields.field "id" (Json.uuid 5) Fields.end))), suc n)

abbrev creates : Endpoint
creates = of_rooms RoomsHandler.create

serve-logs_example :
    IsRefused verify
      (class_roles creates)
      (route creates)
      handler
      posted
      arrived
      0
      []
      (serve verify (class_roles creates) (route creates) handler posted arrived (0, []))
    ⊎ (IsFailed verify
          (class_roles creates)
          (route creates)
          handler
          posted
          arrived
          0
          []
          (serve verify (class_roles creates) (route creates) handler posted arrived (0, []))
        ⊎ IsLogged verify
            (class_roles creates)
            (route creates)
            handler
            posted
            arrived
            0
            []
            (record { action = "ROOM_CREATE"; entity = "Room" })
            (serve verify (class_roles creates) (route creates) handler posted arrived (0, [])))
unfolding route rooms_route
serve-logs_example =
    serve-logs verify (class_roles creates) (route creates) handler posted arrived 0 []
      (record { action = "ROOM_CREATE"; entity = "Room" }) refl

-- A token of one character, and a client that brings it in a cookie.
abbrev verify_text : Text → Option Claims
verify_text (c ∷ []) = if c == b't' then some (to_claims boss) else none
verify_text _ = none

abbrev shake : Handshake
shake = record {
  auth_token = AuthToken.no_token;
  authorization = none;
  cookie = some (codes "access_token=t");
}

history-AllChecked_example :
    AllChecked some verify_text (history some verify_text (arrives shake ∷ settles 0 ∷ []) [])
history-AllChecked_example =
    history-AllChecked some verify_text (arrives shake ∷ settles 0 ∷ []) [] tt

lets_in :
    history some verify_text (arrives shake ∷ settles 0 ∷ []) []
    ≡ record {
      client = record (arriving shake) { user = some (to_claims boss); rooms = owner ∷ [] };
      settled = true;
    }
      ∷ []
unfolding history happens settle handle_connection extract_token match_cookie after until_semicolon
lets_in = refl

-- A cookie whose name ends in `access_token` shadows the right one.
shadowed :
    extract_token some (record shake { cookie = some (codes "x_access_token=a; access_token=t") })
    ≡ some (codes "a")
unfolding extract_token match_cookie after until_semicolon
shadowed = refl
