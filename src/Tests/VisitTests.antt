-- ===== src/Tests/VisitTests.antt =====
-- Visits of a browser, and the life of an account, at concrete inputs.
use gameclub_backend.Prelude.{
  ◌≡◌, refl, some, none, true, false, Option, String, [], ◌∷◌, arith, find_one, save,
}
use gameclub_backend.Common.Errors.{ok}
use gameclub_backend.Auth.{StaffDb, Presented}
use gameclub_backend.Auth.Login.{LoginDto, LoginGiven, is_locked, check_password}
use gameclub_backend.Auth.Accounts.{find_by_email_with_secret, find_by_email, save_user, audit}
use gameclub_backend.Auth.Login as Service
use gameclub_backend.Auth.Tokens.{parse_and_load, load, revoke, issue_for_login, issue}
use gameclub_backend.Auth.Controller.{
  AuthConfig, Request, Answer, set_cookies, authenticated, login, logout, refresh_tokens,
  clear_cookies,
}
use gameclub_backend.Auth.SignIn.{signed_in, presents, login-refresh_tokens}
use gameclub_backend.Auth.Visits.{is_throw, logout-ends}
use gameclub_backend.Auth.Jar.{
  Jar, holds, receive, brought, brought_access, value_at, without, in_slot,
}
use gameclub_backend.Auth.Login.{generic_error}
use gameclub_backend.Common.Errors.{throw}
use gameclub_backend.Entities.Staff.{cashier}
use gameclub_backend.Auth.Controller.{request_context}
use gameclub_backend.Debt.History.{new_row}
use gameclub_backend.Store.Transaction.{has_key}
use gameclub_backend.Entities.Staff.{User, user_entity}
use gameclub_backend.Users.{
  CreateUserDto, created_user, create_user, put_user, email_exists, email_conflict, remove_user,
}
use gameclub_backend.Users.Accounts.{create_user-login}
use gameclub_backend.Tests.AuthTests.{
  plain, plain-IsSound, boss, boss-IsAccount, new_token, staff, presented,
}

abbrev cfg : AuthConfig
cfg = record { cookie_secure = none; cookie_domain = some "club.uz"; refresh_ttl_ms = 1000000 }

abbrev brings : Option Presented → Request
brings token = record {
  user_agent = none;
  ip = none;
  request_id = some "r1";
  refresh_cookie = token;
}

abbrev arrival : LoginGiven
arrival = record {
  now = 6;
  log_id = 70;
  family = 51;
  fresh = new_token 62;
  rehash_salt = 0;
  refresh_ttl = 1000000;
}

abbrev right : LoginDto
right = record { email = "a@b.uz"; password = "right" }

abbrev entered : StaffDb
entered = (login plain cfg right (brings none) arrival staff).1

enters :
    login plain cfg right (brings none) arrival staff
    ≡ (ok (authenticated cfg (signed_in plain boss arrival)), entered)
unfolding login Service.login check_password find_by_email_with_secret find_by_email is_locked
    save_user audit issue_for_login issue save find_one
enters = refl

abbrev browser : Jar
browser = receive (set_cookies cfg (signed_in plain boss arrival)) []

login-refresh_tokens_example :
    (answer : Answer) × (ok (authenticated cfg (signed_in plain boss arrival)) ≡ ok answer)
    × (brought cfg browser ≡ some (presents (new_token 62)))
    × (second : Answer) × (last : StaffDb) × (refresh_tokens plain cfg
          (brings (some (presents (new_token 62))))
          (new_token 63)
          500
          entered
        ≡ (ok second, last))
    × (brought cfg (receive second.cookies browser) ≡ some (presents (new_token 63)))
    × (brought_access cfg (receive second.cookies browser) ≡ some "a@b.uz")
unfolding is_locked brought value_at receive without in_slot set_cookies
login-refresh_tokens_example =
    login-refresh_tokens plain cfg right (brings none) arrival boss staff entered entered
      (ok (authenticated cfg (signed_in plain boss arrival))) []
      (brings (some (presents (new_token 62)))) (new_token 63) 500 plain-IsSound boss-IsAccount refl
      refl refl enters refl (omega arith) refl refl

abbrev hired : CreateUserDto
hired = record { email = "b@b.uz"; full_name = "B"; password = "secret99"; role = cashier }

abbrev clerk : User
clerk = created_user plain hired (new_row 2 5) 0

abbrev staffed : StaffDb
staffed = record staff { users = boss ∷ clerk ∷ [] }

hires : create_user plain hired (new_row 2 5) 0 staff ≡ (ok clerk, staffed)
unfolding create_user put_user email_exists email_conflict save
hires = refl

create_user-login_example :
    ((last : StaffDb) × (Service.login plain
          (record { email = "b@b.uz"; password = "secret99" })
          (request_context (brings none))
          arrival
          staffed
        ≡ (ok (signed_in plain clerk arrival), last)))
    × ((gone : StaffDb) × (remove_user 2 9 staffed ≡ (ok tt, gone))
        × ((password : String)
            → Service.login plain
                (record { email = "b@b.uz"; password = password })
                (request_context (brings none))
                arrival
                gone
              ≡ (throw generic_error, gone)))
unfolding has_key
create_user-login_example =
    create_user-login plain hired (new_row 2 5) 0 staff clerk staffed
      (request_context (brings none)) arrival 9 plain-IsSound refl refl hires

abbrev left : StaffDb
left = (logout plain cfg (brings (some presented)) staff).1

leaves :
    logout plain cfg (brings (some presented)) staff
    ≡ (ok (record { flag = "authenticated"; value = false; cookies = clear_cookies cfg }), left)
unfolding logout Service.logout revoke parse_and_load load find_one save
leaves = refl

logout-ends_example :
    (holds "access_token" (some "club.uz") "/" (receive (clear_cookies cfg) []) ≡ false)
    × (holds "refresh_token" (some "club.uz") "/api" (receive (clear_cookies cfg) []) ≡ false)
    × (is_throw (refresh_tokens plain cfg (brings (some presented)) (new_token 63) 500 left).0
        ≡ true)
logout-ends_example =
    logout-ends plain cfg (brings (some presented)) staff
      (record { flag = "authenticated"; value = false; cookies = clear_cookies cfg }) left left []
      (brings (some presented)) (new_token 63) 500 leaves refl (λ p k e names. refl)
