-- ===== src/Auth/Controller.antt =====
-- src/modules/auth/auth.controller.ts: what a request brings, the calls of the service, and the
-- answers with their cookies. A request whose cookie `refresh_token` is absent or empty presents no
-- token. The limits of the throttler are Nest's.
use gameclub_backend.Prelude.{
  ℕ, Option, none, some, Bool, true, false, String, List, [], ◌∷◌, Uuid, Date,
}
use gameclub_backend.Common.Stateful.{pure, ◌>>=◌, ◌>>◌}
use gameclub_backend.Entities.Staff.{User}
use gameclub_backend.Auth.{Crypto, RequestContext, Presented, IssuedTokens, Claims, Fresh}
use gameclub_backend.Auth.Tokens.{Auth}
use gameclub_backend.Auth.Accounts.{find_by_id}
use gameclub_backend.Auth.Login as Service
use gameclub_backend.Auth.Login.{LoginDto, LoginGiven, ChangePasswordDto}
use gameclub_backend.Auth.Refresh as RefreshService

-- `auth.cookieSecure`, `auth.cookieDomain` and `auth.refreshTtlMs`.
pub record AuthConfig : Type 0 where
  pub cookie_secure : Option Bool
  pub cookie_domain : Option String
  pub refresh_ttl_ms : ℕ

pub record Request : Type 0 where
  pub user_agent : Option String
  pub ip : Option String
  pub request_id : Option String
  pub refresh_cookie : Option Presented

pub data CookieValue : Type 0 where
  access : String → CookieValue
  refresh : Presented → CookieValue

pub record Cookie : Type 0 where
  pub name : String
  pub value : CookieValue
  pub http_only : Bool
  pub secure : Bool
  pub same_site : String
  pub domain : Option String
  pub path : String
  pub max_age : Option ℕ
  pub expires : Option Date

-- `res.cookie` and `res.clearCookie`.
pub data CookieWrite : Type 0 where
  sets : Cookie → CookieWrite
  clears : String → Option String → String → CookieWrite

pub record Answer : Type 0 where
  pub flag : String
  pub value : Bool
  pub cookies : List CookieWrite

abbrev pub access_token_cookie : String
access_token_cookie = "access_token"

abbrev pub refresh_token_cookie : String
refresh_token_cookie = "refresh_token"

-- `getRequestId`.
abbrev pub get_request_id : Option String → String
get_request_id none = "unknown"
get_request_id (some id) = id

unfoldable pub request_context : Request → RequestContext
request_context req = record {
  user_agent = req.user_agent;
  ip_address = req.ip;
  request_id = some (get_request_id req.request_id);
}

unfoldable pub read_refresh_cookie : Request → Option Presented
read_refresh_cookie req = req.refresh_cookie

abbrev pub is_secure : AuthConfig → Bool
is_secure cfg = elim cfg.cookie_secure [ none ↦ false | some b ↦ b ]

unfoldable pub set_cookies : AuthConfig → IssuedTokens → List CookieWrite
set_cookies cfg tokens =
    sets (record {
      name = access_token_cookie;
      value = access tokens.access_token;
      http_only = true;
      secure = is_secure cfg;
      same_site = "lax";
      domain = cfg.cookie_domain;
      path = "/";
      max_age = some 900000;
      expires = none;
    })
    ∷ sets (record {
      name = refresh_token_cookie;
      value = refresh tokens.refresh_token;
      http_only = true;
      secure = is_secure cfg;
      same_site = "lax";
      domain = cfg.cookie_domain;
      path = "/api";
      max_age = none;
      expires = some tokens.refresh_expires_at;
    })
    ∷ []

unfoldable pub clear_cookies : AuthConfig → List CookieWrite
clear_cookies cfg =
    clears access_token_cookie cfg.cookie_domain "/"
    ∷ clears refresh_token_cookie cfg.cookie_domain "/api"
    ∷ []

abbrev pub authenticated : AuthConfig → IssuedTokens → Answer
authenticated cfg tokens = record {
  flag = "authenticated";
  value = true;
  cookies = set_cookies cfg tokens;
}

unfoldable pub login : Crypto → AuthConfig → LoginDto → Request → LoginGiven → Auth Answer
unfolding request_context
login c cfg dto req given =
    Service.login c dto (request_context req) given >>= λ tokens. pure (authenticated cfg tokens)

unfoldable pub refresh_tokens : Crypto → AuthConfig → Request → Fresh → Date → Auth Answer
unfolding request_context read_refresh_cookie
refresh_tokens c cfg req fresh now =
    RefreshService.refresh c (read_refresh_cookie req) (request_context req) fresh now
      cfg.refresh_ttl_ms
    >>= λ tokens. pure (authenticated cfg tokens)

unfoldable pub logout : Crypto → AuthConfig → Request → Auth Answer
unfolding read_refresh_cookie
logout c cfg req =
    Service.logout c (read_refresh_cookie req)
    >> pure (record { flag = "authenticated"; value = false; cookies = clear_cookies cfg })

-- `me`.
unfoldable pub me : Claims → Auth User
me user = find_by_id user.sub

unfoldable pub change_own_password :
    Crypto → AuthConfig → Claims → ChangePasswordDto → Request → ℕ → Uuid → Date → Auth Answer
unfolding request_context
change_own_password c cfg user dto req salt log_id now =
    Service.change_password c user.sub dto (request_context req) salt log_id now
    >> pure (record { flag = "passwordChanged"; value = true; cookies = clear_cookies cfg })
