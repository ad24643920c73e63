-- ===== src/Auth/SignIn.antt =====
-- A sign-in that is due succeeds, and its token can be exchanged
-- (src/modules/auth/auth.controller.ts, src/modules/auth/auth.service.ts).
use gameclub_backend.Prelude.{
  ℕ, ◌+◌, ◌<◌, ◌≡◌, refl, some, true, false, arith, Date, find_one, save, find_one-save,
  find_one-live,
}
use gameclub_backend.Common.Errors.{Result, ok}
use gameclub_backend.Entities.Staff.{User, user_entity, RefreshToken, refresh_token_entity}
use gameclub_backend.Auth.{
  Crypto, IsSound, StaffDb, RequestContext, IdText, Presented, IssuedTokens, Fresh, Claims,
}
use gameclub_backend.Auth.Tokens.{
  peek_user_id, load, rotate, rotate_row, issue, issued_row, issue_for_login,
}
use gameclub_backend.Auth.Rotation.{Loads, Loads-parse_and_load}
use gameclub_backend.Auth.Accounts.{
  find_by_id, find_by_email_with_secret, save_user, audit, to_claims,
}
use gameclub_backend.Auth.Lockout.{IsAccount}
use gameclub_backend.Auth.Refresh as RefreshService
use gameclub_backend.Auth.Refresh.{claims_from_refresh, resolve_user_id}
use gameclub_backend.Auth.Login as Service
use gameclub_backend.Auth.Login.{LoginDto, LoginGiven, is_locked, check_password, succeeded}
use gameclub_backend.Auth.Controller.{
  AuthConfig, Request, Answer, authenticated, request_context, login, refresh_tokens,
}
use gameclub_backend.Auth.Jar.{Jar, receive, keep, brought, brought_access, brought-set_cookies}

-- The tokens of a sign-in.
abbrev pub signed_in : Crypto → User → LoginGiven → IssuedTokens
signed_in c u g = record {
  access_token = c.sign_access (to_claims u) g.now;
  refresh_token = record { id = IdText.key g.fresh.id; secret = some g.fresh.secret };
  refresh_expires_at = g.now + g.refresh_ttl;
}

-- What a sign-in leaves in the tables.
pub record SignedIn (c : Crypto) (u : User) (dto : LoginDto) (ctx : RequestContext) (g : LoginGiven)
    (db db' : StaffDb) : Type 0 where
  pub users : db'.users ≡ save (succeeded c u dto g) db.users
  pub tokens :
      db'.tokens
      ≡ save (issued_row c (to_claims u) g.family ctx g.fresh g.now g.refresh_ttl) db.tokens

pub login-accepts :
    (c : Crypto) (dto : LoginDto) (ctx : RequestContext) (g : LoginGiven) (u : User) (db : StaffDb)
    → IsAccount (c.trim_lower dto.email) u db
    → u.is_active ≡ true
    → is_locked u g.now ≡ false
    → c.verify u.password_hash dto.password ≡ true
    → (db' : StaffDb) × (Service.login c dto ctx g db ≡ (ok (signed_in c u g), db'))
      × SignedIn c u dto ctx g db db'
unfolding Service.login check_password find_by_email_with_secret save_user audit issue_for_login
    issue
login-accepts c dto ctx g u db a active unlocked right = (
  (Service.login c dto ctx g db).1,
  ground (arith, a.by_email),
  record { users = ground (arith, a.by_email); tokens = ground (arith, a.by_email) },
)

abbrev pub presents : Fresh → Presented
presents fresh = record { id = IdText.key fresh.id; secret = some fresh.secret }

claims-accepts :
    (fresh : Fresh) (u : User) (row : RefreshToken) (db : StaffDb)
    → find_one fresh.id db.tokens ≡ some row
    → find_one row.user_id db.users ≡ some u
    → u.is_active ≡ true
    → claims_from_refresh (presents fresh) db ≡ (ok (to_claims u), db)
unfolding claims_from_refresh resolve_user_id peek_user_id load find_by_id
claims-accepts fresh u row db found user active = ground arith

rotate-accepts :
    (c : Crypto) (claims : Claims) (ctx : RequestContext) (fresh next : Fresh) (now : Date)
    (ttl : ℕ) (row : RefreshToken) (db : StaffDb)
    → find_one fresh.id db.tokens ≡ some row
    → c.verify row.token_hash fresh.secret ≡ true
    → row.revoked ≡ false
    → now < row.expires_at
    → (rotate c (presents fresh) claims ctx next now ttl db).0
      ≡ ok (record {
        access_token = c.sign_access claims now;
        refresh_token = presents next;
        refresh_expires_at = now + ttl;
      })
unfolding rotate rotate_row issue
rotate-accepts c claims ctx fresh next now ttl row db found verifies good soon =
    let loads : Loads c (presents fresh) db row = record {
      key = fresh.id;
      secret = fresh.secret;
      names = refl;
      carries = refl;
      found = found;
      verifies = verifies;
    } in
    ground (arith, Loads-parse_and_load c (presents fresh) db row loads)

-- A token whose row is in the table, unrevoked and in time, of an active account, is exchanged.
refresh-accepts :
    (c : Crypto) (ctx : RequestContext) (fresh next : Fresh) (now : Date) (ttl : ℕ) (u : User)
    (row : RefreshToken) (db : StaffDb)
    → find_one fresh.id db.tokens ≡ some row
    → c.verify row.token_hash fresh.secret ≡ true
    → row.revoked ≡ false
    → now < row.expires_at
    → find_one row.user_id db.users ≡ some u
    → u.is_active ≡ true
    → (RefreshService.refresh c (some (presents fresh)) ctx next now ttl db).0
      ≡ ok (record {
        access_token = c.sign_access (to_claims u) now;
        refresh_token = presents next;
        refresh_expires_at = now + ttl;
      })
unfolding RefreshService.refresh
refresh-accepts c ctx fresh next now ttl u row db found verifies good soon user active = ground (
  arith,
  claims-accepts fresh u row db found user active,
  rotate-accepts c (to_claims u) ctx fresh next now ttl row db found verifies good soon,
)

-- A sign-in with the right password, on an active account that is not locked, succeeds, and leaves a
-- browser, whatever cookies it had, with a token. A later request that brings what this browser then
-- holds, before the token expires, on tables in which the account and the row of the token stand as
-- the sign-in left them, whatever else has changed, succeeds as well, and leaves the browser with the
-- next token and with an access token of the account.
pub login-refresh_tokens :
    (c : Crypto) (cfg : AuthConfig) (dto : LoginDto) (req : Request) (g : LoginGiven) (u : User)
    (db db' later : StaffDb) (r : Result Answer) (jar : Jar) (again : Request) (next : Fresh)
    (at : Date)
    → IsSound c
    → IsAccount (c.trim_lower dto.email) u db
    → u.is_active ≡ true
    → is_locked u g.now ≡ false
    → c.verify u.password_hash dto.password ≡ true
    → login c cfg dto req g db ≡ (r, db')
    → again.refresh_cookie ≡ brought cfg (keep r jar)
    → at < g.now + g.refresh_ttl
    → find_one g.fresh.id later.tokens ≡ find_one g.fresh.id db'.tokens
    → find_one u.base.id later.users ≡ find_one u.base.id db'.users
    → (answer : Answer) × (r ≡ ok answer)
      × (brought cfg (keep r jar) ≡ some (presents g.fresh))
      × (second : Answer) × (last : StaffDb) × (refresh_tokens c cfg again next at later
          ≡ (ok second, last))
      × (brought cfg (receive second.cookies (keep r jar)) ≡ some (presents next))
      × (brought_access cfg (receive second.cookies (keep r jar))
          ≡ some (c.sign_access (to_claims u) at))
unfolding login refresh_tokens succeeded
login-refresh_tokens c cfg dto req g u db db' later r jar again next at sound a active unlocked
      right h brings soon same_token same_user =
    let (after, accepted, left) =
      login-accepts c dto (request_context req) g u db a active unlocked right in
    let row =
      issued_row c (to_claims u) g.family (request_context req) g.fresh g.now g.refresh_ttl in
    let v = succeeded c u dto g in
    let alive = find_one-live u.base.id u db.users a.by_key in
    let answered : r ≡ ok (authenticated cfg (signed_in c u g)) = ground (arith, accepted) in
    let ended : db' ≡ after = ground (arith, accepted) in
    let stored : find_one g.fresh.id later.tokens ≡ some row =
      ground (arith, ended, left.tokens, find_one-save g.fresh.id row db.tokens) in
    let enabled : find_one u.base.id later.users ≡ some v =
      ground (arith, ended, left.users, find_one-save u.base.id v db.users, alive) in
    let exchanged =
      refresh-accepts c (request_context again) g.fresh next at cfg.refresh_ttl_ms v row later
        stored (sound g.fresh.salt g.fresh.secret) refl soon enabled active in
    let had : brought cfg (keep r jar) ≡ some (presents g.fresh) =
      rw answered (brought-set_cookies cfg (signed_in c u g) jar).0 in
    let tokens : IssuedTokens = record {
      access_token = c.sign_access (to_claims u) at;
      refresh_token = presents next;
      refresh_expires_at = at + cfg.refresh_ttl_ms;
    } in
    let got = brought-set_cookies cfg tokens (keep r jar) in
    (
      authenticated cfg (signed_in c u g),
      answered,
      had,
      authenticated cfg tokens,
      (refresh_tokens c cfg again next at later).1,
      ground (arith, exchanged, had),
      got.0,
      got.1,
    )
