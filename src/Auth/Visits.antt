-- ===== src/Auth/Visits.antt =====
-- A logout through src/modules/auth/auth.controller.ts.
use gameclub_backend.Prelude.{
  ℕ, ◌≡◌, sym, ◌∙◌, none, some, Bool, true, false, arith, Uuid, Date, find_one, save, find_one-save,
  find_one-key, Bool-cases, Option-cases, inl, inr,
}
use gameclub_backend.Common.Errors.{Result, ok, throw, Result-cases}
use gameclub_backend.Entities.Staff.{user_entity, RefreshToken, refresh_token_entity}
use gameclub_backend.Auth.{IdText, Crypto, StaffDb, RequestContext, Presented, Fresh, Claims}
use gameclub_backend.Auth.Tokens.{parse_and_load, rotate, rotate_row, revoke}
use gameclub_backend.Auth.Rotation.{Loads, parse_and_load-Loads, Loads-parse_and_load}
use gameclub_backend.Auth.Jar.{Jar, without, holds, receive, holds-without_self, holds-without}
use gameclub_backend.Auth.Refresh as RefreshService
use gameclub_backend.Auth.Refresh.{claims_from_refresh, claims_from_refresh_same, try_refresh}
use gameclub_backend.Auth.Login as Service
use gameclub_backend.Auth.Controller.{
  AuthConfig, Request, Answer, access_token_cookie, refresh_token_cookie, clear_cookies,
  request_context, refresh_tokens, logout,
}

-- A token whose row is revoked, or that loads no row.
abbrev IsDead : Crypto → Presented → StaffDb → Type 0
IsDead c p db = (row : RefreshToken) → parse_and_load c p db ≡ ok (some row) → row.revoked ≡ true

abbrev pub is_throw {ℓ} : {A : Type ℓ} → Result A → Bool
is_throw (ok a) = false
is_throw (throw e) = true

rotate-dead :
    (c : Crypto) (p : Presented) (claims : Claims) (ctx : RequestContext) (fresh : Fresh)
    (now : Date) (ttl : ℕ) (db : StaffDb)
    → IsDead c p db
    → is_throw (rotate c p claims ctx fresh now ttl db).0 ≡ true
unfolding rotate rotate_row
rotate-dead c p claims ctx fresh now ttl db dead = elim (Result-cases (parse_and_load c p db)) [
  | inl (none, q) ↦ ground arith
  | inl (some row, q) ↦ let gone = dead row q in ground arith
  | inr (e, q) ↦ ground arith
]

refresh-dead :
    (c : Crypto) (p : Presented) (ctx : RequestContext) (fresh : Fresh) (now : Date) (ttl : ℕ)
    (db : StaffDb)
    → IsDead c p db
    → is_throw (RefreshService.refresh c (some p) ctx fresh now ttl db).0 ≡ true
unfolding RefreshService.refresh
refresh-dead c p ctx fresh now ttl db dead =
    let same = claims_from_refresh_same p db in
    elim (Result-cases (claims_from_refresh p db).0) [
      | inl (claims, q) ↦ ground (arith, rotate-dead c p claims ctx fresh now ttl db dead)
      | inr (e, q) ↦ ground arith
    ]

revoke-IsDead :
    (c : Crypto) (p : Presented) (db db' : StaffDb) → revoke c p db ≡ (ok tt, db') → IsDead c p db'
unfolding revoke
revoke-IsDead c p db db' h row q = elim (Result-cases (parse_and_load c p db)) [
  | inl (none, l) ↦ absurd (ground arith)
  | inl (some r, l) ↦ elim (Bool-cases r.revoked) [
    | inl gone ↦ ground arith
    | inr good ↦
        let loads = parse_and_load-Loads c p.id p.secret db r l in
        let key = find_one-key loads.key r db.tokens loads.found in
        let wrote : db' ≡ record db { tokens = save (record r { revoked = true }) db.tokens } =
          ground arith in
        let stored : find_one loads.key db'.tokens ≡ some (record r { revoked = true }) =
          ground (arith, find_one-save loads.key (record r { revoked = true }) db.tokens) in
        let again : Loads c p db' (record r { revoked = true }) = record {
          key = loads.key;
          secret = loads.secret;
          names = loads.names;
          carries = loads.carries;
          found = stored;
          verifies = loads.verifies;
        } in
        ground (arith, Loads-parse_and_load c p db' (record r { revoked = true }) again)
  ]
  | inr (e, l) ↦ absurd (ground arith)
]

refresh_tokens-dead :
    (c : Crypto) (cfg : AuthConfig) (req : Request) (fresh : Fresh) (now : Date) (db : StaffDb)
    → ((p : Presented) → req.refresh_cookie ≡ some p → IsDead c p db)
    → is_throw (refresh_tokens c cfg req fresh now db).0 ≡ true
unfolding refresh_tokens RefreshService.refresh
refresh_tokens-dead c cfg req fresh now db dead = elim (Option-cases req.refresh_cookie) [
  | inl e ↦ ground arith
  | inr (p, e) ↦
      let failed =
        refresh-dead c p (request_context req) fresh now cfg.refresh_ttl_ms db (dead p e) in
      ground arith
]

logout-cookies :
    (c : Crypto) (cfg : AuthConfig) (req : Request) (db : StaffDb) (answer : Answer) (db' : StaffDb)
    → logout c cfg req db ≡ (ok answer, db')
    → answer.cookies ≡ clear_cookies cfg
unfolding logout
logout-cookies c cfg req db answer db' h = ground arith

logout-revokes :
    (c : Crypto) (cfg : AuthConfig) (req : Request) (db : StaffDb) (answer : Answer) (db' : StaffDb)
    (p : Presented)
    → req.refresh_cookie ≡ some p
    → logout c cfg req db ≡ (ok answer, db')
    → revoke c p db ≡ (ok tt, db')
unfolding logout Service.logout
logout-revokes c cfg req db answer db' p e h = ground arith

-- Dead tokens stay dead in tables that have the same row under the token's key.
IsDead-later :
    (c : Crypto) (p : Presented) (db later : StaffDb)
    → ((k : Uuid) → p.id ≡ IdText.key k → find_one k later.tokens ≡ find_one k db.tokens)
    → IsDead c p db
    → IsDead c p later
IsDead-later c p db later same dead row h =
    let l = parse_and_load-Loads c p.id p.secret later row h in
    dead row (
      Loads-parse_and_load c p db row (record {
        key = l.key;
        secret = l.secret;
        names = l.names;
        carries = l.carries;
        found = sym (same l.key l.names) ∙ l.found;
        verifies = l.verifies;
      }))

-- After a logout that succeeds the browser, whatever it held, holds neither of the two cookies of a
-- sign-in. No later request that brings the same token can exchange it, on any tables in which the
-- row with the token's key stands as the logout left it, whatever else has changed.
pub logout-ends :
    (c : Crypto) (cfg : AuthConfig) (req : Request) (db : StaffDb) (answer : Answer)
    (db' later : StaffDb) (jar : Jar) (again : Request) (fresh : Fresh) (now : Date)
    → logout c cfg req db ≡ (ok answer, db')
    → again.refresh_cookie ≡ req.refresh_cookie
    → ((p : Presented) (k : Uuid)
        → req.refresh_cookie ≡ some p
        → p.id ≡ IdText.key k
        → find_one k later.tokens ≡ find_one k db'.tokens)
    → (holds access_token_cookie cfg.cookie_domain "/" (receive answer.cookies jar) ≡ false)
      × (holds refresh_token_cookie cfg.cookie_domain "/api" (receive answer.cookies jar) ≡ false)
      × (is_throw (refresh_tokens c cfg again fresh now later).0 ≡ true)
unfolding clear_cookies receive
logout-ends c cfg req db answer db' later jar again fresh now h same kept =
    let cookies = logout-cookies c cfg req db answer db' h in
    let domain = cfg.cookie_domain in
    (
      rw cookies (
          holds-without access_token_cookie refresh_token_cookie domain domain "/" "/api" _
            (holds-without_self access_token_cookie domain "/" jar)),
      rw cookies (
          holds-without_self refresh_token_cookie domain "/api"
            (without access_token_cookie domain "/" jar)),
      refresh_tokens-dead c cfg again fresh now later λ p e.
          IsDead-later c p db' later (λ k names. kept p k (sym same ∙ e) names)
            (revoke-IsDead c p db db' (logout-revokes c cfg req db answer db' p (sym same ∙ e) h)),
    )
