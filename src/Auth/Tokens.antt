-- ===== src/Auth/Tokens.antt =====
-- src/modules/auth/services/token.service.ts.
use gameclub_backend.Prelude.{
  ℕ, ◌+◌, Option, none, some, Bool, true, false, String, List, [], ◌∷◌, leb, ltb, ◌==◌,
  if◌then◌else◌, Uuid, Date, find_one, save,
}
use gameclub_backend.Common.Errors.{Result, ok, throw, Exception, query_failed, error, lit}
use gameclub_backend.Common.Stateful.{Does, pure, raise, gets, lift, modify, or_raise, ◌>>=◌, ◌>>◌}
use gameclub_backend.Entities.Staff.{RefreshToken, refresh_token_entity}
use gameclub_backend.Auth.{
  Claims, Crypto, StaffDb, RequestContext, IdText, Presented, IssuedTokens, Fresh,
}

abbrev pub Auth : Type 0 → Type 0
Auth A = Does StaffDb A

-- PostgreSQL's error for a text that is no UUID.
abbrev pub invalid_text : Exception
invalid_text = query_failed (some "22P02")

-- `refreshTokens.findOne({ where: { id } })`.
unfoldable pub load : IdText → StaffDb → Result (Option RefreshToken)
load IdText.empty db = ok none
load IdText.not_uuid db = throw invalid_text
load (IdText.key k) db = ok (find_one k db.tokens)

abbrev verified : Crypto → String → Option RefreshToken → Option RefreshToken
verified c secret none = none
verified c secret (some r) = if c.verify r.token_hash secret then some r else none

-- `parseAndLoad`.
unfoldable pub parse_and_load : Crypto → Presented → StaffDb → Result (Option RefreshToken)
unfolding load
parse_and_load c p db = elim p.id [
  | IdText.empty ↦ ok none
  | i ↦ elim p.secret [
    | none ↦ ok none
    | some secret ↦ elim (load i db) [ throw e ↦ throw e | ok found ↦ ok (verified c secret found) ]
  ]
]

unfoldable pub peek_user_id : Presented → StaffDb → Result (Option Uuid)
unfolding load
peek_user_id p db = elim (load p.id db) [
  | throw e ↦ throw e
  | ok found ↦ ok (elim found [ none ↦ none | some r ↦ some r.user_id ])
]

abbrev pub issued_row : Crypto → Claims → Uuid → RequestContext → Fresh → Date → ℕ → RefreshToken
issued_row c claims family ctx fresh now ttl = record {
  id = fresh.id;
  user_id = claims.sub;
  family_id = family;
  token_hash = c.hash fresh.salt fresh.secret;
  revoked = false;
  replaced_by = none;
  expires_at = now + ttl;
  user_agent = ctx.user_agent;
  ip_address = ctx.ip_address;
  created_at = now;
}

abbrev pub save_token : RefreshToken → Auth (Unit {0})
save_token r = modify (λ db. record db { tokens = save r db.tokens })

-- `issue`; `ttl` is the configured `auth.refreshTtlMs`.
unfoldable pub issue :
    Crypto → Claims → Uuid → RequestContext → Fresh → Date → ℕ → Auth IssuedTokens
issue c claims family ctx fresh now ttl = do
  save_token (issued_row c claims family ctx fresh now ttl)
  pure (record {
    access_token = c.sign_access claims now;
    refresh_token = record { id = IdText.key fresh.id; secret = some fresh.secret };
    refresh_expires_at = now + ttl;
  })

-- `issueForLogin`: the family is a random UUID.
unfoldable pub issue_for_login :
    Crypto → Claims → Uuid → RequestContext → Fresh → Date → ℕ → Auth IssuedTokens
issue_for_login c claims family ctx fresh now ttl = issue c claims family ctx fresh now ttl

abbrev pub revoke_where : (RefreshToken → Bool) → List RefreshToken → List RefreshToken
revoke_where p [] = []
revoke_where p (r ∷ rows) = (if p r then record r { revoked = true } else r) ∷ revoke_where p rows

unfoldable pub revoke_family : Uuid → Auth (Unit {0})
revoke_family family =
    modify (λ db. record db { tokens = revoke_where (λ r. r.family_id == family) db.tokens })

unfoldable pub revoke_all_for_user : Uuid → Auth (Unit {0})
revoke_all_for_user user =
    modify (λ db. record db { tokens = revoke_where (λ r. r.user_id == user) db.tokens })

abbrev pub refresh_error : String → Exception
refresh_error m = error (lit m ∷ [])

-- What `rotate` does with the row that it has loaded. In the source it loads the row and writes both
-- rows by separate statements, with no transaction and no lock; `rotate` below is a call that no other
-- overlaps, and `rotate_row` alone is the rest of a call that has loaded its row earlier.
unfoldable pub rotate_row :
    Crypto → RefreshToken → Claims → RequestContext → Fresh → Date → ℕ → Auth IssuedTokens
unfolding issue revoke_family
rotate_row c row claims ctx fresh now ttl =
    if row.revoked
    then revoke_family row.family_id >> raise (refresh_error "REFRESH_TOKEN_REUSED")
    else if leb row.expires_at now
    then raise (refresh_error "REFRESH_TOKEN_EXPIRED")
    else (issue c claims row.family_id ctx fresh now ttl >>= λ next.
        save_token (record row { revoked = true; replaced_by = some fresh.id }) >> pure next)

unfoldable pub rotate :
    Crypto → Presented → Claims → RequestContext → Fresh → Date → ℕ → Auth IssuedTokens
rotate c presented claims ctx fresh now ttl = do
  found ← lift (parse_and_load c presented)
  row ← or_raise found (refresh_error "UNKNOWN_REFRESH_TOKEN")
  rotate_row c row claims ctx fresh now ttl

abbrev revoke_row : Option RefreshToken → Auth (Unit {0})
revoke_row none = pure tt
revoke_row (some row) = if row.revoked then pure tt else save_token (record row { revoked = true })

unfoldable pub revoke : Crypto → Presented → Auth (Unit {0})
revoke c presented = lift (parse_and_load c presented) >>= revoke_row

-- `purgeExpired`: the rows that stay, and how many went.
unfoldable pub unexpired : Date → List RefreshToken → List RefreshToken
unexpired now [] = []
unexpired now (r ∷ rows) =
    if ltb r.expires_at now then unexpired now rows else r ∷ unexpired now rows

unfoldable pub expired_count : Date → List RefreshToken → ℕ
expired_count now [] = 0
expired_count now (r ∷ rows) = (if ltb r.expires_at now then 1 else 0) + expired_count now rows

unfoldable pub purge_expired : Date → Auth ℕ
purge_expired now = do
  gone ← gets (λ db. expired_count now db.tokens)
  modify (λ db. record db { tokens = unexpired now db.tokens })
  pure gone
