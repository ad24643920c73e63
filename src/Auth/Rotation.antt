-- ===== src/Auth/Rotation.antt =====
-- Rotation and the detection of reuse (src/modules/auth/services/token.service.ts).
use gameclub_backend.Prelude.{
  ℕ, ◌≡◌, refl, Option, none, some, true, false, String, arith, leb, ◌==◌, Uuid, Date, find_one,
  save,
}
use gameclub_backend.Common.Errors.{Result, ok, throw}
use gameclub_backend.Entities.Staff.{RefreshToken, refresh_token_entity}
use gameclub_backend.Auth.{
  Claims, Crypto, StaffDb, RequestContext, IdText, Presented, IssuedTokens, Fresh,
}
use gameclub_backend.Auth.Tokens.{
  parse_and_load, load, issue, issued_row, revoke_where, revoke_family, refresh_error, rotate_row,
  rotate,
}

-- A presented token that loads a row names its key and has a secret that verifies.
pub record Loads (c : Crypto) (p : Presented) (db : StaffDb) (row : RefreshToken) : Type 0 where
  pub key : Uuid
  pub secret : String
  pub names : p.id ≡ IdText.key key
  pub carries : p.secret ≡ some secret
  pub found : find_one key db.tokens ≡ some row
  pub verifies : c.verify row.token_hash secret ≡ true

pub parse_and_load-Loads :
    (c : Crypto) (i : IdText) (s : Option String) (db : StaffDb) (row : RefreshToken)
    → parse_and_load c (record { id = i; secret = s }) db ≡ ok (some row)
    → Loads c (record { id = i; secret = s }) db row
unfolding parse_and_load load
parse_and_load-Loads c IdText.empty s db row h = absurd (ground arith)
parse_and_load-Loads c IdText.not_uuid none db row h = absurd (ground arith)
parse_and_load-Loads c IdText.not_uuid (some s) db row h = absurd (ground arith)
parse_and_load-Loads c (IdText.key k) none db row h = absurd (ground arith)
parse_and_load-Loads c (IdText.key k) (some s) db row h = record {
  key = k;
  secret = s;
  names = refl;
  carries = refl;
  found = ground arith;
  verifies = ground arith;
}

pub Loads-parse_and_load :
    (c : Crypto) (p : Presented) (db : StaffDb) (row : RefreshToken)
    → Loads c p db row
    → parse_and_load c p db ≡ ok (some row)
unfolding parse_and_load load
Loads-parse_and_load c p db row l = ground (arith, l.names, l.carries, l.found, l.verifies)

-- A rotation that succeeds: the row was valid, the new row is stored, the old one is revoked.
pub record Rotates (c : Crypto) (p : Presented) (claims : Claims) (ctx : RequestContext)
    (fresh : Fresh) (now : Date) (ttl : ℕ) (db : StaffDb) (next : IssuedTokens) (db' : StaffDb)
    : Type 0 where
  pub row : RefreshToken
  pub loads : Loads c p db row
  pub unrevoked : row.revoked ≡ false
  pub in_time : leb row.expires_at now ≡ false
  pub token : next.refresh_token ≡ record { id = IdText.key fresh.id; secret = some fresh.secret }
  pub tables : db' ≡ record db {
    tokens =
        save
          (record row { revoked = true; replaced_by = some fresh.id })
          (save (issued_row c claims row.family_id ctx fresh now ttl) db.tokens);
  }

rotate_row-valid :
    (c : Crypto) (row : RefreshToken) (claims : Claims) (ctx : RequestContext) (fresh : Fresh)
    (now : Date) (ttl : ℕ) (db : StaffDb) (next : IssuedTokens) (db' : StaffDb)
    → rotate_row c row claims ctx fresh now ttl db ≡ (ok next, db')
    → (row.revoked ≡ false)
      × (leb row.expires_at now ≡ false)
      × (next.refresh_token ≡ record { id = IdText.key fresh.id; secret = some fresh.secret })
      × (db' ≡ record db {
        tokens =
            save
              (record row { revoked = true; replaced_by = some fresh.id })
              (save (issued_row c claims row.family_id ctx fresh now ttl) db.tokens);
      })
unfolding rotate_row issue revoke_family
rotate_row-valid c row claims ctx fresh now ttl db next db' h =
    (ground arith, ground arith, ground arith, ground arith)

rotate_loaded :
    (c : Crypto) (p : Presented) (claims : Claims) (ctx : RequestContext) (fresh : Fresh)
    (now : Date) (ttl : ℕ) (db : StaffDb) (next : IssuedTokens) (db' : StaffDb)
    → rotate c p claims ctx fresh now ttl db ≡ (ok next, db')
    → (row : RefreshToken) × (parse_and_load c p db ≡ ok (some row))
      × (rotate_row c row claims ctx fresh now ttl db ≡ (ok next, db'))
unfolding rotate
rotate_loaded c p claims ctx fresh now ttl db next db' h = go (parse_and_load c p db) refl
  where
    go :
        (r : Result (Option RefreshToken))
        → parse_and_load c p db ≡ r
        → (row : RefreshToken) × (parse_and_load c p db ≡ ok (some row))
          × (rotate_row c row claims ctx fresh now ttl db ≡ (ok next, db'))
    go (ok (some row)) e = (row, e, ground arith)
    go (ok none) e = absurd (ground arith)
    go (throw x) e = absurd (ground arith)

pub rotate-Rotates :
    (c : Crypto) (p : Presented) (claims : Claims) (ctx : RequestContext) (fresh : Fresh)
    (now : Date) (ttl : ℕ) (db : StaffDb) (next : IssuedTokens) (db' : StaffDb)
    → rotate c p claims ctx fresh now ttl db ≡ (ok next, db')
    → Rotates c p claims ctx fresh now ttl db next db'
rotate-Rotates c p claims ctx fresh now ttl db next db' h =
    let (row, parses, goes) = rotate_loaded c p claims ctx fresh now ttl db next db' h in
    let (unrevoked, in_time, token, tables) =
      rotate_row-valid c row claims ctx fresh now ttl db next db' goes in
    record {
      row = row;
      loads = parse_and_load-Loads c p.id p.secret db row parses;
      unrevoked = unrevoked;
      in_time = in_time;
      token = token;
      tables = tables;
    }

-- A token whose row is revoked: the whole family is revoked, and the rotation fails.
pub rotate-revoked :
    (c : Crypto) (p : Presented) (claims : Claims) (ctx : RequestContext) (fresh : Fresh)
    (now : Date) (ttl : ℕ) (db : StaffDb) (row : RefreshToken)
    → Loads c p db row
    → row.revoked ≡ true
    → rotate c p claims ctx fresh now ttl db ≡ (
      throw (refresh_error "REFRESH_TOKEN_REUSED"),
      record db { tokens = revoke_where (λ r. r.family_id == row.family_id) db.tokens },
    )
unfolding rotate rotate_row issue revoke_family
rotate-revoked c p claims ctx fresh now ttl db row l revoked =
    ground (arith, Loads-parse_and_load c p db row l)
