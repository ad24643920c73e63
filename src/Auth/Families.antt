-- ===== src/Auth/Families.antt =====
-- A refresh token that comes back after its rotation takes its family with it
-- (src/modules/auth/services/token.service.ts).
use gameclub_backend.Prelude.{
  ℕ, ◌≡◌, ◌≢◌, refl, ap, none, some, Bool, true, List, [], ◌∷◌, arith, ◌==◌, Uuid, Date, find_one,
  save, find_one-save, find_one-key,
}
use gameclub_backend.Common.Errors.{ok, throw}
use gameclub_backend.Entities.Staff.{RefreshToken, refresh_token_entity}
use gameclub_backend.Auth.{
  Claims, Crypto, IsSound, StaffDb, RequestContext, Presented, IssuedTokens, Fresh,
}
use gameclub_backend.Auth.Tokens.{issued_row, revoke_where, refresh_error, rotate}
use gameclub_backend.Auth.Rotation.{Loads, Rotates, rotate-Rotates, rotate-revoked}

find_one-revoke_where :
    (k : Uuid) (p : RefreshToken → Bool) (r : RefreshToken) (rows : List RefreshToken)
    → find_one k rows ≡ some r
    → p r ≡ true
    → find_one k (revoke_where p rows) ≡ some (record r { revoked = true })
unfolding find_one
find_one-revoke_where k p r [] h e = absurd (cc)
find_one-revoke_where k p r (x ∷ rows) h e = ground (arith, find_one-revoke_where k p r rows)

-- The row of a rotated token, after the rotation.
old-Loads :
    (c : Crypto) (p : Presented) (claims : Claims) (ctx : RequestContext) (fresh : Fresh)
    (now : Date) (ttl : ℕ) (db : StaffDb) (next : IssuedTokens) (db' : StaffDb)
    (st : Rotates c p claims ctx fresh now ttl db next db')
    → Loads c p db' (record st.row { revoked = true; replaced_by = some fresh.id })
old-Loads c p claims ctx fresh now ttl db next db' st =
    let key = find_one-key st.loads.key st.row db.tokens st.loads.found in
    record {
      key = st.loads.key;
      secret = st.loads.secret;
      names = st.loads.names;
      carries = st.loads.carries;
      found = ground (
        arith,
        st.tables,
        find_one-save st.loads.key (record st.row { revoked = true; replaced_by = some fresh.id })
            (save (issued_row c claims st.row.family_id ctx fresh now ttl) db.tokens),
      );
      verifies = st.loads.verifies;
    }

-- The row of the token that a rotation hands out, once its family is revoked.
next-Loads :
    (c : Crypto) (p : Presented) (claims : Claims) (ctx : RequestContext) (fresh : Fresh)
    (now : Date) (ttl : ℕ) (db : StaffDb) (next : IssuedTokens) (db' : StaffDb)
    (st : Rotates c p claims ctx fresh now ttl db next db')
    → IsSound c
    → find_one fresh.id db.tokens ≡ none
    → Loads c next.refresh_token
        (record db' { tokens = revoke_where (λ r. r.family_id == st.row.family_id) db'.tokens })
        (record (issued_row c claims st.row.family_id ctx fresh now ttl) { revoked = true })
next-Loads c p claims ctx fresh now ttl db next db' st sound unused =
    let key = find_one-key st.loads.key st.row db.tokens st.loads.found in
    let new = issued_row c claims st.row.family_id ctx fresh now ttl in
    let old = record st.row { revoked = true; replaced_by = some fresh.id } in
    let apart : st.row.id ≢ fresh.id = λ e. ground (arith, st.loads.found) in
    let there : find_one fresh.id db'.tokens ≡ some new = ground (
      arith,
      st.tables,
      find_one-save fresh.id old (save new db.tokens),
      find_one-save fresh.id new db.tokens,
    ) in
    record {
      key = fresh.id;
      secret = fresh.secret;
      names = ground (arith, st.token);
      carries = ground (arith, st.token);
      found =
          find_one-revoke_where fresh.id (λ r. r.family_id == st.row.family_id) new db'.tokens there
            (ground arith);
      verifies = sound fresh.salt fresh.secret;
    }

-- After a rotation, to present the old token again fails with REFRESH_TOKEN_REUSED, at any time and
-- for anyone, and from then on the token that the rotation gave out fails in the same way; the new
-- row's key must have been unused, and Argon2 must verify its own hashes.
pub rotate-theft :
    (c : Crypto) (p : Presented) (claims : Claims) (ctx : RequestContext) (fresh : Fresh)
    (now : Date) (ttl : ℕ) (db : StaffDb) (next : IssuedTokens) (db' : StaffDb)
    → IsSound c
    → find_one fresh.id db.tokens ≡ none
    → rotate c p claims ctx fresh now ttl db ≡ (ok next, db')
    → (stolen : StaffDb) × ((claims' : Claims) (ctx' : RequestContext) (fresh' : Fresh)
          (now' : Date)
        → rotate c p claims' ctx' fresh' now' ttl db'
          ≡ (throw (refresh_error "REFRESH_TOKEN_REUSED"), stolen))
      × ((claims' : Claims) (ctx' : RequestContext) (fresh' : Fresh) (now' : Date)
          → (rotate c next.refresh_token claims' ctx' fresh' now' ttl stolen).0
            ≡ throw (refresh_error "REFRESH_TOKEN_REUSED"))
rotate-theft c p claims ctx fresh now ttl db next db' sound unused h =
    let st = rotate-Rotates c p claims ctx fresh now ttl db next db' h in
    let old = record st.row { revoked = true; replaced_by = some fresh.id } in
    (
      record db' { tokens = revoke_where (λ r. r.family_id == st.row.family_id) db'.tokens },
      λ claims' ctx' fresh' now'.
          rotate-revoked c p claims' ctx' fresh' now' ttl db' old
            (old-Loads c p claims ctx fresh now ttl db next db' st) refl,
      λ claims' ctx' fresh' now'.
          ap (λ q. q.0)
            (rotate-revoked c next.refresh_token claims' ctx' fresh' now' ttl _ _
              (next-Loads c p claims ctx fresh now ttl db next db' st sound unused) refl),
    )
