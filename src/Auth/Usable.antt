-- ===== src/Auth/Usable.antt =====
-- The tokens of a family that can be used (src/modules/auth/services/token.service.ts), when its calls
-- run one after the other.
use gameclub_backend.Prelude.{
  ℕ, ◌+◌, ◌≤◌, ◌≡◌, refl, Option, none, some, Bool, true, not, ◌&&◌, List, [], ◌∷◌, arith, ◌==◌,
  if◌then◌else◌, Uuid, Date, find_one, save, find_one-save, find_one-key,
}
use gameclub_backend.Common.Errors.{Result, ok, throw}
use gameclub_backend.Entities.Staff.{RefreshToken, refresh_token_entity}
use gameclub_backend.Auth.{Claims, Crypto, StaffDb, RequestContext, Presented, IssuedTokens, Fresh}
use gameclub_backend.Auth.Tokens.{
  unexpired, purge_expired, issue, issue_for_login, issued_row, revoke_where, revoke_family,
  revoke_all_for_user, revoke, parse_and_load, rotate,
}
use gameclub_backend.Auth.Rotation.{rotate-Rotates, parse_and_load-Loads}

-- 1 for a token of the family that can still be used.
abbrev pub usable : Uuid → RefreshToken → ℕ
usable f r = if not r.revoked && r.family_id == f then 1 else 0

unfoldable pub usable_in : Uuid → List RefreshToken → ℕ
usable_in f [] = 0
usable_in f (r ∷ rows) = usable f r + usable_in f rows

usable_in-save_new :
    (f : Uuid) (a : RefreshToken) (rows : List RefreshToken)
    → find_one a.id rows ≡ none
    → usable_in f (save a rows) ≡ usable_in f rows + usable f a
unfolding usable_in find_one save
usable_in-save_new f a [] h = ground arith
usable_in-save_new f a (r ∷ rows) h = ground (arith, usable_in-save_new f a rows)

usable_in-save_old :
    (f : Uuid) (a old : RefreshToken) (rows : List RefreshToken)
    → find_one a.id rows ≡ some old
    → usable_in f (save a rows) + usable f old ≡ usable_in f rows + usable f a
unfolding usable_in find_one save
usable_in-save_old f a old [] h = absurd (cc)
usable_in-save_old f a old (r ∷ rows) h = ground (arith, usable_in-save_old f a old rows)

usable_in-revoke_where :
    (f : Uuid) (p : RefreshToken → Bool) (rows : List RefreshToken)
    → usable_in f (revoke_where p rows) ≤ usable_in f rows
unfolding usable_in
usable_in-revoke_where f p [] = ground arith
usable_in-revoke_where f p (r ∷ rows) = ground (arith, usable_in-revoke_where f p rows)

usable_in-unexpired :
    (f : Uuid) (now : Date) (rows : List RefreshToken)
    → usable_in f (unexpired now rows) ≤ usable_in f rows
unfolding usable_in unexpired
usable_in-unexpired f now [] = ground arith
usable_in-unexpired f now (r ∷ rows) = ground (arith, usable_in-unexpired f now rows)

-- At most one usable token in each family.
abbrev pub OneUsable : StaffDb → Type 0
OneUsable db = (f : Uuid) → usable_in f db.tokens ≤ 1

rotate-OneUsable :
    (c : Crypto) (p : Presented) (claims : Claims) (ctx : RequestContext) (fresh : Fresh)
    (now : Date) (ttl : ℕ) (db : StaffDb) (next : IssuedTokens) (db' : StaffDb)
    → find_one fresh.id db.tokens ≡ none
    → OneUsable db
    → rotate c p claims ctx fresh now ttl db ≡ (ok next, db')
    → OneUsable db'
rotate-OneUsable c p claims ctx fresh now ttl db next db' unused one h f =
    let st = rotate-Rotates c p claims ctx fresh now ttl db next db' h in
    let key = find_one-key st.loads.key st.row db.tokens st.loads.found in
    let new = issued_row c claims st.row.family_id ctx fresh now ttl in
    let old = record st.row { revoked = true; replaced_by = some fresh.id } in
    let here : find_one st.row.id db.tokens ≡ some st.row = ground (arith, key, st.loads.found) in
    let still : find_one st.row.id (save new db.tokens) ≡ some st.row =
      ground (arith, find_one-save st.row.id new db.tokens, here, unused) in
    ground (
      arith,
      st.tables,
      st.unrevoked,
      one f,
      usable_in-save_new f new db.tokens unused,
      usable_in-save_old f old st.row (save new db.tokens) still,
    )

-- The calls of the service that write tokens, with the answers they may have. The keys of new rows
-- and the families of new sign-ins are random, and not yet in the table.
pub data TokenStep (c : Crypto) : StaffDb → StaffDb → Type 0 where
  signs_in :
      {db : StaffDb} (claims : Claims) (family : Uuid) (ctx : RequestContext) (fresh : Fresh)
      (now : Date) (ttl : ℕ)
      → find_one fresh.id db.tokens ≡ none
      → usable_in family db.tokens ≡ 0
      → TokenStep c db (issue_for_login c claims family ctx fresh now ttl db).1
  rotates :
      {db db' : StaffDb} (p : Presented) (claims : Claims) (ctx : RequestContext) (fresh : Fresh)
      (now : Date) (ttl : ℕ) (next : IssuedTokens)
      → find_one fresh.id db.tokens ≡ none
      → rotate c p claims ctx fresh now ttl db ≡ (ok next, db')
      → TokenStep c db db'
  reuses : {db : StaffDb} (family : Uuid) → TokenStep c db (revoke_family family db).1
  revokes : {db : StaffDb} (p : Presented) → TokenStep c db (revoke c p db).1
  revokes_all : {db : StaffDb} (user : Uuid) → TokenStep c db (revoke_all_for_user user db).1
  purges : {db : StaffDb} (now : Date) → TokenStep c db (purge_expired now db).1

revoke-OneUsable :
    (c : Crypto) (p : Presented) (db : StaffDb) → OneUsable db → OneUsable (revoke c p db).1
unfolding revoke
revoke-OneUsable c p db one f = go (parse_and_load c p db) refl
  where
    go :
        (r : Result (Option RefreshToken))
        → parse_and_load c p db ≡ r
        → usable_in f (revoke c p db).1.tokens ≤ 1
    go (throw x) e = ground (arith, one f)
    go (ok none) e = ground (arith, one f)
    go (ok (some row)) e =
        let l = parse_and_load-Loads c p.id p.secret db row e in
        let key = find_one-key l.key row db.tokens l.found in
        let here : find_one row.id db.tokens ≡ some row = ground (arith, key, l.found) in
        ground
          (arith, one f, usable_in-save_old f (record row { revoked = true }) row db.tokens here)

TokenStep-OneUsable :
    (c : Crypto) {db db' : StaffDb} → TokenStep c db db' → OneUsable db → OneUsable db'
unfolding issue_for_login issue revoke_family revoke_all_for_user purge_expired
TokenStep-OneUsable c {db} {db'} (signs_in claims family ctx fresh now ttl unused new) one f =
    ground (
      arith,
      usable_in-save_new f (issued_row c claims family ctx fresh now ttl) db.tokens unused,
      one f,
    )
TokenStep-OneUsable c {db} {db'} (rotates p claims ctx fresh now ttl next unused h) one f =
    rotate-OneUsable c p claims ctx fresh now ttl db next db' unused one h f
TokenStep-OneUsable c {db} {db'} (reuses family) one f =
    ground (arith, one f, usable_in-revoke_where f (λ r. r.family_id == family) db.tokens)
TokenStep-OneUsable c {db} {db'} (revokes p) one f = revoke-OneUsable c p db one f
TokenStep-OneUsable c {db} {db'} (revokes_all user) one f =
    ground (arith, one f, usable_in-revoke_where f (λ r. r.user_id == user) db.tokens)
TokenStep-OneUsable c {db} {db'} (purges now) one f =
    ground (arith, one f, usable_in-unexpired f now db.tokens)

-- Calls one after the other: each begins when the one before it has ended.
pub data TokenRun (c : Crypto) : StaffDb → StaffDb → Type 0 where
  rests : {db : StaffDb} → TokenRun c db db
  goes : {db next last : StaffDb} → TokenStep c db next → TokenRun c next last → TokenRun c db last

-- When the calls of the service that write tokens run one after the other, in whatever order, no
-- family has two usable tokens at the end, if none has at the start. (`rotate` takes no lock, so of
-- calls that overlap this does not hold.)
pub TokenRun-OneUsable :
    (c : Crypto) {db last : StaffDb} → TokenRun c db last → OneUsable db → OneUsable last
TokenRun-OneUsable c rests one = one
TokenRun-OneUsable c (goes step run) one = TokenRun-OneUsable c run (TokenStep-OneUsable c step one)
