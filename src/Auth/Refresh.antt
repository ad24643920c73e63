-- ===== src/Auth/Refresh.antt =====
-- `refresh` of src/modules/auth/auth.service.ts.
use gameclub_backend.Prelude.{
  ℕ, ◌≡◌, ◌⊎◌, inl, inr, refl, ap, Option, find_one-key, none, some, Bool, true, false, not, [],
  ◌∷◌, arith, if◌then◌else◌, same_text, Uuid, Date, find_one, Option-cases, Bool-cases,
}
use gameclub_backend.Common.Errors.{
  Result, ok, throw, Exception, error, lit, unauthorized_exception,
}
use gameclub_backend.Common.Stateful.{pure, raise, lift, catch, or_raise, raise_if, ◌>>=◌, ◌>>◌}
use gameclub_backend.Entities.Staff.{User, user_entity}
use gameclub_backend.Auth.{Claims, Crypto, StaffDb, RequestContext, Presented, IssuedTokens, Fresh}
use gameclub_backend.Auth.Tokens.{Auth, peek_user_id, rotate}
use gameclub_backend.Auth.Accounts.{find_by_id, to_claims}

unfoldable pub resolve_user_id : Presented → Auth Uuid
resolve_user_id presented = do
  found ← lift (peek_user_id presented)
  or_raise found (unauthorized_exception "Invalid refresh token")

unfoldable pub claims_from_refresh : Presented → Auth Claims
unfolding resolve_user_id find_by_id
claims_from_refresh presented = do
  user_id ← resolve_user_id presented
  user ← find_by_id user_id
  raise_if (not user.is_active) (unauthorized_exception "Account is disabled")
  pure (to_claims user)

-- `err.message === 'REFRESH_TOKEN_REUSED'`: only the errors of `rotate` are plain errors with such
-- a message.
abbrev pub is_reuse : Exception → Bool
is_reuse (error (lit m ∷ [])) = same_text m "REFRESH_TOKEN_REUSED"
is_reuse _ = false

abbrev pub reuse_detected : Exception
reuse_detected = unauthorized_exception "Refresh token reuse detected; all sessions revoked"

abbrev pub invalid_refresh : Exception
invalid_refresh = unauthorized_exception "Invalid or expired refresh token"

abbrev pub missing_refresh : Exception
missing_refresh = unauthorized_exception "Missing refresh token"

abbrev pub try_refresh : Crypto → Presented → RequestContext → Fresh → Date → ℕ → Auth IssuedTokens
try_refresh c presented ctx fresh now ttl =
    claims_from_refresh presented >>= λ claims. rotate c presented claims ctx fresh now ttl

-- `none` is the empty text.
unfoldable pub refresh :
    Crypto → Option Presented → RequestContext → Fresh → Date → ℕ → Auth IssuedTokens
unfolding claims_from_refresh
refresh c none ctx fresh now ttl = raise missing_refresh
refresh c (some presented) ctx fresh now ttl =
    catch (try_refresh c presented ctx fresh now ttl)
      (λ e. raise (if is_reuse e then reuse_detected else invalid_refresh))

-- The client learns of a failed refresh one of three messages, each with status 401, whatever went
-- wrong inside.
pub refresh-errors :
    (c : Crypto) (presented : Option Presented) (ctx : RequestContext) (fresh : Fresh) (now : Date)
    (ttl : ℕ) (db : StaffDb) (e : Exception)
    → (refresh c presented ctx fresh now ttl db).0 ≡ throw e
    → (e ≡ missing_refresh) ⊎ (e ≡ reuse_detected) ⊎ (e ≡ invalid_refresh)
unfolding refresh
refresh-errors c none ctx fresh now ttl db e h = inl (ground arith)
refresh-errors c (some p) ctx fresh now ttl db e h =
    inr (go (try_refresh c p ctx fresh now ttl db) refl)
  where
    go :
        (r : Result IssuedTokens × StaffDb)
        → try_refresh c p ctx fresh now ttl db ≡ r
        → (e ≡ reuse_detected) ⊎ (e ≡ invalid_refresh)
    go (ok t, s) q = absurd (ground arith)
    go (throw x, s) q = elim (Bool-cases (is_reuse x)) [
      | inl yes_reuse ↦ inl (ground arith)
      | inr no_reuse ↦ inr (ground arith)
    ]

claims_from_refresh_lem :
    (p : Presented) (db : StaffDb) (claims : Claims)
    → (claims_from_refresh p db).0 ≡ ok claims
    → (u : User) × (find_one u.base.id db.users ≡ some u)
      × (u.is_active ≡ true)
      × (claims ≡ to_claims u)
unfolding claims_from_refresh resolve_user_id find_by_id
claims_from_refresh_lem p db claims h = from_user (peek_user_id p db) refl
  where
    from_user :
        (r : Result (Option Uuid))
        → peek_user_id p db ≡ r
        → (u : User) × (find_one u.base.id db.users ≡ some u)
          × (u.is_active ≡ true)
          × (claims ≡ to_claims u)
    from_user (throw x) q = absurd (ground arith)
    from_user (ok none) q = absurd (ground arith)
    from_user (ok (some k)) q = elim (Option-cases (find_one k db.users)) [
      | inl absent ↦ absurd (ground arith)
      | inr (u, found) ↦
          let key = find_one-key k u db.users found in (u, ground arith, ground arith, ground arith)
    ]

pub claims_from_refresh_same : (p : Presented) (db : StaffDb) → (claims_from_refresh p db).1 ≡ db
unfolding claims_from_refresh resolve_user_id find_by_id
claims_from_refresh_same p db = ground arith

-- A refresh hands out tokens with the email and the role that the account has now.
pub refresh-claims :
    (c : Crypto) (p : Presented) (ctx : RequestContext) (fresh : Fresh) (now : Date) (ttl : ℕ)
    (db : StaffDb) (next : IssuedTokens) (db' : StaffDb)
    → refresh c (some p) ctx fresh now ttl db ≡ (ok next, db')
    → (u : User) × (find_one u.base.id db.users ≡ some u)
      × (u.is_active ≡ true)
      × (rotate c p (to_claims u) ctx fresh now ttl db ≡ (ok next, db'))
unfolding refresh
refresh-claims c p ctx fresh now ttl db next db' h = go (claims_from_refresh p db) refl
  where
    go :
        (r : Result Claims × StaffDb)
        → claims_from_refresh p db ≡ r
        → (u : User) × (find_one u.base.id db.users ≡ some u)
          × (u.is_active ≡ true)
          × (rotate c p (to_claims u) ctx fresh now ttl db ≡ (ok next, db'))
    go (throw x, s) q = absurd (ground arith)
    go (ok claims, s) q =
        let (u, found, active, as_now) = claims_from_refresh_lem p db claims (ap (λ r. r.0) q) in
        let same = claims_from_refresh_same p db in (u, found, active, ground arith)
