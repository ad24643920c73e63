-- ===== src/Auth/Lockout.antt =====
-- The lock after failed sign-ins (src/modules/auth/auth.service.ts).
use native.Mathlib.Decide.{ℕ_discrete}
use gameclub_backend.Prelude.{
  ◌+◌, ◌<◌, ◌≡◌, none, some, true, false, String, List, [], ◌∷◌, arith, Date, find_one, save,
  find_one-save, find_one-live, length, same_text,
}
use gameclub_backend.Common.Errors.{throw, unauthorized_exception}
use gameclub_backend.Entities.Staff.{User, user_entity}
use gameclub_backend.Auth.{Crypto, StaffDb, RequestContext}
use gameclub_backend.Auth.Accounts.{find_by_email, find_by_email_with_secret, save_user, audit}
use gameclub_backend.Auth.Login.{
  max_failed_attempts, lock_duration_ms, LoginDto, LoginGiven, failed, is_locked, check_password,
  login, generic_error,
}

-- One request to sign in.
pub record Attempt : Type 0 where
  pub dto : LoginDto
  pub ctx : RequestContext
  pub given : LoginGiven

unfoldable pub tries : Crypto → List Attempt → StaffDb → StaffDb
tries c [] db = db
tries c (a ∷ rest) db = tries c rest (login c a.dto a.ctx a.given db).1

-- The user that an email and the user's own key both find.
pub record IsAccount (e : String) (u : User) (db : StaffDb) : Type 0 where
  pub by_email : find_by_email e db.users ≡ some u
  pub by_key : find_one u.base.id db.users ≡ some u

find_by_email_lem :
    (e : String) (u : User) (rows : List User)
    → find_by_email e rows ≡ some u
    → (same_text u.email e ≡ true) × (u.base.deleted_at ≡ none)
unfolding find_by_email
find_by_email_lem e u [] h = absurd (cc)
find_by_email_lem e u (r ∷ rows) h =
    (ground (arith, find_by_email_lem e u rows), ground (arith, find_by_email_lem e u rows))

find_by_email-save :
    (e : String) (u v : User) (rows : List User)
    → find_by_email e rows ≡ some u
    → find_one u.base.id rows ≡ some u
    → v.base ≡ u.base
    → v.email ≡ u.email
    → find_by_email e (save v rows) ≡ some v
unfolding find_by_email find_one save
find_by_email-save e u v [] h k b m = absurd (cc)
find_by_email-save e u v (r ∷ rows) h k b m =
    let (same, alive) = find_by_email_lem e u (r ∷ rows) h in
    elim (ℕ_discrete r.base.id u.base.id) [
      | yes here ↦
          let is : r ≡ u = ground arith in
          let swap : save v (r ∷ rows) ≡ v ∷ rows = ground arith in rw swap (ground arith)
      | no ne ↦
          let later : find_by_email e rows ≡ some u = ground arith in
          let found : find_one u.base.id rows ≡ some u = ground arith in
          let keep : save v (r ∷ rows) ≡ r ∷ save v rows = ground arith in
          let rest = find_by_email-save e u v rows later found b m in rw keep (ground (arith, rest))
    ]

IsAccount-save :
    (e : String) (u v : User) (db db' : StaffDb)
    → IsAccount e u db
    → v.base ≡ u.base
    → v.email ≡ u.email
    → db'.users ≡ save v db.users
    → IsAccount e v db'
IsAccount-save e u v db db' a b m s =
    let alive = find_one-live u.base.id u db.users a.by_key in
    record {
      by_email = rw s (find_by_email-save e u v db.users a.by_email a.by_key b m);
      by_key = ground (arith, s, b, find_one-save v.base.id v db.users, alive);
    }

-- A wrong password for an account that is active and not locked.
wrong_password :
    (c : Crypto) (dto : LoginDto) (ctx : RequestContext) (g : LoginGiven) (u : User) (db : StaffDb)
    → IsAccount (c.trim_lower dto.email) u db
    → u.is_active ≡ true
    → is_locked u g.now ≡ false
    → c.verify u.password_hash dto.password ≡ false
    → ((login c dto ctx g db).0 ≡ throw generic_error)
      × ((login c dto ctx g db).1.users ≡ save (failed u g.now) db.users)
unfolding login check_password find_by_email_with_secret save_user audit
wrong_password c dto ctx g u db a active unlocked wrong =
    (ground (arith, a.by_email), ground (arith, a.by_email))

-- While an account is locked, no sign-in succeeds, with whatever password, and nothing changes.
pub login-locked :
    (c : Crypto) (dto : LoginDto) (ctx : RequestContext) (g : LoginGiven) (u : User) (db : StaffDb)
    → IsAccount (c.trim_lower dto.email) u db
    → u.is_active ≡ true
    → is_locked u g.now ≡ true
    → login c dto ctx g db ≡ (
      throw (unauthorized_exception "Account temporarily locked due to failed login attempts"),
      db,
    )
unfolding login find_by_email_with_secret
login-locked c dto ctx g u db a active locked = ground (arith, a.by_email)

-- Attempts on one account, with wrong passwords.
abbrev pub AllWrong : Crypto → String → User → List Attempt → Type 0
AllWrong c e u [] = Unit
AllWrong c e u (a ∷ rest) =
    (c.trim_lower a.dto.email ≡ e)
    × (c.verify u.password_hash a.dto.password ≡ false)
    × AllWrong c e u rest

abbrev pub last_time : Date → List Attempt → Date
last_time t [] = t
last_time t (a ∷ rest) = last_time a.given.now rest

AllWrong-failed :
    (c : Crypto) (e : String) (u : User) (now : Date) (list : List Attempt)
    → AllWrong c e u list
    → AllWrong c e (failed u now) list
unfolding failed
AllWrong-failed c e u now [] w = tt
AllWrong-failed c e u now (a ∷ rest) w =
    (w.0, ground (arith, w.1), AllWrong-failed c e u now rest w.2)

-- Wrong attempts on an open account, whose number makes up the count of five, lock it.
tries_lock :
    (c : Crypto) (e : String) (u : User) (t : Date) (list : List Attempt) (db : StaffDb)
    → IsAccount e u db
    → u.is_active ≡ true
    → u.locked_until ≡ none
    → u.failed_login_attempts < max_failed_attempts
    → u.failed_login_attempts + length list ≡ max_failed_attempts
    → AllWrong c e u list
    → (v : User) × IsAccount e v (tries c list db)
      × (v.is_active ≡ true)
      × (v.failed_login_attempts ≡ 0)
      × (v.locked_until ≡ some (last_time t list + lock_duration_ms))
unfolding tries failed is_locked
tries_lock c e u t [] db a active unlocked few all w = absurd (ground arith)
tries_lock c e u t (x ∷ []) db a active unlocked few all w =
    let here : IsAccount (c.trim_lower x.dto.email) u db = rw w.0 a in
    let (refused, wrote) =
      wrong_password c x.dto x.ctx x.given u db here active (ground arith) w.1 in
    let v = failed u x.given.now in
    (
      v,
      IsAccount-save e u v db (login c x.dto x.ctx x.given db).1 a (ground arith) (ground arith)
          wrote,
      (ground arith),
      (ground arith),
      (ground arith),
    )
tries_lock c e u t (x ∷ y ∷ rest) db a active unlocked few all w =
    let here : IsAccount (c.trim_lower x.dto.email) u db = rw w.0 a in
    let (refused, wrote) =
      wrong_password c x.dto x.ctx x.given u db here active (ground arith) w.1 in
    let v = failed u x.given.now in
    tries_lock c e v x.given.now (y ∷ rest) (login c x.dto x.ctx x.given db).1
      (IsAccount-save e u v db (login c x.dto x.ctx x.given db).1 a (ground arith) (ground arith)
        wrote)
      (ground arith) (ground arith) (ground arith) (ground arith)
      (AllWrong-failed c e u x.given.now (y ∷ rest) w.2)

-- Five wrong passwords in a row on an open account without earlier failures lock it: every sign-in
-- with its email in the 15 minutes after the last of them fails, whatever the password, and changes
-- nothing.
pub login-lockout :
    (c : Crypto) (e : String) (u : User) (list : List Attempt) (db : StaffDb)
    → IsAccount e u db
    → u.is_active ≡ true
    → u.locked_until ≡ none
    → u.failed_login_attempts ≡ 0
    → length list ≡ 5
    → AllWrong c e u list
    → (b : Attempt) → c.trim_lower b.dto.email ≡ e
    → b.given.now < last_time 0 list + 900000
    → login c b.dto b.ctx b.given (tries c list db) ≡ (
      throw (unauthorized_exception "Account temporarily locked due to failed login attempts"),
      tries c list db,
    )
unfolding is_locked
login-lockout c e u list db a active unlocked none_yet five w b same soon =
    let (v, there, on, zero_again, until) =
      tries_lock c e u 0 list db a active unlocked (ground arith) (ground arith) w in
    login-locked c b.dto b.ctx b.given v (tries c list db) (rw same there) on (ground arith)
