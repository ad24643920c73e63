-- ===== src/Auth/Login.antt =====
-- `login`, `logout` and `changePassword` of src/modules/auth/auth.service.ts.
use gameclub_backend.Prelude.{
  ℕ, suc, ◌+◌, Option, none, some, Bool, false, not, String, [], ◌∷◌, leb, ltb, if◌then◌else◌, Uuid,
  Date, find_one,
}
use gameclub_backend.Common.Errors.{Exception, unauthorized_exception, business_rule, lit}
use gameclub_backend.Common.Stateful.{pure, raise, gets, or_raise, raise_if, ◌>>=◌, ◌>>◌}
use gameclub_backend.Entities.Staff.{User, user_entity}
use gameclub_backend.Auth.{Crypto, RequestContext, IssuedTokens, Fresh, Presented}
use gameclub_backend.Auth.Tokens.{Auth, issue_for_login, revoke, revoke_all_for_user}
use gameclub_backend.Auth.Accounts.{
  find_by_email_with_secret, save_user, set_password, user_entry, audit, to_claims,
}

abbrev pub max_failed_attempts : ℕ
max_failed_attempts = 5

abbrev pub lock_duration_ms : ℕ
lock_duration_ms = 900000

pub record LoginDto : Type 0 where
  pub email : String
  pub password : String

pub record ChangePasswordDto : Type 0 where
  pub current_password : String
  pub new_password : String

abbrev pub generic_error : Exception
generic_error = unauthorized_exception "Invalid credentials"

-- `registerFailure`, up to the save: the counter, and at the fifth failure the lock.
unfoldable pub failed : User → Date → User
failed user now =
    if leb max_failed_attempts (suc user.failed_login_attempts)
    then record user { failed_login_attempts = 0; locked_until = some (now + lock_duration_ms) }
    else record user { failed_login_attempts = suc user.failed_login_attempts }

-- `user.lockedUntil && user.lockedUntil.getTime() > Date.now()`.
unfoldable pub is_locked : User → Date → Bool
is_locked user now = elim user.locked_until [ none ↦ false | some until ↦ ltb now until ]

-- What one request is given by the database, the random source and the clock.
pub record LoginGiven : Type 0 where
  pub now : Date
  pub log_id : Uuid
  pub family : Uuid
  pub fresh : Fresh
  pub rehash_salt : ℕ
  pub refresh_ttl : ℕ

unfoldable pub succeeded : Crypto → User → LoginDto → LoginGiven → User
succeeded c user dto g = record user {
  failed_login_attempts = 0;
  locked_until = none;
  last_login_at = some g.now;
  password_hash =
      if c.needs_rehash user.password_hash
      then c.hash g.rehash_salt dto.password
      else user.password_hash;
}

-- `login` once the account is found, active and not locked.
unfoldable pub check_password :
    Crypto → User → LoginDto → RequestContext → LoginGiven → Auth IssuedTokens
unfolding failed succeeded save_user audit issue_for_login
check_password c user dto ctx g =
    if not (c.verify user.password_hash dto.password)
    then (save_user (failed user g.now)
        >> audit (user_entry user "LOGIN_FAILED" ctx) g.log_id g.now
        >> raise generic_error)
    else (save_user (succeeded c user dto g)
        >> audit (user_entry user "LOGIN_SUCCESS" ctx) g.log_id g.now
        >> issue_for_login c (to_claims user) g.family ctx g.fresh g.now g.refresh_ttl)

unfoldable pub login : Crypto → LoginDto → RequestContext → LoginGiven → Auth IssuedTokens
unfolding find_by_email_with_secret is_locked
login c dto ctx g = do
  found ← gets (find_by_email_with_secret c dto.email)
  user ← or_raise found generic_error
  raise_if (not user.is_active) generic_error
  raise_if (is_locked user g.now)
      (unauthorized_exception "Account temporarily locked due to failed login attempts")
  check_password c user dto ctx g

unfoldable pub logout : Crypto → Option Presented → Auth (Unit {0})
logout c none = pure tt
logout c (some presented) = revoke c presented

unfoldable pub change_password :
    Crypto → Uuid → ChangePasswordDto → RequestContext → ℕ → Uuid → Date → Auth (Unit {0})
unfolding set_password revoke_all_for_user audit
change_password c user_id dto ctx salt log_id now = do
  found ← gets (λ db. find_one user_id db.users)
  user ← or_raise found (unauthorized_exception "User not found")
  raise_if (not (c.verify user.password_hash dto.current_password))
      (business_rule "WRONG_PASSWORD" (lit "Current password is incorrect" ∷ []) none)
  set_password c user_id dto.new_password salt
  revoke_all_for_user user_id
  audit
      (record (user_entry user "PASSWORD_CHANGED" ctx) {
        actor_id = some user_id;
        entity_id = some user_id;
      })
      log_id now
