-- ===== src/Tests/AuthTests.antt =====
-- A sign-in, its lock, and its tokens. Hashes, here, are the plain texts.
use gameclub_backend.Prelude.{
  ℕ, ◌≡◌, ◌≤◌, ◌+◌, refl, some, none, true, false, String, List, [], ◌∷◌, arith, length, same_text,
  same_text_self, Date, find_one, save,
}
use gameclub_backend.Common.Errors.{ok, throw, unauthorized_exception}
use gameclub_backend.Entities.Staff.{User, user_entity, RefreshToken, refresh_token_entity, owner}
use gameclub_backend.Debt.History.{new_row}
use gameclub_backend.Auth.{
  Claims, Crypto, IsSound, StaffDb, RequestContext, IdText, Presented, IssuedTokens, Fresh,
}
use gameclub_backend.Auth.Tokens.{
  parse_and_load, load, issue, issued_row, rotate, rotate_row, revoke_family, revoke_all_for_user,
  refresh_error,
}
use gameclub_backend.Auth.Families.{rotate-theft}
use gameclub_backend.Auth.Usable.{
  usable_in, OneUsable, rotates, reuses, TokenRun, TokenRun-OneUsable,
}
use gameclub_backend.Auth.Accounts.{
  find_by_email, find_by_id, save_user, set_password, audit, to_claims,
}
use gameclub_backend.Audit.{record_entry, audit_row}
use gameclub_backend.Auth.Login.{LoginGiven, ChangePasswordDto, change_password, login, is_locked}
use gameclub_backend.Auth.Lockout.{Attempt, IsAccount, tries, login-lockout}
use gameclub_backend.Auth.Passwords.{AllRevoked, change_password-revokes}

abbrev pub plain : Crypto
plain = record {
  hash = λ salt p. p;
  verify = λ h p. same_text h p;
  needs_rehash = λ h. false;
  sign_access = λ claims at. claims.email;
  trim_lower = λ e. e;
}

pub plain-IsSound : IsSound plain
plain-IsSound salt p = same_text_self p

abbrev pub boss : User
boss = record {
  base = new_row 1 0;
  email = "a@b.uz";
  full_name = "A";
  password_hash = "right";
  role = owner;
  is_active = true;
  last_login_at = none;
  failed_login_attempts = 0;
  locked_until = none;
}

abbrev ctx : RequestContext
ctx = record { user_agent = none; ip_address = none; request_id = none }

abbrev pub new_token : ℕ → Fresh
new_token i = record { id = i; secret = "s"; salt = 0 }

abbrev old_row : RefreshToken
old_row = issued_row plain (to_claims boss) 50 ctx (new_token 60) 0 1000000

abbrev pub staff : StaffDb
staff = record { users = boss ∷ []; tokens = old_row ∷ []; logs = [] }

abbrev pub presented : Presented
presented = record { id = IdText.key 60; secret = some "s" }

abbrev next_tokens : IssuedTokens
next_tokens = record {
  access_token = "a@b.uz";
  refresh_token = record { id = IdText.key 61; secret = some "s" };
  refresh_expires_at = 1000500;
}

abbrev rotated : StaffDb
rotated = record staff {
  tokens =
      record old_row { revoked = true; replaced_by = some 61 }
      ∷ issued_row plain (to_claims boss) 50 ctx (new_token 61) 500 1000000
      ∷ [];
}

rotates_once :
    rotate plain presented (to_claims boss) ctx (new_token 61) 500 1000000 staff
    ≡ (ok next_tokens, rotated)
unfolding rotate parse_and_load load find_one rotate_row issue revoke_family save
rotates_once = refl

unused : find_one 61 staff.tokens ≡ none
unfolding find_one
unused = refl

rotate-theft_example :
    (stolen : StaffDb) × ((claims' : Claims) (ctx' : RequestContext) (fresh' : Fresh) (now' : Date)
      → rotate plain presented claims' ctx' fresh' now' 1000000 rotated
        ≡ (throw (refresh_error "REFRESH_TOKEN_REUSED"), stolen))
    × ((claims' : Claims) (ctx' : RequestContext) (fresh' : Fresh) (now' : Date)
        → (rotate plain next_tokens.refresh_token claims' ctx' fresh' now' 1000000 stolen).0
          ≡ throw (refresh_error "REFRESH_TOKEN_REUSED"))
rotate-theft_example =
    rotate-theft plain presented (to_claims boss) ctx (new_token 61) 500 1000000 staff next_tokens
      rotated plain-IsSound unused rotates_once

staff-OneUsable : OneUsable staff
unfolding usable_in
staff-OneUsable f = ground arith

TokenRun-OneUsable_example : usable_in 50 (revoke_family 50 rotated).1.tokens ≤ 1
TokenRun-OneUsable_example =
    TokenRun-OneUsable plain
      (TokenRun.goes
        (rotates presented (to_claims boss) ctx (new_token 61) 500 1000000 next_tokens unused
          rotates_once)
        (TokenRun.goes (reuses 50) TokenRun.rests))
      staff-OneUsable 50

-- Two refreshes of one token that overlap: both have loaded the row before either writes. Both get
-- tokens, and the family has two that can be used.
abbrev second_rotated : StaffDb
second_rotated =
    (rotate_row plain old_row (to_claims boss) ctx (new_token 64) 501 1000000 rotated).1

rotates_twice :
    ((rotate_row plain old_row (to_claims boss) ctx (new_token 61) 500 1000000 staff).1 ≡ rotated)
    × (usable_in 50 second_rotated.tokens ≡ 2)
unfolding rotate_row issue revoke_family save usable_in
rotates_twice = (refl, refl)

abbrev given : Date → LoginGiven
given now = record {
  now = now;
  log_id = 70;
  family = 51;
  fresh = new_token 62;
  rehash_salt = 0;
  refresh_ttl = 1000000;
}

abbrev try : String → Date → Attempt
try password now = record {
  dto = record { email = "a@b.uz"; password = password };
  ctx = ctx;
  given = given now;
}

abbrev guesses : List Attempt
guesses = try "a" 1 ∷ try "b" 2 ∷ try "c" 3 ∷ try "d" 4 ∷ try "e" 5 ∷ []

pub boss-IsAccount : IsAccount "a@b.uz" boss staff
unfolding find_by_email find_one
boss-IsAccount = record { by_email = refl; by_key = refl }

login-lockout_example :
    login plain (try "right" 6).dto ctx (given 6) (tries plain guesses staff) ≡ (
      throw (unauthorized_exception "Account temporarily locked due to failed login attempts"),
      tries plain guesses staff,
    )
login-lockout_example =
    login-lockout plain "a@b.uz" boss guesses staff boss-IsAccount refl refl refl refl
      (refl, refl, (refl, refl, (refl, refl, (refl, refl, (refl, refl, tt))))) (try "right" 6) refl
      (omega arith)

abbrev locked_boss : User
locked_boss = record boss { locked_until = some 900005 }

locked-IsAccount : IsAccount "a@b.uz" locked_boss (record staff { users = locked_boss ∷ [] })
unfolding find_by_email find_one
locked-IsAccount = record { by_email = refl; by_key = refl }

locked_at : is_locked locked_boss 6 ≡ true
unfolding is_locked
locked_at = refl

abbrev wanted : ChangePasswordDto
wanted = record { current_password = "right"; new_password = "better123" }

abbrev changed : StaffDb
changed = (change_password plain 1 wanted ctx 0 71 9 staff).1

changes : change_password plain 1 wanted ctx 0 71 9 staff ≡ (ok tt, changed)
unfolding change_password find_one set_password find_by_id save_user revoke_all_for_user audit
    record_entry audit_row
changes = refl

change_password-revokes_example :
    ((old : User) × (find_one 1 staff.users ≡ some old)
      × (same_text old.password_hash "right" ≡ true))
    × ((new : User) × (find_one 1 changed.users ≡ some new)
        × (same_text new.password_hash "better123" ≡ true))
    × AllRevoked 1 changed.tokens
    × (length changed.logs ≡ 0 + 1)
change_password-revokes_example =
    change_password-revokes plain 1 wanted ctx 0 71 9 staff changed plain-IsSound changes
