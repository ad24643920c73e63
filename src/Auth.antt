-- ===== src/Auth.antt =====
-- Staff accounts and their sign-in: src/modules/auth and the parts of src/modules/users that it
-- calls. The state is the three tables that it writes. What Argon2, JWT and the Unicode tables of
-- the runtime compute is the parameter `Crypto`; the random bytes and the clock are arguments.
pub mod Tokens
pub mod Rotation
pub mod Families
pub mod Usable
pub mod Accounts
pub mod Jar
pub mod Login
pub mod Lockout
pub mod Refresh
pub mod Passwords
pub mod Controller
pub mod Visits
pub mod SignIn
use gameclub_backend.Prelude.{ℕ, Bool, true, false, Option, String, List, Uuid, Date, ◌≡◌}
use gameclub_backend.Entities.Club.{BaseEntity}
use gameclub_backend.Entities.Staff.{Role, User, RefreshToken, AuditLog}

-- `AccessTokenClaims`, also `AuthenticatedUser`.
pub record Claims : Type 0 where
  pub sub : Uuid
  pub email : String
  pub role : Role

-- `argon2.hash` (with its random salt), `argon2.verify` with its errors taken for `false`,
-- `argon2.needsRehash`, `jwt.signAsync` (at a time), and `email.trim().toLowerCase()`.
pub record Crypto : Type 0 where
  pub hash : ℕ → String → String
  pub verify : String → String → Bool
  pub needs_rehash : String → Bool
  pub sign_access : Claims → Date → String
  pub trim_lower : String → String

-- A password verifies against each of its hashes.
abbrev pub IsSound : Crypto → Type 0
IsSound c = (salt : ℕ) (plain : String) → c.verify (c.hash salt plain) plain ≡ true

pub record StaffDb : Type 0 where
  pub users : List User
  pub tokens : List RefreshToken
  pub logs : List AuditLog

-- `RequestContext`.
pub record RequestContext : Type 0 where
  pub user_agent : Option String
  pub ip_address : Option String
  pub request_id : Option String

-- The piece of a presented token before the first dot, as a key of the table.
pub data IdText : Type 0 where
  empty not_uuid : IdText
  key : Uuid → IdText

-- `presented.split('.')`: its first two pieces; the second is `none` if it is absent or empty.
pub record Presented : Type 0 where
  pub id : IdText
  pub secret : Option String

pub record IssuedTokens : Type 0 where
  pub access_token : String
  pub refresh_token : Presented
  pub refresh_expires_at : Date

-- What the database and the random source give one call of `issue`.
pub record Fresh : Type 0 where
  pub id : Uuid
  pub secret : String
  pub salt : ℕ
