-- ===== src/Users.antt =====
-- The administration of staff accounts: `create`, `update`, `remove` and `findAll` of
-- src/modules/users/users.service.ts. The unique index `uq_users_email` counts the deleted rows
-- also. What the sign-in calls stands in Auth.Accounts.
pub mod Accounts
use gameclub_backend.Prelude.{
  ℕ, Option, none, some, Bool, true, false, not, ◌&&◌, ◌||◌, String, List, [], ◌∷◌, ◌==◌, same_text,
  Uuid, Date, save,
}
use gameclub_backend.Common.Errors.{conflict_exception, lit}
use gameclub_backend.Common.Stateful.{pure, gets, modify, raise_if, ◌>>=◌, ◌>>◌}
use gameclub_backend.Common.Pagination.{PaginationQueryDto, PaginatedResult}
use gameclub_backend.Common.Listing.{Scan, is_kept, newest_first, list_page}
use gameclub_backend.Entities.Club.{BaseEntity}
use gameclub_backend.Entities.Staff.{Role, User, user_entity}
use gameclub_backend.Auth.{Crypto}
use gameclub_backend.Auth.Tokens.{Auth}
use gameclub_backend.Auth.Accounts.{find_by_id}
use gameclub_backend.Rooms.{or_kept}
use gameclub_backend.Store.Transaction.{unique_violation}

pub record CreateUserDto : Type 0 where
  pub email : String
  pub full_name : String
  pub password : String
  pub role : Role

pub record UpdateUserDto : Type 0 where
  pub full_name : Option String
  pub role : Option Role
  pub is_active : Option Bool

-- `exists({ where: { email } })`.
unfoldable pub email_exists : String → List User → Bool
email_exists e [] = false
email_exists e (u ∷ rows) = (is_kept u.base && same_text u.email e) || email_exists e rows

unfoldable pub email_conflict : User → List User → Bool
email_conflict a [] = false
email_conflict a (u ∷ rows) =
    (same_text u.email a.email && not (u.base.id == a.base.id)) || email_conflict a rows

unfoldable pub put_user : User → Auth User
put_user u = do
  raise_if (← gets (λ db. email_conflict u db.users)) unique_violation
  modify (λ db. record db { users = save u db.users })
  pure u

abbrev pub created_user : Crypto → CreateUserDto → BaseEntity → ℕ → User
created_user c dto base salt = record {
  base = base;
  email = c.trim_lower dto.email;
  full_name = dto.full_name;
  password_hash = c.hash salt dto.password;
  role = dto.role;
  is_active = true;
  last_login_at = none;
  failed_login_attempts = 0;
  locked_until = none;
}

unfoldable pub create_user : Crypto → CreateUserDto → BaseEntity → ℕ → Auth User
unfolding put_user
create_user c dto base salt = do
  raise_if (← gets (λ db. email_exists (c.trim_lower dto.email) db.users))
      (conflict_exception "EMAIL_TAKEN" (lit "A user with this email already exists" ∷ []) none)
  put_user (created_user c dto base salt)

unfoldable pub update_user : Uuid → UpdateUserDto → Auth User
unfolding put_user
update_user id dto = do
  user ← find_by_id id
  put_user (record user {
    full_name = or_kept dto.full_name user.full_name;
    role = or_kept dto.role user.role;
    is_active = or_kept dto.is_active user.is_active;
  })

unfoldable pub remove_user : Uuid → Date → Auth (Unit {0})
remove_user id now = do
  user ← find_by_id id
  modify (λ db. record db {
    users = save (record user { base = record user.base { deleted_at = some now } }) db.users;
  })

-- `findAll`: the newest first. The query leaves out the column of the password's hash, which stays
-- in the rows here.
unfoldable pub find_all : Scan User → PaginationQueryDto → List User → PaginatedResult User
find_all scan q users =
    list_page (λ u. is_kept u.base) (λ a b. newest_first a.base b.base) scan users q
