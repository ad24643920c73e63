-- ===== src/Auth/Accounts.antt =====
-- The calls of src/modules/users/users.service.ts and src/modules/audit/audit.service.ts that the
-- sign-in makes.
use gameclub_backend.Prelude.{
  ℕ, Option, none, some, String, List, [], ◌∷◌, if◌then◌else◌, Uuid, Date, find_one, save,
  same_text,
}
use gameclub_backend.Common.Errors.{resource_not_found}
use gameclub_backend.Common.Stateful.{gets, modify, or_raise, ◌>>=◌}
use gameclub_backend.Entities.Staff.{User, user_entity}
use gameclub_backend.Audit.{AuditEntryInput, record_entry}
use gameclub_backend.Auth.{Crypto, StaffDb, RequestContext, Claims}
use gameclub_backend.Auth.Tokens.{Auth}

-- The first row that is not deleted and has this email; the index on it allows one.
unfoldable pub find_by_email : String → List User → Option User
find_by_email email [] = none
find_by_email email (u ∷ rows) = elim u.base.deleted_at [
  | some _ ↦ find_by_email email rows
  | none ↦ if same_text u.email email then some u else find_by_email email rows
]

unfoldable pub find_by_email_with_secret : Crypto → String → StaffDb → Option User
find_by_email_with_secret c email db = find_by_email (c.trim_lower email) db.users

-- `findById` and `findByIdWithSecret`.
unfoldable pub find_by_id : Uuid → Auth User
find_by_id id = do
  found ← gets (λ db. find_one id db.users)
  or_raise found (resource_not_found "User" (some id))

unfoldable pub save_user : User → Auth (Unit {0})
save_user u = modify (λ db. record db { users = save u db.users })

unfoldable pub set_password : Crypto → Uuid → String → ℕ → Auth (Unit {0})
unfolding find_by_id save_user
set_password c id new_password salt = do
  user ← find_by_id id
  save_user (record user { password_hash = c.hash salt new_password })

-- The entry that the sign-in records of a user.
abbrev pub user_entry : User → String → RequestContext → AuditEntryInput
user_entry user action ctx = record {
  actor_id = some user.base.id;
  actor_email = some user.email;
  action = action;
  entity = "User";
  entity_id = some user.base.id;
  old_value = none;
  new_value = none;
  ip_address = ctx.ip_address;
  user_agent = ctx.user_agent;
  request_id = ctx.request_id;
}

unfoldable pub audit : AuditEntryInput → Uuid → Date → Auth (Unit {0})
unfolding record_entry
audit entry log_id at = modify (λ db. record db { logs = record_entry entry log_id at db.logs })

abbrev pub to_claims : User → Claims
to_claims user = record { sub = user.base.id; email = user.email; role = user.role }
