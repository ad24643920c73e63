-- ===== src/Users/Accounts.antt =====
-- The life of a staff account: src/modules/users/users.service.ts creates and removes it, and
-- src/modules/auth/auth.service.ts signs it in.
use gameclub_backend.Prelude.{
  ℕ, ◌≡◌, refl, none, some, false, String, List, [], ◌∷◌, arith, same_text_self, Uuid, Date,
  find_one, save, find_one-save,
}
use gameclub_backend.Common.Errors.{ok, throw}
use gameclub_backend.Entities.Club.{BaseEntity}
use gameclub_backend.Entities.Staff.{User, user_entity}
use gameclub_backend.Store.Transaction.{has_key}
use gameclub_backend.Auth.{Crypto, IsSound, StaffDb, RequestContext}
use gameclub_backend.Auth.Accounts.{find_by_email, find_by_email_with_secret, find_by_id}
use gameclub_backend.Auth.Lockout.{IsAccount}
use gameclub_backend.Auth.Login.{LoginDto, LoginGiven, is_locked, login, generic_error}
use gameclub_backend.Auth.SignIn.{signed_in, login-accepts}
use gameclub_backend.Users.{
  CreateUserDto, email_exists, put_user, created_user, create_user, remove_user,
}

find_by_email-save_new :
    (u : User) (rows : List User)
    → u.base.deleted_at ≡ none
    → has_key u.base.id rows ≡ false
    → email_exists u.email rows ≡ false
    → find_by_email u.email (save u rows) ≡ some u
unfolding find_by_email save has_key email_exists
find_by_email-save_new u [] live new free = ground (arith, same_text_self u.email)
find_by_email-save_new u (r ∷ rows) live new free =
    ground (arith, find_by_email-save_new u rows live)

-- What a creation has found, and leaves.
record Made (c : Crypto) (dto : CreateUserDto) (base : BaseEntity) (salt : ℕ) (db : StaffDb)
    (u : User) (db' : StaffDb) : Type 0 where
  is : u ≡ created_user c dto base salt
  free : email_exists (c.trim_lower dto.email) db.users ≡ false
  written : db' ≡ record db { users = save (created_user c dto base salt) db.users }

create_user-Made :
    (c : Crypto) (dto : CreateUserDto) (base : BaseEntity) (salt : ℕ) (db : StaffDb) (u : User)
    (db' : StaffDb)
    → create_user c dto base salt db ≡ (ok u, db')
    → Made c dto base salt db u db'
unfolding create_user put_user
create_user-Made c dto base salt db u db' h = record {
  is = ground arith;
  free = ground arith;
  written = ground arith;
}

find_by_email-save_deleted :
    (e : String) (a u : User) (rows : List User) (at : Date)
    → a.base.id ≡ u.base.id
    → a.base.deleted_at ≡ some at
    → has_key u.base.id rows ≡ false
    → email_exists e rows ≡ false
    → find_by_email e (save a (save u rows)) ≡ none
unfolding find_by_email save has_key email_exists
find_by_email-save_deleted e a u [] at same deleted new free = ground arith
find_by_email-save_deleted e a u (r ∷ rows) at same deleted new free =
    ground (arith, find_by_email-save_deleted e a u rows at same deleted)

login-unknown :
    (c : Crypto) (dto : LoginDto) (ctx : RequestContext) (g : LoginGiven) (db : StaffDb)
    → find_by_email (c.trim_lower dto.email) db.users ≡ none
    → login c dto ctx g db ≡ (throw generic_error, db)
unfolding login find_by_email_with_secret
login-unknown c dto ctx g db h = ground arith

remove_user-writes :
    (id : Uuid) (now : Date) (u : User) (db : StaffDb)
    → find_one id db.users ≡ some u
    → remove_user id now db ≡ (
      ok tt,
      record db {
        users = save (record u { base = record u.base { deleted_at = some now } }) db.users;
      },
    )
unfolding remove_user find_by_id
remove_user-writes id now u db h = ground arith

-- A new account can sign in at once, with the email and password that it was created with. Once it
-- has been removed a sign-in with its email, whatever the password, is refused with `Invalid
-- credentials` and changes nothing.
pub create_user-login :
    (c : Crypto) (dto : CreateUserDto) (base : BaseEntity) (salt : ℕ) (db : StaffDb) (u : User)
    (db' : StaffDb) (ctx : RequestContext) (g : LoginGiven) (now : Date)
    → IsSound c
    → base.deleted_at ≡ none
    → has_key base.id db.users ≡ false
    → create_user c dto base salt db ≡ (ok u, db')
    → ((last : StaffDb) × (login c (record { email = dto.email; password = dto.password }) ctx g db'
          ≡ (ok (signed_in c u g), last)))
      × ((gone : StaffDb) × (remove_user base.id now db' ≡ (ok tt, gone))
          × ((password : String)
              → login c (record { email = dto.email; password = password }) ctx g gone
                ≡ (throw generic_error, gone)))
unfolding is_locked
create_user-login c dto base salt db u db' ctx g now sound live new h =
    let made = create_user-Made c dto base salt db u db' h in
    let v = created_user c dto base salt in
    let there = record db { users = save v db.users } in
    let removed = record v { base = record base { deleted_at = some now } } in
    let gone = record db { users = save removed (save v db.users) } in
    let key : find_one base.id there.users ≡ some v =
      ground (arith, find_one-save base.id v db.users) in
    let account : IsAccount (c.trim_lower dto.email) v there = record {
      by_email = find_by_email-save_new v db.users live new made.free;
      by_key = key;
    } in
    let (last, accepted, left) =
      login-accepts c (record { email = dto.email; password = dto.password }) ctx g v there account
        refl refl (sound salt dto.password) in
    (
      (last, rw (made.is, made.written) accepted),
      (
        gone,
        rw made.written (remove_user-writes base.id now v there key),
        λ password.
            login-unknown c (record { email = dto.email; password = password }) ctx g gone
              (find_by_email-save_deleted (c.trim_lower dto.email) removed v db.users now refl refl
                new made.free),
      ),
    )
