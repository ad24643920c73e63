-- ===== src/Auth/Passwords.antt =====
-- A change of password (src/modules/auth/auth.service.ts).
use gameclub_backend.Prelude.{
  ℕ, ◌+◌, ◌==◌, length-append, Option-cases, inl, inr, ◌≡◌, none, some, true, List, [], ◌∷◌, arith,
  Uuid, Date, find_one, find_one-save, find_one-key, find_one-live, length, save,
}
use gameclub_backend.Common.Errors.{ok}
use gameclub_backend.Entities.Staff.{User, user_entity, RefreshToken}
use gameclub_backend.Audit.{record_entry, audit_row}
use gameclub_backend.Auth.{Crypto, IsSound, StaffDb, RequestContext}
use gameclub_backend.Auth.Tokens.{revoke_where, revoke_all_for_user}
use gameclub_backend.Auth.Accounts.{find_by_id, save_user, set_password, user_entry, audit}
use gameclub_backend.Auth.Login.{ChangePasswordDto, change_password}

-- The user has no token that can be used.
abbrev pub AllRevoked : Uuid → List RefreshToken → Type 0
AllRevoked user [] = Unit
AllRevoked user (r ∷ rows) = (r.user_id ≡ user → r.revoked ≡ true) × AllRevoked user rows

revoke_where-AllRevoked :
    (user : Uuid) (rows : List RefreshToken)
    → AllRevoked user (revoke_where (λ r. r.user_id == user) rows)
revoke_where-AllRevoked user [] = tt
revoke_where-AllRevoked user (r ∷ rows) = (λ e. ground arith, revoke_where-AllRevoked user rows)

abbrev changed_user : Crypto → User → ChangePasswordDto → ℕ → User
changed_user c old dto salt = record old { password_hash = c.hash salt dto.new_password }

change_password_lem :
    (c : Crypto) (id : Uuid) (dto : ChangePasswordDto) (ctx : RequestContext) (salt : ℕ)
    (log_id : Uuid) (now : Date) (db db' : StaffDb) (old : User)
    → find_one id db.users ≡ some old
    → change_password c id dto ctx salt log_id now db ≡ (ok tt, db')
    → (c.verify old.password_hash dto.current_password ≡ true)
      × (db'.users ≡ save (changed_user c old dto salt) db.users)
      × (db'.tokens ≡ revoke_where (λ r. r.user_id == id) db.tokens)
      × (length db'.logs ≡ length db.logs + 1)
unfolding change_password set_password find_by_id save_user revoke_all_for_user audit record_entry
change_password_lem c id dto ctx salt log_id now db db' old found h =
    let entry = record (user_entry old "PASSWORD_CHANGED" ctx) {
      actor_id = some id;
      entity_id = some id;
    } in
    let entries = length-append db.logs (audit_row entry log_id now ∷ []) in
    (ground arith, ground (arith, found), ground (arith, found), ground (arith, found, entries))

change_password-absent :
    (c : Crypto) (id : Uuid) (dto : ChangePasswordDto) (ctx : RequestContext) (salt : ℕ)
    (log_id : Uuid) (now : Date) (db db' : StaffDb)
    → find_one id db.users ≡ none
    → ¬ (change_password c id dto ctx salt log_id now db ≡ (ok tt, db'))
unfolding change_password
change_password-absent c id dto ctx salt log_id now db db' absent h = ground (arith, absent)

-- A password is changed only with the current one. Then the account verifies the new one, none of
-- its refresh tokens can be used, and the log has one entry more.
pub change_password-revokes :
    (c : Crypto) (id : Uuid) (dto : ChangePasswordDto) (ctx : RequestContext) (salt : ℕ)
    (log_id : Uuid) (now : Date) (db db' : StaffDb)
    → IsSound c
    → change_password c id dto ctx salt log_id now db ≡ (ok tt, db')
    → ((old : User) × (find_one id db.users ≡ some old)
        × (c.verify old.password_hash dto.current_password ≡ true))
      × ((new : User) × (find_one id db'.users ≡ some new)
          × (c.verify new.password_hash dto.new_password ≡ true))
      × AllRevoked id db'.tokens
      × (length db'.logs ≡ length db.logs + 1)
change_password-revokes c id dto ctx salt log_id now db db' sound h =
    elim (Option-cases (find_one id db.users)) [
      | inl absent ↦ absurd (change_password-absent c id dto ctx salt log_id now db db' absent h)
      | inr (old, found) ↦
          let (knew, users, tokens, logs) =
            change_password_lem c id dto ctx salt log_id now db db' old found h in
          let key = find_one-key id old db.users found in
          let alive = find_one-live id old db.users found in
          (
            (old, found, knew),
            (
              changed_user c old dto salt,
              ground (
                arith,
                users,
                key,
                alive,
                find_one-save id (changed_user c old dto salt) db.users,
              ),
              sound salt dto.new_password,
            ),
            rw tokens (revoke_where-AllRevoked id db.tokens),
            logs,
          )
    ]
