-- ===== src/Entities/Staff.antt =====
-- Staff accounts, refresh tokens and the audit log.
use gameclub_backend.Prelude.{ℕ, String, Bool, Option, Uuid, Date, IsEntity, none}
use gameclub_backend.Entities.Json.{Json}
use gameclub_backend.Entities.Club.{BaseEntity}

-- `Role` of src/common/enums/role.enum.ts.
pub data Role : Type 0 where
  owner manager cashier : Role

pub record User : Type 0 where
  pub base : BaseEntity
  pub email : String
  pub full_name : String
  pub password_hash : String
  pub role : Role
  pub is_active : Bool
  pub last_login_at : Option Date
  pub failed_login_attempts : ℕ
  pub locked_until : Option Date

pub record RefreshToken : Type 0 where
  pub id : Uuid
  pub user_id : Uuid
  pub family_id : Uuid
  pub token_hash : String
  pub revoked : Bool
  pub replaced_by : Option Uuid
  pub expires_at : Date
  pub user_agent : Option String
  pub ip_address : Option String
  pub created_at : Date

pub record AuditLog : Type 0 where
  pub id : Uuid
  pub actor_id : Option Uuid
  pub actor_email : Option String
  pub action : String
  pub entity : String
  pub entity_id : Option Uuid
  pub old_value : Option Json
  pub new_value : Option Json
  pub ip_address : Option String
  pub user_agent : Option String
  pub request_id : Option String
  pub created_at : Date

instance abbrev pub user_entity : IsEntity User
user_entity = record { key = λ u. u.base.id; deleted_at = λ u. u.base.deleted_at }

-- Refresh tokens have no soft delete.
instance abbrev pub refresh_token_entity : IsEntity RefreshToken
refresh_token_entity = record { key = λ t. t.id; deleted_at = λ _. none }
