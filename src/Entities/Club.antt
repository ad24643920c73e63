-- ===== src/Entities/Club.antt =====
-- Rooms, computers, customers, sessions and the debt ledger.
use gameclub_backend.Prelude.{String, Bool, true, false, Option, List, Uuid, Date, IsEntity}
use gameclub_backend.Prelude.Int.{ℤ}
use gameclub_backend.Common.Errors.{Part}
use gameclub_backend.Entities.Json.{Json}

-- `BaseEntity`.
pub record BaseEntity : Type 0 where
  pub id : Uuid
  pub created_at : Date
  pub deleted_at : Option Date

pub record Room : Type 0 where
  pub base : BaseEntity
  pub name : String
  pub description : Option String
  pub price_per_hour : ℤ
  pub is_active : Bool

pub data ComputerStatus : Type 0 where
  available in_use maintenance offline : ComputerStatus

pub record Computer : Type 0 where
  pub base : BaseEntity
  pub label : String
  pub room_id : Uuid
  pub status : ComputerStatus
  pub specs : Option Json
  pub is_active : Bool

pub record Customer : Type 0 where
  pub base : BaseEntity
  pub full_name : String
  pub phone : Option String
  pub note : Option String
  pub is_blocked : Bool

pub data SessionType : Type 0 where
  fixed_duration fixed_end_time open_session : SessionType

pub data SessionStatus : Type 0 where
  active ended cancelled : SessionStatus

pub record Session : Type 0 where
  pub base : BaseEntity
  pub group_id : Option Uuid
  pub computer_id : Uuid
  pub room_id : Uuid
  pub customer_id : Option Uuid
  pub type : SessionType
  pub status : SessionStatus
  pub rate_per_hour : ℤ
  pub started_at : Date
  pub planned_end_at : Option Date
  pub ended_at : Option Date
  pub amount_due : ℤ
  pub amount_paid : ℤ
  pub started_by : Option Uuid
  pub ended_by : Option Uuid
  pub notes : Option String

pub data DebtTransactionType : Type 0 where
  debt_add debt_payment debt_correction : DebtTransactionType

pub record DebtTransaction : Type 0 where
  pub base : BaseEntity
  pub customer_id : Uuid
  pub type : DebtTransactionType
  pub signed_amount : ℤ
  pub session_id : Option Uuid
  pub actor_id : Option Uuid
  pub reason : Option (List Part)

instance abbrev pub room_entity : IsEntity Room
room_entity = record { key = λ r. r.base.id; deleted_at = λ r. r.base.deleted_at }

instance abbrev pub computer_entity : IsEntity Computer
computer_entity = record { key = λ c. c.base.id; deleted_at = λ c. c.base.deleted_at }

instance abbrev pub customer_entity : IsEntity Customer
customer_entity = record { key = λ c. c.base.id; deleted_at = λ c. c.base.deleted_at }

instance abbrev pub session_entity : IsEntity Session
session_entity = record { key = λ s. s.base.id; deleted_at = λ s. s.base.deleted_at }

instance abbrev pub debt_transaction_entity : IsEntity DebtTransaction
debt_transaction_entity = record { key = λ t. t.base.id; deleted_at = λ t. t.base.deleted_at }

-- `status === …` on the enums.
abbrev pub is_active_status : SessionStatus → Bool
is_active_status SessionStatus.active = true
is_active_status _ = false

abbrev pub is_available : ComputerStatus → Bool
is_available ComputerStatus.available = true
is_available _ = false

abbrev pub is_in_use : ComputerStatus → Bool
is_in_use ComputerStatus.in_use = true
is_in_use _ = false

-- The texts of the enums, as they go into a message.
abbrev pub computer_status_text : ComputerStatus → String
computer_status_text available = "AVAILABLE"
computer_status_text in_use = "IN_USE"
computer_status_text maintenance = "MAINTENANCE"
computer_status_text offline = "OFFLINE"

abbrev pub session_status_text : SessionStatus → String
session_status_text active = "ACTIVE"
session_status_text ended = "ENDED"
session_status_text cancelled = "CANCELLED"
