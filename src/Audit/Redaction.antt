-- ===== src/Audit/Redaction.antt =====
-- What the redaction of src/modules/audit/audit.service.ts leaves of a value.
use gameclub_backend.Prelude.{◌≡◌, refl, Option, none, some, true, arith}
use gameclub_backend.Entities.Json.{Json, Items, Fields}
use gameclub_backend.Audit.{is_sensitive, redact, redact_items, redact_fields, stored_value}

-- No sensitive field of an object, in an array or not, keeps a value of its own.
abbrev pub Hides : Fields → Type 0
Hides Fields.end = Unit
Hides (Fields.field k v rest) = (is_sensitive k ≡ true → v ≡ Json.str "[REDACTED]") × Hides rest

mutual
  pub Redacted : Json → Type 0
  Redacted (Json.arr items) = AllRedacted items
  Redacted (Json.obj fields) = Hides fields
  Redacted _ = Unit

  pub AllRedacted : Items → Type 0
  AllRedacted Items.nil = Unit
  AllRedacted (Items.cons v rest) = Redacted v × AllRedacted rest

redact_fields-Hides : (fields : Fields) → Hides (redact_fields fields)
unfolding redact_fields
redact_fields-Hides Fields.end = tt
redact_fields-Hides (Fields.field k v rest) = (λ e. rw e refl, redact_fields-Hides rest)

redact_fields-redact_fields :
    (fields : Fields) → redact_fields (redact_fields fields) ≡ redact_fields fields
unfolding redact_fields
redact_fields-redact_fields Fields.end = refl
redact_fields-redact_fields (Fields.field k v rest) =
    ground (arith, redact_fields-redact_fields rest)

mutual
  unfolding redact redact_items Redacted AllRedacted

  redact_in : (v : Json) → Redacted (redact v)
  redact_in (Json.arr items) = redact_items-AllRedacted items
  redact_in (Json.obj fields) = redact_fields-Hides fields
  redact_in Json.null = tt
  redact_in (Json.bool b) = tt
  redact_in (Json.num n) = tt
  redact_in (Json.str s) = tt
  redact_in (Json.uuid k) = tt

  redact_items-AllRedacted : (items : Items) → AllRedacted (redact_items items)
  redact_items-AllRedacted Items.nil = tt
  redact_items-AllRedacted (Items.cons v rest) = (redact_in v, redact_items-AllRedacted rest)

-- Whatever is redacted, no object in it that is reached through arrays alone shows a sensitive
-- field.
pub redact-Redacted : (v : Json) → Redacted (redact v)
redact-Redacted v = redact_in v

-- No stored value shows a sensitive field.
abbrev pub Hidden : Option Json → Type 0
Hidden none = Unit {0}
Hidden (some v) = Redacted v

pub stored_value-Hidden : (v : Option Json) → Hidden (stored_value v)
unfolding redact Redacted
stored_value-Hidden none = tt
stored_value-Hidden (some Json.null) = tt
stored_value-Hidden (some (Json.bool b)) = tt
stored_value-Hidden (some (Json.num n)) = tt
stored_value-Hidden (some (Json.str s)) = tt
stored_value-Hidden (some (Json.uuid k)) = tt
stored_value-Hidden (some (Json.arr items)) = redact-Redacted (Json.arr items)
stored_value-Hidden (some (Json.obj fields)) = redact-Redacted (Json.obj fields)
