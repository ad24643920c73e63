-- ===== src/Sessions/Settlement.antt =====
-- The money of `end` in src/modules/sessions/sessions.service.ts, before anything is written.
use gameclub_backend.Prelude.{
  Option, none, some, Bool, true, false, ◌&&◌, List, [], ◌∷◌, String, Date,
}
use gameclub_backend.Common.Errors.{Result, ok, throw, Exception, Part, business_rule, lit, num}
use gameclub_backend.Money.{Money, JsNumber, from_minor, subtract, is_positive, greater_than}
use gameclub_backend.Entities.Club.{
  room_entity, computer_entity, customer_entity, Session, session_entity,
}
use gameclub_backend.Pricing.{finalize}
use gameclub_backend.Common.Errors.{◌>>=◌, ◌>>◌}

-- `dto.amountPaid != null ? Money.fromMinor(dto.amountPaid) : due`.
unfoldable pub collected : Option JsNumber → Money → Result Money
collected none due = ok due
collected (some amount) due = from_minor amount

-- The amount due and the amount paid at the end of a session, with the shortfall.
pub record Settlement : Type 0 where
  pub due : Money
  pub paid : Money
  pub shortfall : Money

abbrev bill : Money → Money → Option (List (String × Part))
bill due paid = some (("due", num due.minor) ∷ ("paid", num paid.minor) ∷ [])

abbrev is_anonymous : Session → Bool
is_anonymous s = elim s.customer_id [ none ↦ true | some _ ↦ false ]

abbrev fail_if : Bool → Exception → Result (Unit {0})
fail_if true e = throw e
fail_if false e = ok tt

-- The part of `end` between the lock and the first write.
unfoldable pub settlement : Session → Option JsNumber → Date → Result Settlement
settlement session amount_paid ended_at = do
  due ← finalize session ended_at
  paid ← collected amount_paid due
  fail_if (greater_than paid due) (
      business_rule "OVERPAYMENT"
        (lit "Amount paid exceeds the amount due; give change instead" ∷ []) (bill due paid))
  shortfall ← subtract due paid
  fail_if (is_positive shortfall && is_anonymous session) (
      business_rule "DEBT_REQUIRES_CUSTOMER"
        (lit "Cannot leave an unpaid balance without an attached customer" ∷ []) (bill due paid))
  ok (record { due = due; paid = paid; shortfall = shortfall })
