-- ===== src/Sessions/Exit.antt =====
-- The ways out of `end` (src/modules/sessions/sessions.service.ts).
use gameclub_backend.Prelude.{◌≡◌, ◌⊎◌, Option, none, some, true, [], ◌∷◌, Uuid, Date, find_one}
use gameclub_backend.Prelude.Int.{ℤ, ◌+ℤ◌, ◌-ℤ◌, ◌≤ℤ◌, ◌<ℤ◌}
use gameclub_backend.Common.Errors.{ok, throw, Exception, business_rule, lit, num}
use gameclub_backend.Money.{JsNumber, integer, is_safe}
use gameclub_backend.Entities.Club.{
  BaseEntity, Session, session_entity, SessionStatus, DebtTransaction, debt_transaction_entity,
  customer_entity,
}
use gameclub_backend.Store.{Db}
use gameclub_backend.Debt.{ledger_sum}
use gameclub_backend.Sessions.{EndSessionDto}
use gameclub_backend.Sessions.Settlement.{Settlement}
use gameclub_backend.Sessions.End.{end_in}
use gameclub_backend.Sessions.Ending.{share_of}

-- The amount that a request collects: what it gives, or else all that is due.
abbrev pub Collects : Option JsNumber → ℤ → ℤ → Type 0
Collects none due v = v ≡ due
Collects (some n) due v = (n ≡ integer v) × (is_safe v ≡ true)

-- The session is stored as ended, charged `due` and paid `v`; the rest is added to the account of
-- its customer and to no other.
abbrev pub Stores : Uuid → EndSessionDto → Uuid → Date → BaseEntity → Db → Session → ℤ → ℤ → Type 0
Stores id dto actor at row db s due v =
    (saved : Session) × (debt : Option DebtTransaction) × (db' : Db) × (end_in id dto actor at row
        db
      ≡ ok ((saved, debt), db'))
    × (find_one id db'.sessions ≡ some saved)
    × (saved.status ≡ SessionStatus.ended)
    × (saved.computer_id ≡ s.computer_id)
    × (saved.customer_id ≡ s.customer_id)
    × (saved.amount_due ≡ due)
    × (saved.amount_paid ≡ v)
    × ((c : Uuid)
        → ledger_sum c db'.ledger ≡ ledger_sum c db.ledger +ℤ share_of c s.customer_id (due -ℤ v))

abbrev overpayment : ℤ → ℤ → Exception
overpayment due v =
    business_rule "OVERPAYMENT" (lit "Amount paid exceeds the amount due; give change instead" ∷ [])
      (some (("due", num due) ∷ ("paid", num v) ∷ []))

abbrev requires_customer : ℤ → ℤ → Exception
requires_customer due v =
    business_rule "DEBT_REQUIRES_CUSTOMER"
      (lit "Cannot leave an unpaid balance without an attached customer" ∷ [])
      (some (("due", num due) ∷ ("paid", num v) ∷ []))

-- Just one of three: too much is paid, too little by a guest without an account, or the session ends.
abbrev pub Ways : Uuid → EndSessionDto → Uuid → Date → BaseEntity → Db → Session → ℤ → ℤ → Type 0
Ways id dto actor at row db s due v =
    ((due <ℤ v) × (end_in id dto actor at row db ≡ throw (overpayment due v)))
    ⊎ ((v <ℤ due)
        × (s.customer_id ≡ none)
        × (end_in id dto actor at row db ≡ throw (requires_customer due v)))
    ⊎ ((v ≤ℤ due)
        × ((v ≡ due) ⊎ ((k : Uuid) × (s.customer_id ≡ some k)))
        × Stores id dto actor at row db s due v)
