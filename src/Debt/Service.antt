-- ===== src/Debt/Service.antt =====
-- The actions of `DebtService` (src/modules/debt/debt.service.ts): a write to the ledger, and the
-- event that reports the balance after it. `at` is the clock when the event is built.
use gameclub_backend.Prelude.{◌==◌, ◌&&◌, none, [], ◌∷◌, not, if◌then◌else◌, String, Uuid, Date}
use gameclub_backend.Common.Pagination.{PaginationQueryDto, PaginatedResult}
use gameclub_backend.Common.Listing.{Scan, is_kept, newest_first, list_page}
use gameclub_backend.Common.Errors.{Result, ok, throw, business_rule, lit}
use gameclub_backend.Money.{Money, JsNumber, from_minor, is_positive}
use gameclub_backend.Entities.Club.{BaseEntity, DebtTransaction}
use gameclub_backend.Events.{DomainEvent, debt_created, debt_updated, of_debt, build_event}
use gameclub_backend.Store.{Db}
use gameclub_backend.Store.Action.{Action, pure, ◌>>=◌, ◌>>◌, transaction, read, emit}
use gameclub_backend.Debt.{
  LedgerEntryInput, get_balance, add_debt_in, record_payment_in, correct_in,
}

unfoldable pub emit_after_change : Uuid → DomainEvent → DebtTransaction → Date → Action (Unit {0})
emit_after_change customer event entry at = do
  balance ← read (get_balance customer)
  emit (
      build_event event
        (of_debt (record {
          customer_id = customer;
          transaction_id = entry.base.id;
          type = entry.type;
          signed_amount = entry.signed_amount;
          balance = balance.minor;
        }))
        at)

-- `addDebt` with no manager of the caller.
unfoldable pub add_debt : LedgerEntryInput → BaseEntity → Date → Action DebtTransaction
add_debt input base at = do
  entry ← transaction (add_debt_in input base)
  emit_after_change input.customer_id debt_created entry at
  pure entry

unfoldable pub check_payment : Money → Result Money
check_payment magnitude =
    if not (is_positive magnitude)
    then throw
        (business_rule "INVALID_PAYMENT_AMOUNT" (lit "Payment amount must be positive" ∷ []) none)
    else ok magnitude

unfoldable pub record_payment : LedgerEntryInput → BaseEntity → Date → Action DebtTransaction
record_payment input base at = do
  magnitude ← read (λ _. from_minor input.amount)
  read (λ _. check_payment magnitude)
  entry ← transaction (record_payment_in input base magnitude)
  emit_after_change input.customer_id debt_updated entry at
  pure entry

unfoldable pub announce_debt_change : Uuid → DebtTransaction → Date → Action (Unit {0})
announce_debt_change customer entry at = emit_after_change customer debt_created entry at

unfoldable pub correct :
    Uuid → JsNumber → Uuid → String → BaseEntity → Date → Action DebtTransaction
correct customer signed_amount actor reason base at = do
  entry ← transaction (correct_in customer signed_amount actor reason base)
  emit_after_change customer debt_updated entry at
  pure entry

-- `getLedger`: the newest first.
unfoldable pub get_ledger :
    Uuid → Scan DebtTransaction → PaginationQueryDto → Db → PaginatedResult DebtTransaction
get_ledger customer scan q db =
    list_page (λ t. is_kept t.base && t.customer_id == customer) (λ a b. newest_first a.base b.base)
      scan db.ledger q
