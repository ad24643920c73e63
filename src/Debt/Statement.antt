-- ===== src/Debt/Statement.antt =====
-- The pages of a customer's ledger and the balance (src/modules/debt/debt.service.ts, `getLedger` and
-- `getBalance`).
use gameclub_backend.Prelude.{
  ℕ, ◌≤◌, ◌≡◌, refl, ap, ◌∙◌, Bool, true, false, ◌&&◌, ◌==◌, List, [], ◌∷◌, arith, if◌then◌else◌,
  Bool-cases, inl, inr, Uuid,
}
use gameclub_backend.Prelude.Int.{ℤ, pos, ◌+ℤ◌, int_laws}
use gameclub_backend.Common.Listing.{Scan, is_kept, newest_first, select, place, order_by}
use gameclub_backend.Common.Listing.Pages.{
  all_pages, all_pages-order_by, Sorted, order_by-Sorted, Reorders, Apart,
}
use gameclub_backend.Entities.Club.{DebtTransaction}
use gameclub_backend.Store.{Db}
use gameclub_backend.Debt.{effect_on, ledger_sum}
use gameclub_backend.Debt.Service.{get_ledger}

unfoldable pub total : List DebtTransaction → ℤ
total [] = pos 0
total (t ∷ rows) = t.signed_amount +ℤ total rows

abbrev pub newer : DebtTransaction → DebtTransaction → Bool
newer a b = newest_first a.base b.base

abbrev pub entry_of : Uuid → DebtTransaction → Bool
entry_of customer t = is_kept t.base && t.customer_id == customer

effect_on-entry_of :
    (customer : Uuid) (t : DebtTransaction)
    → effect_on customer t ≡ (if entry_of customer t then t.signed_amount else pos 0)
effect_on-entry_of customer t = ground arith

total-select :
    (customer : Uuid) (rows : List DebtTransaction)
    → total (select (entry_of customer) rows) ≡ ledger_sum customer rows
unfolding total select ledger_sum
total-select customer [] = refl
total-select customer (t ∷ rows) = elim (Bool-cases (entry_of customer t)) [
  | inl e ↦ rw e (rw (total-select customer rows) (rw (effect_on-entry_of customer t) (rw e refl)))
  | inr e ↦
      rw e (
        rw (total-select customer rows)
          (rw (effect_on-entry_of customer t) (rw e (omega int_laws))))
]

total-place :
    (before : DebtTransaction → DebtTransaction → Bool) (t : DebtTransaction)
    (rows : List DebtTransaction)
    → total (place before t rows) ≡ t.signed_amount +ℤ total rows
unfolding total place
total-place before t [] = refl
total-place before t (r ∷ rows) = elim (Bool-cases (before t r)) [
  | inl e ↦ rw e refl
  | inr e ↦ rw e (rw (total-place before t rows) (omega int_laws))
]

total-order_by :
    (before : DebtTransaction → DebtTransaction → Bool) (rows : List DebtTransaction)
    → total (order_by before rows) ≡ total rows
unfolding total order_by
total-order_by before [] = refl
total-order_by before (t ∷ rows) =
    total-place before t (order_by before rows)
    ∙ ap (λ n. t.signed_amount +ℤ n) (total-order_by before rows)

newer_total : (a b : DebtTransaction) → newer a b ≡ false → newer b a ≡ true
newer_total a b e = ground arith

newer_trans : (a b c : DebtTransaction) → newer a b ≡ true → newer b c ≡ true → newer a c ≡ true
newer_trans a b c e f = ground arith

get_ledger-all_pages :
    (customer : Uuid) (limit : ℕ) (db : Db) (scan : ℕ → Scan DebtTransaction)
    → 1 ≤ limit
    → ((page : ℕ)
        → Reorders
            (select (entry_of customer) db.ledger)
            (scan page (select (entry_of customer) db.ledger)))
    → Apart newer (select (entry_of customer) db.ledger)
    → all_pages (λ q. get_ledger customer (scan q.page) q db) limit
      ≡ order_by newer (select (entry_of customer) db.ledger)
unfolding get_ledger
get_ledger-all_pages customer limit db scan h finds apart =
    all_pages-order_by newer newer_total newer_trans (entry_of customer) db.ledger scan finds apart
      limit h

-- Each page of a customer's ledger is a query of its own, which finds the entries in an order of its
-- own. If no two entries of the customer were created at the same time and the limit is at least 1,
-- then the amounts on all pages, up to the number of pages that the metadata of the first announces,
-- add up to the sum that is the customer's balance, and the entries are listed from the newest to the
-- oldest, as long as nothing is written meanwhile.
pub get_ledger-ledger_sum :
    (customer : Uuid) (limit : ℕ) (db : Db) (scan : ℕ → Scan DebtTransaction)
    → 1 ≤ limit
    → ((page : ℕ)
        → Reorders
            (select (entry_of customer) db.ledger)
            (scan page (select (entry_of customer) db.ledger)))
    → Apart newer (select (entry_of customer) db.ledger)
    → (total (all_pages (λ q. get_ledger customer (scan q.page) q db) limit)
        ≡ ledger_sum customer db.ledger)
      × Sorted newer (all_pages (λ q. get_ledger customer (scan q.page) q db) limit)
get_ledger-ledger_sum customer limit db scan h finds apart =
    rw (get_ledger-all_pages customer limit db scan h finds apart) (
      total-order_by newer (select (entry_of customer) db.ledger) ∙ total-select customer db.ledger,
      order_by-Sorted newer newer_total newer_trans (select (entry_of customer) db.ledger),
    )
