-- ===== src/Customers.antt =====
-- src/modules/customers/customers.service.ts. The unique index `uq_customers_phone` counts the
-- deleted rows also. The pattern that `findAll` hands to the database's ILIKE stands in
-- Customers.Search.
pub mod Search
use gameclub_backend.Prelude.{
  ℕ, codes, Option, none, some, Bool, true, false, not, ◌&&◌, ◌||◌, String, List, [], ◌∷◌, ◌==◌,
  if◌then◌else◌, same_text, Uuid, Date, find_one, save,
}
use gameclub_backend.Prelude.Int.{ℤ}
use gameclub_backend.Common.Errors.{
  Result, ok, throw, resource_not_found, conflict_exception, lit, Exception,
}
use gameclub_backend.Common.Stateful.{
  Does, pure, gets, lift, modify, or_raise, raise_if, ◌>>=◌, ◌>>◌,
}
use gameclub_backend.Common.Pagination.{PaginationQueryDto, PaginatedResult}
use gameclub_backend.Common.Listing.{Scan, is_kept, list_page}
use gameclub_backend.Customers.Search.{contains_pattern}
use gameclub_backend.Entities.Club.{BaseEntity, Customer, customer_entity}
use gameclub_backend.Money.{Money}
use gameclub_backend.Debt.{get_balance}
use gameclub_backend.Store.{Db}
use gameclub_backend.Store.Transaction.{unique_violation}
use gameclub_backend.Rooms.{or_kept, kept_or}

pub record CreateCustomerDto : Type 0 where
  pub full_name : String
  pub phone : Option String
  pub note : Option String

pub record UpdateCustomerDto : Type 0 where
  pub full_name : Option String
  pub phone : Option String
  pub note : Option String
  pub is_blocked : Option Bool

abbrev pub has_phone : Option String → Option String → Bool
has_phone (some a) (some b) = same_text a b
has_phone _ _ = false

-- `exists({ where: { phone } })`.
unfoldable pub phone_exists : Option String → List Customer → Bool
phone_exists p [] = false
phone_exists p (c ∷ rows) = (is_kept c.base && has_phone c.phone p) || phone_exists p rows

unfoldable pub phone_conflict : Customer → List Customer → Bool
phone_conflict a [] = false
phone_conflict a (c ∷ rows) =
    (has_phone c.phone a.phone && not (c.base.id == a.base.id)) || phone_conflict a rows

unfoldable pub save_customer : Customer → Does Db Customer
save_customer c = do
  raise_if (← gets (λ db. phone_conflict c db.customers)) unique_violation
  modify (λ db. record db { customers = save c db.customers })
  pure c

abbrev pub phone_taken : Exception
phone_taken =
    conflict_exception "PHONE_TAKEN" (lit "A customer with this phone already exists" ∷ []) none

abbrev pub created_customer : CreateCustomerDto → BaseEntity → Customer
created_customer dto base = record {
  base = base;
  full_name = dto.full_name;
  phone = dto.phone;
  note = dto.note;
  is_blocked = false;
}

unfoldable pub create : CreateCustomerDto → BaseEntity → Does Db Customer
unfolding save_customer
create dto base = do
  raise_if (← gets (λ db. phone_exists dto.phone db.customers)) phone_taken
  save_customer (created_customer dto base)

unfoldable pub find_by_id : Uuid → Does Db Customer
find_by_id id = do
  found ← gets (λ db. find_one id db.customers)
  or_raise found (resource_not_found "Customer" (some id))

-- `getProfile`: the customer and the balance of the ledger.
unfoldable pub get_profile : Uuid → Does Db (Customer × ℤ)
unfolding find_by_id
get_profile id = do
  customer ← find_by_id id
  balance ← lift (get_balance id)
  pure (customer, balance.minor)

abbrev pub assigned : Customer → UpdateCustomerDto → Customer
assigned c dto = record c {
  full_name = or_kept dto.full_name c.full_name;
  phone = kept_or dto.phone c.phone;
  note = kept_or dto.note c.note;
  is_blocked = or_kept dto.is_blocked c.is_blocked;
}

unfoldable pub update : Uuid → UpdateCustomerDto → Does Db Customer
unfolding find_by_id save_customer
update id dto = do
  customer ← find_by_id id
  raise_if
      (not (has_phone customer.phone dto.phone)
        && (← gets (λ db. phone_exists dto.phone db.customers)))
      phone_taken
  save_customer (assigned customer dto)

unfoldable pub remove : Uuid → Date → Does Db (Unit {0})
unfolding find_by_id
remove id now = do
  customer ← find_by_id id
  modify (λ db. record db {
    customers =
        save (record customer { base = record customer.base { deleted_at = some now } })
          db.customers;
  })

-- `search ? escapeLike(search) : undefined` and `where`: an empty search is none.
unfoldable pub matches : (List ℕ → String → Bool) → Option String → Customer → Bool
matches ilike none c = is_kept c.base
matches ilike (some search) c = elim (codes search) [
  | [] ↦ is_kept c.base
  | (d ∷ more) ↦
      let pattern = contains_pattern (d ∷ more) in
      is_kept c.base
      && (ilike pattern c.full_name || (elim c.phone [ none ↦ false | some p ↦ ilike pattern p ]))
]

-- `findAll`; whether a text is ILIKE a pattern and the order of texts are the database's.
unfoldable pub find_all :
    (List ℕ → String → Bool)
    → (String → String → Bool)
    → Scan Customer
    → PaginationQueryDto
    → Option String
    → Db
    → PaginatedResult Customer
find_all ilike collate scan q search db =
    list_page (matches ilike search) (λ a b. collate a.full_name b.full_name) scan db.customers q
