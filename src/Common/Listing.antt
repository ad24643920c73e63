-- ===== src/Common/Listing.antt =====
-- What `findAndCount({ where, order, skip, take })` of TypeORM gives the services: the rows that
-- match, in an order, by the page. PostgreSQL may put rows with equal keys in any order, and in
-- another one at the next query: each query is given the order in which it finds its rows (`Scan`),
-- and rows with equal keys come in that order.
pub mod Pages
use gameclub_backend.Prelude.{
  Option, none, some, Bool, true, false, List, [], ◌∷◌, if◌then◌else◌, Date, leb,
}
use gameclub_backend.Common.Pagination.{PaginationQueryDto, PaginatedResult, page_of}
use gameclub_backend.Entities.Club.{BaseEntity}

-- In which order a query finds the rows that match.
abbrev pub Scan : Type 0 → Type 0
Scan A = List A → List A

module _ {A : Type 0} where
  -- `WHERE`.
  unfoldable pub select : (A → Bool) → List A → List A
  select p [] = []
  select p (s ∷ rows) = if p s then s ∷ select p rows else select p rows

  -- `ORDER BY`, by a test whether a row may stand before another.
  unfoldable pub place : (A → A → Bool) → A → List A → List A
  place before s [] = s ∷ []
  place before s (r ∷ rows) = if before s r then s ∷ r ∷ rows else r ∷ place before s rows

  unfoldable pub order_by : (A → A → Bool) → List A → List A
  unfolding place
  order_by before [] = []
  order_by before (s ∷ rows) = place before s (order_by before rows)

  -- `findAndCount` and `paginate`.
  unfoldable pub list_page :
      (A → Bool) → (A → A → Bool) → Scan A → List A → PaginationQueryDto → PaginatedResult A
  unfolding select order_by
  list_page matches before scan rows q = page_of (order_by before (scan (select matches rows))) q

-- TypeORM leaves out soft-deleted rows.
abbrev pub is_kept : BaseEntity → Bool
is_kept b = elim b.deleted_at [ none ↦ true | some _ ↦ false ]

-- `order: { createdAt: 'DESC' }`.
abbrev pub newest_first : BaseEntity → BaseEntity → Bool
newest_first a b = leb b.created_at a.created_at

-- A filter that is absent lets every row pass.
abbrev pub if_given {ℓ} : {A : Type ℓ} → Option A → (A → Bool) → Bool
if_given none p = true
if_given (some a) p = p a
