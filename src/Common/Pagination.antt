-- ===== src/Common/Pagination.antt =====
-- src/common/dto/pagination.dto.ts: a page of a list. The request's `page` and `limit` are numbers
-- that its decorators check.
pub mod Pages
use gameclub_backend.Prelude.{
  ℕ, zero, suc, ◌+◌, ◌-◌, ◌*◌, ◌/◌, ◌≤◌, ◌<◌, ◌≡◌, refl, Bool, List, [], ◌∷◌, ◌++◌, ◌&&◌, leb,
  if◌then◌else◌, arith,
}
use gameclub_backend.Prelude.{length, take, drop}

pub record PaginationQueryDto : Type 0 where
  pub page : ℕ
  pub limit : ℕ

-- `@Min(1)` on both, `@Max(100)` on the limit.
abbrev pub IsPage : PaginationQueryDto → Type 0
IsPage q = (1 ≤ q.page) × (1 ≤ q.limit) × (q.limit ≤ 100)

unfoldable pub skip : PaginationQueryDto → ℕ
skip q = (q.page - 1) * q.limit

pub record Meta : Type 0 where
  pub page : ℕ
  pub limit : ℕ
  pub total : ℕ
  pub total_pages : ℕ

pub record PaginatedResult {ℓ} (A : Type ℓ) : Type ℓ where
  pub items : List A
  pub meta : Meta

-- `Math.ceil(total / limit) || 0`.
unfoldable pub total_pages : ℕ → ℕ → ℕ
total_pages total limit = (total + (limit - 1)) / limit

unfoldable pub paginate {ℓ} : {A : Type ℓ} → List A → ℕ → PaginationQueryDto → PaginatedResult A
paginate items total q = record {
  items = items;
  meta = record {
    page = q.page;
    limit = q.limit;
    total = total;
    total_pages = total_pages total q.limit;
  };
}

-- `findAndCount({ skip, take })` and `paginate` on the rows that match, in their order.
unfoldable pub page_of {ℓ} : {A : Type ℓ} → List A → PaginationQueryDto → PaginatedResult A
unfolding paginate
page_of rows q = paginate (take q.limit (drop (skip q) rows)) (length rows) q
