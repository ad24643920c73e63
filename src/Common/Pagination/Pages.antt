-- ===== src/Common/Pagination/Pages.antt =====
-- The pages of src/common/dto/pagination.dto.ts cover a list.
use native.Mathlib.Numerals.{unary_clauses}
use gameclub_backend.Prelude.{
  ℕ, zero, suc, ◌+◌, ◌-◌, ◌*◌, ◌≤◌, ◌<◌, ◌≡◌, refl, sym, ap, ◌∙◌, List, [], ◌∷◌, ◌++◌, arith,
}
use gameclub_backend.Prelude.{length, take, drop}
use gameclub_backend.Common.Pagination.{skip, total_pages, paginate, page_of}

enough : (limit total : ℕ) → 1 ≤ limit → total ≤ total_pages total limit * limit
unfolding total_pages
enough limit total h = ground arith

-- With a limit of at least 1, `totalPages` pages hold all rows, and one page fewer does not.
pub total_pages-least :
    (limit total : ℕ)
    → 1 ≤ limit
    → (total ≤ total_pages total limit * limit) × (total_pages total limit * limit < total + limit)
unfolding total_pages
total_pages-least limit total h = (enough limit total h, ground arith)

module _ {ℓ} {A : Type ℓ} where
  -- The items of `count` pages, from page `first + 1` on.
  unfoldable pub pages : ℕ → ℕ → ℕ → List A → List A
  pages limit first zero rows = []
  pages limit first (suc count) rows =
      (page_of rows (record { page = suc first; limit = limit })).items
      ++ pages limit (suc first) count rows

  take-all : (n : ℕ) (xs : List A) → length xs ≤ n → take n xs ≡ xs
  take-all zero [] h = refl
  take-all zero (x ∷ xs) h = absurd (omega arith)
  take-all (suc n) [] h = refl
  take-all (suc n) (x ∷ xs) h = ap (λ l. x ∷ l) (take-all n xs (omega arith))

  drop-drop : (m n : ℕ) (xs : List A) → drop m (drop n xs) ≡ drop (n + m) xs
  drop-drop m zero xs = ap (λ k. drop k xs) (omega arith)
  drop-drop zero (suc n) [] = simp unary_clauses refl
  drop-drop (suc m) (suc n) [] = simp unary_clauses refl
  drop-drop m (suc n) (x ∷ xs) =
      drop-drop m n xs ∙ ap (λ k. drop k (x ∷ xs)) {x = suc (n + m)} {y = suc n + m} (omega arith)

  take-add : (m n : ℕ) (xs : List A) → take m xs ++ take n (drop m xs) ≡ take (m + n) xs
  take-add zero n xs = ap (λ k. take k xs) (omega arith)
  take-add (suc m) zero [] = simp unary_clauses refl
  take-add (suc m) (suc n) [] = simp unary_clauses refl
  take-add (suc m) n (x ∷ xs) =
      ap (λ l. x ∷ l) (take-add m n xs)
      ∙ ap (λ k. take k (x ∷ xs)) {x = suc (m + n)} {y = suc m + n} (omega arith)

  page_items :
      (limit first : ℕ) (rows : List A)
      → (page_of rows (record { page = suc first; limit = limit })).items
        ≡ take limit (drop (first * limit) rows)
  unfolding page_of paginate skip
  page_items limit first rows =
      ap (λ k. take limit (drop (k * limit) rows)) {x = suc first - 1} {y = first} (omega arith)

  pages-take :
      (limit first count : ℕ) (rows : List A)
      → pages limit first count rows ≡ take (count * limit) (drop (first * limit) rows)
  unfolding pages
  pages-take limit first zero rows =
      ap (λ k. take k (drop (first * limit) rows)) {x = 0} {y = 0 * limit} (omega arith)
  pages-take limit first (suc count) rows =
      ap (λ l. l ++ pages limit (suc first) count rows) (page_items limit first rows)
      ∙ ap (λ l. take limit (drop (first * limit) rows) ++ l)
          (pages-take limit (suc first) count rows
            ∙ ap (λ n. take (count * limit) (drop n rows)) {x = suc first * limit}
                {y = first * limit + limit} (ground arith)
            ∙ ap (take (count * limit)) (sym (drop-drop limit (first * limit) rows)))
      ∙ take-add limit (count * limit) (drop (first * limit) rows)
      ∙ ap (λ n. take n (drop (first * limit) rows)) {x = limit + count * limit}
          {y = suc count * limit} (ground arith)

  -- With a limit of at least 1, the pages from the first to `totalPages`, one after the other, give
  -- every row once and in order.
  pub pages-all :
      (limit : ℕ) (rows : List A)
      → 1 ≤ limit
      → pages limit 0 (total_pages (length rows) limit) rows ≡ rows
  pages-all limit rows h =
      pages-take limit 0 (total_pages (length rows) limit) rows
      ∙ ap (λ k. take (total_pages (length rows) limit * limit) (drop k rows)) {x = 0 * limit}
          {y = 0} (omega arith)
      ∙ take-all (total_pages (length rows) limit * limit) rows (enough limit (length rows) h)
