-- ===== src/Common/Listing/Pages.antt =====
-- The pages of a list (src/common/dto/pagination.dto.ts and the `findAll` of the services), read
-- one after the other.
use mathlib.Core.List.{Perm}
use mathlib.Core.List.Perm
use gameclub_backend.Prelude.{
  ℕ, zero, suc, ◌++◌, ◌≤◌, ◌≡◌, refl, sym, ap, ◌∙◌, Bool, true, false, List, [], ◌∷◌, Bool-cases,
  inl, inr, ◌&&◌, arith,
}
use gameclub_backend.Common.Pagination.{PaginationQueryDto, PaginatedResult, page_of, paginate}
use gameclub_backend.Common.Pagination.Pages.{pages, pages-all}
use gameclub_backend.Common.Listing.{Scan, select, place, order_by, list_page}

module _ {A : Type 0} where
  -- The items of `count` pages of a list, from page `first + 1` on.
  unfoldable pub read_pages : (PaginationQueryDto → PaginatedResult A) → ℕ → ℕ → ℕ → List A
  read_pages list limit first zero = []
  read_pages list limit first (suc count) =
      (list (record { page = suc first; limit = limit })).items
      ++ read_pages list limit (suc first) count

  -- All pages, up to the last that the metadata of the first announces.
  unfoldable pub all_pages : (PaginationQueryDto → PaginatedResult A) → ℕ → List A
  unfolding read_pages
  all_pages list limit =
      read_pages list limit 0 (list (record { page = 1; limit = limit })).meta.total_pages

  read_pages-pages :
      (limit first count : ℕ) (rows : List A)
      → read_pages (page_of rows) limit first count ≡ pages limit first count rows
  unfolding read_pages pages
  read_pages-pages limit first zero rows = refl
  read_pages-pages limit first (suc count) rows =
      ap (λ l. (page_of rows (record { page = suc first; limit = limit })).items ++ l)
        (read_pages-pages limit (suc first) count rows)

  pub all_pages-page_of :
      (limit : ℕ) (rows : List A) → 1 ≤ limit → all_pages (page_of rows) limit ≡ rows
  unfolding all_pages page_of paginate
  all_pages-page_of limit rows h = read_pages-pages limit 0 _ rows ∙ pages-all limit rows h

-- The same rows, as often, in any order: what a query may find.
pub data Reorders {A : Type 0} : List A → List A → Type 0 where
  nothing : Reorders [] []
  keeps : (a : A) {xs ys : List A} → Reorders xs ys → Reorders (a ∷ xs) (a ∷ ys)
  swaps : (a b : A) (xs : List A) → Reorders (a ∷ b ∷ xs) (b ∷ a ∷ xs)
  joins : {xs ys zs : List A} → Reorders xs ys → Reorders ys zs → Reorders xs zs

module _ {A : Type 0} (before : A → A → Bool) where
  -- The first row may stand before each of the others.
  abbrev pub Leads : A → List A → Type 0
  Leads a [] = Unit {0}
  Leads a (r ∷ rows) = (before a r ≡ true) × Leads a rows

  abbrev pub Sorted : List A → Type 0
  Sorted [] = Unit {0}
  Sorted (r ∷ rows) = Leads r rows × Sorted rows

  -- No two of the rows may stand before each other.
  abbrev pub ApartFrom : A → List A → Type 0
  ApartFrom a [] = Unit {0}
  ApartFrom a (r ∷ rows) = (before a r && before r a ≡ false) × ApartFrom a rows

  abbrev pub Apart : List A → Type 0
  Apart [] = Unit {0}
  Apart (r ∷ rows) = ApartFrom r rows × Apart rows

  Reorders-ApartFrom : (a : A) {xs ys : List A} → Reorders xs ys → ApartFrom a xs → ApartFrom a ys
  Reorders-ApartFrom a Reorders.nothing h = h
  Reorders-ApartFrom a (Reorders.keeps b p) (h, k) = (h, Reorders-ApartFrom a p k)
  Reorders-ApartFrom a (Reorders.swaps b c xs) (h, (k, l)) = (k, (h, l))
  Reorders-ApartFrom a (Reorders.joins p q) h = Reorders-ApartFrom a q (Reorders-ApartFrom a p h)

  Reorders-Apart : {xs ys : List A} → Reorders xs ys → Apart xs → Apart ys
  Reorders-Apart Reorders.nothing h = h
  Reorders-Apart (Reorders.keeps a p) (h, k) = (Reorders-ApartFrom a p h, Reorders-Apart p k)
  Reorders-Apart (Reorders.swaps a b xs) ((h, k), (l, m)) = ((ground (arith, h), l), (k, m))
  Reorders-Apart (Reorders.joins p q) h = Reorders-Apart q (Reorders-Apart p h)

  place-Perm : (a : A) (rows : List A) → Perm (place before a rows) (a ∷ rows)
  unfolding place
  place-Perm a [] = Perm.refl (a ∷ [])
  place-Perm a (r ∷ rows) = elim (Bool-cases (before a r)) [
    | inl h ↦ rw h (Perm.refl (a ∷ r ∷ rows))
    | inr h ↦ rw h (Perm.trans (Perm.cons r (place-Perm a rows)) (Perm.swap a r rows))
  ]

  pub order_by-Perm : (rows : List A) → Perm (order_by before rows) rows
  unfolding order_by
  order_by-Perm [] = Perm.refl []
  order_by-Perm (r ∷ rows) =
      Perm.trans (place-Perm r (order_by before rows)) (Perm.cons r (order_by-Perm rows))

  module _ (total : (a b : A) → before a b ≡ false → before b a ≡ true)
      (trans : (a b c : A) → before a b ≡ true → before b c ≡ true → before a c ≡ true) where
    Leads-trans : (a b : A) (rows : List A) → before a b ≡ true → Leads b rows → Leads a rows
    Leads-trans a b [] h l = tt
    Leads-trans a b (r ∷ rows) h (p, l) = (trans a b r h p, Leads-trans a b rows h l)

    Leads-place :
        (r a : A) (rows : List A) → before r a ≡ true → Leads r rows → Leads r (place before a rows)
    unfolding place
    Leads-place r a [] h l = (h, tt)
    Leads-place r a (x ∷ rows) h (p, l) = elim (Bool-cases (before a x)) [
      | inl e ↦ rw e (h, (p, l))
      | inr e ↦ rw e (p, Leads-place r a rows h l)
    ]

    place-Sorted : (a : A) (rows : List A) → Sorted rows → Sorted (place before a rows)
    unfolding place
    place-Sorted a [] s = (tt, tt)
    place-Sorted a (r ∷ rows) (l, s) = elim (Bool-cases (before a r)) [
      | inl e ↦ rw e ((e, Leads-trans a r rows e l), (l, s))
      | inr e ↦ rw e (Leads-place r a rows (total a r e) l, place-Sorted a rows s)
    ]

    pub order_by-Sorted : (rows : List A) → Sorted (order_by before rows)
    unfolding order_by
    order_by-Sorted [] = tt
    order_by-Sorted (r ∷ rows) = place-Sorted r (order_by before rows) (order_by-Sorted rows)

    place-place :
        (a b : A) (rows : List A)
        → before a b && before b a ≡ false
        → place before a (place before b rows) ≡ place before b (place before a rows)
    unfolding place
    place-place a b [] h = ground (arith, total a b)
    place-place a b (r ∷ rows) h =
        ground (arith, place-place a b rows h, total a b, trans a b r, trans b a r)

    -- Rows of which no two have equal keys are listed in just one way, however they are found.
    Reorders-order_by :
        {xs ys : List A} → Reorders xs ys → Apart xs → order_by before xs ≡ order_by before ys
    unfolding order_by
    Reorders-order_by Reorders.nothing h = refl
    Reorders-order_by (Reorders.keeps a p) (h, k) = ap (place before a) (Reorders-order_by p k)
    Reorders-order_by (Reorders.swaps a b xs) ((h, k), l) = place-place a b (order_by before xs) h
    Reorders-order_by (Reorders.joins p q) h =
        Reorders-order_by p h ∙ Reorders-order_by q (Reorders-Apart p h)

    module _ (matches : A → Bool) (rows : List A) (scan : ℕ → Scan A)
        (finds : (page : ℕ) → Reorders (select matches rows) (scan page (select matches rows)))
        (apart : Apart (select matches rows)) (limit : ℕ) (h : 1 ≤ limit) where
      list_page-page_of :
          (q : PaginationQueryDto)
          → list_page matches before (scan q.page) rows q
            ≡ page_of (order_by before (select matches rows)) q
      unfolding list_page
      list_page-page_of q = ap (λ l. page_of l q) (sym (Reorders-order_by (finds q.page) apart))

      pub all_pages-order_by :
          all_pages (λ q. list_page matches before (scan q.page) rows q) limit
          ≡ order_by before (select matches rows)
      all_pages-order_by =
          ap (λ list. all_pages list limit) (λ i q. list_page-page_of q i)
          ∙ all_pages-page_of limit (order_by before (select matches rows)) h

      -- Each page is a query of its own, which finds the rows that match in an order of its own. If
      -- the order asked for is total and transitive, no two rows that match have equal keys in it, and
      -- the limit is at least 1, then the items of all pages, one after the other, up to the number of
      -- pages that the metadata of the first announces, are the rows that match: each as often as in
      -- the table, which no one writes meanwhile, and in the order.
      pub all_pages-Sorted :
          Perm
            (all_pages (λ q. list_page matches before (scan q.page) rows q) limit)
            (select matches rows)
          × Sorted (all_pages (λ q. list_page matches before (scan q.page) rows q) limit)
      all_pages-Sorted =
          rw all_pages-order_by
            (order_by-Perm (select matches rows), order_by-Sorted (select matches rows))
