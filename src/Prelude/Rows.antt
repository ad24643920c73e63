-- ===== src/Prelude/Rows.antt =====
-- The tables of the database as lists of rows. A row has a primary key and may be soft-deleted;
-- the repositories read only rows that are not deleted.
use Prim.Native.Nat.{ℕ}
use mathlib.Core.Path.{◌≡◌, refl}
use mathlib.Core.Option.{Option, none, some}
use mathlib.Core.List.{List, [], ◌∷◌}
use native.Mathlib.Omega.{arith}
use gameclub_backend.Prelude.Tests.{◌==◌, if◌then◌else◌}

-- A UUID is an opaque 128-bit number, which the program only compares.
abbrev pub Uuid : Type 0
Uuid = ℕ

-- A `Date` is its number of milliseconds, counted from the earliest date of JavaScript.
abbrev pub Date : Type 0
Date = ℕ

pub record IsEntity (A : Type 0) : Type 0 where
  pub key : A → Uuid
  pub deleted_at : A → Option Date

module _ {A : Type 0} ⦃e : IsEntity A⦄ where
  -- A row that a query sees.
  abbrev pub live : A → Option A
  live a = elim (e.deleted_at a) [ none ↦ some a | some _ ↦ none ]

  -- `findOne({ where: { id } })`.
  unfoldable pub find_one : Uuid → List A → Option A
  find_one k [] = none
  find_one k (r ∷ rows) = if e.key r == k then live r else find_one k rows

  -- `save(row)`: the row with this key is replaced, or the row is new.
  unfoldable pub save : A → List A → List A
  save a [] = a ∷ []
  save a (r ∷ rows) = if e.key r == e.key a then a ∷ rows else r ∷ save a rows

  pub find_one-save :
      (k : Uuid) (a : A) (rows : List A)
      → find_one k (save a rows) ≡ (if e.key a == k then live a else find_one k rows)
  unfolding find_one save
  find_one-save k a [] = refl
  find_one-save k a (r ∷ rows) = ground (arith, find_one-save k a rows)

  pub find_one-key : (k : Uuid) (a : A) (rows : List A) → find_one k rows ≡ some a → e.key a ≡ k
  unfolding find_one
  find_one-key k a [] h = absurd (cc)
  find_one-key k a (r ∷ rows) h = ground (arith, find_one-key k a rows)

  pub find_one-live :
      (k : Uuid) (a : A) (rows : List A) → find_one k rows ≡ some a → live a ≡ some a
  unfolding find_one
  find_one-live k a [] h = absurd (cc)
  find_one-live k a (r ∷ rows) h = ground (arith, find_one-live k a rows)
