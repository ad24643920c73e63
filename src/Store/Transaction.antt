-- ===== src/Store/Transaction.antt =====
-- `dataSource.transaction(async (manager) => …)`: the body sees its own writes; if it throws, the
-- tables stay as they were. A row lock makes other transactions wait, so bodies that lock the same
-- row run one after the other.
use gameclub_backend.Prelude.{
  ◌≡◌, refl, arith, Option, none, some, Bool, false, true, List, [], ◌∷◌, ◌++◌, ◌==◌, if◌then◌else◌,
  Uuid, IsEntity, find_one,
}
use gameclub_backend.Common.Errors.{Exception, query_failed, Result, ok, throw}
use gameclub_backend.Store.{Db}

abbrev pub Tx : Type 0 → Type 0
Tx A = Db → Result (A × Db)

module _ {A : Type 0} where
  abbrev pub pure : A → Tx A
  pure a db = ok (a, db)

  abbrev pub raise : Exception → Tx A
  raise e db = throw e

  abbrev pub gets : (Db → A) → Tx A
  gets f db = ok (f db, db)

  abbrev pub lift : Result A → Tx A
  lift r db = elim r [ ok a ↦ ok (a, db) | throw e ↦ throw e ]

  -- `if (!found) throw …`.
  abbrev pub or_raise : Option A → Exception → Tx A
  or_raise none e = raise e
  or_raise (some a) e = pure a

infixl 5 ◌>>=◌ ◌>>◌
abbrev pub ◌>>=◌ : {A B : Type 0} → Tx A → (A → Tx B) → Tx B
◌>>=◌ m f db = elim (m db) [ ok (a, db') ↦ f a db' | throw e ↦ throw e ]

abbrev pub ◌>>◌ : {A B : Type 0} → Tx A → Tx B → Tx B
m >> k = m >>= λ _. k

abbrev pub raise_if : Bool → Exception → Tx (Unit {0})
raise_if c e db = elim c [ true ↦ throw e | false ↦ ok (tt, db) ]

abbrev pub modify : (Db → Db) → Tx (Unit {0})
modify f db = ok (tt, f db)

-- The driver's code of a unique violation.
abbrev pub unique_violation : Exception
unique_violation = query_failed (some "23505")

-- The driver's code of a foreign key that finds no row.
abbrev pub foreign_key_violation : Exception
foreign_key_violation = query_failed (some "23503")

-- Is there a row with this key, deleted or not?
unfoldable pub has_key : {A : Type 0} ⦃e : IsEntity A⦄ → Uuid → List A → Bool
has_key ⦃e⦄ k [] = false
has_key ⦃e⦄ k (r ∷ rows) = if e.key r == k then true else has_key k rows

-- The rows after an INSERT; a key that is taken is refused by the primary key.
unfoldable pub inserted : {A : Type 0} ⦃e : IsEntity A⦄ → A → List A → Result (List A)
inserted ⦃e⦄ a rows = if has_key (e.key a) rows then throw unique_violation else ok (rows ++ a ∷ [])

pub find_one-has_key :
    {A : Type 0} ⦃e : IsEntity A⦄ (k : Uuid) (a : A) (rows : List A)
    → find_one k rows ≡ some a
    → has_key k rows ≡ true
unfolding find_one has_key
find_one-has_key k a [] h = absurd (ground arith)
find_one-has_key k a (r ∷ rows) h = ground (arith, find_one-has_key k a rows)

-- What a successful body has done in its two halves.
pub >>=-eq-ok :
    {A B : Type 0} (m : Tx A) (f : A → Tx B) (db : Db) {b : B} {last : Db}
    → (m >>= f) db ≡ ok (b, last)
    → (a : A) × (next : Db) × (m db ≡ ok (a, next)) × (f a next ≡ ok (b, last))
>>=-eq-ok {A} {B} m f db {b} {last} h = go (m db) refl
  where
    go :
        (r : Result (A × Db))
        → m db ≡ r
        → (a : A) × (next : Db) × (m db ≡ ok (a, next)) × (f a next ≡ ok (b, last))
    go (ok (a, next)) e = (a, next, e, rw (e, ◌>>=◌) at h)
    go (throw x) e = absurd (ground arith)

-- The same, for a proof that goes on with the two halves.
pub >>=-then :
    {R : Type 0} {A B : Type 0} (m : Tx A) (f : A → Tx B) (db : Db) {b : B} {last : Db}
    → (m >>= f) db ≡ ok (b, last)
    → ((a : A) (next : Db) → m db ≡ ok (a, next) → f a next ≡ ok (b, last) → R)
    → R
>>=-then m f db h k = let (a, next, first, second) = >>=-eq-ok m f db h in k a next first second
