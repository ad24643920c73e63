-- ===== src/Common/Stateful.antt =====
-- A sequence of repository calls outside a transaction: each call commits by itself, so what is
-- written before a throw stays.
use gameclub_backend.Prelude.{Option, none, some, Bool, true, false}
use gameclub_backend.Common.Errors.{Exception, Result, ok, throw}

abbrev pub Does : Type 0 → Type 0 → Type 0
Does S A = S → Result A × S

module _ {S : Type 0} where
  abbrev pub pure : {A : Type 0} → A → Does S A
  pure a s = (ok a, s)

  abbrev pub raise : {A : Type 0} → Exception → Does S A
  raise e s = (throw e, s)

  abbrev pub gets : {A : Type 0} → (S → A) → Does S A
  gets f s = (ok (f s), s)

  abbrev pub lift : {A : Type 0} → (S → Result A) → Does S A
  lift f s = (f s, s)

  abbrev pub modify : (S → S) → Does S (Unit {0})
  modify f s = (ok tt, f s)

  abbrev pub raise_if : Bool → Exception → Does S (Unit {0})
  raise_if true e s = (throw e, s)
  raise_if false e s = (ok tt, s)

  abbrev pub or_raise : {A : Type 0} → Option A → Exception → Does S A
  or_raise none e s = (throw e, s)
  or_raise (some a) e s = (ok a, s)

  -- `try { … } catch (err) { … }`.
  abbrev pub catch : {A : Type 0} → Does S A → (Exception → Does S A) → Does S A
  catch m f s = let (r, s') = m s in elim r [ ok a ↦ (ok a, s') | throw e ↦ f e s' ]

infixl 5 ◌>>=◌ ◌>>◌
abbrev pub ◌>>=◌ : {S A B : Type 0} → Does S A → (A → Does S B) → Does S B
◌>>=◌ m f s = let (r, s') = m s in elim r [ ok a ↦ f a s' | throw e ↦ (throw e, s') ]

abbrev pub ◌>>◌ : {S A B : Type 0} → Does S A → Does S B → Does S B
m >> k = m >>= λ _. k
