-- ===== src/Store/Action.antt =====
-- An action of a service. What a transaction commits and what is emitted stays, also if the action
-- throws afterwards.
use gameclub_backend.Prelude.{[], ◌∷◌, ◌++◌}
use gameclub_backend.Common.Errors.{Result, ok, throw}
use gameclub_backend.Events.{Envelope}
use gameclub_backend.Store.{Db, World}
use gameclub_backend.Store.Transaction.{Tx}

abbrev pub Action : Type 0 → Type 0
Action A = World → Result A × World

abbrev pub pure : {A : Type 0} → A → Action A
pure a w = (ok a, w)

infixl 5 ◌>>=◌ ◌>>◌
abbrev pub ◌>>=◌ : {A B : Type 0} → Action A → (A → Action B) → Action B
◌>>=◌ m f w = let (r, w') = m w in elim r [ ok a ↦ f a w' | throw e ↦ (throw e, w') ]

abbrev pub ◌>>◌ : {A B : Type 0} → Action A → Action B → Action B
m >> k = m >>= λ _. k

-- The result of a body on the tables of `w`.
abbrev pub settle : {A : Type 0} → World → Result (A × Db) → Result A × World
settle w (ok (a, db)) = (ok a, record w { db = db })
settle w (throw e) = (throw e, w)

abbrev pub transaction : {A : Type 0} → Tx A → Action A
transaction body w = settle w (body w.db)

abbrev pub read : {A : Type 0} → (Db → Result A) → Action A
read f w = (f w.db, w)

abbrev pub emit : Envelope → Action (Unit {0})
emit e w = (ok tt, record w { emitted = w.emitted ++ e ∷ [] })
