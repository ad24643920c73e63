-- ===== src/Common/Cache.antt =====
-- src/common/cache/cache.service.ts: a map with times to live. A JavaScript `Map` has one entry for
-- a key; entries are listed in the order of their first insertion. Keys are lists of codes.
pub mod Laws
use gameclub_backend.Prelude.{
  ℕ, zero, suc, ◌+◌, ◌*◌, ◌<◌, ◌≤◌, ◌≡◌, ◌≢◌, refl, Option, none, some, Bool, true, false, not,
  ◌&&◌, List, [], ◌∷◌, ◌==◌, leb, if◌then◌else◌, arith, Date, Bool-cases, inl, inr,
}

abbrev pub Key : Type 0
Key = List ℕ

abbrev pub same_key : Key → Key → Bool
same_key [] [] = true
same_key (a ∷ k) (b ∷ l) = (a == b) && same_key k l
same_key _ _ = false

-- `key.startsWith(prefix)`.
abbrev pub starts_with : Key → Key → Bool
starts_with k [] = true
starts_with [] (b ∷ p) = false
starts_with (a ∷ k) (b ∷ p) = (a == b) && starts_with k p

pub record CacheEntry (V : Type 0) : Type 0 where
  pub value : V
  pub expires_at : Date

module _ {V : Type 0} where
  unfoldable pub lookup : Key → List (Key × CacheEntry V) → Option (CacheEntry V)
  lookup k [] = none
  lookup k ((l, e) ∷ store) = if same_key l k then some e else lookup k store

  unfoldable pub put : Key → CacheEntry V → List (Key × CacheEntry V) → List (Key × CacheEntry V)
  put k e [] = (k, e) ∷ []
  put k e ((l, f) ∷ store) = if same_key l k then (l, e) ∷ store else (l, f) ∷ put k e store

  -- `store.delete(key)`.
  unfoldable pub del : Key → List (Key × CacheEntry V) → List (Key × CacheEntry V)
  del k [] = []
  del k ((l, f) ∷ store) = if same_key l k then del k store else (l, f) ∷ del k store

  unfoldable pub get : Key → Date → List (Key × CacheEntry V) → Option V × List (Key × CacheEntry V)
  unfolding lookup del
  get k now store = elim (lookup k store) [
    | none ↦ (none, store)
    | some e ↦ if leb e.expires_at now then (none, del k store) else (some e.value, store)
  ]

  unfoldable pub set_for :
      Key → V → ℕ → Date → List (Key × CacheEntry V) → List (Key × CacheEntry V)
  unfolding put
  set_for k v ttl now store = put k (record { value = v; expires_at = now + ttl * 1000 }) store

  unfoldable pub del_by_prefix : Key → List (Key × CacheEntry V) → List (Key × CacheEntry V)
  del_by_prefix p [] = []
  del_by_prefix p ((l, f) ∷ store) =
      if starts_with l p then del_by_prefix p store else (l, f) ∷ del_by_prefix p store

  -- `getOrSet`: the factory's answer, and the clock before and after it.
  unfoldable pub get_or_set :
      Key → ℕ → V → Date → Date → List (Key × CacheEntry V) → V × List (Key × CacheEntry V)
  unfolding get set_for
  get_or_set k ttl fresh now later store =
      let (cached, kept) = get k now store in
      elim cached [ some v ↦ (v, kept) | none ↦ (fresh, set_for k fresh ttl later kept) ]
