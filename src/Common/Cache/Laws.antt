-- ===== src/Common/Cache/Laws.antt =====
-- What src/common/cache/cache.service.ts promises: times to live, and prefixes.
use gameclub_backend.Prelude.{
  ℕ, ◌+◌, ◌*◌, ◌<◌, ◌≡◌, refl, none, some, true, List, [], ◌∷◌, leb, if◌then◌else◌, arith, Date,
}
use gameclub_backend.Common.Cache.{
  Key, same_key, starts_with, CacheEntry, lookup, put, get, set_for, del_by_prefix, get_or_set,
}

same_key_self : (k : Key) → same_key k k ≡ true
same_key_self [] = refl
same_key_self (a ∷ k) = ground (arith, same_key_self k)

same_key-starts_with : (m k p : Key) → same_key m k ≡ true → starts_with m p ≡ starts_with k p
same_key-starts_with m k [] h = ground arith
same_key-starts_with [] [] (b ∷ p) h = refl
same_key-starts_with [] (a ∷ k) (b ∷ p) h = absurd (ground arith)
same_key-starts_with (a ∷ m) [] (b ∷ p) h = absurd (ground arith)
same_key-starts_with (a ∷ m) (c ∷ k) (b ∷ p) h = ground (arith, same_key-starts_with m k p)

module _ {V : Type 0} where
  lookup-put :
      (k : Key) (e : CacheEntry V) (store : List (Key × CacheEntry V))
      → lookup k (put k e store) ≡ some e
  unfolding lookup put
  lookup-put k e [] = ground (arith, same_key_self k)
  lookup-put k e ((m, f) ∷ store) = ground (arith, lookup-put k e store)

  lookup-del_by_prefix :
      (k p : Key) (store : List (Key × CacheEntry V))
      → lookup k (del_by_prefix p store) ≡ (if starts_with k p then none else lookup k store)
  unfolding lookup del_by_prefix
  lookup-del_by_prefix k p [] = ground arith
  lookup-del_by_prefix k p ((m, f) ∷ store) =
      ground (arith, lookup-del_by_prefix k p store, same_key-starts_with m k p)

  -- A value that is set is answered until its time to live is over, and not from then on.
  pub get-set_for :
      (k : Key) (v : V) (ttl : ℕ) (at now : Date) (store : List (Key × CacheEntry V))
      → (get k now (set_for k v ttl at store)).0
        ≡ (if leb (at + ttl * 1000) now then none else some v)
  unfolding get set_for
  get-set_for k v ttl at now store =
      ground (arith, lookup-put k (record { value = v; expires_at = at + ttl * 1000 }) store)

  -- After `delByPrefix` no key with the prefix is answered, and every other key as before.
  pub get-del_by_prefix :
      (k p : Key) (now : Date) (store : List (Key × CacheEntry V))
      → (get k now (del_by_prefix p store)).0
        ≡ (if starts_with k p then none else (get k now store).0)
  unfolding get
  get-del_by_prefix k p now store = ground (arith, lookup-del_by_prefix k p store)

  -- Once a value is computed and stored, `getOrSet` answers it, and takes no later value, as long as
  -- its time to live is not over.
  pub get_or_set-stable :
      (k : Key) (ttl : ℕ) (first second : V) (now at later last : Date)
      (store : List (Key × CacheEntry V))
      → (get k now store).0 ≡ none
      → later < at + ttl * 1000
      → ((get_or_set k ttl first now at store).0 ≡ first)
        × ((get_or_set k ttl second later last (get_or_set k ttl first now at store).1).0 ≡ first)
  unfolding get_or_set
  get_or_set-stable k ttl first second now at later last store missed soon =
      (ground arith, ground (arith, get-set_for k first ttl at later (get k now store).1))
