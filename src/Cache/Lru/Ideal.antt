-- ===== src/Cache/Lru/Ideal.antt =====
-- What `LRUCache` promises, with no addresses and no map: a list of entries with distinct keys, the
-- most recently used first.
use mini_search_rec.Prelude.{
  ℕ, Bool, true, false, if◌then◌else◌, leb, ite, List, [], ◌∷◌, length, Option, none, some, ℤ,
}
use mini_search_rec.Cache.Lru.{CacheEntry, is_expired, expiry}

module _ {K V : Type 0} where
  unfoldable pub oldest_expired : ℕ → List (CacheEntry K V) → Option (CacheEntry K V)
  oldest_expired now [] = none
  oldest_expired now (e ∷ es) = elim (oldest_expired now es) [
    | some v ↦ some v
    | none ↦ if is_expired now e then some e else none
  ]

  unfoldable pub oldest : List (CacheEntry K V) → Option (CacheEntry K V)
  oldest [] = none
  oldest (e ∷ []) = some e
  oldest (e ∷ f ∷ es) = oldest (f ∷ es)

  -- The entry to be evicted: the least recently used of those that have expired, or of all.
  unfoldable pub victim : ℕ → List (CacheEntry K V) → Option (CacheEntry K V)
  victim now es = elim (oldest_expired now es) [ some v ↦ some v | none ↦ oldest es ]

  -- The entries that have not expired.
  unfoldable pub live : ℕ → List (CacheEntry K V) → List (CacheEntry K V)
  live now [] = []
  live now (e ∷ es) = if is_expired now e then live now es else e ∷ live now es

module _ {K V : Type 0} (dec : Discrete K) where
  unfoldable pub lookup : K → List (CacheEntry K V) → Option (CacheEntry K V)
  lookup k [] = none
  lookup k (e ∷ es) = ite (dec e.key k) (some e) (lookup k es)

  unfoldable pub remove : K → List (CacheEntry K V) → List (CacheEntry K V)
  remove k [] = []
  remove k (e ∷ es) = ite (dec e.key k) es (e ∷ remove k es)

  unfoldable pub evict : ℕ → List (CacheEntry K V) → List (CacheEntry K V)
  evict now es = elim (victim now es) [ none ↦ es | some v ↦ remove v.key es ]

  -- What `Get` leaves.
  unfoldable pub after_get : K → ℕ → List (CacheEntry K V) → List (CacheEntry K V)
  after_get k now es = elim (lookup k es) [
    | none ↦ es
    | some e ↦ if is_expired now e then remove k es else e ∷ remove k es
  ]

  -- What `Get` answers.
  unfoldable pub answer : K → ℕ → List (CacheEntry K V) → Option V
  answer k now es = elim (lookup k es) [
    | none ↦ none
    | some e ↦ if is_expired now e then none else some e.value
  ]

  -- What `Put` leaves, at a capacity: at most one entry is evicted, and only for a new key.
  unfoldable pub after_put : ℕ → K → V → ℤ → ℕ → List (CacheEntry K V) → List (CacheEntry K V)
  after_put cap k v ttl now es =
      let e : CacheEntry K V = record { key = k; value = v; expire_time = expiry ttl now } in
      elim (lookup k es) [
        | some _ ↦ e ∷ remove k es
        | none ↦ e ∷ (if leb cap (length es) then evict now es else es)
      ]

  -- Whether the key is there, expired or not: what `Delete` answers.
  unfoldable pub holds : K → List (CacheEntry K V) → Bool
  holds k es = elim (lookup k es) [ none ↦ false | some _ ↦ true ]
