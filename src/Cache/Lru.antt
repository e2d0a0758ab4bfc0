-- ===== src/Cache/Lru.antt =====
-- src/cache/lru_cache.h: `LRUCache<K, V>`. A `std::list` node is an address with its entry, the head
-- of the list being `list_.begin()`, and `map_` holds addresses. A read through an address that is
-- gone is a `fault`. Times are nanoseconds of the steady clock, an argument of each call, and 0 is
-- the default time point. The mutex is held for the whole of each call, so a call is one step.
pub mod Ideal
pub mod Links
mod Tests
pub mod Refine
pub mod Eviction
pub mod Writes
pub mod Sweep
pub mod History
pub mod Promises
use mini_search_rec.Prelude.{
  ℕ, suc, ◌+◌, ◌*◌, Bool, true, false, not, ◌&&◌, if◌then◌else◌, ltb, leb, ◌==◌, ite, ℕ_discrete,
  List, [], ◌∷◌, length, Option, none, some, Outcome, done, fault, running, ◌>>=◌, find, insert,
  erase, ℤ, pos, negsuc, pos_part, zero,
}

pub record CacheEntry (K V : Type 0) : Type 0 where
  pub key : K
  pub value : V
  pub expire_time : ℕ

pub record LruCache (K V : Type 0) : Type 0 where
  pub capacity : ℕ
  pub nodes : List (ℕ × CacheEntry K V)
  pub index : List (K × ℕ)
  -- the address that the next `emplace_front` gets
  pub fresh : ℕ

-- `expire_time != TimePoint{} && now > expire_time`
abbrev pub is_expired : {K V : Type 0} → ℕ → CacheEntry K V → Bool
is_expired now e = not (e.expire_time == 0) && ltb e.expire_time now

-- `now + std::chrono::seconds(ttl_seconds)`, or no expiry
unfoldable pub expiry : ℤ → ℕ → ℕ
expiry (pos zero) now = 0
expiry (pos (suc s)) now = now + suc s * 1_000_000_000
expiry (negsuc n) now = 0

module _ {K V : Type 0} where
  pub init : ℕ → LruCache K V
  init capacity = record { capacity = capacity; nodes = []; index = []; fresh = 0 }

  -- `*it`
  unfoldable pub deref : ℕ → List (ℕ × CacheEntry K V) → Option (CacheEntry K V)
  deref it [] = none
  deref it ((a, e) ∷ l) = ite (ℕ_discrete a it) (some e) (deref it l)

  -- `list_.erase(it)`
  pub unlink : ℕ → List (ℕ × CacheEntry K V) → List (ℕ × CacheEntry K V)
  unlink it [] = []
  unlink it ((a, e) ∷ l) = ite (ℕ_discrete a it) l ((a, e) ∷ unlink it l)

  -- The loop of `EvictOneLocked`, from the back: the expired node nearest to the back.
  pub last_expired : ℕ → List (ℕ × CacheEntry K V) → Option (ℕ × CacheEntry K V)
  last_expired now [] = none
  last_expired now ((a, e) ∷ l) = elim (last_expired now l) [
    | some n ↦ some n
    | none ↦ if is_expired now e then some (a, e) else none
  ]

  -- `list_.back()`
  pub back : List (ℕ × CacheEntry K V) → Option (ℕ × CacheEntry K V)
  back [] = none
  back (n ∷ []) = some n
  back (n ∷ m ∷ l) = back (m ∷ l)

  -- `list_.pop_back()`
  pub pop_back : List (ℕ × CacheEntry K V) → List (ℕ × CacheEntry K V)
  pop_back [] = []
  pop_back (n ∷ []) = []
  pop_back (n ∷ m ∷ l) = n ∷ pop_back (m ∷ l)

  pub clear : LruCache K V → LruCache K V
  clear c = record c { nodes = []; index = [] }

  -- `map_.size()`
  pub size : LruCache K V → ℕ
  size c = length c.index

module _ {K V : Type 0} (dec : Discrete K) where
  pub get : LruCache K V → K → ℕ → Outcome (LruCache K V × Option V)
  get c key now = elim (find dec key c.index) [
    | none ↦ done (c, none)
    | some it ↦ elim (deref it c.nodes) [
      | none ↦ fault
      | some e ↦
          if is_expired now e
          then done (record c { nodes = unlink it c.nodes; index = erase dec key c.index }, none)
          else done (record c { nodes = (it, e) ∷ unlink it c.nodes }, some e.value)
    ]
  ]

  -- `EvictOneLocked`
  pub evict_one : LruCache K V → ℕ → LruCache K V
  evict_one c now = elim (last_expired now c.nodes) [
    | some (it, e) ↦ record c { index = erase dec e.key c.index; nodes = unlink it c.nodes }
    | none ↦ elim (back c.nodes) [
      | none ↦ c
      | some (it, e) ↦ record c { index = erase dec e.key c.index; nodes = pop_back c.nodes }
    ]
  ]

  -- `while (list_.size() >= capacity_) EvictOneLocked();`
  pub make_room : ℕ → LruCache K V → ℕ → Outcome (LruCache K V)
  make_room zero c now = running
  make_room (suc fuel) c now =
      let rest = make_room fuel (evict_one c now) now in
      if leb c.capacity (length c.nodes) then rest else done c

  -- `list_.emplace_front(...)` and `map_[key] = list_.begin()`
  pub push_front : LruCache K V → CacheEntry K V → LruCache K V
  push_front c e = record c {
    nodes = (c.fresh, e) ∷ c.nodes;
    index = insert dec e.key c.fresh c.index;
    fresh = suc c.fresh;
  }

  pub put : ℕ → LruCache K V → K → V → ℤ → ℕ → Outcome (LruCache K V)
  put fuel c key value ttl now = elim (find dec key c.index) [
    | some it ↦ elim (deref it c.nodes) [
      | none ↦ fault
      | some e ↦
          let e' : CacheEntry K V = record e { value = value; expire_time = expiry ttl now } in
          done (record c { nodes = (it, e') ∷ unlink it c.nodes })
    ]
    | none ↦ do
      c' ← make_room fuel c now
      done (push_front c' (record { key = key; value = value; expire_time = expiry ttl now }))
  ]

  -- `Delete`. In a valid cache the address it finds is that of a node, so `unlink` finds the node too.
  pub delete : LruCache K V → K → LruCache K V × Bool
  delete c key = elim (find dec key c.index) [
    | none ↦ (c, false)
    | some it ↦ (record c { nodes = unlink it c.nodes; index = erase dec key c.index }, true)
  ]

  -- The loop of `EvictExpired` over the nodes that are left: what stays, the map, and the count.
  pub sweep :
      ℕ → List (ℕ × CacheEntry K V) → List (K × ℕ) → List (ℕ × CacheEntry K V) × List (K × ℕ) × ℕ
  sweep now [] m = ([], m, 0)
  sweep now ((a, e) ∷ l) m =
      let gone = sweep now l (erase dec e.key m) in
      let kept = sweep now l m in
      if is_expired now e then (gone.0, gone.1, suc gone.2) else ((a, e) ∷ kept.0, kept.1, kept.2)

  pub evict_expired : LruCache K V → ℕ → LruCache K V × ℕ
  evict_expired c now =
      let r = sweep now c.nodes c.index in (record c { nodes = r.0; index = r.1 }, r.2)
