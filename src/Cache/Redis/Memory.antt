-- ===== src/Cache/Redis/Memory.antt =====
-- src/cache/redis_client.cpp: `InMemoryRedisClient`, the only client that `RedisClientFactory` makes.
-- Hash maps and sets are association lists and lists without repetition. A call holds the mutex, so it
-- is one step; `now` is its reading of the clock, in nanoseconds.
pub mod Expiry
pub mod Lists
mod Tests
use mini_search_rec.Prelude.{
  ℕ, zero, suc, ◌+◌, ◌-◌, ◌*◌, ltb, Bool, true, false, if◌then◌else◌, List, [], ◌∷◌, ◌++◌, length,
  take, Option, none, some, find, insert, erase, ℤ, pos, negsuc, Bytes, bytes_discrete, contains,
  add_to,
}

pub record InMemoryRedisClient : Type 0 where
  pub host : Bytes
  pub port : ℕ
  pub connected : Bool
  pub store : List (Bytes × Bytes)
  pub expirations : List (Bytes × ℕ)
  pub hash_store : List (Bytes × List (Bytes × Bytes))
  pub list_store : List (Bytes × List Bytes)
  pub set_store : List (Bytes × List Bytes)

-- The constructor.
unfoldable pub new_client : InMemoryRedisClient
new_client = record {
  host = [];
  port = 6379;
  connected = false;
  store = [];
  expirations = [];
  hash_store = [];
  list_store = [];
  set_store = [];
}

unfoldable pub connect : InMemoryRedisClient → Bytes → ℕ → Bytes → InMemoryRedisClient × Bool
connect c host port password = (record c { host = host; port = port; connected = true }, true)

pub disconnect : InMemoryRedisClient → InMemoryRedisClient
disconnect c = record c { connected = false }

-- The expirations after a `Set`: a time to live of 0 or less leaves an old one where it is.
unfoldable pub schedule : Bytes → ℤ → ℕ → List (Bytes × ℕ) → List (Bytes × ℕ)
schedule key (pos zero) now m = m
schedule key (pos (suc n)) now m = insert bytes_discrete key (now + suc n * 1_000_000_000) m
schedule key (negsuc n) now m = m

unfoldable pub set : InMemoryRedisClient → ℕ → Bytes → Bytes → ℤ → InMemoryRedisClient × Bool
set c now key value ttl_seconds =
    if c.connected
    then (
      record c {
        store = insert bytes_discrete key value c.store;
        expirations = schedule key ttl_seconds now c.expirations;
      },
      true,
    )
    else (c, false)

-- Whether an expiration has passed.
abbrev pub is_past : ℕ → Option ℕ → Bool
is_past now none = false
is_past now (some t) = ltb t now

unfoldable pub get : InMemoryRedisClient → ℕ → Bytes → InMemoryRedisClient × Option Bytes
get c now key =
    if c.connected
    then (if is_past now (find bytes_discrete key c.expirations)
        then (
          record c {
            store = erase bytes_discrete key c.store;
            expirations = erase bytes_discrete key c.expirations;
          },
          none,
        )
        else (c, find bytes_discrete key c.store))
    else (c, none)

unfoldable pub del : InMemoryRedisClient → ℕ → Bytes → InMemoryRedisClient × Bool
del c now key =
    if c.connected
    then (
      record c {
        store = erase bytes_discrete key c.store;
        expirations = erase bytes_discrete key c.expirations;
      },
      true,
    )
    else (c, false)

pub exists : InMemoryRedisClient → ℕ → Bytes → InMemoryRedisClient × Bool
exists c now key = let r = get c now key in (r.0, (elim r.1 [ none ↦ false | some _ ↦ true ]))

-- `now + seconds(ttl)`; a time before that of the clock's start counts as its start.
pub deadline : ℤ → ℕ → ℕ
deadline (pos n) now = now + n * 1_000_000_000
deadline (negsuc n) now = now - suc n * 1_000_000_000

pub expire : InMemoryRedisClient → ℕ → Bytes → ℤ → InMemoryRedisClient × Bool
expire c now key ttl_seconds =
    if c.connected
    then elim (find bytes_discrete key c.store) [
      | none ↦ (c, false)
      | some _ ↦ (
        record c {
          expirations = insert bytes_discrete key (deadline ttl_seconds now) c.expirations;
        },
        true,
      )
    ]
    else (c, false)

-- `m[key]`, which makes an empty container where there is none
abbrev pub slot : {A : Type 0} → Bytes → List (Bytes × List A) → List A
slot key m = elim (find bytes_discrete key m) [ none ↦ [] | some xs ↦ xs ]

pub hset : InMemoryRedisClient → Bytes → Bytes → Bytes → InMemoryRedisClient × Bool
hset c key field value =
    if c.connected
    then (
      record c {
        hash_store =
            insert bytes_discrete key (insert bytes_discrete field value (slot key c.hash_store))
              c.hash_store;
      },
      true,
    )
    else (c, false)

pub hget : InMemoryRedisClient → Bytes → Bytes → Option Bytes
hget c key field =
    if c.connected
    then elim (find bytes_discrete key c.hash_store) [
      | none ↦ none
      | some fields ↦ find bytes_discrete field fields
    ]
    else none

pub hget_all : InMemoryRedisClient → Bytes → Option (List (Bytes × Bytes))
hget_all c key = if c.connected then find bytes_discrete key c.hash_store else none

unfoldable pub lpush : InMemoryRedisClient → Bytes → Bytes → InMemoryRedisClient × Bool
lpush c key value =
    if c.connected
    then (
      record c {
        list_store =
            insert bytes_discrete key (take 1000 (value ∷ slot key c.list_store)) c.list_store;
      },
      true,
    )
    else (c, false)

-- `erase(begin())` of a list that has grown beyond 1000
abbrev pub trim_front : List Bytes → List Bytes
trim_front [] = []
trim_front (x ∷ xs) = if ltb 1000 (length (x ∷ xs)) then xs else x ∷ xs

unfoldable pub rpush : InMemoryRedisClient → Bytes → Bytes → InMemoryRedisClient × Bool
rpush c key value =
    if c.connected
    then (
      record c {
        list_store =
            insert bytes_discrete key (trim_front (slot key c.list_store ++ (value ∷ [])))
              c.list_store;
      },
      true,
    )
    else (c, false)

unfoldable pub lpop : InMemoryRedisClient → Bytes → InMemoryRedisClient × Option Bytes
lpop c key =
    if c.connected
    then elim (find bytes_discrete key c.list_store) [
      | none ↦ (c, none)
      | some [] ↦ (c, none)
      | some (x ∷ xs) ↦
          (record c { list_store = insert bytes_discrete key xs c.list_store }, some x)
    ]
    else (c, none)

unfoldable pub llen : InMemoryRedisClient → Bytes → ℕ
llen c key = if c.connected then length (slot key c.list_store) else 0

pub sadd : InMemoryRedisClient → Bytes → Bytes → InMemoryRedisClient × Bool
sadd c key member =
    if c.connected
    then (
      record c {
        set_store =
            insert bytes_discrete key (add_to bytes_discrete member (slot key c.set_store))
              c.set_store;
      },
      true,
    )
    else (c, false)

pub sis_member : InMemoryRedisClient → Bytes → Bytes → Bool
sis_member c key member =
    if c.connected then contains bytes_discrete member (slot key c.set_store) else false

-- `MGet`: an empty string stands for a key that is not there.
pub mget : InMemoryRedisClient → ℕ → List Bytes → InMemoryRedisClient × List Bytes
mget c now [] = (c, [])
mget c now (key ∷ keys) =
    let r = get c now key in
    let rest = mget r.0 now keys in (rest.0, (elim r.1 [ none ↦ [] | some value ↦ value ]) ∷ rest.1)

-- `MSet`, which stops at the first `Set` that fails.
pub mset : InMemoryRedisClient → ℕ → List (Bytes × Bytes) → InMemoryRedisClient × Bool
mset c now [] = (c, true)
mset c now ((key, value) ∷ kvs) =
    let r = set c now key value (negsuc 0) in
    let rest = mset r.0 now kvs in if r.1 then rest else (r.0, false)
