-- ===== src/Cache/Redis/Memory/Expiry.antt =====
-- String keys of `InMemoryRedisClient` and their times to live.
use mini_search_rec.Prelude.{
  ℕ, suc, ◌+◌, ◌*◌, ◌<◌, ◌≡◌, ◌≢◌, true, if◌then◌else◌, ltb, none, some, arith, find, insert,
  find-insert, find-erase, pos, Bytes, bytes_discrete,
}
use mini_search_rec.Cache.Redis.{RedisClient}
use mini_search_rec.Cache.Redis.Memory.{
  InMemoryRedisClient, new_client, connect, set, get, del, schedule,
}

-- The client as `CacheManager` gets it from `RedisClientFactory::Create`.
abbrev pub memory : RedisClient
memory = record {
  Client = InMemoryRedisClient;
  create = some new_client;
  connect = connect;
  get = get;
  set = set;
  del = del;
}

-- A connected client answers a key that was set with a positive time to live until that has passed,
-- and then nothing; every other key is answered as before.
pub memory_get-set :
    (c : InMemoryRedisClient) (key value : Bytes) (n now later : ℕ)
    → c.connected ≡ true
    → ((get (set c now key value (pos (suc n))).0 later key).1
        ≡ (if ltb (now + suc n * 1_000_000_000) later then none else some value))
      × ((other : Bytes)
          → key ≢ other
          → (get (set c now key value (pos (suc n))).0 later other).1 ≡ (get c later other).1)
unfolding get set schedule
memory_get-set c key value n now later up = (
  ground (
    arith,
    find-insert bytes_discrete key key value c.store,
    find-insert bytes_discrete key key (now + suc n * 1_000_000_000) c.expirations,
  ),
  (λ other apart. ground (
    arith,
    find-insert bytes_discrete key other value c.store,
    find-insert bytes_discrete key other (now + suc n * 1_000_000_000) c.expirations,
  )),
)

-- A key that was deleted is answered by nothing, whatever the state of the client.
pub memory_get-del :
    (c : InMemoryRedisClient) (key : Bytes) (now later : ℕ)
    → (get (del c now key).0 later key).1 ≡ none
unfolding get del
memory_get-del c key now later = ground (
  arith,
  find-erase bytes_discrete key key c.store,
  find-erase bytes_discrete key key c.expirations,
)

-- A `Set` without a time to live does not take away that of an earlier `Set`: once the old time has
-- passed, the new value is not answered, and it is erased.
pub memory_set_keeps_expiry :
    (c : InMemoryRedisClient) (key value : Bytes) (t now later : ℕ)
    → c.connected ≡ true
    → find bytes_discrete key c.expirations ≡ some t
    → t < later
    → ((get (set c now key value (pos 0)).0 later key).1 ≡ none)
      × (find bytes_discrete key (get (set c now key value (pos 0)).0 later key).0.store ≡ none)
unfolding get set schedule
memory_set_keeps_expiry c key value t now later up old passed =
    let gone = find-erase bytes_discrete key key (insert bytes_discrete key value c.store) in
    (ground arith, ground (arith, gone))
