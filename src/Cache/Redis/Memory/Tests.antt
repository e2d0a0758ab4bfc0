-- ===== src/Cache/Redis/Memory/Tests.antt =====
-- `InMemoryRedisClient` with one key and one list.
use mini_search_rec.Prelude.{
  ◌≡◌, refl, true, List, [], ◌∷◌, ◌++◌, some, arith, find, Bytes, bytes_discrete, ℕ_discrete,
}
use mini_search_rec.Cache.Redis.Memory.{InMemoryRedisClient, lpush, rpush, lpop, slot}
use mini_search_rec.Cache.Redis.Memory.Lists.{Bounded, lpop_order}

abbrev key_a : Bytes
key_a = b'a' ∷ []

abbrev key_b : Bytes
key_b = b'b' ∷ []

-- Key a is to live until time 100, and key b is a list.
abbrev client : InMemoryRedisClient
client = record {
  host = [];
  port = 6379;
  connected = true;
  store = (key_a, key_a) ∷ [];
  expirations = (key_a, 100) ∷ [];
  hash_store = [];
  list_store = (key_b, key_a ∷ []) ∷ [];
  set_store = [];
}

client-Bounded : Bounded client
unfolding find
client-Bounded key = ground arith

lpop_order_example :
    ((lpop (lpush client key_b key_b).0 key_b).1 ≡ some key_b)
    × (slot key_b (lpop (lpush client key_b key_b).0 key_b).0.list_store ≡ key_a ∷ [])
    × ((x : Bytes) (xs : List Bytes)
        → slot key_b client.list_store ≡ x ∷ xs
        → ((lpop (rpush client key_b key_b).0 key_b).1 ≡ some x)
          × (slot key_b (lpop (rpush client key_b key_b).0 key_b).0.list_store
              ≡ xs ++ (key_b ∷ [])))
unfolding find bytes_discrete ℕ_discrete
lpop_order_example = lpop_order client key_b key_b refl (omega arith)
