-- ===== src/Cache/Manager/Tests.antt =====
-- `CacheManager` over a Redis that holds one key.
use mini_search_rec.Prelude.{
  ℕ, none, if◌then◌else◌, ◌≡◌, refl, true, List, [], ◌∷◌, some, arith, done, pos, Bytes,
  bytes_discrete, ℕ_discrete, find, insert, erase,
}
use mini_search_rec.Cache.Lru.{deref, expiry}
use mini_search_rec.Cache.Lru.Ideal.{answer, lookup}
use mini_search_rec.Cache.Lru.Links.{entries, IsValid, address_of}
use mini_search_rec.Cache.Redis.{RedisClient}
use mini_search_rec.Cache.Redis.Memory.{InMemoryRedisClient}
use mini_search_rec.Cache.Manager.{CacheManager, CacheConfig, SearchRequest, get, set, available}
use mini_search_rec.Cache.Lru.Promises.{lives}
use mini_search_rec.Cache.Manager.Levels.{chosen, get_backfill, get-set}

-- A server whose keys do not expire.
abbrev server : RedisClient
server = record {
  Client = List (Bytes × Bytes);
  create = some [];
  connect = λ c host port password. (c, true);
  get = λ c now key. (c, find bytes_discrete key c);
  set = λ c now key value ttl. (insert bytes_discrete key value c, true);
  del = λ c now key. (erase bytes_discrete key c, true);
}

abbrev settings : CacheConfig
settings = record {
  local_capacity = 2;
  local_ttl_seconds = pos 1;
  redis_enabled = true;
  redis_host = [];
  redis_port = 6379;
  redis_password = [];
  redis_ttl_seconds = pos 60;
}

abbrev key_a : Bytes
key_a = b'a' ∷ []

abbrev key_b : Bytes
key_b = b'b' ∷ []

-- Redis has key a, the local cache key b.
abbrev manager : CacheManager (List (Bytes × Bytes))
manager = record {
  local_cache = record {
    capacity = 2;
    nodes = (0, record { key = key_b; value = key_b; expire_time = 0 }) ∷ [];
    index = (key_b, 0) ∷ [];
    fresh = 1;
  };
  redis_client = some ((key_a, key_a) ∷ []);
  redis_connected = true;
  config = settings;
  stats = record { l1_hits = 0; l2_hits = 0; misses = 0; l1_size = 0 };
}

local-IsValid : IsValid bytes_discrete (manager.local_cache)
unfolding address_of find deref
local-IsValid = record {
  linked = (refl, refl, tt);
  below = (omega arith, tt);
  indexed = λ k. refl;
  distinct = (refl, tt);
  same_size = refl;
  bounded = omega arith;
}

-- A user whose name has a colon in it.
abbrev request : SearchRequest
request = record {
  uid = key_a;
  query = key_b;
  page = pos 1;
  page_size = pos 20;
  business_type = [];
}

get_backfill_example :
    (m' m'' : CacheManager (List (Bytes × Bytes))) × (get server 2 manager key_a 10 11
      ≡ done (m', some key_a))
    × (m'.stats ≡ record { l1_hits = 0; l2_hits = 1; misses = 0; l1_size = 0 })
    × (m'.redis_client ≡ some ((key_a, key_a) ∷ []))
    × (get server 2 m' key_a 12 13 ≡ done (m'', some key_a))
    × (m''.redis_client ≡ some ((key_a, key_a) ∷ []))
unfolding answer lookup bytes_discrete available find expiry ℕ_discrete
get_backfill_example =
    get_backfill server 0 manager key_a 10 11 12 13 ((key_a, key_a) ∷ []) ((key_a, key_a) ∷ [])
      key_a local-IsValid (omega arith) refl refl refl refl

get-set_example :
    (m' m'' : CacheManager (List (Bytes × Bytes))) × (set server 2 manager key_a key_b (pos 5) 10
      ≡ done m')
    × (get server 2 m' key_a 12 13 ≡ done (m'', some key_b))
    × (m''.redis_client ≡ m'.redis_client)
    × ((late : ℕ)
        → answer bytes_discrete key_a late (entries m'.local_cache.nodes) ≡ (
            if lives (chosen (pos 5) manager.config.local_ttl_seconds) 10 late
            then some key_b
            else none))
unfolding ℕ_discrete
get-set_example =
    get-set server 0 manager key_a key_b (pos 5) 10 12 13 local-IsValid (omega arith) refl

-- A manager whose client is connected and holds key a.
abbrev local_manager : CacheManager InMemoryRedisClient
local_manager = record {
  local_cache = manager.local_cache;
  redis_client = some (record {
    host = [];
    port = 6379;
    connected = true;
    store = (key_a, key_a) ∷ [];
    expirations = [];
    hash_store = [];
    list_store = [];
    set_store = [];
  });
  redis_connected = true;
  config = settings;
  stats = manager.stats;
}
