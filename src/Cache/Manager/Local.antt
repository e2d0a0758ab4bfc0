-- ===== src/Cache/Manager/Local.antt =====
-- `CacheManager` over the client that `RedisClientFactory` makes, which keeps its keys in memory.
use mini_search_rec.Prelude.{ℕ, ◌≡◌, none, done, Bytes, bytes_discrete}
use mini_search_rec.Cache.Lru.Links.{IsValid}
use mini_search_rec.Cache.Redis.Memory.{InMemoryRedisClient}
use mini_search_rec.Cache.Redis.Memory.Expiry.{memory, memory_get-del}
use mini_search_rec.Cache.Manager.{CacheManager, get, delete}
use mini_search_rec.Cache.Manager.Levels.{get-delete}

-- After a `Delete` of a manager over the in-memory client, connected or not, a `Get` of the key answers
-- nothing.
pub get-delete-memory :
    (fuel : ℕ) (m : CacheManager InMemoryRedisClient) (key : Bytes) (now later after : ℕ)
    → IsValid bytes_discrete m.local_cache
    → (m' : CacheManager InMemoryRedisClient) × (get memory fuel
          (delete memory m key now).0
          key
          later
          after
        ≡ done (m', none))
get-delete-memory fuel m key now later after v =
    get-delete memory fuel m key now later after v (λ client. memory_get-del client key now later)
