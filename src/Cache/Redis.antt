-- ===== src/Cache/Redis.antt =====
-- src/cache/redis_client.h: the interface `RedisClient` as `CacheManager` uses it: a state with
-- operations, so that a theorem about the manager can be read for any client.
pub mod Memory
use mini_search_rec.Prelude.{ℕ, Bool, Bytes, Option, ℤ}

pub record RedisClient : Type 1 where
  pub Client : Type 0
  -- `RedisClientFactory::Create`, which may give no client
  pub create : Option Client
  pub connect : Client → Bytes → ℕ → Bytes → Client × Bool
  -- the time is that of the clock when the command is carried out
  pub get : Client → ℕ → Bytes → Client × Option Bytes
  pub set : Client → ℕ → Bytes → Bytes → ℤ → Client × Bool
  pub del : Client → ℕ → Bytes → Client × Bool
