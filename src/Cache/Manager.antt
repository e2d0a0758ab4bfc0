-- ===== src/Cache/Manager.antt =====
-- src/cache/cache_manager.h and .cpp: `CacheManager`, a local LRU cache (L1) before an optional Redis
-- (L2). The atomics and mutexes only guard single fields, so a call is one step; `now` and `later`
-- are the two readings of the clock in a call. The counters of `Stats` are `uint64_t`.
pub mod Levels
pub mod Local
mod Tests
use mini_search_rec.Prelude.{
  ℕ, suc, ◌+◌, ◌/◌, ◌%◌, ◌^◌, ltb, Bool, true, false, ◌&&◌, if◌then◌else◌, List, [], ◌∷◌, length,
  Option, none, some, Outcome, done, ◌>>=◌, ℤ, pos, negsuc, zero, Bytes, bytes_discrete, ◌++◌,
}
use mini_search_rec.Prelude.Decimal.{decimal}
use mini_search_rec.Cache.Lru
use mini_search_rec.Cache.Lru.{LruCache}
use mini_search_rec.Cache.Redis.{RedisClient}

pub record CacheConfig : Type 0 where
  pub local_capacity : ℕ
  pub local_ttl_seconds : ℤ
  pub redis_enabled : Bool
  pub redis_host : Bytes
  pub redis_port : ℕ
  pub redis_password : Bytes
  pub redis_ttl_seconds : ℤ

pub record Stats : Type 0 where
  pub l1_hits : ℕ
  pub l2_hits : ℕ
  pub misses : ℕ
  pub l1_size : ℕ

pub record CacheManager (Client : Type 0) : Type 0 where
  pub local_cache : LruCache Bytes Bytes
  pub redis_client : Option Client
  pub redis_connected : Bool
  pub config : CacheConfig
  pub stats : Stats

-- `stats_.l1_hits++`
abbrev pub bump : ℕ → ℕ
bump n = (n + 1) % 2 ^ 64

-- `ttl_seconds > 0 ? ttl_seconds : default_ttl`
pub ttl_or : ℤ → ℤ → ℤ
ttl_or (pos zero) default = default
ttl_or (pos (suc n)) default = pos (suc n)
ttl_or (negsuc n) default = default

pub record SearchRequest : Type 0 where
  pub uid : Bytes
  pub query : Bytes
  pub page : ℤ
  pub page_size : ℤ
  pub business_type : Bytes

-- `req.uid().empty() ? "_" : req.uid()`
abbrev pub uid_or_blank : Bytes → Bytes
uid_or_blank [] = b'_' ∷ []
uid_or_blank (c ∷ cs) = c ∷ cs

-- `MakeCacheKey`
pub make_cache_key : SearchRequest → Bytes
make_cache_key req =
    uid_or_blank req.uid
    ++ (b':' ∷ req.query)
    ++ (b':' ∷ decimal req.page)
    ++ (b':' ∷ decimal req.page_size)
    ++ (b':' ∷ req.business_type)

module _ (R : RedisClient) where
  -- The constructor.
  pub init : CacheConfig → ℕ → CacheManager R.Client
  init defaults local_capacity = record {
    local_cache = Lru.init local_capacity;
    redis_client = none;
    redis_connected = false;
    config = record defaults { local_capacity = local_capacity };
    stats = record { l1_hits = 0; l2_hits = 0; misses = 0; l1_size = 0 };
  }

  -- `Initialize`: the local cache is emptied and keeps its capacity.
  pub initialize : CacheManager R.Client → CacheConfig → CacheManager R.Client
  initialize m config =
      let m' : CacheManager R.Client = record m {
        config = config;
        local_cache = Lru.clear m.local_cache;
      } in
      if config.redis_enabled
      then elim R.create [
        | none ↦ record m' { redis_client = none }
        | some client ↦
            let r = R.connect client config.redis_host config.redis_port config.redis_password in
            record m' { redis_client = some r.0; redis_connected = r.1 }
      ]
      else m'

  -- `redis_connected_ && redis_client_`
  pub available : CacheManager R.Client → Option R.Client
  available m = if m.redis_connected then m.redis_client else none

  missed : CacheManager R.Client → CacheManager R.Client
  missed m = record m { stats = record (m.stats) { misses = bump m.stats.misses } }

  pub get :
      ℕ → CacheManager R.Client → Bytes → ℕ → ℕ → Outcome (CacheManager R.Client × Option Bytes)
  unfolding missed
  get fuel m key now later = do
    (l, l1_result) ← Lru.get bytes_discrete m.local_cache key now
    let m1 : CacheManager R.Client = record m { local_cache = l }
    elim l1_result [
      | some value ↦
          done
            (record m1 { stats = record (m.stats) { l1_hits = bump m.stats.l1_hits } }, some value)
      | none ↦ elim (available m) [
        | none ↦ done (missed m1, none)
        | some client ↦
            let r = R.get client now key in
            let m2 : CacheManager R.Client = record m1 { redis_client = some r.0 } in
            elim r.1 [
              | none ↦ done (missed m2, none)
              | some value ↦ do
                l' ← Lru.put bytes_discrete fuel l key value m.config.local_ttl_seconds later
                done (
                  record m2 {
                    local_cache = l';
                    stats = record (m.stats) { l2_hits = bump m.stats.l2_hits };
                  },
                  some value,
                )
            ]
      ]
    ]

  pub set : ℕ → CacheManager R.Client → Bytes → Bytes → ℤ → ℕ → Outcome (CacheManager R.Client)
  set fuel m key value ttl_seconds now = do
    l ←
        Lru.put bytes_discrete fuel m.local_cache key value
          (ttl_or ttl_seconds m.config.local_ttl_seconds) now
    let m1 : CacheManager R.Client = record m { local_cache = l }
    elim (available m) [
      | none ↦ done m1
      | some client ↦
          let r = R.set client now key value (ttl_or ttl_seconds m.config.redis_ttl_seconds) in
          done (record m1 { redis_client = some r.0 })
    ]

  pub delete : CacheManager R.Client → Bytes → ℕ → CacheManager R.Client × Bool
  delete m key now =
      let r = Lru.delete bytes_discrete m.local_cache key in
      let m1 : CacheManager R.Client = record m { local_cache = r.0 } in
      elim (available m) [
        | none ↦ (m1, r.1)
        | some client ↦ (record m1 { redis_client = some (R.del client now key).0 }, r.1)
      ]

  pub clear : CacheManager R.Client → CacheManager R.Client
  clear m = record m { local_cache = Lru.clear m.local_cache }

  pub get_stats : CacheManager R.Client → Stats
  get_stats m = record (m.stats) { l1_size = Lru.size m.local_cache }

  -- `IsRedisAvailable`
  pub is_redis_available : CacheManager R.Client → Bool
  is_redis_available m = elim m.redis_client [ none ↦ false | some _ ↦ m.redis_connected ]

  -- The protocol buffer codec of `SearchResponse`, which the build generates.
  module _ {Response : Type 0} (parse : Bytes → Option Response)
      (serialize : Response → Option Bytes) where
    pub get_search_cache :
        ℕ
        → CacheManager R.Client
        → Bytes
        → ℕ
        → ℕ
        → Outcome (CacheManager R.Client × Option Response)
    get_search_cache fuel m cache_key now later = do
      (m', cached) ← get fuel m cache_key now later
      done (m', (elim cached [ none ↦ none | some bytes ↦ parse bytes ]))

    pub set_search_cache :
        ℕ → CacheManager R.Client → Bytes → Response → ℤ → ℕ → Outcome (CacheManager R.Client)
    set_search_cache fuel m cache_key response ttl_seconds now = elim (serialize response) [
      | none ↦ done m
      | some bytes ↦ set fuel m cache_key bytes ttl_seconds now
    ]
