-- ===== src/Lib.antt =====
-- MiniSearchRec: a search and recommendation server in C++. This library models its cache, its
-- inverted index with its files, its query normalizer, its suggestion trie, its request handlers with
-- their moderation rules and filters, its hashes, and the execution of its recall pipelines.
--
-- The program and the part modelled here. A request goes from the HTTP gateway (src/gateway) to a
-- handler (src/biz, over src/framework/handler), which runs a pipeline of recall processors
-- (src/framework/processor) over the indexes (src/lib/index), ranks and filters what they give
-- (src/lib/rank, src/lib/filter) and keeps the answer in a cache of two levels (src/cache).
--
-- Prelude: native numbers, lists, association lists for hash maps, `Outcome` for calls that can read
-- an erased node or not return.
-- Cache/Lru: src/cache/lru_cache.h. `std::list` is a list of addressed nodes, `map_` holds addresses;
-- get, put, delete, clear, size, evict_one (EvictOneLocked), evict_expired. Ideal is the specification,
-- Links the invariant.
-- Cache/Redis: src/cache/redis_client.h, the interface; Cache/Redis/Memory: src/cache/redis_client.cpp,
-- `InMemoryRedisClient`, the client that `RedisClientFactory::Create` makes.
-- Cache/Manager: src/cache/cache_manager.h and .cpp, `CacheManager` over a local LRU cache and a client.
-- Index/Tokenizer, Index/Inverted, Index/Queries: src/lib/index/inverted_index.h and .cpp, as built
-- without cppjieba: the tokenizer, the updates and the queries of `InvertedIndex`.
-- Index/Persistence: `Save` and `Load` of the same file: save is the text of an index, load reads it.
-- Query/Normalizer: src/lib/query/query_normalizer.cpp, with the functions of
-- src/utils/string_utils.cpp that it calls; a function per pass, composed by normalize.
-- Utils/Strings: the other functions of src/utils/string_utils.cpp but for UrlDecode, Format and
-- ReplaceAll.
-- Utils/Hashes: src/utils/hash_utils.cpp, a function for each hash.
-- Biz/SugTrie: src/biz/sug/sug_trie.h and .cpp, the prefix tree of the suggestions; build and search.
-- Biz/Search: of src/biz/search, DoInterpose and the page of SetResponse (search_handler.cpp) and the
-- pass of a filter (search_session.h); Biz/Search/Filters: the filters of src/lib/filter. An answer
-- whose computation overflows an `int` or reads out of range is none.
-- Framework/Dag: src/framework/processor/dag_pipeline.h and .cpp. BuildDag is the function build_dag;
-- Execute and ExecuteNode are the relation Step, in which the submitting thread and the workers
-- interleave freely, with the mutex and the condition variable on which Execute waits; Visit, Order, Acyclic, Links and Cycles are about Kahn's algorithm in BuildDag.
-- Framework/Pool: src/framework/processor/dag_thread_pool.h, a relation Step for the methods and the
-- workers, with the sleeping and waking of the condition variable.
-- Framework/Pipeline: src/framework/processor/processor_pipeline.cpp, and LoadFromConfig of
-- dag_pipeline.cpp beside it: load, load_dag and execute over a registry of processors.
-- Framework/Pipeline/Manager is PipelineManager: init, get_config, hot_reload.
-- Framework/Handler: src/framework/handler/base_handler.h and .cpp. search (Search) runs the virtual
-- stages, which are the fields of the record Handler; Handler/Stages has the default stages, with
-- do_interpose (DoInterpose); Handler/Manager is src/framework/handler/handler_manager.cpp with
-- src/framework/class_register.h and src/framework/session/session_factory.cpp.
--
-- Time, locks and numbers. A call that holds its lock from beginning to end is one step. The clock is
-- an argument, in nanoseconds; where a `Put` reads it twice, for the new entry and for the eviction,
-- the two readings are one. A time to live of an `int` is an integer; the addition of it to the clock
-- does not overflow. Sums of lengths and frequencies and the
-- statistics wrap at 32 or 64 bits; a count of things in memory (the documents of an index, the `int`
-- scores and sizes of a query, the degrees of a node) stays below its bound and is a natural number. Field weights are counted in halves and the average
-- length is a pair of numbers, so that no result rests on the rounding of a float. Where the source
-- leaves an order to a hash map or to an unstable sort, the model keeps the order of insertion.
--
-- Fuel. The loop of `LRUCache::Put` runs on fuel: two rounds are enough on a valid cache of positive
-- capacity, since the list is never longer than the capacity. Kahn's loop in `BuildDag` runs on fuel:
-- one round more than there are nodes is enough.
--
-- Not modelled: the file system and SQLite (src/lib/storage, the document store),
-- floating point (vectors, features, scores), YAML and JSON, the protocol buffer codec (a parameter),
-- the gateway, and so far the other business handlers, query parsing and expansion, the scheduler
-- and the tests of ranking experiments. Of `InMemoryRedisClient`, Incr, Decr, ZAdd and ZRank are left out.
pub mod Prelude
pub mod Cache
pub mod Index
pub mod Framework
pub mod Biz
pub mod Query
pub mod Utils
