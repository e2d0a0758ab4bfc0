-- ===== src/Cache/Manager/Levels.antt =====
-- How the two levels of `CacheManager` work together.
use mini_search_rec.Prelude.{
  ℕ, zero, suc, ◌<◌, ◌≡◌, refl, sym, ap, ◌∙◌, true, if◌then◌else◌, pos, negsuc, ltb_ℤ, [], ◌∷◌,
  ◌++◌, none, some, Option-cases, inl, inr, arith, done, ℤ, Bytes, bytes_discrete,
}
use mathlib.Core.List.{append_assoc}
use mini_search_rec.Prelude.Decimal.{decimal}
use mini_search_rec.Cache.Lru
use mini_search_rec.Cache.Lru.{LruCache}
use mini_search_rec.Cache.Lru.Ideal.{answer}
use mini_search_rec.Cache.Lru.Links.{entries, IsValid}
use mini_search_rec.Cache.Lru.Refine.{get-refines}
use mini_search_rec.Cache.Lru.Writes.{put-refines, delete-refines}
use mini_search_rec.Cache.Lru.Sweep.{clear_lem}
use mini_search_rec.Cache.Lru.Promises.{lives, answer-after_put, answer-remove}
use mini_search_rec.Cache.Redis.{RedisClient}
use mini_search_rec.Cache.Manager.{
  CacheManager, CacheConfig, Stats, SearchRequest, bump, ttl_or, available, get, set, delete,
  initialize, make_cache_key, missed, uid_or_blank,
}

uid_or_blank-append :
    (u v w : Bytes) (c : ℕ) (cs : Bytes)
    → u ≡ c ∷ cs
    → uid_or_blank (u ++ v) ++ w ≡ uid_or_blank u ++ (v ++ w)
uid_or_blank-append u v w c cs h = rw h (append_assoc (c ∷ cs) v w)

-- Two requests of different users have one cache key: what stands behind a colon in the user's name
-- may as well stand before the query.
pub make_cache_key-collides :
    (req : SearchRequest) (c : ℕ) (cs name : Bytes)
    → req.uid ≡ c ∷ cs
    → make_cache_key (record req { uid = req.uid ++ b':' ∷ name })
      ≡ make_cache_key (record req { query = name ++ b':' ∷ req.query })
unfolding make_cache_key
make_cache_key-collides req c cs name h =
    ap
      (λ b.
        b
        ++ (b':' ∷ decimal req.page)
        ++ (b':' ∷ decimal req.page_size)
        ++ (b':' ∷ req.business_type))
      (uid_or_blank-append req.uid (b':' ∷ name) (b':' ∷ req.query) c cs h)

-- The time to live of a `Set`: the given one if that is above 0, else the configured one.
abbrev pub chosen : ℤ → ℤ → ℤ
chosen ttl configured = if ltb_ℤ (pos 0) ttl then ttl else configured

chosen-ttl_or : (ttl configured : ℤ) → chosen ttl configured ≡ ttl_or ttl configured
unfolding ttl_or
chosen-ttl_or (pos zero) d = refl
chosen-ttl_or (pos (suc n)) d = ground arith
chosen-ttl_or (negsuc n) d = refl

module _ (R : RedisClient) where
  -- `Initialize` leaves an empty local cache of the old capacity, whatever the new configuration says.
  pub initialize-capacity :
      (m : CacheManager R.Client) (config : CacheConfig)
      → ((initialize R m config).local_cache.capacity ≡ m.local_cache.capacity)
        × (entries (initialize R m config).local_cache.nodes ≡ [])
        × ((initialize R m config).config ≡ config)
  unfolding initialize
  initialize-capacity m config = ground (arith, clear_lem m.local_cache)

  -- A key that is live in the local cache is answered from there, Redis is not asked, and the one
  -- counter that moves is that of the local hits.
  pub get_local :
      (fuel : ℕ) (m : CacheManager R.Client) (key : Bytes) (now later : ℕ) (value : Bytes)
      → IsValid bytes_discrete m.local_cache
      → answer bytes_discrete key now (entries m.local_cache.nodes) ≡ some value
      → (m' : CacheManager R.Client) × (get R fuel m key now later ≡ done (m', some value))
        × IsValid bytes_discrete m'.local_cache
        × (m'.redis_client ≡ m.redis_client)
        × (m'.stats ≡ record (m.stats) { l1_hits = bump m.stats.l1_hits })
  unfolding get
  get_local fuel m key now later value valid h =
      let (l, got, v, es, same) = get-refines bytes_discrete m.local_cache key now valid in
      (
        record m { local_cache = l; stats = record (m.stats) { l1_hits = bump m.stats.l1_hits } },
        rw got (rw h refl),
        v,
        refl,
        refl,
      )

  -- A key that neither level holds, or that Redis is not there to ask for, is a miss: the answer is
  -- none and the one counter that moves is that of the misses.
  pub get_missed :
      (fuel : ℕ) (m : CacheManager R.Client) (key : Bytes) (now later : ℕ)
      → IsValid bytes_discrete m.local_cache
      → answer bytes_discrete key now (entries m.local_cache.nodes) ≡ none
      → ((client : R.Client) → available R m ≡ some client → (R.get client now key).1 ≡ none)
      → (m' : CacheManager R.Client) × (get R fuel m key now later ≡ done (m', none))
        × IsValid bytes_discrete m'.local_cache
        × (m'.stats ≡ record (m.stats) { misses = bump m.stats.misses })
  unfolding get missed
  get_missed fuel m key now later valid absent nowhere =
      let (l, got, v, es, same) = get-refines bytes_discrete m.local_cache key now valid in
      let stats' : Stats = record (m.stats) { misses = bump m.stats.misses } in
      elim (Option-cases (available R m)) [
        | inl down ↦ (record m { local_cache = l; stats = stats' }, ground arith, v, refl)
        | inr (client, up) ↦ (
          record m {
            local_cache = l;
            redis_client = some (R.get client now key).0;
            stats = stats';
          },
          ground (arith, nowhere client up),
          v,
          refl,
        )
      ]

  -- With a valid local cache of positive capacity, a key that only Redis holds is answered from there and
  -- put into the local cache: until its local time to live has passed, the next `Get` answers it without
  -- asking Redis again.
  pub get_backfill :
      (fuel : ℕ) (m : CacheManager R.Client) (key : Bytes) (now later again after : ℕ)
      (client client' : R.Client) (value : Bytes)
      → IsValid bytes_discrete m.local_cache
      → 0 < m.local_cache.capacity
      → answer bytes_discrete key now (entries m.local_cache.nodes) ≡ none
      → available R m ≡ some client
      → R.get client now key ≡ (client', some value)
      → lives m.config.local_ttl_seconds later again ≡ true
      → (m' m'' : CacheManager R.Client) × (get R (suc (suc fuel)) m key now later
          ≡ done (m', some value))
        × (m'.stats ≡ record (m.stats) { l2_hits = bump m.stats.l2_hits })
        × (m'.redis_client ≡ some client')
        × (get R (suc (suc fuel)) m' key again after ≡ done (m'', some value))
        × (m''.redis_client ≡ some client')
  unfolding get
  get_backfill fuel m key now later again after client client' value valid room absent up reply
        fresh =
      let (l, got, v, es, same) = get-refines bytes_discrete m.local_cache key now valid in
      let ttl = m.config.local_ttl_seconds in
      let (l', stored, v', es', same') =
        put-refines bytes_discrete fuel l key value ttl later v (omega arith) in
      let m' : CacheManager R.Client = record m {
        local_cache = l';
        redis_client = some client';
        stats = record (m.stats) { l2_hits = bump m.stats.l2_hits };
      } in
      let held : answer bytes_discrete key again (entries l'.nodes) ≡ some value =
        ap (answer bytes_discrete key again) es'
        ∙ (answer-after_put bytes_discrete l.capacity key value ttl later again (entries l.nodes)
            ∙ rw fresh refl) in
      let (m'', got', v'', kept, stats') =
        get_local (suc (suc fuel)) m' key again after value v' held in
      (m', m'', ground arith, refl, refl, got', kept)

  -- With a valid local cache of positive capacity, after a `Set` a `Get` of the key answers the value from
  -- the local cache until its time to live has passed, and the local cache answers nothing after that. The
  -- time to live is the given one, or the configured one if that is not positive.
  pub get-set :
      (fuel : ℕ) (m : CacheManager R.Client) (key value : Bytes) (ttl : ℤ) (now later after : ℕ)
      → IsValid bytes_discrete m.local_cache
      → 0 < m.local_cache.capacity
      → lives (chosen ttl m.config.local_ttl_seconds) now later ≡ true
      → (m' m'' : CacheManager R.Client) × (set R (suc (suc fuel)) m key value ttl now ≡ done m')
        × (get R (suc (suc fuel)) m' key later after ≡ done (m'', some value))
        × (m''.redis_client ≡ m'.redis_client)
        × ((late : ℕ)
            → answer bytes_discrete key late (entries m'.local_cache.nodes) ≡ (
                if lives (chosen ttl m.config.local_ttl_seconds) now late
                then some value
                else none))
  unfolding set
  get-set fuel m key value ttl now later after valid room fresh =
      let t = ttl_or ttl m.config.local_ttl_seconds in
      let same_ttl = chosen-ttl_or ttl m.config.local_ttl_seconds in
      let (l, stored, v, es, same) =
        put-refines bytes_discrete fuel m.local_cache key value t now valid room in
      let held : answer bytes_discrete key later (entries l.nodes) ≡ some value =
        ap (answer bytes_discrete key later) es
        ∙ (answer-after_put bytes_discrete m.local_cache.capacity key value t now later
              (entries m.local_cache.nodes)
            ∙ rw (← same_ttl) (rw fresh refl)) in
      let at = λ (late : ℕ).
        ap (answer bytes_discrete key late) es
        ∙ (answer-after_put bytes_discrete m.local_cache.capacity key value t now late
              (entries m.local_cache.nodes)
            ∙ ap (λ u. if lives u now late then some value else none) (sym same_ttl)) in
      elim (Option-cases (available R m)) [
        | inl down ↦
            let m' : CacheManager R.Client = record m { local_cache = l } in
            let (m'', got, v', kept, stats') =
              get_local (suc (suc fuel)) m' key later after value v held in
            (m', m'', rw stored (rw down refl), got, kept, at)
        | inr (client, up) ↦
            let ttl2 = ttl_or ttl m.config.redis_ttl_seconds in
            let m' : CacheManager R.Client = record m {
              local_cache = l;
              redis_client = some (R.set client now key value ttl2).0;
            } in
            let (m'', got, v', kept, stats') =
              get_local (suc (suc fuel)) m' key later after value v held in
            (m', m'', rw stored (rw up refl), got, kept, at)
      ]

  -- After a `Delete`, a `Get` of the key answers nothing, if a Redis that is asked for a key just
  -- deleted has none.
  pub get-delete :
      (fuel : ℕ) (m : CacheManager R.Client) (key : Bytes) (now later after : ℕ)
      → IsValid bytes_discrete m.local_cache
      → ((client : R.Client) → (R.get (R.del client now key).0 later key).1 ≡ none)
      → (m' : CacheManager R.Client) × (get R fuel (delete R m key now).0 key later after
          ≡ done (m', none))
  unfolding delete available
  get-delete fuel m key now later after valid law =
      let (v, es, held, same) = delete-refines bytes_discrete m.local_cache key valid in
      let absent =
        ap (answer bytes_discrete key later) es
        ∙ answer-remove bytes_discrete key later m.local_cache.nodes valid.linked in
      let l = (Lru.delete bytes_discrete m.local_cache key).0 in
      elim (Option-cases (available R m)) [
        | inl down ↦
            let m' : CacheManager R.Client = record m { local_cache = l } in
            let (m'', got, v', stats') =
              get_missed fuel m' key later after v absent (λ client up. absurd (ground arith)) in
            (m'', ground arith)
        | inr (client, up) ↦
            let m' : CacheManager R.Client = record m {
              local_cache = l;
              redis_client = some (R.del client now key).0;
            } in
            let gone = law client in
            let (m'', got, v', stats') =
              get_missed fuel m' key later after v absent
                (λ other there. ground (arith, law client)) in
            (m'', ground arith)
      ]
