-- ===== src/Cache/Lru/Tests.antt =====
-- `LRUCache` on concrete caches.
use mini_search_rec.Prelude.{
  ℕ, true, ◌+◌, ◌≤◌, ◌≡◌, ◌⊎◌, refl, if◌then◌else◌, List, [], ◌∷◌, length, none, some, arith, done,
  running, find, pos, ℕ_discrete,
}
use mini_search_rec.Cache.Lru.{
  CacheEntry, LruCache, init, get, put, evict_one, is_expired, expiry, deref,
}
use mini_search_rec.Cache.Lru.Ideal.{
  lookup, remove, oldest, oldest_expired, live, victim, after_put, after_get, answer, evict, holds,
}
use mini_search_rec.Cache.Lru.Links.{entries, IsValid, address_of}
use mini_search_rec.Cache.Lru.History.{
  Call, gets, puts, deletes, sizes, value, nothing, flag, count, run, ideal_run, ideal_step,
  run-refines,
}
use mini_search_rec.Cache.Lru.Promises.{lives, evict_one-victim, get-put, put_never_returns}

-- Key 7 is put to live a second, key 9 takes its place when it has expired.
abbrev calls : List (ℕ × Call ℕ ℕ)
calls =
    (10, puts 7 70 (pos 1))
    ∷ (20, puts 8 80 (pos 0))
    ∷ (30, gets 7)
    ∷ (2_000_000_000, puts 9 90 (pos 0))
    ∷ (2_000_000_001, gets 7)
    ∷ (2_000_000_002, gets 8)
    ∷ (2_000_000_003, sizes)
    ∷ (2_000_000_004, deletes 9)
    ∷ []

answers :
    (ideal_run ℕ_discrete 2 [] calls).1
    ≡ nothing
      ∷ nothing
      ∷ value (some 70)
      ∷ nothing
      ∷ value none
      ∷ value (some 80)
      ∷ count 2
      ∷ flag true
      ∷ []
unfolding ideal_run ideal_step after_put after_get answer lookup evict victim oldest oldest_expired
    remove holds expiry ℕ_discrete
answers = refl

run-refines_example :
    (c : LruCache ℕ ℕ) × (run ℕ_discrete 2 (init 2) calls
      ≡ done (c, (ideal_run ℕ_discrete 2 [] calls).1))
    × IsValid ℕ_discrete c
    × (entries c.nodes ≡ (ideal_run ℕ_discrete 2 [] calls).0)
    × (length c.nodes ≤ 2)
run-refines_example = run-refines ℕ_discrete 0 2 calls (omega arith)

abbrev full : LruCache ℕ ℕ
full = record {
  capacity = 2;
  nodes =
      (1, record { key = 8; value = 80; expire_time = 50 })
      ∷ (0, record { key = 7; value = 70; expire_time = 0 })
      ∷ [];
  index = (7, 0) ∷ (8, 1) ∷ [];
  fresh = 2;
}

full-IsValid : IsValid ℕ_discrete full
unfolding address_of find deref ℕ_discrete
full-IsValid = record {
  linked = (refl, refl, (refl, refl, tt));
  below = (omega arith, (omega arith, tt));
  indexed = λ k. ground arith;
  distinct = (refl, (refl, tt));
  same_size = refl;
  bounded = omega arith;
}

-- The expired entry goes, although the other was used longer ago.
evict_one-victim_example :
    (e : CacheEntry ℕ ℕ) × ((oldest_expired 60 (entries full.nodes) ≡ some e)
        × (is_expired 60 e ≡ true)
      ⊎ (live 60 (entries full.nodes) ≡ entries full.nodes)
        × (oldest (entries full.nodes) ≡ some e))
    × (entries (evict_one ℕ_discrete full 60).nodes ≡ remove ℕ_discrete e.key (entries full.nodes))
    × (length (evict_one ℕ_discrete full 60).nodes + 1 ≡ 2)
    × IsValid ℕ_discrete (evict_one ℕ_discrete full 60)
evict_one-victim_example = evict_one-victim ℕ_discrete full 60 full-IsValid (omega arith)

-- Key 9 as it is put at time 60 to live a second.
abbrev nine : CacheEntry ℕ ℕ
nine = record { key = 9; value = 90; expire_time = expiry (pos 1) 60 }

get-put_example :
    (c' c'' : LruCache ℕ ℕ) × (put ℕ_discrete 2 full 9 90 (pos 1) 60 ≡ done c')
    × (get ℕ_discrete c' 9 2_000_000_000
        ≡ done (c'', (if lives (pos 1) 60 2_000_000_000 then some 90 else none)))
get-put_example = get-put ℕ_discrete 0 full 9 90 (pos 1) 60 2_000_000_000 full-IsValid (omega arith)

key_out : (e : CacheEntry ℕ ℕ) → victim 60 (entries full.nodes) ≡ some e → e.key ≡ 8
unfolding victim oldest_expired
key_out e out = ground arith

abbrev no_room : LruCache ℕ ℕ
no_room = record { capacity = 0; nodes = []; index = []; fresh = 0 }

put_never_returns_example : put ℕ_discrete 1000 no_room 7 70 (pos 0) 10 ≡ running
unfolding find ℕ_discrete
put_never_returns_example = put_never_returns ℕ_discrete 1000 no_room 7 70 (pos 0) 10 refl refl
