-- ===== src/Cache/Lru/Writes.antt =====
-- `Put`, `Delete`, `Clear` and `EvictExpired` against the ideal cache.
use mini_search_rec.Prelude.{
  ℕ, suc, ◌<◌, ◌≡◌, inl, inr, refl, sym, List, [], ◌∷◌, length, none, arith, find, done, running,
  Option-cases, find-insert, insert-Distinct, length-insert_new, ℤ, ◌∙◌,
}
use mini_search_rec.Cache.Lru.{CacheEntry, LruCache, expiry, unlink, put, push_front, delete}
use mini_search_rec.Cache.Lru.Ideal.{lookup, remove, evict, victim, after_put, holds}
use mini_search_rec.Cache.Lru.Links.{
  entries, IsValid, address_of, hit_lem, miss_lem, deref_fresh, Below-suc,
}
use mini_search_rec.Cache.Lru.Refine.{drop-IsValid, touch-IsValid}
use mini_search_rec.Cache.Lru.Eviction.{make_room-refines, make_room-capacity_zero}

module _ {K V : Type 0} (dec : Discrete K) where
  lookup-remove-none :
      (k j : K) (es : List (CacheEntry K V))
      → lookup dec k es ≡ none
      → lookup dec k (remove dec j es) ≡ none
  unfolding lookup remove
  lookup-remove-none k j [] h = refl
  lookup-remove-none k j (e ∷ es) h = ground (arith, lookup-remove-none k j es)

  remove_absent :
      (k : K) (es : List (CacheEntry K V)) → lookup dec k es ≡ none → remove dec k es ≡ es
  unfolding lookup remove
  remove_absent k [] h = refl
  remove_absent k (e ∷ es) h = ground (arith, remove_absent k es)

  lookup-evict-none :
      (k : K) (now : ℕ) (es : List (CacheEntry K V))
      → lookup dec k es ≡ none
      → lookup dec k (evict dec now es) ≡ none
  unfolding evict
  lookup-evict-none k now es h = elim (Option-cases (victim now es)) [
    | inl empty ↦ rw (empty, evict) h
    | inr (e, out) ↦ rw (out, evict) (lookup-remove-none k e.key es h)
  ]

  find-none :
      (c : LruCache K V) (k : K)
      → IsValid dec c
      → lookup dec k (entries c.nodes) ≡ none
      → find dec k c.index ≡ none
  find-none c k v h = elim (Option-cases (find dec k c.index)) [
    | inl missed ↦ missed
    | inr (it, hit) ↦ absurd (cc (hit_lem dec c k v it hit).4)
  ]

  push_front-IsValid :
      (c : LruCache K V) (e : CacheEntry K V)
      → IsValid dec c
      → find dec e.key c.index ≡ none
      → length c.nodes < c.capacity
      → IsValid dec (push_front dec c e)
  unfolding push_front address_of
  push_front-IsValid c e v h room = record {
    linked = (sym (v.indexed e.key) ∙ h, deref_fresh c.fresh c.nodes v.below, v.linked);
    below = (omega arith, Below-suc c.fresh c.nodes v.below);
    indexed = λ j. ground (arith, v.indexed j, find-insert dec e.key j c.fresh c.index);
    distinct = insert-Distinct dec e.key c.fresh c.index v.distinct;
    same_size = omega (arith, length-insert_new dec e.key c.fresh c.index h, v.same_size);
    bounded = room;
  }

  -- `Put` returns and leaves the ideal entries.
  pub put-refines :
      (fuel : ℕ) (c : LruCache K V) (k : K) (x : V) (ttl : ℤ) (now : ℕ)
      → IsValid dec c
      → 0 < c.capacity
      → (c' : LruCache K V) × (put dec (suc (suc fuel)) c k x ttl now ≡ done c')
        × IsValid dec c'
        × (entries c'.nodes ≡ after_put dec c.capacity k x ttl now (entries c.nodes))
        × (c'.capacity ≡ c.capacity)
  unfolding put push_front after_put
  put-refines fuel c k x ttl now v room = elim (Option-cases (find dec k c.index)) [
    | inl missed ↦
        let (c', made, valid, kept, fits, same) = make_room-refines dec fuel c now v room in
        let e : CacheEntry K V = record { key = k; value = x; expire_time = expiry ttl now } in
        let gone : lookup dec k (entries c.nodes) ≡ none = miss_lem dec c k v missed in
        let absent : lookup dec k (entries c'.nodes) ≡ none =
          ground (arith, lookup-evict-none k now (entries c.nodes)) in
        (
          push_front dec c' e,
          ground arith,
          push_front-IsValid c' e valid (find-none c' k valid absent) fits,
          ground arith,
          same,
        )
    | inr (it, hit) ↦
        let (f, at, found, key, looked, gone) = hit_lem dec c k v it hit in
        let e : CacheEntry K V = record f { value = x; expire_time = expiry ttl now } in
        (
          record c { nodes = (it, e) ∷ unlink it c.nodes },
          ground arith,
          touch-IsValid dec c k it e v hit key,
          ground arith,
          refl,
        )
  ]

  pub put-capacity_zero :
      (fuel : ℕ) (c : LruCache K V) (k : K) (x : V) (ttl : ℤ) (now : ℕ)
      → c.capacity ≡ 0
      → find dec k c.index ≡ none
      → put dec fuel c k x ttl now ≡ running
  unfolding put
  put-capacity_zero fuel c k x ttl now h missed =
      ground (arith, make_room-capacity_zero dec fuel c now h)

  -- `Delete` removes the entry of the key and says whether there was one.
  pub delete-refines :
      (c : LruCache K V) (k : K)
      → IsValid dec c
      → IsValid dec (delete dec c k).0
        × (entries (delete dec c k).0.nodes ≡ remove dec k (entries c.nodes))
        × ((delete dec c k).1 ≡ holds dec k (entries c.nodes))
        × ((delete dec c k).0.capacity ≡ c.capacity)
  unfolding delete holds
  delete-refines c k v = elim (Option-cases (find dec k c.index)) [
    | inl missed ↦
        let gone = miss_lem dec c k v missed in
        rw (missed, delete) (v, sym (remove_absent k (entries c.nodes) gone), ground arith, refl)
    | inr (it, hit) ↦
        let (e, at, found, key, looked, gone) = hit_lem dec c k v it hit in
        rw (hit, delete) (drop-IsValid dec c k it v hit, gone, ground arith, refl)
  ]
