-- ===== src/Cache/Lru/Refine.antt =====
-- `LRUCache` implements the ideal cache: each call of a valid cache returns, reads no erased node,
-- keeps the invariant, and does to the entries what the ideal call does.
use mini_search_rec.Prelude.{
  ℕ, ◌≡◌, inl, inr, refl, ◌∷◌, some, arith, find, erase, done, Option-cases, Bool-cases, find-erase,
  erase-Distinct, length-erase,
}
use mini_search_rec.Cache.Lru.{CacheEntry, LruCache, is_expired, unlink, get}
use mini_search_rec.Cache.Lru.Ideal.{after_get, answer}
use mini_search_rec.Cache.Lru.Links.{
  hit_lem, miss_lem, deref-lt, deref-unlink_self, entries, IsValid, address_of, address_of-unlink,
  unlink-Linked, unlink-Below, length-unlink,
}

module _ {K V : Type 0} (dec : Discrete K) where
  -- A node and its key leave the list and the map.
  pub drop-IsValid :
      (c : LruCache K V) (k : K) (it : ℕ)
      → IsValid dec c
      → find dec k c.index ≡ some it
      → IsValid dec (record c { nodes = unlink it c.nodes; index = erase dec k c.index })
  drop-IsValid c k it v h =
      let (e, at, found, key, looked, gone) = hit_lem dec c k v it h in
      record {
        linked = unlink-Linked dec k it c.nodes v.linked at;
        below = unlink-Below c.fresh it c.nodes v.below;
        indexed = λ j. ground (
          arith,
          find-erase dec k j c.index,
          v.indexed j,
          address_of-unlink dec k j it c.nodes v.linked at,
        );
        distinct = erase-Distinct dec k c.index v.distinct;
        same_size = omega (
          arith,
          length-erase dec k it c.index v.distinct h,
          length-unlink it e c.nodes found,
          v.same_size,
        );
        bounded = omega (arith, length-unlink it e c.nodes found, v.bounded);
      }

  -- A node moves to the front, with an entry of the same key.
  pub touch-IsValid :
      (c : LruCache K V) (k : K) (it : ℕ) (e' : CacheEntry K V)
      → IsValid dec c
      → find dec k c.index ≡ some it
      → e'.key ≡ k
      → IsValid dec (record c { nodes = (it, e') ∷ unlink it c.nodes })
  unfolding address_of
  touch-IsValid c k it e' v h same =
      let (e, at, found, key, looked, gone) = hit_lem dec c k v it h in
      record {
        linked = (
          ground (arith, address_of-unlink dec k e'.key it c.nodes v.linked at),
          deref-unlink_self dec it c.nodes v.linked,
          unlink-Linked dec k it c.nodes v.linked at,
        );
        below =
            (deref-lt c.fresh it e c.nodes v.below found, unlink-Below c.fresh it c.nodes v.below);
        indexed =
            λ j. ground (arith, v.indexed j, address_of-unlink dec k j it c.nodes v.linked at);
        distinct = v.distinct;
        same_size = omega (arith, length-unlink it e c.nodes found, v.same_size);
        bounded = omega (arith, length-unlink it e c.nodes found, v.bounded);
      }

  -- `Get` returns the ideal answer and leaves the ideal entries.
  pub get-refines :
      (c : LruCache K V) (k : K) (now : ℕ)
      → IsValid dec c
      → (c' : LruCache K V) × (get dec c k now ≡ done (c', answer dec k now (entries c.nodes)))
        × IsValid dec c'
        × (entries c'.nodes ≡ after_get dec k now (entries c.nodes))
        × (c'.capacity ≡ c.capacity)
  unfolding get answer after_get
  get-refines c k now v = elim (Option-cases (find dec k c.index)) [
    | inl missed ↦ (
      c,
      ground (arith, miss_lem dec c k v missed),
      v,
      ground (arith, miss_lem dec c k v missed),
      refl,
    )
    | inr (it, hit) ↦
        let (e, at, found, key, looked, gone) = hit_lem dec c k v it hit in
        elim (Bool-cases (is_expired now e)) [
          | inl old ↦ (
            record c { nodes = unlink it c.nodes; index = erase dec k c.index },
            ground arith,
            drop-IsValid c k it v hit,
            ground arith,
            refl,
          )
          | inr live ↦ (
            record c { nodes = (it, e) ∷ unlink it c.nodes },
            ground arith,
            touch-IsValid c k it e v hit key,
            ground arith,
            refl,
          )
        ]
  ]
