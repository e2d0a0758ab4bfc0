-- ===== src/Cache/Lru/Eviction.antt =====
-- `EvictOneLocked` and the eviction loop of `Put`.
use mini_search_rec.Prelude.{
  ℕ, zero, suc, ◌+◌, ◌≤◌, ◌<◌, ◌≡◌, inl, inr, refl, ap, true, if◌then◌else◌, leb, List, [], ◌∷◌,
  length, Option, none, some, arith, find, erase, done, running, Option-cases, Bool-cases, ◌∙◌,
  leb→le,
}
use mini_search_rec.Cache.Lru.{
  CacheEntry, LruCache, deref, unlink, evict_one, make_room, last_expired, back, pop_back,
}
use mini_search_rec.Cache.Lru.Ideal.{remove, evict, victim, oldest, oldest_expired}
use mini_search_rec.Cache.Lru.Links.{
  entries, Linked, IsValid, address_of, hit_lem, length-entries, length-unlink,
}
use mini_search_rec.Cache.Lru.Refine.{drop-IsValid}

module _ {K V : Type 0} where
  -- The entry of a node, if there is one.
  abbrev entry_of : Option (ℕ × CacheEntry K V) → Option (CacheEntry K V)
  entry_of none = none
  entry_of (some (a, e)) = some e

  last_expired-entries :
      (now : ℕ) (l : List (ℕ × CacheEntry K V))
      → oldest_expired now (entries l) ≡ entry_of (last_expired now l)
  unfolding oldest_expired last_expired
  last_expired-entries now [] = refl
  last_expired-entries now ((a, e) ∷ l) = ground (arith, last_expired-entries now l)

  back-entries : (l : List (ℕ × CacheEntry K V)) → oldest (entries l) ≡ entry_of (back l)
  unfolding oldest back
  back-entries [] = refl
  back-entries ((a, e) ∷ []) = refl
  back-entries ((a, e) ∷ (b, f) ∷ l) = back-entries ((b, f) ∷ l)

module _ {K V : Type 0} (dec : Discrete K) where
  last_expired-Linked :
      (now a : ℕ) (e : CacheEntry K V) (l : List (ℕ × CacheEntry K V))
      → Linked dec l
      → last_expired now l ≡ some (a, e)
      → (address_of dec e.key l ≡ some a) × (deref a l ≡ some e)
  unfolding last_expired address_of deref
  last_expired-Linked now a e [] n h = ground arith
  last_expired-Linked now a e ((b, f) ∷ l) n h = ground (arith, last_expired-Linked now a e l n.2)

  back-Linked :
      (a : ℕ) (e : CacheEntry K V) (l : List (ℕ × CacheEntry K V))
      → Linked dec l
      → back l ≡ some (a, e)
      → (address_of dec e.key l ≡ some a) × (deref a l ≡ some e) × (pop_back l ≡ unlink a l)
  unfolding back pop_back unlink address_of deref
  back-Linked a e [] n h = ground arith
  back-Linked a e ((b, f) ∷ []) n h = ground arith
  back-Linked a e ((b, f) ∷ (b', f') ∷ l) n h = ground (arith, back-Linked a e ((b', f') ∷ l) n.2)

  back_nil : (l : List (ℕ × CacheEntry K V)) → back l ≡ none → l ≡ []
  unfolding back
  back_nil [] h = refl
  back_nil ((a, e) ∷ []) h = cc
  back_nil ((a, e) ∷ (b, f) ∷ l) h = absurd (cc (back_nil ((b, f) ∷ l) h))

  -- What it is to lose one entry.
  abbrev Loses : LruCache K V → LruCache K V → K → Type 0
  Loses c c' k =
      IsValid dec c'
      × (entries c'.nodes ≡ remove dec k (entries c.nodes))
      × (length c'.nodes + 1 ≡ length c.nodes)
      × (c'.capacity ≡ c.capacity)

  drop-Loses :
      (c : LruCache K V) (a : ℕ) (e : CacheEntry K V)
      → IsValid dec c
      → address_of dec e.key c.nodes ≡ some a
      → Loses c (record c { index = erase dec e.key c.index; nodes = unlink a c.nodes }) e.key
  drop-Loses c a e v h =
      let hit : find dec e.key c.index ≡ some a = v.indexed e.key ∙ h in
      let (f, at, found, key, looked, gone) = hit_lem dec c e.key v a hit in
      (drop-IsValid dec c e.key a v hit, gone, length-unlink a f c.nodes found, refl)

  -- The victim of a nonempty valid cache is the ideal one, and exactly that entry goes.
  pub evict_one-refines :
      (c : LruCache K V) (now : ℕ)
      → IsValid dec c
      → 0 < length c.nodes
      → (e : CacheEntry K V) × (victim now (entries c.nodes) ≡ some e)
        × Loses c (evict_one dec c now) e.key
  unfolding victim evict_one
  evict_one-refines c now v h = elim (Option-cases (last_expired now c.nodes)) [
    | inl fresh ↦ elim (Option-cases (back c.nodes)) [
      | inl empty ↦ absurd (omega (arith, ap length (back_nil c.nodes empty)))
      | inr ((a, e), last) ↦
          let (at, found, cut) = back-Linked a e c.nodes v.linked last in
          (
            e,
            ground (arith, last_expired-entries now c.nodes, back-entries c.nodes),
            rw (fresh, evict_one) (rw (last, cut) (drop-Loses c a e v at)),
          )
    ]
    | inr ((a, e), old) ↦ (
      e,
      ground (arith, last_expired-entries now c.nodes),
      rw (old, evict_one) (drop-Loses c a e v (last_expired-Linked now a e c.nodes v.linked old).0),
    )
  ]

  -- The loop of `Put` ends after at most two tests, with room for one entry.
  pub make_room-refines :
      (fuel : ℕ) (c : LruCache K V) (now : ℕ)
      → IsValid dec c
      → 0 < c.capacity
      → (c' : LruCache K V) × (make_room dec (suc (suc fuel)) c now ≡ done c')
        × IsValid dec c'
        × (entries c'.nodes ≡ (
            if leb c.capacity (length (entries c.nodes))
            then evict dec now (entries c.nodes)
            else entries c.nodes))
        × (length c'.nodes < c'.capacity)
        × (c'.capacity ≡ c.capacity)
  unfolding make_room evict
  make_room-refines fuel c now v room = elim (Bool-cases (leb c.capacity (length c.nodes))) [
    | inl full ↦
        let h : c.capacity ≤ length c.nodes = leb→le _ _ full in
        let (e, chosen, (valid, less, shorter, same)) = evict_one-refines c now v (omega arith) in
        let bound = v.bounded in
        (
          evict_one dec c now,
          ground arith,
          valid,
          ground (arith, length-entries c.nodes),
          omega arith,
          same,
        )
    | inr fits ↦ (c, rw fits refl, v, ground (arith, length-entries c.nodes), ground arith, refl)
  ]

  -- With capacity 0 the loop of `Put` never ends, however many rounds it is given.
  pub make_room-capacity_zero :
      (fuel : ℕ) (c : LruCache K V) (now : ℕ) → c.capacity ≡ 0 → make_room dec fuel c now ≡ running
  unfolding make_room evict_one
  make_room-capacity_zero zero c now h = refl
  make_room-capacity_zero (suc fuel) c now h =
      let same : (evict_one dec c now).capacity ≡ 0 = ground arith in
      let full : leb c.capacity (length c.nodes) ≡ true = ground arith in
      rw full (make_room-capacity_zero fuel (evict_one dec c now) now same)
