-- ===== src/Cache/Lru/Sweep.antt =====
-- `EvictExpired`, `Clear` and the constructor.
use mini_search_rec.Prelude.{
  ℕ, ◌+◌, ◌≡◌, inl, inr, refl, sym, if_pos, List, [], ◌∷◌, length, none, some, arith, find, erase,
  Distinct, Option-cases, find-erase, erase-Distinct, length-erase, ◌∙◌,
}
use mini_search_rec.Cache.Lru.{CacheEntry, LruCache, deref, init, clear, evict_expired, sweep}
use mini_search_rec.Cache.Lru.Ideal.{live}
use mini_search_rec.Cache.Lru.Links.{entries, Below, Linked, IsValid, address_of}

module _ {K V : Type 0} (dec : Discrete K) (now : ℕ) where
  -- The map holds the address of every node that is left to visit.
  abbrev Indexes : List (K × ℕ) → List (ℕ × CacheEntry K V) → Type 0
  Indexes m l = (j : K) (a : ℕ) → address_of dec j l ≡ some a → find dec j m ≡ some a

  entries-sweep :
      (l : List (ℕ × CacheEntry K V)) (m : List (K × ℕ))
      → entries (sweep dec now l m).0 ≡ live now (entries l)
  unfolding sweep live
  entries-sweep [] m = refl
  entries-sweep ((a, e) ∷ l) m =
      ground (arith, entries-sweep l m, entries-sweep l (erase dec e.key m))

  length-sweep :
      (l : List (ℕ × CacheEntry K V)) (m : List (K × ℕ))
      → length (sweep dec now l m).0 + (sweep dec now l m).2 ≡ length l
  unfolding sweep
  length-sweep [] m = omega arith
  length-sweep ((a, e) ∷ l) m = ground (arith, length-sweep l m, length-sweep l (erase dec e.key m))

  address_of-sweep-none :
      (j : K) (l : List (ℕ × CacheEntry K V)) (m : List (K × ℕ))
      → address_of dec j l ≡ none
      → address_of dec j (sweep dec now l m).0 ≡ none
  unfolding sweep address_of
  address_of-sweep-none j [] m h = refl
  address_of-sweep-none j ((a, e) ∷ l) m h =
      ground (arith, address_of-sweep-none j l m, address_of-sweep-none j l (erase dec e.key m))

  deref-sweep-none :
      (b : ℕ) (l : List (ℕ × CacheEntry K V)) (m : List (K × ℕ))
      → deref b l ≡ none
      → deref b (sweep dec now l m).0 ≡ none
  unfolding sweep deref
  deref-sweep-none b [] m h = refl
  deref-sweep-none b ((a, e) ∷ l) m h =
      ground (arith, deref-sweep-none b l m, deref-sweep-none b l (erase dec e.key m))

  sweep-Linked :
      (l : List (ℕ × CacheEntry K V)) (m : List (K × ℕ))
      → Linked dec l
      → Linked dec (sweep dec now l m).0
  unfolding sweep
  sweep-Linked [] m n = tt
  sweep-Linked ((a, e) ∷ l) m n = ground (
    arith,
    sweep-Linked l m n.2,
    sweep-Linked l (erase dec e.key m) n.2,
    address_of-sweep-none e.key l m,
    deref-sweep-none a l m,
  )

  sweep-Below :
      (n : ℕ) (l : List (ℕ × CacheEntry K V)) (m : List (K × ℕ))
      → Below n l
      → Below n (sweep dec now l m).0
  unfolding sweep
  sweep-Below n [] m b = tt
  sweep-Below n ((a, e) ∷ l) m b =
      ground (arith, sweep-Below n l m b.1, sweep-Below n l (erase dec e.key m) b.1)

  sweep-Distinct :
      (l : List (ℕ × CacheEntry K V)) (m : List (K × ℕ))
      → Distinct dec m
      → Distinct dec (sweep dec now l m).1
  unfolding sweep
  sweep-Distinct [] m d = d
  sweep-Distinct ((a, e) ∷ l) m d = ground (
    arith,
    sweep-Distinct l m d,
    sweep-Distinct l (erase dec e.key m) (erase-Distinct dec e.key m d),
  )

  find-sweep_other :
      (j : K) (l : List (ℕ × CacheEntry K V)) (m : List (K × ℕ))
      → address_of dec j l ≡ none
      → find dec j (sweep dec now l m).1 ≡ find dec j m
  unfolding sweep address_of
  find-sweep_other j [] m h = refl
  find-sweep_other j ((a, e) ∷ l) m h = ground (
    arith,
    find-sweep_other j l m,
    find-sweep_other j l (erase dec e.key m),
    find-erase dec e.key j m,
  )

  -- The rest of the list is indexed after a step of the loop.
  Indexes-tail :
      (a : ℕ) (e : CacheEntry K V) (l : List (ℕ × CacheEntry K V)) (m : List (K × ℕ))
      → Linked dec ((a, e) ∷ l)
      → Indexes m ((a, e) ∷ l)
      → Indexes m l × Indexes (erase dec e.key m) l
  unfolding address_of
  Indexes-tail a e l m n h = (
    (λ j b at. ground (arith, h j b)),
    (λ j b at. ground (arith, h j b, find-erase dec e.key j m)),
  )

  find-sweep :
      (j : K) (a : ℕ) (l : List (ℕ × CacheEntry K V)) (m : List (K × ℕ))
      → Linked dec l
      → Indexes m l
      → address_of dec j l ≡ some a
      → find dec j (sweep dec now l m).1 ≡ address_of dec j (sweep dec now l m).0
  unfolding sweep address_of
  find-sweep j a [] m n h at = cc
  find-sweep j a ((b, e) ∷ l) m n h at =
      let (rest, rest') = Indexes-tail b e l m n h in
      ground (
        arith,
        find-sweep j a l m n.2 rest,
        find-sweep j a l (erase dec e.key m) n.2 rest',
        find-sweep_other j l m,
        find-sweep_other j l (erase dec e.key m),
        address_of-sweep-none j l (erase dec e.key m),
        find-erase dec e.key j m,
        h j a at,
      )

  length-sweep_index :
      (l : List (ℕ × CacheEntry K V)) (m : List (K × ℕ))
      → Linked dec l
      → Indexes m l
      → Distinct dec m
      → length (sweep dec now l m).1 + (sweep dec now l m).2 ≡ length m
  unfolding sweep address_of
  length-sweep_index [] m n h d = omega arith
  length-sweep_index ((a, e) ∷ l) m n h d =
      let (rest, rest') = Indexes-tail a e l m n h in
      let hit : find dec e.key m ≡ some a = h e.key a (if_pos (dec e.key e.key) refl _ _) in
      ground (
        arith,
        length-sweep_index l m n.2 rest d,
        length-sweep_index l (erase dec e.key m) n.2 rest' (erase-Distinct dec e.key m d),
        length-erase dec e.key a m d hit,
      )

  -- `EvictExpired` leaves exactly the entries that have not expired, in order, and returns how many
  -- went.
  pub evict_expired-refines :
      (c : LruCache K V)
      → IsValid dec c
      → IsValid dec (evict_expired dec c now).0
        × (entries (evict_expired dec c now).0.nodes ≡ live now (entries c.nodes))
        × (length (evict_expired dec c now).0.nodes + (evict_expired dec c now).1 ≡ length c.nodes)
        × ((evict_expired dec c now).0.capacity ≡ c.capacity)
  unfolding evict_expired
  evict_expired-refines c v =
      let l = c.nodes in
      let m = c.index in
      let h : Indexes m l = (λ j a at. v.indexed j ∙ at) in
      (
        record {
          linked = sweep-Linked l m v.linked;
          below = sweep-Below c.fresh l m v.below;
          indexed = λ j. elim (Option-cases (address_of dec j l)) [
            | inl other ↦
                find-sweep_other j l m other
                ∙ (v.indexed j ∙ (other ∙ sym (address_of-sweep-none j l m other)))
            | inr (a, at) ↦ find-sweep j a l m v.linked h at
          ];
          distinct = sweep-Distinct l m v.distinct;
          same_size =
              omega (
                arith,
                length-sweep l m,
                length-sweep_index l m v.linked h v.distinct,
                v.same_size,
              );
          bounded = omega (arith, length-sweep l m, v.bounded);
        },
        entries-sweep l m,
        length-sweep l m,
        refl,
      )

module _ {K V : Type 0} (dec : Discrete K) where
  pub init-IsValid : (capacity : ℕ) → IsValid {V = V} dec (init capacity)
  unfolding init address_of find
  init-IsValid capacity = record {
    linked = tt;
    below = tt;
    indexed = λ k. refl;
    distinct = tt;
    same_size = refl;
    bounded = omega arith;
  }

  pub clear-IsValid : (c : LruCache K V) → IsValid dec (clear c)
  unfolding clear address_of find
  clear-IsValid c = record {
    linked = tt;
    below = tt;
    indexed = λ k. refl;
    distinct = tt;
    same_size = refl;
    bounded = omega arith;
  }

pub clear_lem :
    {K V : Type 0} (c : LruCache K V)
    → (entries (clear c).nodes ≡ []) × ((clear c).capacity ≡ c.capacity)
unfolding clear
clear_lem c = (refl, refl)
