-- ===== src/Cache/Lru/Promises.antt =====
-- What a client of `LRUCache` can rely on after a `Put`, and which entry an eviction takes.
use mini_search_rec.Prelude.{
  ℕ, zero, suc, ◌+◌, ◌*◌, not, ◌≤◌, ◌<◌, ◌≡◌, ◌≢◌, ◌⊎◌, inl, inr, refl, ap, ◌∙◌, true,
  if◌then◌else◌, leb, List, [], ◌∷◌, length, none, some, arith, done, running, ℤ, pos, negsuc, Bool,
  Bool-cases, Option-cases, leb→le, find,
}
use mini_search_rec.Cache.Lru.{CacheEntry, LruCache, get, put, evict_one, is_expired, expiry}
use mini_search_rec.Cache.Lru.Ideal.{
  lookup, remove, victim, oldest, oldest_expired, answer, after_put, live, evict,
}
use mini_search_rec.Cache.Lru.Links.{entries, Linked, IsValid, length-entries, address-none}
use mini_search_rec.Cache.Lru.Refine.{get-refines}
use mini_search_rec.Cache.Lru.Eviction.{evict_one-refines}
use mini_search_rec.Cache.Lru.Writes.{put-refines, put-capacity_zero}

-- What a time to live promises of an entry stored at `now`: until that many seconds have passed, or for
-- ever, if it is not positive.
abbrev pub lives : ℤ → ℕ → ℕ → Bool
lives (pos zero) now later = true
lives (pos (suc s)) now later = leb later (now + suc s * 1_000_000_000)
lives (negsuc n) now later = true

module _ {K V : Type 0} where
  is_expired-lives :
      (k : K) (x : V) (ttl : ℤ) (now later : ℕ)
      → is_expired later (record { key = k; value = x; expire_time = expiry ttl now })
        ≡ not (lives ttl now later)
  unfolding expiry
  is_expired-lives k x (pos zero) now later = refl
  is_expired-lives k x (pos (suc s)) now later = ground arith
  is_expired-lives k x (negsuc n) now later = refl

  oldest_expired-some :
      (now : ℕ) (e : CacheEntry K V) (es : List (CacheEntry K V))
      → oldest_expired now es ≡ some e
      → is_expired now e ≡ true
  unfolding oldest_expired
  oldest_expired-some now e [] h = cc
  oldest_expired-some now e (f ∷ es) h = ground (arith, oldest_expired-some now e es)

  oldest_expired-none :
      (now : ℕ) (es : List (CacheEntry K V)) → oldest_expired now es ≡ none → live now es ≡ es
  unfolding oldest_expired live
  oldest_expired-none now [] h = refl
  oldest_expired-none now (f ∷ es) h = ground (arith, oldest_expired-none now es)

module _ {K V : Type 0} (dec : Discrete K) where
  lookup-remove_other :
      (k j : K) (es : List (CacheEntry K V))
      → k ≢ j
      → lookup dec j (remove dec k es) ≡ lookup dec j es
  unfolding lookup remove
  lookup-remove_other k j [] h = refl
  lookup-remove_other k j (e ∷ es) h = ground (arith, lookup-remove_other k j es h)

  lookup-remove_self :
      (k : K) (l : List (ℕ × CacheEntry K V))
      → Linked dec l
      → lookup dec k (remove dec k (entries l)) ≡ none
  unfolding lookup remove
  lookup-remove_self k [] n = refl
  lookup-remove_self k ((a, e) ∷ l) n =
      ground (arith, lookup-remove_self k l n.2, address-none dec k l)

  -- A key that was deleted is not answered.
  pub answer-remove :
      (k : K) (later : ℕ) (l : List (ℕ × CacheEntry K V))
      → Linked dec l
      → answer dec k later (remove dec k (entries l)) ≡ none
  unfolding answer
  answer-remove k later l n = rw (lookup-remove_self k l n, answer) refl

  lookup-evict_other :
      (j : K) (now : ℕ) (es : List (CacheEntry K V))
      → ((e : CacheEntry K V) → victim now es ≡ some e → e.key ≢ j)
      → lookup dec j (evict dec now es) ≡ lookup dec j es
  unfolding evict
  lookup-evict_other j now es h = elim (Option-cases (victim now es)) [
    | inl empty ↦ rw (empty, evict) refl
    | inr (e, out) ↦ rw (out, evict) (lookup-remove_other e.key j es (h e out))
  ]

  pub answer-after_put :
      (cap : ℕ) (k : K) (x : V) (ttl : ℤ) (now later : ℕ) (es : List (CacheEntry K V))
      → answer dec k later (after_put dec cap k x ttl now es)
        ≡ (if lives ttl now later then some x else none)
  unfolding answer after_put lookup
  answer-after_put cap k x ttl now later es = elim (Option-cases (lookup dec k es)) [
    | inl new ↦ ground (arith, is_expired-lives k x ttl now later)
    | inr (e, old) ↦ ground (arith, is_expired-lives k x ttl now later)
  ]

  lookup-after_put_other :
      (cap : ℕ) (k j : K) (x : V) (ttl : ℤ) (now : ℕ) (es : List (CacheEntry K V))
      → k ≢ j
      → ((e : CacheEntry K V)
          → lookup dec k es ≡ none
          → cap ≤ length es
          → victim now es ≡ some e
          → e.key ≢ j)
      → lookup dec j (after_put dec cap k x ttl now es) ≡ lookup dec j es
  unfolding after_put lookup
  lookup-after_put_other cap k j x ttl now es other kept = elim (Option-cases (lookup dec k es)) [
    | inl new ↦ elim (Bool-cases (leb cap (length es))) [
      | inl full ↦
          ground (arith, lookup-evict_other j now es (λ e out. kept e new (leb→le _ _ full) out))
      | inr fits ↦ ground arith
    ]
    | inr (e, old) ↦ ground (arith, lookup-remove_other k j es other)
  ]

  -- A nonempty valid cache evicts the entry that has expired and was used least recently; if none has
  -- expired, the entry used least recently. That entry and no other goes, and the cache stays valid.
  pub evict_one-victim :
      (c : LruCache K V) (now : ℕ)
      → IsValid dec c
      → 0 < length c.nodes
      → (e : CacheEntry K V) × ((oldest_expired now (entries c.nodes) ≡ some e)
            × (is_expired now e ≡ true)
          ⊎ (live now (entries c.nodes) ≡ entries c.nodes) × (oldest (entries c.nodes) ≡ some e))
        × (entries (evict_one dec c now).nodes ≡ remove dec e.key (entries c.nodes))
        × (length (evict_one dec c now).nodes + 1 ≡ length c.nodes)
        × IsValid dec (evict_one dec c now)
  unfolding victim
  evict_one-victim c now v h =
      let (e, chosen, (valid, less, shorter, same)) = evict_one-refines dec c now v h in
      elim (Option-cases (oldest_expired now (entries c.nodes))) [
        | inl fresh ↦ (
          e,
          inr (oldest_expired-none now (entries c.nodes) fresh, ground arith),
          less,
          shorter,
          valid,
        )
        | inr (f, old) ↦
            let same_entry : f ≡ e = ground arith in
            (
              e,
              inl (rw (← same_entry) (old, oldest_expired-some now f (entries c.nodes) old)),
              less,
              shorter,
              valid,
            )
      ]

  -- On a valid cache of positive capacity, a `Get` of the key just `Put` answers the value that was
  -- put, until its time to live has passed, and nothing after that. A time to live of 0 or less never
  -- passes.
  pub get-put :
      (fuel : ℕ) (c : LruCache K V) (k : K) (x : V) (ttl : ℤ) (now later : ℕ)
      → IsValid dec c
      → 0 < c.capacity
      → (c' c'' : LruCache K V) × (put dec (suc (suc fuel)) c k x ttl now ≡ done c')
        × (get dec c' k later ≡ done (c'', (if lives ttl now later then some x else none)))
  get-put fuel c k x ttl now later v room =
      let (c', stored, v', es, same) = put-refines dec fuel c k x ttl now v room in
      let (c'', got, v'', left, same') = get-refines dec c' k later v' in
      (
        c',
        c'',
        stored,
        got
            ∙ ap (λ a. done (c'', a))
                (ap (answer dec k later) es
                  ∙ answer-after_put c.capacity k x ttl now later (entries c.nodes)),
      )

  -- A `Put` on a valid cache of positive capacity changes what is stored under no other key, except
  -- that a new key in a full cache takes the place of the evicted entry.
  pub lookup-put_other :
      (fuel : ℕ) (c : LruCache K V) (k j : K) (x : V) (ttl : ℤ) (now : ℕ)
      → IsValid dec c
      → 0 < c.capacity
      → k ≢ j
      → ((e : CacheEntry K V)
          → lookup dec k (entries c.nodes) ≡ none
          → c.capacity ≤ length c.nodes
          → victim now (entries c.nodes) ≡ some e
          → e.key ≢ j)
      → (c' : LruCache K V) × (put dec (suc (suc fuel)) c k x ttl now ≡ done c')
        × (lookup dec j (entries c'.nodes) ≡ lookup dec j (entries c.nodes))
  lookup-put_other fuel c k j x ttl now v room other kept =
      let (c', stored, v', es, same) = put-refines dec fuel c k x ttl now v room in
      (
        c',
        stored,
        ap (lookup dec j) es
            ∙ lookup-after_put_other c.capacity k j x ttl now (entries c.nodes) other
                (λ e new full out. kept e new (rw (← length-entries c.nodes) full) out),
      )

  -- The `while` loop of `Put` makes no progress on a cache of capacity 0: for a key that is not
  -- stored, the call goes on past any number of rounds.
  pub put_never_returns :
      (fuel : ℕ) (c : LruCache K V) (k : K) (x : V) (ttl : ℤ) (now : ℕ)
      → c.capacity ≡ 0
      → find dec k c.index ≡ none
      → put dec fuel c k x ttl now ≡ running
  put_never_returns fuel c k x ttl now = put-capacity_zero dec fuel c k x ttl now
