-- ===== src/Cache/Lru/Links.antt =====
-- The nodes of `list_` and the addresses that `map_` holds: the invariant of `LRUCache`.
use mini_search_rec.Prelude.{
  ℕ, suc, ◌+◌, ◌≤◌, ◌<◌, ◌≡◌, refl, sym, ◌∙◌, ◌≢◌, ite, List, [], ◌∷◌, length, Option, none, some,
  arith, find, Distinct,
}
use mini_search_rec.Cache.Lru.{CacheEntry, LruCache, deref, unlink}
use mini_search_rec.Cache.Lru.Ideal.{lookup, remove}

module _ {K V : Type 0} where
  abbrev pub entries : List (ℕ × CacheEntry K V) → List (CacheEntry K V)
  entries [] = []
  entries ((a, e) ∷ l) = e ∷ entries l

  abbrev pub Below : ℕ → List (ℕ × CacheEntry K V) → Type 0
  Below n [] = Unit {0}
  Below n ((a, e) ∷ l) = (a < n) × Below n l

  pub deref_fresh : (n : ℕ) (l : List (ℕ × CacheEntry K V)) → Below n l → deref n l ≡ none
  unfolding deref
  deref_fresh n [] b = refl
  deref_fresh n ((a, e) ∷ l) b = ground (arith, deref_fresh n l b.1)

  pub Below-suc : (n : ℕ) (l : List (ℕ × CacheEntry K V)) → Below n l → Below (suc n) l
  Below-suc n [] b = tt
  Below-suc n ((a, e) ∷ l) b = (omega arith, Below-suc n l b.1)

  pub unlink-Below : (n it : ℕ) (l : List (ℕ × CacheEntry K V)) → Below n l → Below n (unlink it l)
  unfolding unlink
  unlink-Below n it [] b = tt
  unlink-Below n it ((a, e) ∷ l) b = ground (arith, unlink-Below n it l b.1)

  pub deref-unlink-none :
      (b it : ℕ) (l : List (ℕ × CacheEntry K V)) → deref b l ≡ none → deref b (unlink it l) ≡ none
  unfolding deref unlink
  deref-unlink-none b it [] h = refl
  deref-unlink-none b it ((a, e) ∷ l) h = ground (arith, deref-unlink-none b it l)

  pub length-unlink :
      (it : ℕ) (e : CacheEntry K V) (l : List (ℕ × CacheEntry K V))
      → deref it l ≡ some e
      → length (unlink it l) + 1 ≡ length l
  unfolding deref unlink
  length-unlink it e [] h = ground arith
  length-unlink it e ((a, f) ∷ l) h = ground (arith, length-unlink it e l)

  pub deref-lt :
      (n it : ℕ) (e : CacheEntry K V) (l : List (ℕ × CacheEntry K V))
      → Below n l
      → deref it l ≡ some e
      → it < n
  unfolding deref
  deref-lt n it e [] b h = ground arith
  deref-lt n it e ((a, f) ∷ l) b h = ground (arith, deref-lt n it e l b.1)

  pub length-entries : (l : List (ℕ × CacheEntry K V)) → length (entries l) ≡ length l
  length-entries [] = refl
  length-entries ((a, e) ∷ l) = omega (arith, length-entries l)

module _ {K V : Type 0} (dec : Discrete K) where
  -- The address of the first node with the key.
  unfoldable pub address_of : K → List (ℕ × CacheEntry K V) → Option ℕ
  address_of k [] = none
  address_of k ((a, e) ∷ l) = ite (dec e.key k) (some a) (address_of k l)

  -- No key and no address twice.
  abbrev pub Linked : List (ℕ × CacheEntry K V) → Type 0
  Linked [] = Unit {0}
  Linked ((a, e) ∷ l) = (address_of e.key l ≡ none) × (deref a l ≡ none) × Linked l

  pub record IsValid (c : LruCache K V) : Type 0 where
    pub linked : Linked c.nodes
    pub below : Below c.fresh c.nodes
    pub indexed : (k : K) → find dec k c.index ≡ address_of k c.nodes
    pub distinct : Distinct dec c.index
    pub same_size : length c.index ≡ length c.nodes
    pub bounded : length c.nodes ≤ c.capacity

  pub address-none :
      (k : K) (l : List (ℕ × CacheEntry K V))
      → address_of k l ≡ none
      → lookup dec k (entries l) ≡ none
  unfolding address_of lookup
  address-none k [] h = refl
  address-none k ((a, e) ∷ l) h = ground (arith, address-none k l)

  -- The node that the map points to is the entry with the key, and to unlink it is to remove that.
  pub address-some :
      (k : K) (it : ℕ) (l : List (ℕ × CacheEntry K V))
      → Linked l
      → address_of k l ≡ some it
      → (e : CacheEntry K V) × (deref it l ≡ some e)
        × (e.key ≡ k)
        × (lookup dec k (entries l) ≡ some e)
        × (entries (unlink it l) ≡ remove dec k (entries l))
  unfolding address_of deref lookup unlink remove
  address-some k it [] n h = ground arith
  address-some k it ((a, e) ∷ l) n h = elim (dec e.key k) [
    | yes p ↦ (e, ground arith, p, ground arith, ground arith)
    | no p ↦
        let (f, found, key, looked, gone) = address-some k it l n.2 (ground arith) in
        (f, ground arith, key, ground arith, ground arith)
  ]

  pub address_of-unlink :
      (k j : K) (it : ℕ) (l : List (ℕ × CacheEntry K V))
      → Linked l
      → address_of k l ≡ some it
      → address_of j (unlink it l) ≡ ite (dec k j) none (address_of j l)
  unfolding address_of deref unlink
  address_of-unlink k j it [] n h = ground arith
  address_of-unlink k j it ((a, e) ∷ l) n h = elim (dec e.key k) [
    | yes p ↦ ground arith
    | no p ↦
        let tail : address_of k l ≡ some it = ground arith in
        let (f, found, key, looked, gone) = address-some k it l n.2 tail in
        let other : a ≢ it = (λ same. ground arith) in
        ground (arith, address_of-unlink k j it l n.2 tail)
  ]

  pub unlink-Linked :
      (k : K) (it : ℕ) (l : List (ℕ × CacheEntry K V))
      → Linked l
      → address_of k l ≡ some it
      → Linked (unlink it l)
  unfolding address_of deref unlink
  unlink-Linked k it [] n h = tt
  unlink-Linked k it ((a, e) ∷ l) n h = elim (dec e.key k) [
    | yes p ↦ ground arith
    | no p ↦
        let tail : address_of k l ≡ some it = ground arith in
        let (f, found, key, looked, gone) = address-some k it l n.2 tail in
        let other : a ≢ it = (λ same. ground arith) in
        ground (
          arith,
          unlink-Linked k it l n.2 tail,
          address_of-unlink k e.key it l n.2 tail,
          deref-unlink-none a it l,
        )
  ]

  pub deref-unlink_self :
      (it : ℕ) (l : List (ℕ × CacheEntry K V)) → Linked l → deref it (unlink it l) ≡ none
  unfolding deref unlink
  deref-unlink_self it [] n = refl
  deref-unlink_self it ((a, e) ∷ l) n = ground (arith, deref-unlink_self it l n.2)

  -- What the map says of a key, in terms of the entries.
  module _ (c : LruCache K V) (k : K) (v : IsValid c) where
    pub miss_lem : find dec k c.index ≡ none → lookup dec k (entries c.nodes) ≡ none
    miss_lem h = address-none k c.nodes (sym (v.indexed k) ∙ h)

    pub hit_lem :
        (it : ℕ)
        → find dec k c.index ≡ some it
        → (e : CacheEntry K V) × (address_of k c.nodes ≡ some it)
          × (deref it c.nodes ≡ some e)
          × (e.key ≡ k)
          × (lookup dec k (entries c.nodes) ≡ some e)
          × (entries (unlink it c.nodes) ≡ remove dec k (entries c.nodes))
    hit_lem it h =
        let at : address_of k c.nodes ≡ some it = sym (v.indexed k) ∙ h in
        let (e, found, key, looked, gone) = address-some k it c.nodes v.linked at in
        (e, at, found, key, looked, gone)
