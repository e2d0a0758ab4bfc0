-- ===== src/Cache/Redis/Memory/Lists.antt =====
-- The lists of `InMemoryRedisClient`.
use mini_search_rec.Prelude.{
  take_all, ◌≤◌, ◌<◌, ◌≡◌, refl, ap, ◌∙◌, inl, inr, true, List, [], ◌∷◌, ◌++◌, length, take,
  length-take-le, length-append, some, arith, find, insert, find-insert, Bytes, bytes_discrete,
  Option-cases,
}
use mini_search_rec.Cache.Redis.Memory.{InMemoryRedisClient, lpush, rpush, lpop, slot, trim_front}

-- No list is longer than 1000.
abbrev pub Bounded : InMemoryRedisClient → Type 0
Bounded c = (key : Bytes) → length (slot key c.list_store) ≤ 1000

length-trim_front : (xs : List Bytes) → length xs ≤ 1001 → length (trim_front xs) ≤ 1000
length-trim_front [] h = omega arith
length-trim_front (x ∷ xs) h = ground arith

slot-lpop :
    (c : InMemoryRedisClient) (key k : Bytes)
    → length (slot k (lpop c key).0.list_store) ≤ length (slot k c.list_store)
unfolding lpop
slot-lpop c key k = elim (Option-cases (find bytes_discrete key c.list_store)) [
  | inl absent ↦ ground arith
  | inr ([], held) ↦ ground arith
  | inr (x ∷ xs, held) ↦ ground (arith, find-insert bytes_discrete key k xs c.list_store)
]

-- `LPush`, `RPush` and `LPop` keep every list at 1000 elements or fewer.
pub lists-Bounded :
    (c : InMemoryRedisClient) (key value : Bytes)
    → Bounded c
    → Bounded (lpush c key value).0 × Bounded (rpush c key value).0 × Bounded (lpop c key).0
unfolding lpush rpush lpop
lists-Bounded c key value b =
    let old = slot key c.list_store in
    let pushed = take 1000 (value ∷ old) in
    let added = trim_front (old ++ (value ∷ [])) in
    (
      (λ k. ground (
        arith,
        b k,
        find-insert bytes_discrete key k pushed c.list_store,
        length-take-le 1000 (value ∷ old),
      )),
      (λ k. ground (
        arith,
        b k,
        find-insert bytes_discrete key k added c.list_store,
        length-trim_front (old ++ (value ∷ []))
            (omega (arith, length-append old (value ∷ []), b key)),
      )),
      (λ k. omega (arith, slot-lpop c key k, b k)),
    )

lpop_cons :
    (c : InMemoryRedisClient) (key x : Bytes) (xs : List Bytes)
    → c.connected ≡ true
    → slot key c.list_store ≡ x ∷ xs
    → ((lpop c key).1 ≡ some x) × (slot key (lpop c key).0.list_store ≡ xs)
unfolding lpop
lpop_cons c key x xs up h = elim (Option-cases (find bytes_discrete key c.list_store)) [
  | inl absent ↦ absurd (ground arith)
  | inr ([], held) ↦ absurd (ground arith)
  | inr (y ∷ ys, held) ↦
      (ground arith, ground (arith, find-insert bytes_discrete key key ys c.list_store))
]

slot-insert :
    (key : Bytes) (xs : List Bytes) (m : List (Bytes × List Bytes))
    → slot key (insert bytes_discrete key xs m) ≡ xs
slot-insert key xs m = ground (arith, find-insert bytes_discrete key key xs m)

slot-lpush :
    (c : InMemoryRedisClient) (key value : Bytes)
    → c.connected ≡ true
    → length (slot key c.list_store) < 1000
    → ((lpush c key value).0.connected ≡ true)
      × (slot key (lpush c key value).0.list_store ≡ value ∷ slot key c.list_store)
unfolding lpush
slot-lpush c key value up room =
    let old = slot key c.list_store in
    let kept = take_all 1000 (value ∷ old) (omega (arith, room)) in
    rw up (refl, slot-insert key (take 1000 (value ∷ old)) c.list_store ∙ kept)

trim_front_all : (xs : List Bytes) → length xs ≤ 1000 → trim_front xs ≡ xs
trim_front_all [] h = refl
trim_front_all (x ∷ xs) h = ground arith

slot-rpush :
    (c : InMemoryRedisClient) (key value : Bytes)
    → c.connected ≡ true
    → length (slot key c.list_store) < 1000
    → ((rpush c key value).0.connected ≡ true)
      × (slot key (rpush c key value).0.list_store ≡ slot key c.list_store ++ (value ∷ []))
unfolding rpush
slot-rpush c key value up room =
    let old = slot key c.list_store in
    let kept =
      trim_front_all (old ++ (value ∷ [])) (omega (arith, length-append old (value ∷ []), room)) in
    rw up (refl, slot-insert key (trim_front (old ++ (value ∷ []))) c.list_store ∙ kept)

-- On a connected client, as long as the list has fewer than 1000 elements, `LPop` takes back what
-- `LPush` put there and leaves the list as it was; after `RPush` on a list that is not empty, `LPop`
-- takes the old front and the pushed element stands at the end.
pub lpop_order :
    (c : InMemoryRedisClient) (key value : Bytes)
    → c.connected ≡ true
    → length (slot key c.list_store) < 1000
    → ((lpop (lpush c key value).0 key).1 ≡ some value)
      × (slot key (lpop (lpush c key value).0 key).0.list_store ≡ slot key c.list_store)
      × ((x : Bytes) (xs : List Bytes)
          → slot key c.list_store ≡ x ∷ xs
          → ((lpop (rpush c key value).0 key).1 ≡ some x)
            × (slot key (lpop (rpush c key value).0 key).0.list_store ≡ xs ++ (value ∷ [])))
lpop_order c key value up room =
    let (up', pushed) = slot-lpush c key value up room in
    let (front, back) =
      lpop_cons (lpush c key value).0 key value (slot key c.list_store) up' pushed in
    let (up'', added) = slot-rpush c key value up room in
    (
      front,
      back,
      (λ x xs h.
          lpop_cons (rpush c key value).0 key x (xs ++ (value ∷ [])) up''
            (added ∙ ap (λ l. l ++ (value ∷ [])) h)),
    )
