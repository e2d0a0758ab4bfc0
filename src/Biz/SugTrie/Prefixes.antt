-- ===== src/Biz/SugTrie/Prefixes.antt =====
-- `Search` against the list of entries that `Build` was given.
use mini_search_rec.Prelude.{
  take_all, List-cases, ℕ, zero, suc, ◌≤◌, ◌≡◌, refl, sym, ap, ◌∙◌, ltb, Bool, true, false,
  if◌then◌else◌, List, [], ◌∷◌, ◌++◌, length, length-append, take, keep, Option, none, some,
  Option-cases, Bool-cases, inl, inr, ite, ℕ_discrete, ℤ, pos, negsuc, Bytes, arith,
}
use mathlib.Core.List.{append-nil, append_assoc, Perm}
use mathlib.Core.List.Perm
use mini_search_rec.Biz.SugTrie.{
  TrieEntry, TrieNode, node, Children, above, place, no_children, child_and, sort, new_node, child,
  put_child, push, add_entry, child_or_new, insert_to_trie, insert_all, SugTrie, build, walk, found,
  length_error, search,
}

-- Whether a word starts with a prefix.
unfoldable pub starts : Bytes → Bytes → Bool
starts [] w = true
starts (c ∷ cs) [] = false
starts (c ∷ cs) (d ∷ ds) = ite (ℕ_discrete d c) (starts cs ds) false

-- The entries of the node of a prefix, if there is one.
abbrev entries_of : Option TrieNode → List TrieEntry
entries_of none = []
entries_of (some (node ch es end)) = es

child-put_child :
    (c k : ℕ) (n : TrieNode) (ch : Children)
    → child c (put_child k n ch) ≡ ite (ℕ_discrete k c) (some n) (child c ch)
unfolding child put_child
child-put_child c k n no_children = refl
child-put_child c k n (child_and j m rest) = ground (arith, child-put_child c k n rest)

root-insert_to_trie :
    (key : Bytes) (e : TrieEntry) (t : TrieNode)
    → entries_of (some (insert_to_trie key e t)) ≡ entries_of (some t)
unfolding insert_to_trie
root-insert_to_trie [] e (node ch es end) = refl
root-insert_to_trie (k ∷ ks) e (node ch es end) = refl

-- The entries below a child, which may not be there.
abbrev below : Bytes → Option TrieNode → List TrieEntry
below cs none = []
below cs (some n) = entries_of (walk cs n)

walk-add_entry :
    (c : ℕ) (cs : Bytes) (e : TrieEntry) (n : TrieNode)
    → walk (c ∷ cs) (add_entry e n) ≡ walk (c ∷ cs) n
unfolding walk
walk-add_entry c cs e (node ch es end) = refl

root-add_entry :
    (e : TrieEntry) (n : TrieNode)
    → entries_of (some (add_entry e n)) ≡ push e (entries_of (some n))
root-add_entry e (node ch es end) = refl

below_new : (cs : Bytes) → entries_of (walk cs new_node) ≡ []
unfolding walk child
below_new [] = refl
below_new (c ∷ cs) = refl

walk-child :
    (cs ks : Bytes) (e : TrieEntry) (n : TrieNode)
    → ((c : ℕ) (cs : Bytes) (t : TrieNode)
        → entries_of (walk (c ∷ cs) (insert_to_trie ks e t)) ≡ (
            if starts (c ∷ cs) ks
            then push e (entries_of (walk (c ∷ cs) t))
            else entries_of (walk (c ∷ cs) t)))
    → entries_of (walk cs (insert_to_trie ks e (add_entry e n)))
      ≡ (if starts cs ks then push e (entries_of (walk cs n)) else entries_of (walk cs n))
unfolding walk starts
walk-child [] ks e n h = root-insert_to_trie ks e (add_entry e n) ∙ root-add_entry e n
walk-child (c ∷ cs) ks e n h =
    h c cs (add_entry e n)
    ∙ ap (λ o. if starts (c ∷ cs) ks then push e (entries_of o) else entries_of o)
        (walk-add_entry c cs e n)

-- One insertion adds the entry to the nodes of the prefixes of its word.
walk-insert_to_trie :
    (c : ℕ) (cs key : Bytes) (e : TrieEntry) (t : TrieNode)
    → entries_of (walk (c ∷ cs) (insert_to_trie key e t)) ≡ (
        if starts (c ∷ cs) key
        then push e (entries_of (walk (c ∷ cs) t))
        else entries_of (walk (c ∷ cs) t))
unfolding walk insert_to_trie starts child
walk-insert_to_trie c cs [] e (node ch es end) = refl
walk-insert_to_trie c cs (k ∷ ks) e (node ch es end) =
    let n = child_or_new k ch in
    let deeper = walk-child cs ks e n (λ d ds t. walk-insert_to_trie d ds ks e t) in
    let kept = child-put_child c k (insert_to_trie ks e (add_entry e n)) ch in
    elim (Option-cases (child k ch)) [
      | inl new ↦ ground (arith, kept, deeper, below_new cs)
      | inr (m, old) ↦ ground (arith, kept, deeper)
    ]

take_full : {A : Type 0} (xs ys : List A) → take (length xs) (xs ++ ys) ≡ xs
take_full [] ys = refl
take_full (x ∷ xs) ys = ap (◌∷◌ x) (take_full xs ys)

take-push :
    (e : TrieEntry) (xs rest : List TrieEntry)
    → length xs ≤ 200
    → take 200 (push e xs ++ rest) ≡ take 200 (xs ++ (e ∷ rest))
take-push e xs rest h = elim (Bool-cases (ltb (length xs) 200)) [
  | inl room ↦ rw room (ap (take 200) (append_assoc xs (e ∷ []) rest))
  | inr full ↦
      let same : 200 ≡ length xs = ground (arith, h) in
      rw full (
        ap (λ n. take n (xs ++ rest)) same
        ∙ (take_full xs rest
            ∙ (sym (take_full xs (e ∷ rest)) ∙ ap (λ n. take n (xs ++ (e ∷ rest))) (sym same))))
]

length-push : (e : TrieEntry) (xs : List TrieEntry) → length xs ≤ 200 → length (push e xs) ≤ 200
length-push e xs h = ground (arith, length-append xs (e ∷ []))

-- The entries whose word starts with a prefix.
abbrev pub matching : Bytes → List TrieEntry → List TrieEntry
matching p = keep (λ e. starts p e.word)

keep_true :
    (e : TrieEntry) (es : List TrieEntry) (p : Bytes)
    → starts p e.word ≡ true
    → matching p (e ∷ es) ≡ e ∷ matching p es
keep_true e es p h = ap (λ b. if b then e ∷ matching p es else matching p es) h

keep_false :
    (e : TrieEntry) (es : List TrieEntry) (p : Bytes)
    → starts p e.word ≡ false
    → matching p (e ∷ es) ≡ matching p es
keep_false e es p h = ap (λ b. if b then e ∷ matching p es else matching p es) h

walk-insert_all :
    (c : ℕ) (cs : Bytes) (es : List TrieEntry) (t : TrieNode)
    → length (entries_of (walk (c ∷ cs) t)) ≤ 200
    → entries_of (walk (c ∷ cs) (insert_all es t))
      ≡ take 200 (entries_of (walk (c ∷ cs) t) ++ matching (c ∷ cs) es)
unfolding insert_all starts
walk-insert_all c cs [] t h =
    let es = entries_of (walk (c ∷ cs) t) in sym (ap (take 200) (append-nil es) ∙ take_all 200 es h)
walk-insert_all c cs (e ∷ es) t h =
    let at = λ (u : TrieNode). entries_of (walk (c ∷ cs) u) in
    elim (List-cases e.word) [
      | inl blank ↦
          let skip : insert_all (e ∷ es) t ≡ insert_all es t = ground (arith, blank) in
          let same : starts (c ∷ cs) e.word ≡ false = ap (starts (c ∷ cs)) blank in
          ap at skip
          ∙ (walk-insert_all c cs es t h
              ∙ ap (λ ms. take 200 (at t ++ ms)) (sym (keep_false e es (c ∷ cs) same)))
      | inr (k, ks, w) ↦
          let t' = insert_to_trie (k ∷ ks) e t in
          let go : insert_all (e ∷ es) t ≡ insert_all es t' = ground (arith, w) in
          let once = walk-insert_to_trie c cs (k ∷ ks) e t in
          let same : starts (c ∷ cs) (k ∷ ks) ≡ starts (c ∷ cs) e.word =
            ap (starts (c ∷ cs)) (sym w) in
          elim (Bool-cases (starts (c ∷ cs) (k ∷ ks))) [
            | inl hit ↦
                let added : at t' ≡ push e (at t) =
                  once ∙ ap (λ b. if b then push e (at t) else at t) hit in
                ap at go
                ∙ (walk-insert_all c cs es t' (rw added (length-push e (at t) h))
                    ∙ (ap (λ l. take 200 (l ++ matching (c ∷ cs) es)) added
                        ∙ (take-push e (at t) (matching (c ∷ cs) es) h
                            ∙ ap (λ ms. take 200 (at t ++ ms))
                                (sym (keep_true e es (c ∷ cs) (sym same ∙ hit))))))
            | inr other ↦
                let kept : at t' ≡ at t =
                  once ∙ ap (λ b. if b then push e (at t) else at t) other in
                ap at go
                ∙ (walk-insert_all c cs es t' (rw kept h)
                    ∙ (ap (λ l. take 200 (l ++ matching (c ∷ cs) es)) kept
                        ∙ ap (λ ms. take 200 (at t ++ ms))
                            (sym (keep_false e es (c ∷ cs) (sym same ∙ other)))))
          ]
    ]

-- The frequencies do not rise.
abbrev pub Falling : List TrieEntry → Type 0
Falling [] = Unit {0}
Falling (e ∷ []) = Unit {0}
Falling (e ∷ f ∷ es) = (above f.freq e.freq ≡ false) × Falling (f ∷ es)

above_not_below : (a b : ℤ) → above a b ≡ true → above b a ≡ false
above_not_below (pos a) (pos b) h = ground arith
above_not_below (pos a) (negsuc b) h = refl
above_not_below (negsuc a) (pos b) h = ground arith
above_not_below (negsuc a) (negsuc b) h = ground arith

place-Falling : (e : TrieEntry) (es : List TrieEntry) → Falling es → Falling (place e es)
unfolding place
place-Falling e [] h = tt
place-Falling e (f ∷ []) h = ground (arith, above_not_below f.freq e.freq)
place-Falling e (f ∷ g ∷ es) h =
    ground (arith, above_not_below f.freq e.freq, place-Falling e (g ∷ es) h.1)

pub sort-Falling : (es : List TrieEntry) → Falling (sort es)
unfolding sort
sort-Falling [] = tt
sort-Falling (e ∷ es) = place-Falling e (sort es) (sort-Falling es)

place-perm : (e : TrieEntry) (es : List TrieEntry) → Perm (place e es) (e ∷ es)
unfolding place
place-perm e [] = Perm.refl (e ∷ [])
place-perm e (f ∷ fs) = elim (Bool-cases (above f.freq e.freq)) [
  | inl deeper ↦ rw deeper (Perm.trans (Perm.cons f (place-perm e fs)) (Perm.swap e f fs))
  | inr here ↦ rw here (Perm.refl (e ∷ f ∷ fs))
]

pub sort-perm : (es : List TrieEntry) → Perm (sort es) es
unfolding sort
sort-perm [] = Perm.refl []
sort-perm (e ∷ es) = Perm.trans (place-perm e (sort es)) (Perm.cons e (sort-perm es))

take_none : {A : Type 0} (n : ℕ) → take {A = A} n [] ≡ []
take_none zero = refl
take_none (suc n) = refl

root_new : (c : ℕ) (cs : Bytes) → walk (c ∷ cs) new_node ≡ none
unfolding walk child
root_new c cs = refl

-- After `Build`, whatever the buffer was before, `Search` of a prefix that is not empty answers the
-- first `limit` of the first 200 entries that start with the prefix, in a permutation of all entries in
-- which the frequencies fall.
pub search-build :
    (es : List TrieEntry) (t : SugTrie) (c : ℕ) (cs : Bytes) (limit : ℕ)
    → (search (build es t) (c ∷ cs) (pos limit)
        ≡ found (take limit (take 200 (matching (c ∷ cs) (sort es)))))
      × Falling (sort es)
      × Perm (sort es) es
unfolding search build
search-build es t c cs limit =
    let root = insert_all (sort es) new_node in
    let empty : entries_of (walk (c ∷ cs) new_node) ≡ [] = ap entries_of (root_new c cs) in
    let all = walk-insert_all c cs (sort es) new_node (ground (arith, empty)) in
    let held : entries_of (walk (c ∷ cs) root) ≡ take 200 (matching (c ∷ cs) (sort es)) =
      all ∙ ap (λ l. take 200 (l ++ matching (c ∷ cs) (sort es))) empty in
    (
      elim (Option-cases (walk (c ∷ cs) root)) [
        | inl nowhere ↦ ground (arith, held, take_none {A = TrieEntry} limit)
        | inr (node ch ps end, there) ↦ ground (arith, held)
      ],
      sort-Falling es,
      sort-perm es,
    )

-- `Search` with a negative limit throws as soon as some entry starts with the prefix: it reserves
-- room for the negative limit.
pub search-build_negative :
    (es : List TrieEntry) (t : SugTrie) (c : ℕ) (cs : Bytes) (n : ℕ) (e : TrieEntry)
    (rest : List TrieEntry)
    → matching (c ∷ cs) (sort es) ≡ e ∷ rest
    → search (build es t) (c ∷ cs) (negsuc n) ≡ length_error
unfolding search build
search-build_negative es t c cs n e rest h =
    let root = insert_all (sort es) new_node in
    let empty : entries_of (walk (c ∷ cs) new_node) ≡ [] = ap entries_of (root_new c cs) in
    let all = walk-insert_all c cs (sort es) new_node (ground (arith, empty)) in
    let held : entries_of (walk (c ∷ cs) root) ≡ take 200 (matching (c ∷ cs) (sort es)) =
      all ∙ ap (λ l. take 200 (l ++ matching (c ∷ cs) (sort es))) empty in
    elim (Option-cases (walk (c ∷ cs) root)) [
      | inl nowhere ↦ absurd (ground (arith, held, h))
      | inr (node ch ps end, there) ↦ ground (arith, there)
    ]
