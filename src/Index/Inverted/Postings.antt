-- ===== src/Index/Inverted/Postings.antt =====
-- What the map of posting lists says of a term and a document, and how the loops change that.
use mini_search_rec.Prelude.{
  ℕ, ◌+◌, ◌%◌, ◌^◌, ◌≡◌, ◌≢◌, inl, inr, refl, Bool, true, false, ◌||◌, ite, List, [], ◌∷◌, Option,
  none, some, arith, find, insert, find-insert, find-erase, Option-cases, Bytes, bytes_discrete,
  contains, add_to, if◌then◌else◌,
}
use mini_search_rec.Index.Inverted.{
  PostingNode, strip, store_postings, scrub, count_up, max_of, postings_of, add_tokens,
}

-- The node of a document in a posting list.
unfoldable pub node_of : Bytes → List PostingNode → Option PostingNode
node_of d [] = none
node_of d (n ∷ ns) = ite (bytes_discrete n.doc_id d) (some n) (node_of d ns)

-- The node of a document under a term.
unfoldable pub posting : Bytes → Bytes → List (Bytes × List PostingNode) → Option PostingNode
posting t d ix = node_of d (postings_of t ix)

pub node_of-strip :
    (d j : Bytes) (ns : List PostingNode)
    → node_of j (strip d ns) ≡ ite (bytes_discrete d j) none (node_of j ns)
unfolding node_of strip
node_of-strip d j [] = ground arith
node_of-strip d j (n ∷ ns) = ground (arith, node_of-strip d j ns)

-- The node that `count_up` leaves for the document.
unfoldable pub counted : Bytes → ℕ → ℕ → Option PostingNode → PostingNode
counted d fw len none = record { doc_id = d; term_freq = 1; field_weight = fw; doc_len = len }
counted d fw len (some n) = record n {
  term_freq = (n.term_freq + 1) % 2 ^ 32;
  field_weight = max_of n.field_weight fw;
}

pub node_of-count_up :
    (d j : Bytes) (fw len : ℕ) (ns : List PostingNode)
    → node_of j (count_up d fw len ns)
      ≡ ite (bytes_discrete d j) (some (counted d fw len (node_of d ns))) (node_of j ns)
unfolding node_of count_up counted
node_of-count_up d j fw len [] = ground arith
node_of-count_up d j fw len (n ∷ ns) = elim (bytes_discrete n.doc_id d) [
  | yes p ↦ ground arith
  | no p ↦ ground (arith, node_of-count_up d j fw len ns)
]

posting-store :
    (t u j : Bytes) (ns : List PostingNode) (ix : List (Bytes × List PostingNode))
    → posting u j (store_postings t ns ix)
      ≡ ite (bytes_discrete t u) (node_of j ns) (posting u j ix)
unfolding posting store_postings node_of
posting-store t u j [] ix = ground (arith, find-erase bytes_discrete t u ix)
posting-store t u j (n ∷ ns) ix = ground (arith, find-insert bytes_discrete t u (n ∷ ns) ix)

posting-insert :
    (t u j : Bytes) (ns : List PostingNode) (ix : List (Bytes × List PostingNode))
    → posting u j (insert bytes_discrete t ns ix)
      ≡ ite (bytes_discrete t u) (node_of j ns) (posting u j ix)
unfolding posting
posting-insert t u j ns ix = ground (arith, find-insert bytes_discrete t u ns ix)

-- One step of the loop that takes a document out of its posting lists.
scrub_term : Bytes → Bytes → List (Bytes × List PostingNode) → List (Bytes × List PostingNode)
scrub_term d t ix = elim (find bytes_discrete t ix) [
  | none ↦ ix
  | some ps ↦ store_postings t (strip d ps) ix
]

posting-scrub_term :
    (d t u j : Bytes) (ix : List (Bytes × List PostingNode))
    → posting u j (scrub_term d t ix)
      ≡ ite (bytes_discrete t u) (ite (bytes_discrete d j) none (posting u j ix)) (posting u j ix)
unfolding scrub_term posting node_of
posting-scrub_term d t u j ix = elim (Option-cases (find bytes_discrete t ix)) [
  | inl absent ↦ ground arith
  | inr (ps, held) ↦ ground (arith, posting-store t u j (strip d ps) ix, node_of-strip d j ps)
]

-- The loop takes the document out of the lists of the given terms, and changes no other node.
pub posting-scrub :
    (d : Bytes) (ts : List Bytes) (u j : Bytes) (ix : List (Bytes × List PostingNode))
    → posting u j (scrub d ts ix)
      ≡ ite
          (bytes_discrete d j)
          (if contains bytes_discrete u ts then none else posting u j ix)
          (posting u j ix)
unfolding scrub contains scrub_term
posting-scrub d [] u j ix = ground arith
posting-scrub d (t ∷ ts) u j ix =
    ground (arith, posting-scrub d ts u j (scrub_term d t ix), posting-scrub_term d t u j ix)

pub contains-add_to :
    (a b : Bytes) (xs : List Bytes)
    → contains bytes_discrete b (add_to bytes_discrete a xs)
      ≡ ite (bytes_discrete a b) true (contains bytes_discrete b xs)
unfolding contains add_to
contains-add_to a b [] = refl
contains-add_to a b (x ∷ xs) = ground (arith, contains-add_to a b xs)

-- Whether a term has a node of the document.
unfoldable pub has : Bytes → Bytes → List (Bytes × List PostingNode) → Bool
has t d ix = elim (posting t d ix) [ none ↦ false | some _ ↦ true ]

-- One step of `add_tokens`.
posting-add_token :
    (d t u j : Bytes) (len fw : ℕ) (ix : List (Bytes × List PostingNode))
    → posting u j (insert bytes_discrete t (count_up d fw len (postings_of t ix)) ix)
      ≡ ite
          (bytes_discrete t u)
          (ite (bytes_discrete d j) (some (counted d fw len (posting t d ix))) (posting u j ix))
          (posting u j ix)
unfolding posting
posting-add_token d t u j len fw ix = ground (
  arith,
  posting-insert t u j (count_up d fw len (postings_of t ix)) ix,
  node_of-count_up d j fw len (postings_of t ix),
)

-- A map and a set of terms in which exactly the terms of the set have a node of the document.
abbrev pub Matches : Bytes → List (Bytes × List PostingNode) × List Bytes → Type 0
Matches d s = (u : Bytes) → has u d s.0 ≡ contains bytes_discrete u s.1

module _ (d : Bytes) (len fw : ℕ) where
  abbrev add_token :
      Bytes
      → List (Bytes × List PostingNode) × List Bytes
      → List (Bytes × List PostingNode) × List Bytes
  add_token t s = (
    insert bytes_discrete t (count_up d fw len (postings_of t s.0)) s.0,
    add_to bytes_discrete t s.1,
  )

  add_token-Matches :
      (t : Bytes) (s : List (Bytes × List PostingNode) × List Bytes)
      → Matches d s
      → Matches d (add_token t s)
  unfolding has
  add_token-Matches t s m u =
      ground (arith, posting-add_token d t u d len fw s.0, contains-add_to t u s.1, m u)

  pub add_tokens-Matches :
      (ts : List Bytes) (s : List (Bytes × List PostingNode) × List Bytes)
      → Matches d s
      → Matches d (add_tokens d len fw ts s)
  unfolding add_tokens
  add_tokens-Matches [] s m = m
  add_tokens-Matches (t ∷ ts) s m = add_tokens-Matches ts (add_token t s) (add_token-Matches t s m)

  pub posting-add_tokens_other :
      (ts : List Bytes) (u j : Bytes) (s : List (Bytes × List PostingNode) × List Bytes)
      → d ≢ j
      → posting u j (add_tokens d len fw ts s).0 ≡ posting u j s.0
  unfolding add_tokens
  posting-add_tokens_other [] u j s h = refl
  posting-add_tokens_other (t ∷ ts) u j s h = ground (
    arith,
    posting-add_tokens_other ts u j (add_token t s) h,
    posting-add_token d t u j len fw s.0,
  )

  pub contains-add_tokens :
      (ts : List Bytes) (u : Bytes) (s : List (Bytes × List PostingNode) × List Bytes)
      → contains bytes_discrete u (add_tokens d len fw ts s).1
        ≡ contains bytes_discrete u s.1 || contains bytes_discrete u ts
  unfolding add_tokens contains
  contains-add_tokens [] u s = ground arith
  contains-add_tokens (t ∷ ts) u s =
      ground (arith, contains-add_tokens ts u (add_token t s), contains-add_to t u s.1)
