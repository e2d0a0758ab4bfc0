-- ===== src/Index/Queries/Results.antt =====
-- What the queries answer, in terms of the postings.
use mini_search_rec.Prelude.{
  ℕ, ◌+◌, ◌≤◌, ◌≡◌, ◌⊎◌, inl, inr, refl, ◌∙◌, Bool, true, false, ◌&&◌, ◌||◌, ite, List, [], ◌∷◌,
  take, keep, Option, none, some, arith, find, insert, find-insert, insert-Distinct, Distinct,
  Option-cases, ℤ, pos_part, Bytes, bytes_discrete, contains,
}
use mini_search_rec.Index.Inverted.{PostingNode, InvertedIndex, postings_of}
use mini_search_rec.Index.Inverted.Postings.{node_of, posting, has, contains-add_to}
use mini_search_rec.Index.Queries.{
  doc_set, narrow, search_and, score_nodes, score_terms, place, rank, ids, search,
}

-- Whether every term, and whether some term, has a posting of the document.
unfoldable pub all_have : List Bytes → Bytes → List (Bytes × List PostingNode) → Bool
all_have [] d ix = true
all_have (t ∷ ts) d ix = has t d ix && all_have ts d ix

unfoldable pub any_has : List Bytes → Bytes → List (Bytes × List PostingNode) → Bool
any_has [] d ix = false
any_has (t ∷ ts) d ix = has t d ix || any_has ts d ix

abbrev is_some : Option PostingNode → Bool
is_some none = false
is_some (some n) = true

contains-doc_set :
    (d : Bytes) (ps : List PostingNode)
    → contains bytes_discrete d (doc_set ps) ≡ is_some (node_of d ps)
unfolding contains doc_set node_of
contains-doc_set d [] = refl
contains-doc_set d (n ∷ ns) =
    ground (arith, contains-doc_set d ns, contains-add_to n.doc_id d (doc_set ns))

contains-keep :
    (d : Bytes) (rs xs : List Bytes)
    → contains bytes_discrete d (keep (λ x. contains bytes_discrete x rs) xs)
      ≡ (contains bytes_discrete d xs && contains bytes_discrete d rs)
unfolding contains
contains-keep d rs [] = refl
contains-keep d rs (x ∷ xs) = ground (arith, contains-keep d rs xs)

has-find :
    (t d : Bytes) (ix : List (Bytes × List PostingNode)) (ps : List PostingNode)
    → find bytes_discrete t ix ≡ some ps
    → has t d ix ≡ contains bytes_discrete d (doc_set ps)
unfolding has posting
has-find t d ix ps h = ground (arith, contains-doc_set d ps)

has-none :
    (t d : Bytes) (ix : List (Bytes × List PostingNode))
    → find bytes_discrete t ix ≡ none
    → has t d ix ≡ false
unfolding has posting node_of
has-none t d ix h = ground arith

List-cases : (l : List Bytes) → (l ≡ []) ⊎ ((x : Bytes) × (xs : List Bytes) × (l ≡ x ∷ xs))
List-cases [] = inl refl
List-cases (x ∷ xs) = inr (x, xs, refl)

contains-narrow :
    (d : Bytes) (ix : List (Bytes × List PostingNode)) (ts rs : List Bytes)
    → contains bytes_discrete d (narrow ix ts rs)
      ≡ (contains bytes_discrete d rs && all_have ts d ix)
unfolding narrow all_have contains
contains-narrow d ix [] rs = ground arith
contains-narrow d ix (t ∷ ts) rs = elim (Option-cases (find bytes_discrete t ix)) [
  | inl absent ↦ ground (arith, has-none t d ix absent)
  | inr (ps, held) ↦
      let next = keep (λ x. contains bytes_discrete x rs) (doc_set ps) in
      let kept = contains-keep d rs (doc_set ps) in
      let here = has-find t d ix ps held in
      elim (List-cases next) [
        | inl none_left ↦ ground arith
        | inr (e, es, some_left) ↦ ground (arith, contains-narrow d ix ts (e ∷ es))
      ]
]

-- `SearchAnd` of at least one term finds exactly the documents of which every term has a posting.
pub contains-search_and :
    (ix : InvertedIndex) (t : Bytes) (ts : List Bytes) (d : Bytes)
    → contains bytes_discrete d (search_and ix (t ∷ ts)) ≡ all_have (t ∷ ts) d ix.index
unfolding search_and all_have contains
contains-search_and ix t ts d = elim (Option-cases (find bytes_discrete t ix.index)) [
  | inl absent ↦ ground (arith, has-none t d ix.index absent)
  | inr (ps, held) ↦
      ground (arith, has-find t d ix.index ps held, contains-narrow d ix.index ts (doc_set ps))
]

-- The documents that a map of scores holds.
abbrev scored : Bytes → List (Bytes × ℕ) → Bool
scored d m = contains bytes_discrete d (ids m)

scored-insert :
    (d e : Bytes) (k : ℕ) (m : List (Bytes × ℕ))
    → scored d (insert bytes_discrete e k m) ≡ ite (bytes_discrete e d) true (scored d m)
unfolding insert contains
scored-insert d e k [] = refl
scored-insert d e k ((f, n) ∷ m) = ground (arith, scored-insert d e k m)

scored-score_nodes :
    (d : Bytes) (ns : List PostingNode) (m : List (Bytes × ℕ))
    → scored d (score_nodes ns m) ≡ (scored d m || is_some (node_of d ns))
unfolding score_nodes node_of
scored-score_nodes d [] m = ground arith
scored-score_nodes d (n ∷ ns) m =
    let k : ℕ = elim (find bytes_discrete n.doc_id m) [ none ↦ 1 | some k ↦ k + 1 ] in
    ground (
      arith,
      scored-score_nodes d ns (insert bytes_discrete n.doc_id k m),
      scored-insert d n.doc_id k m,
    )

scored-score_terms :
    (d : Bytes) (ix : List (Bytes × List PostingNode)) (ts : List Bytes) (m : List (Bytes × ℕ))
    → scored d (score_terms ix ts m) ≡ (scored d m || any_has ts d ix)
unfolding score_terms any_has
scored-score_terms d ix [] m = ground arith
scored-score_terms d ix (t ∷ ts) m = elim (Option-cases (find bytes_discrete t ix)) [
  | inl absent ↦ ground (arith, has-none t d ix absent, scored-score_terms d ix ts m)
  | inr (ps, held) ↦ ground (
    arith,
    has-find t d ix ps held,
    contains-doc_set d ps,
    scored-score_nodes d ps m,
    scored-score_terms d ix ts (score_nodes ps m),
  )
]

-- The scores fall along the list.
abbrev pub Falling : List (Bytes × ℕ) → Type 0
Falling [] = Unit {0}
Falling (e ∷ []) = Unit {0}
Falling (e ∷ f ∷ m) = (f.1 ≤ e.1) × Falling (f ∷ m)

place-Falling : (e : Bytes × ℕ) (m : List (Bytes × ℕ)) → Falling m → Falling (place e m)
unfolding place
place-Falling e [] h = tt
place-Falling e (f ∷ []) h = ground arith
place-Falling e (f ∷ g ∷ m) h = ground (arith, place-Falling e (g ∷ m) h.1)

rank-Falling : (m : List (Bytes × ℕ)) → Falling (rank m)
unfolding rank
rank-Falling [] = tt
rank-Falling (e ∷ m) = place-Falling e (rank m) (rank-Falling m)

scored-place :
    (d : Bytes) (e : Bytes × ℕ) (m : List (Bytes × ℕ))
    → scored d (place e m) ≡ ite (bytes_discrete e.0 d) true (scored d m)
unfolding place contains
scored-place d e [] = ground arith
scored-place d e (f ∷ m) = ground (arith, scored-place d e m)

scored-rank : (d : Bytes) (m : List (Bytes × ℕ)) → scored d (rank m) ≡ scored d m
unfolding rank contains
scored-rank d [] = refl
scored-rank d (e ∷ m) = ground (arith, scored-place d e (rank m), scored-rank d m)

-- How many postings of the document the terms have.
unfoldable pub nodes_of : Bytes → List PostingNode → ℕ
nodes_of d [] = 0
nodes_of d (n ∷ ns) = let rest = nodes_of d ns in ite (bytes_discrete n.doc_id d) (rest + 1) rest

unfoldable pub hits : List Bytes → Bytes → List (Bytes × List PostingNode) → ℕ
hits [] d ix = 0
hits (t ∷ ts) d ix = nodes_of d (postings_of t ix) + hits ts d ix

-- The score of a document in a map of scores.
abbrev pub score : Bytes → List (Bytes × ℕ) → ℕ
score d m = elim (find bytes_discrete d m) [ none ↦ 0 | some k ↦ k ]

score-score_nodes :
    (d : Bytes) (ns : List PostingNode) (m : List (Bytes × ℕ))
    → score d (score_nodes ns m) ≡ score d m + nodes_of d ns
unfolding score_nodes nodes_of
score-score_nodes d [] m = omega arith
score-score_nodes d (n ∷ ns) m =
    let k : ℕ = elim (find bytes_discrete n.doc_id m) [ none ↦ 1 | some k ↦ k + 1 ] in
    ground (
      arith,
      score-score_nodes d ns (insert bytes_discrete n.doc_id k m),
      find-insert bytes_discrete n.doc_id d k m,
    )

score-score_terms :
    (d : Bytes) (ix : List (Bytes × List PostingNode)) (ts : List Bytes) (m : List (Bytes × ℕ))
    → score d (score_terms ix ts m) ≡ score d m + hits ts d ix
unfolding score_terms hits nodes_of
score-score_terms d ix [] m = omega arith
score-score_terms d ix (t ∷ ts) m = elim (Option-cases (find bytes_discrete t ix)) [
  | inl absent ↦ ground (arith, score-score_terms d ix ts m)
  | inr (ps, held) ↦
      ground (arith, score-score_nodes d ps m, score-score_terms d ix ts (score_nodes ps m))
]

score_nodes-Distinct :
    (ns : List PostingNode) (m : List (Bytes × ℕ))
    → Distinct bytes_discrete m
    → Distinct bytes_discrete (score_nodes ns m)
unfolding score_nodes
score_nodes-Distinct [] m h = h
score_nodes-Distinct (n ∷ ns) m h =
    score_nodes-Distinct ns _ (insert-Distinct bytes_discrete n.doc_id _ m h)

score_terms-Distinct :
    (ix : List (Bytes × List PostingNode)) (ts : List Bytes) (m : List (Bytes × ℕ))
    → Distinct bytes_discrete m
    → Distinct bytes_discrete (score_terms ix ts m)
unfolding score_terms
score_terms-Distinct ix [] m h = h
score_terms-Distinct ix (t ∷ ts) m h = elim (Option-cases (find bytes_discrete t ix)) [
  | inl absent ↦ rw (absent, score_terms) (score_terms-Distinct ix ts m h)
  | inr (ps, held) ↦
      rw (held, score_terms)
        (score_terms-Distinct ix ts (score_nodes ps m) (score_nodes-Distinct ps m h))
]

find-place :
    (d : Bytes) (e : Bytes × ℕ) (m : List (Bytes × ℕ))
    → find bytes_discrete e.0 m ≡ none
    → find bytes_discrete d (place e m)
      ≡ ite (bytes_discrete e.0 d) (some e.1) (find bytes_discrete d m)
unfolding place find
find-place d e [] h = ground arith
find-place d e (f ∷ m) h = ground (arith, find-place d e m)

find-rank :
    (d : Bytes) (m : List (Bytes × ℕ))
    → Distinct bytes_discrete m
    → find bytes_discrete d (rank m) ≡ find bytes_discrete d m
unfolding rank find
find-rank d [] h = refl
find-rank d (e ∷ m) h =
    ground (arith, find-place d e (rank m), find-rank d m h.1, find-rank e.0 m h.1)

place-Distinct :
    (e : Bytes × ℕ) (m : List (Bytes × ℕ))
    → find bytes_discrete e.0 m ≡ none
    → Distinct bytes_discrete m
    → Distinct bytes_discrete (place e m)
unfolding place find
place-Distinct e [] h d = (refl, tt)
place-Distinct e (f ∷ m) h d = ground (arith, h, d, find-place f.0 e m, place-Distinct e m)

rank-Distinct :
    (m : List (Bytes × ℕ)) → Distinct bytes_discrete m → Distinct bytes_discrete (rank m)
unfolding rank find
rank-Distinct [] d = tt
rank-Distinct (e ∷ m) d =
    place-Distinct e (rank m) (find-rank e.0 m d.1 ∙ d.0) (rank-Distinct m d.1)

-- `Search` returns the first `max_results` (none, if that is negative) of a list in which the scores
-- fall and no document stands twice, which holds exactly the documents of which some term has a
-- posting, each with the number of its postings under the terms as its score.
pub search-ranked :
    (ix : InvertedIndex) (ts : List Bytes) (max_results : ℤ)
    → (ranked : List (Bytes × ℕ)) × (search ix ts max_results
        ≡ ids (take (pos_part max_results) ranked))
      × Falling ranked
      × Distinct bytes_discrete ranked
      × ((d : Bytes) → contains bytes_discrete d (ids ranked) ≡ any_has ts d ix.index)
      × ((d : Bytes) → score d ranked ≡ hits ts d ix.index)
unfolding search contains find
search-ranked ix ts max_results =
    let m = score_terms ix.index ts [] in
    (
      rank m,
      refl,
      rank-Falling m,
      rank-Distinct m (score_terms-Distinct ix.index ts [] tt),
      (λ d. scored-rank d m ∙ ground (arith, scored-score_terms d ix.index ts [])),
      (λ d. ground (
        arith,
        score-score_terms d ix.index ts [],
        find-rank d m (score_terms-Distinct ix.index ts [] tt),
      )),
    )
