-- ===== src/Index/Queries.antt =====
-- src/lib/index/inverted_index.cpp: the queries of `InvertedIndex`, `Search`, `SearchAnd`,
-- `CalculateIDF` and `GetDocPostings`. The source leaves the order of equal scores to `std::sort` and
-- the hash map; here it is the order in which the documents are met. The `int` scores and sizes count
-- postings and documents in memory and are below 2^31, so they are natural numbers here.
pub mod Results
pub mod Postings
use mini_search_rec.Prelude.{
  ℕ, zero, suc, ◌+◌, ◌-◌, ◌*◌, ◌%◌, ◌^◌, Bool, true, false, if◌then◌else◌, ltb, leb, ◌==◌, ite,
  List, [], ◌∷◌, ◌++◌, length, take, keep, map, Option, none, some, find, insert, ℤ, pos_part,
  Bytes, bytes_discrete, contains, add_to,
}
use mini_search_rec.Index.Inverted.{PostingNode, InvertedIndex, postings_of}
use mini_search_rec.Index.Inverted.Postings.{node_of}

-- The ids of the documents of a posting list, as a set.
unfoldable pub doc_set : List PostingNode → List Bytes
doc_set [] = []
doc_set (n ∷ ns) = add_to bytes_discrete n.doc_id (doc_set ns)

-- The loop of `SearchAnd` over the terms after the first.
unfoldable pub narrow : List (Bytes × List PostingNode) → List Bytes → List Bytes → List Bytes
narrow ix [] result_set = result_set
narrow ix (t ∷ ts) result_set = elim (find bytes_discrete t ix) [
  | none ↦ []
  | some ps ↦ elim (keep (λ d. contains bytes_discrete d result_set) (doc_set ps)) [
    | [] ↦ []
    | d ∷ ds ↦ narrow ix ts (d ∷ ds)
  ]
]

-- `SearchAnd`
unfoldable pub search_and : InvertedIndex → List Bytes → List Bytes
search_and ix [] = []
search_and ix (t ∷ ts) = elim (find bytes_discrete t ix.index) [
  | none ↦ []
  | some ps ↦ narrow ix.index ts (doc_set ps)
]

-- The loop over the nodes of one term that counts `doc_scores[node.doc_id]` up.
unfoldable pub score_nodes : List PostingNode → List (Bytes × ℕ) → List (Bytes × ℕ)
score_nodes [] m = m
score_nodes (n ∷ ns) m = score_nodes ns (
    insert bytes_discrete n.doc_id
      (elim (find bytes_discrete n.doc_id m) [ none ↦ 1 | some k ↦ k + 1 ]) m)

-- The loop over the terms.
unfoldable pub score_terms :
    List (Bytes × List PostingNode) → List Bytes → List (Bytes × ℕ) → List (Bytes × ℕ)
score_terms ix [] m = m
score_terms ix (t ∷ ts) m =
    score_terms ix ts (elim (find bytes_discrete t ix) [ none ↦ m | some ps ↦ score_nodes ps m ])

-- `std::sort(..., a.second > b.second)`
unfoldable pub place : Bytes × ℕ → List (Bytes × ℕ) → List (Bytes × ℕ)
place e [] = e ∷ []
place e (f ∷ fs) = if ltb e.1 f.1 then f ∷ place e fs else e ∷ f ∷ fs

unfoldable pub rank : List (Bytes × ℕ) → List (Bytes × ℕ)
rank [] = []
rank (e ∷ es) = place e (rank es)

abbrev pub ids : List (Bytes × ℕ) → List Bytes
ids [] = []
ids ((d, n) ∷ m) = d ∷ ids m

-- `Search`
unfoldable pub search : InvertedIndex → List Bytes → ℤ → List Bytes
search ix terms max_results =
    ids (take (pos_part max_results) (rank (score_terms ix.index terms [])))

-- `GetDocPostings`
unfoldable pub postings_from :
    Bytes
    → List (Bytes × List PostingNode)
    → List Bytes
    → List (Bytes × PostingNode)
    → List (Bytes × PostingNode)
postings_from d ix [] result = result
postings_from d ix (t ∷ ts) result = postings_from d ix ts (elim (node_of d (postings_of t ix)) [
  | none ↦ result
  | some n ↦ insert bytes_discrete t n result
])

unfoldable pub get_doc_postings : InvertedIndex → Bytes → List (Bytes × PostingNode)
get_doc_postings ix d = elim (find bytes_discrete d ix.doc_terms) [
  | none ↦ []
  | some ts ↦ postings_from d ix.index ts []
]

-- `CalculateIDF`: none is 0.0f, and a pair is the logarithm of a quotient, its two numbers doubled
-- (2n + 1 is n + 0.5f). The difference is that of `size_t` and `int`, which wraps below 0.
unfoldable pub calculate_idf : InvertedIndex → Bytes → Option (ℕ × ℕ)
calculate_idf ix t = elim (find bytes_discrete t ix.index) [
  | none ↦ none
  | some ps ↦
      if ix.total_docs == 0
      then none
      else if length ps == 0
      then none
      else some (2 * ((ix.total_docs + 2 ^ 64 - length ps) % 2 ^ 64) + 1, 2 * length ps + 1)
]
