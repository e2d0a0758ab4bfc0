-- ===== src/Index/Queries/Postings.antt =====
-- What `GetDocPostings` answers.
use mini_search_rec.Prelude.{
  ◌≡◌, inl, inr, refl, if◌then◌else◌, List, [], ◌∷◌, Option, none, some, arith, find, insert,
  find-insert, Option-cases, Bytes, bytes_discrete, contains,
}
use mini_search_rec.Index.Inverted.{PostingNode, InvertedIndex, postings_of}
use mini_search_rec.Index.Inverted.Postings.{node_of, posting, has}
use mini_search_rec.Index.Inverted.Invariant.{IsValid, terms_of}
use mini_search_rec.Index.Queries.{postings_from, get_doc_postings}

-- The node that is there, else the one that was found before.
abbrev or_else : Option PostingNode → Option PostingNode → Option PostingNode
or_else none o = o
or_else (some n) o = some n

find-postings_from :
    (d t : Bytes) (ix : List (Bytes × List PostingNode)) (ts : List Bytes)
    (r : List (Bytes × PostingNode))
    → find bytes_discrete t (postings_from d ix ts r) ≡ (
        if contains bytes_discrete t ts
        then or_else (posting t d ix) (find bytes_discrete t r)
        else find bytes_discrete t r)
unfolding postings_from contains posting
find-postings_from d t ix [] r = refl
find-postings_from d t ix (u ∷ us) r = elim (Option-cases (node_of d (postings_of u ix))) [
  | inl absent ↦ ground (arith, find-postings_from d t ix us r)
  | inr (n, held) ↦ ground (
    arith,
    find-postings_from d t ix us (insert bytes_discrete u n r),
    find-insert bytes_discrete u t n r,
  )
]

-- On a valid index `GetDocPostings` maps each term to its posting of the document, and has no other
-- key.
pub find-get_doc_postings :
    (ix : InvertedIndex) (d t : Bytes)
    → IsValid ix
    → find bytes_discrete t (get_doc_postings ix d) ≡ posting t d ix.index
unfolding get_doc_postings has terms_of find contains
find-get_doc_postings ix d t v = elim (Option-cases (find bytes_discrete d ix.doc_terms)) [
  | inl absent ↦ ground (arith, v.matched t d)
  | inr (ts, held) ↦ ground (arith, v.matched t d, find-postings_from d t ix.index ts [])
]
