-- ===== src/Index/Inverted/Invariant.antt =====
-- The invariant of `InvertedIndex`: the posting lists, the terms and the lengths of the documents
-- agree, and the totals are those of the documents.
use mini_search_rec.Prelude.{
  ℕ, ◌+◌, ◌%◌, ◌^◌, ◌≤◌, ◌≡◌, refl, Bool, true, false, List, [], ◌∷◌, length, none, some, arith,
  find, insert, erase, Distinct, erase_absent, Bytes, bytes_discrete, contains,
}
use mini_search_rec.Index.Inverted.{InvertedIndex, average, empty}
use mini_search_rec.Index.Inverted.Postings.{has, posting, node_of}

-- Whether a map has the key.
abbrev pub stored : {V : Type 0} → Bytes → List (Bytes × V) → Bool
stored d m = elim (find bytes_discrete d m) [ none ↦ false | some _ ↦ true ]

-- The terms of a document, as `doc_terms_` lists them.
unfoldable pub terms_of : Bytes → InvertedIndex → List Bytes
terms_of d ix = elim (find bytes_discrete d ix.doc_terms) [ none ↦ [] | some ts ↦ ts ]

unfoldable pub sum_lengths : List (Bytes × ℕ) → ℕ
sum_lengths [] = 0
sum_lengths ((d, n) ∷ m) = n + sum_lengths m

pub record IsValid (ix : InvertedIndex) : Type 0 where
  -- a term has a posting of a document exactly if it is one of the document's terms
  pub matched : (t d : Bytes) → has t d ix.index ≡ contains bytes_discrete t (terms_of d ix)
  pub paired : (d : Bytes) → stored d ix.doc_terms ≡ stored d ix.doc_lengths
  pub distinct_lengths : Distinct bytes_discrete ix.doc_lengths
  pub distinct_terms : Distinct bytes_discrete ix.doc_terms
  pub counted : ix.total_docs ≡ length ix.doc_lengths
  pub total : ix.total_doc_len ≡ sum_lengths ix.doc_lengths % 2 ^ 64
  pub averaged : ix.avg_doc_len ≡ average ix.total_doc_len ix.doc_lengths

pub sum-insert_new :
    (d : Bytes) (n : ℕ) (m : List (Bytes × ℕ))
    → find bytes_discrete d m ≡ none
    → sum_lengths (insert bytes_discrete d n m) ≡ sum_lengths m + n
unfolding find insert sum_lengths
sum-insert_new d n [] h = omega arith
sum-insert_new d n ((e, k) ∷ m) h = ground (arith, sum-insert_new d n m)

pub sum-insert_old :
    (d : Bytes) (n old : ℕ) (m : List (Bytes × ℕ))
    → find bytes_discrete d m ≡ some old
    → sum_lengths (insert bytes_discrete d n m) + old ≡ sum_lengths m + n
unfolding find insert sum_lengths
sum-insert_old d n old [] h = ground arith
sum-insert_old d n old ((e, k) ∷ m) h = ground (arith, sum-insert_old d n old m)

pub length-insert_old :
    {V : Type 0} (d : Bytes) (n old : V) (m : List (Bytes × V))
    → find bytes_discrete d m ≡ some old
    → length (insert bytes_discrete d n m) ≡ length m
unfolding find insert
length-insert_old d n old [] h = ground arith
length-insert_old d n old ((e, k) ∷ m) h = ground (arith, length-insert_old d n old m)

pub sum-erase :
    (d : Bytes) (old : ℕ) (m : List (Bytes × ℕ))
    → Distinct bytes_discrete m
    → find bytes_discrete d m ≡ some old
    → sum_lengths (erase bytes_discrete d m) + old ≡ sum_lengths m
unfolding find erase sum_lengths
sum-erase d old [] u h = ground arith
sum-erase d old ((e, k) ∷ m) u h =
    ground (arith, sum-erase d old m u.1, erase_absent bytes_discrete d m)

pub sum-ge :
    (d : Bytes) (old : ℕ) (m : List (Bytes × ℕ))
    → find bytes_discrete d m ≡ some old
    → old ≤ sum_lengths m
unfolding find sum_lengths
sum-ge d old [] h = ground arith
sum-ge d old ((e, k) ∷ m) h = ground (arith, sum-ge d old m)

-- A new index, or one just cleared, is valid.
pub empty-IsValid : IsValid empty
unfolding empty has posting node_of terms_of find contains average sum_lengths
empty-IsValid = record {
  matched = λ t d. refl;
  paired = λ d. refl;
  distinct_lengths = tt;
  distinct_terms = tt;
  counted = refl;
  total = refl;
  averaged = refl;
}
