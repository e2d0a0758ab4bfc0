-- ===== src/Index/Inverted/Removal.antt =====
-- `RemoveDocument`.
use mini_search_rec.Prelude.{
  ℕ, ◌-◌, ◌≡◌, ◌≢◌, inl, inr, refl, false, List, none, some, arith, find, erase, find-erase,
  erase-Distinct, length-erase, Option-cases, Bytes, bytes_discrete, contains,
}
use mini_search_rec.Index.Inverted.{InvertedIndex, average, remove_document, scrub, sub64}
use mini_search_rec.Index.Inverted.Postings.{has, posting, posting-scrub}
use mini_search_rec.Index.Inverted.Invariant.{IsValid, terms_of, sum-erase}

-- After the terms of a document are scrubbed no term has a posting of it.
pub has-scrub_self :
    (ix : InvertedIndex) (d t : Bytes)
    → IsValid ix
    → has t d (scrub d (terms_of d ix) ix.index) ≡ false
unfolding has
has-scrub_self ix d t v =
    ground (arith, posting-scrub d (terms_of d ix) t d ix.index, v.matched t d)

pub posting-scrub_other :
    (ix : InvertedIndex) (d j t : Bytes) (ts : List Bytes)
    → d ≢ j
    → posting t j (scrub d ts ix.index) ≡ posting t j ix.index
posting-scrub_other ix d j t ts h = ground (arith, posting-scrub d ts t j ix.index)

-- A stored document has both its terms and its length.
length_of_terms :
    (ix : InvertedIndex) (d : Bytes) (ts : List Bytes)
    → IsValid ix
    → find bytes_discrete d ix.doc_terms ≡ some ts
    → (n : ℕ) × (find bytes_discrete d ix.doc_lengths ≡ some n)
length_of_terms ix d ts v h = elim (Option-cases (find bytes_discrete d ix.doc_lengths)) [
  | inl missing ↦ absurd (ground (arith, v.paired d))
  | inr held ↦ held
]

pub terms_of_length :
    (ix : InvertedIndex) (d : Bytes) (n : ℕ)
    → IsValid ix
    → find bytes_discrete d ix.doc_lengths ≡ some n
    → (ts : List Bytes) × (find bytes_discrete d ix.doc_terms ≡ some ts)
terms_of_length ix d n v h = elim (Option-cases (find bytes_discrete d ix.doc_terms)) [
  | inl missing ↦ absurd (ground (arith, v.paired d))
  | inr held ↦ held
]

-- What `RemoveDocument` leaves of a stored document.
abbrev removed : InvertedIndex → Bytes → List Bytes → ℕ → InvertedIndex
removed ix d ts n =
    let lengths = erase bytes_discrete d ix.doc_lengths in
    let total = sub64 ix.total_doc_len n in
    record {
      index = scrub d ts ix.index;
      doc_lengths = lengths;
      doc_terms = erase bytes_discrete d ix.doc_terms;
      avg_doc_len = average total lengths;
      total_docs = ix.total_docs - 1;
      total_doc_len = total;
    }

remove_document-removed :
    (ix : InvertedIndex) (d : Bytes) (ts : List Bytes) (n : ℕ)
    → find bytes_discrete d ix.doc_terms ≡ some ts
    → find bytes_discrete d ix.doc_lengths ≡ some n
    → remove_document ix d ≡ removed ix d ts n
unfolding remove_document
remove_document-removed ix d ts n h k = ground arith

removed-IsValid :
    (ix : InvertedIndex) (d : Bytes) (ts : List Bytes) (n : ℕ)
    → IsValid ix
    → find bytes_discrete d ix.doc_terms ≡ some ts
    → find bytes_discrete d ix.doc_lengths ≡ some n
    → IsValid (removed ix d ts n)
unfolding has terms_of contains
removed-IsValid ix d ts n v h k = record {
  matched = λ t j. ground (
    arith,
    posting-scrub d ts t j ix.index,
    v.matched t j,
    find-erase bytes_discrete d j ix.doc_terms,
  );
  paired = λ j. ground (
    arith,
    v.paired j,
    find-erase bytes_discrete d j ix.doc_terms,
    find-erase bytes_discrete d j ix.doc_lengths,
  );
  distinct_lengths = erase-Distinct bytes_discrete d ix.doc_lengths v.distinct_lengths;
  distinct_terms = erase-Distinct bytes_discrete d ix.doc_terms v.distinct_terms;
  counted =
      omega (arith, v.counted, length-erase bytes_discrete d n ix.doc_lengths v.distinct_lengths k);
  total = omega (arith, v.total, sum-erase d n ix.doc_lengths v.distinct_lengths k);
  averaged = refl;
}

-- `RemoveDocument` keeps the index valid.
pub remove_document-IsValid :
    (ix : InvertedIndex) (d : Bytes) → IsValid ix → IsValid (remove_document ix d)
unfolding remove_document
remove_document-IsValid ix d v = elim (Option-cases (find bytes_discrete d ix.doc_terms)) [
  | inl missing ↦ rw (missing, remove_document) v
  | inr (ts, h) ↦
      let (n, k) = length_of_terms ix d ts v h in
      rw (remove_document-removed ix d ts n h k) (removed-IsValid ix d ts n v h k)
]

-- In a valid index, after `RemoveDocument` no term has a posting of the document, it has no length and no terms, and
-- the postings, terms and lengths of every other document are what they were.
pub remove_document-purges :
    (ix : InvertedIndex) (d : Bytes)
    → IsValid ix
    → let ix' = remove_document ix d in
      ((t : Bytes) → posting t d ix'.index ≡ none)
      × (find bytes_discrete d ix'.doc_lengths ≡ none)
      × (find bytes_discrete d ix'.doc_terms ≡ none)
      × ((t j : Bytes)
          → d ≢ j
          → (posting t j ix'.index ≡ posting t j ix.index)
            × (find bytes_discrete j ix'.doc_lengths ≡ find bytes_discrete j ix.doc_lengths)
            × (find bytes_discrete j ix'.doc_terms ≡ find bytes_discrete j ix.doc_terms))
unfolding remove_document has terms_of contains
remove_document-purges ix d v = elim (Option-cases (find bytes_discrete d ix.doc_terms)) [
  | inl missing ↦
      rw (missing, remove_document)
        (
          (λ t. ground (arith, v.matched t d)),
          ground (arith, v.paired d),
          missing,
          (λ t j other. (refl, refl, refl)),
        )
  | inr (ts, h) ↦
      let (n, k) = length_of_terms ix d ts v h in
      rw (remove_document-removed ix d ts n h k) (
        (λ t. ground (arith, posting-scrub d ts t d ix.index, v.matched t d)),
        ground (arith, find-erase bytes_discrete d d ix.doc_lengths),
        ground (arith, find-erase bytes_discrete d d ix.doc_terms),
        (λ t j other. (
          posting-scrub_other ix d j t ts other,
          ground (arith, find-erase bytes_discrete d j ix.doc_lengths),
          ground (arith, find-erase bytes_discrete d j ix.doc_terms),
        )),
      )
]
