-- ===== src/Index/Inverted/Addition.antt =====
-- `AddDocument`.
use mini_search_rec.Prelude.{
  ℕ, ◌+◌, ◌%◌, ◌^◌, ◌≡◌, ◌≢◌, inl, inr, refl, sym, ◌∙◌, ap, false, List, [], length, none, some,
  arith, find, insert, erase, Distinct, find-insert, find-erase, insert-Distinct, erase-Distinct,
  length-insert_new, Option-cases, Bytes, bytes_discrete, contains,
}
use mini_search_rec.Index.Inverted.{
  InvertedIndex, Document, forget_old, add_document, remove_document, add_fields, doc_len_of, scrub,
  sub64,
}
use mini_search_rec.Index.Inverted.Postings.{has, posting, posting-scrub}
use mini_search_rec.Index.Inverted.Invariant.{
  IsValid, terms_of, sum_lengths, sum-insert_new, sum-insert_old, length-insert_old, sum-ge,
}
use mini_search_rec.Index.Inverted.Removal.{
  posting-scrub_other, terms_of_length, remove_document-purges,
}
use mini_search_rec.Index.Inverted.Fields.{
  in_document, add_fields-Matches, posting-add_fields_other, contains-add_fields,
}

-- The index after the old version of a document is taken out, before the new one comes in.
record Forgets (ix ix1 : InvertedIndex) (d : Bytes) : Type 0 where
  clean : (t : Bytes) → has t d ix1.index ≡ false
  others : (t j : Bytes) → d ≢ j → posting t j ix1.index ≡ posting t j ix.index
  lengths : ix1.doc_lengths ≡ ix.doc_lengths
  terms :
      (j : Bytes) → d ≢ j → find bytes_discrete j ix1.doc_terms ≡ find bytes_discrete j ix.doc_terms
  distinct : Distinct bytes_discrete ix1.doc_terms
  docs : ix1.total_docs ≡ ix.total_docs
  total :
      (n : ℕ)
      → (ix1.total_doc_len + n) % 2 ^ 64
        ≡ sum_lengths (insert bytes_discrete d n ix.doc_lengths) % 2 ^ 64

forget_old-new :
    (ix : InvertedIndex) (d : Bytes)
    → IsValid ix
    → find bytes_discrete d ix.doc_lengths ≡ none
    → Forgets ix (forget_old d ix) d
unfolding forget_old terms_of contains
forget_old-new ix d v h =
    rw (h, forget_old)
      (record {
        clean = λ t. ground (arith, v.matched t d, v.paired d);
        others = λ t j other. refl;
        lengths = refl;
        terms = λ j other. refl;
        distinct = v.distinct_terms;
        docs = refl;
        total = λ n. omega (arith, v.total, sum-insert_new d n ix.doc_lengths h);
      })

-- What is left when a stored document is forgotten.
abbrev forgotten : InvertedIndex → Bytes → List Bytes → ℕ → InvertedIndex
forgotten ix d ts n = record ix {
  total_doc_len = sub64 ix.total_doc_len n;
  index = scrub d ts ix.index;
  doc_terms = erase bytes_discrete d ix.doc_terms;
}

forgotten-Forgets :
    (ix : InvertedIndex) (d : Bytes) (ts : List Bytes) (n : ℕ)
    → IsValid ix
    → find bytes_discrete d ix.doc_lengths ≡ some n
    → find bytes_discrete d ix.doc_terms ≡ some ts
    → Forgets ix (forgotten ix d ts n) d
unfolding terms_of has
forgotten-Forgets ix d ts n v h k = record {
  clean = λ t. ground (arith, posting-scrub d ts t d ix.index, v.matched t d);
  others = λ t j other. posting-scrub_other ix d j t ts other;
  lengths = refl;
  terms = λ j other. ground (arith, find-erase bytes_discrete d j ix.doc_terms);
  distinct = erase-Distinct bytes_discrete d ix.doc_terms v.distinct_terms;
  docs = refl;
  total = λ m.
      omega (arith, v.total, sum-insert_old d m n ix.doc_lengths h, sum-ge d n ix.doc_lengths h);
}

forget_old-Forgets : (ix : InvertedIndex) (d : Bytes) → IsValid ix → Forgets ix (forget_old d ix) d
unfolding forget_old
forget_old-Forgets ix d v = elim (Option-cases (find bytes_discrete d ix.doc_lengths)) [
  | inl new ↦ forget_old-new ix d v new
  | inr (n, h) ↦
      let (ts, k) = terms_of_length ix d n v h in
      let e : forget_old d ix ≡ forgotten ix d ts n = ground arith in
      rw e (forgotten-Forgets ix d ts n v h k)
]

-- The number of documents after one is added.
counted-insert :
    (ix : InvertedIndex) (d : Bytes) (n docs : ℕ)
    → IsValid ix
    → docs ≡ ix.total_docs
    → (elim (find bytes_discrete d ix.doc_lengths) [ none ↦ docs + 1 | some _ ↦ docs ])
      ≡ length (insert bytes_discrete d n ix.doc_lengths)
counted-insert ix d n docs v same = elim (Option-cases (find bytes_discrete d ix.doc_lengths)) [
  | inl new ↦ ground (arith, v.counted, length-insert_new bytes_discrete d n ix.doc_lengths new)
  | inr (old, h) ↦ ground (arith, v.counted, length-insert_old d n old ix.doc_lengths h)
]

-- `AddDocument` keeps the index valid, for a new document and for one that is stored already.
pub add_document-IsValid :
    (ix : InvertedIndex) (d : Document) → IsValid ix → IsValid (add_document ix d)
unfolding add_document terms_of has
add_document-IsValid ix d v =
    let id = d.doc_id in
    let len = doc_len_of d in
    let ix1 = forget_old id ix in
    let f = forget_old-Forgets ix id v in
    let fields = add_fields d len ix1.index in
    let m = add_fields-Matches d len ix1.index f.clean in
    record {
      matched = λ t j. elim (bytes_discrete id j) [
        | yes same ↦ ground (arith, m t, find-insert bytes_discrete id j fields.1 ix1.doc_terms)
        | no other ↦ ground (
          arith,
          posting-add_fields_other d len ix1.index t j other,
          f.others t j other,
          f.terms j other,
          v.matched t j,
          find-insert bytes_discrete id j fields.1 ix1.doc_terms,
        )
      ];
      paired = λ j. ground (
        arith,
        v.paired j,
        f.terms j,
        f.lengths,
        find-insert bytes_discrete id j fields.1 ix1.doc_terms,
        find-insert bytes_discrete id j len ix1.doc_lengths,
      );
      distinct_lengths =
          rw f.lengths (insert-Distinct bytes_discrete id len ix.doc_lengths v.distinct_lengths);
      distinct_terms = insert-Distinct bytes_discrete id fields.1 ix1.doc_terms f.distinct;
      counted =
          counted-insert ix id len ix1.total_docs v f.docs
          ∙ ap (λ l. length (insert bytes_discrete id len l)) (sym f.lengths);
      total =
          f.total len
          ∙ ap (λ l. sum_lengths (insert bytes_discrete id len l) % 2 ^ 64) (sym f.lengths);
      averaged = refl;
    }

-- In a valid index, after `AddDocument` the terms that have a posting of the document are exactly the tokens of its
-- title, content, tags and category, whatever was stored under its id before; its length is stored;
-- and the postings, terms and lengths of every other document are what they were.
pub add_document-terms :
    (ix : InvertedIndex) (d : Document)
    → IsValid ix
    → let ix' = add_document ix d in
      ((t : Bytes) → has t d.doc_id ix'.index ≡ in_document t d)
      × (find bytes_discrete d.doc_id ix'.doc_lengths ≡ some (doc_len_of d))
      × ((t j : Bytes)
          → d.doc_id ≢ j
          → (posting t j ix'.index ≡ posting t j ix.index)
            × (find bytes_discrete j ix'.doc_lengths ≡ find bytes_discrete j ix.doc_lengths)
            × (find bytes_discrete j ix'.doc_terms ≡ find bytes_discrete j ix.doc_terms))
unfolding add_document
add_document-terms ix d v =
    let id = d.doc_id in
    let len = doc_len_of d in
    let ix1 = forget_old id ix in
    let f = forget_old-Forgets ix id v in
    let fields = add_fields d len ix1.index in
    let m = add_fields-Matches d len ix1.index f.clean in
    (
      (λ t. m t ∙ contains-add_fields d len ix1.index t),
      ground (arith, find-insert bytes_discrete id id len ix1.doc_lengths),
      (λ t j other. (
        posting-add_fields_other d len ix1.index t j other ∙ f.others t j other,
        ground (arith, find-insert bytes_discrete id j len ix1.doc_lengths, f.lengths),
        ground (arith, find-insert bytes_discrete id j fields.1 ix1.doc_terms, f.terms j other),
      )),
    )

-- In a valid index, to add a document under a new id and remove it again leaves every posting, length and list of
-- terms as it was.
pub remove_document-add_document :
    (ix : InvertedIndex) (d : Document)
    → IsValid ix
    → find bytes_discrete d.doc_id ix.doc_lengths ≡ none
    → let ix' = remove_document (add_document ix d) d.doc_id in
      ((t j : Bytes) → posting t j ix'.index ≡ posting t j ix.index)
      × ((j : Bytes)
          → (find bytes_discrete j ix'.doc_lengths ≡ find bytes_discrete j ix.doc_lengths)
            × (find bytes_discrete j ix'.doc_terms ≡ find bytes_discrete j ix.doc_terms))
unfolding has terms_of contains
remove_document-add_document ix d v new =
    let id = d.doc_id in
    let (added, len, others) = add_document-terms ix d v in
    let (gone, short, unlisted, rest) =
      remove_document-purges (add_document ix d) id (add_document-IsValid ix d v) in
    (
      (λ t j. elim (bytes_discrete id j) [
        | yes same ↦ ground (arith, gone t, v.matched t id, v.paired id)
        | no other ↦ (rest t j other).0 ∙ (others t j other).0
      ]),
      (λ j. elim (bytes_discrete id j) [
        | yes same ↦ (ground arith, ground (arith, v.paired id))
        | no other ↦ (
          (rest [] j other).1 ∙ (others [] j other).1,
          (rest [] j other).2 ∙ (others [] j other).2,
        )
      ]),
    )
