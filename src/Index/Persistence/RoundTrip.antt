-- ===== src/Index/Persistence/RoundTrip.antt =====
-- `Save` and `Load` together.
use mini_search_rec.Prelude.{
  ℕ, ◌^◌, ◌≡◌, ◌≢◌, refl, sym, ap, ◌∙◌, true, List, [], ◌∷◌, ◌++◌, none, some, find, find-erase,
  subst, Distinct, Bytes, bytes_discrete, ℕ_discrete, All, arith,
}
use mini_search_rec.Index.Inverted.{InvertedIndex, average, remove_document}
use mini_search_rec.Index.Inverted.Invariant.{IsValid}
use mini_search_rec.Index.Persistence.{all_lines, len_lines, terms_lines, index_lines, save}
use mini_search_rec.Index.Persistence.Reading.{load, load_lines, load_line, recalculate}
use mini_search_rec.Index.Persistence.Pieces.{words-print_lines}
use mini_search_rec.Index.Persistence.Numbers.{read_number-decimal}
use mini_search_rec.Index.Persistence.Format.{
  IsStorable, all_lines-Line, lengths_numbers, index_numbers,
}
use mini_search_rec.Index.Persistence.Maps.{Fresh-nil}
use mini_search_rec.Index.Persistence.Lines.{
  loading, with_terms, load_lines-append, load-len_lines, load-terms_lines, load-index_lines,
}

-- What is left of an index after `Save` and `Load`.
reloaded :
    (ix old : InvertedIndex)
    → IsValid ix
    → IsStorable ix
    → load (some (save ix)) old ≡ (record ix { doc_terms = with_terms ix.doc_terms }, true)
unfolding load save all_lines recalculate load_lines load_line bytes_discrete ℕ_discrete
reloaded ix old v s =
    let lens = len_lines ix.doc_lengths in
    let terms = terms_lines ix.doc_terms in
    let nodes = index_lines ix.index in
    let total = ix.total_docs in
    let (last, e) =
      load-index_lines ix.index [] ix.doc_lengths (with_terms ix.doc_terms) total []
        s.distinct_index (Fresh-nil ix.index) (index_numbers ix.index s.postings_fit) in
    ap (λ ls. (recalculate (load_lines (loading [] [] [] old.total_docs []) ls), true))
      (words-print_lines (all_lines ix) (all_lines-Line ix s))
    ∙ ap (λ t. (recalculate (load_lines (loading [] [] [] t []) (lens ++ (terms ++ nodes))), true))
        (read_number-decimal (2 ^ 64) total s.total_fits)
    ∙ ap (λ t. (recalculate t, true))
        (load_lines-append (loading [] [] [] total []) lens (terms ++ nodes)
          ∙ ap (λ t. load_lines t (terms ++ nodes))
              (load-len_lines [] ix.doc_lengths [] [] total [] v.distinct_lengths
                (Fresh-nil ix.doc_lengths) (lengths_numbers ix.doc_lengths s.lengths_fit))
          ∙ load_lines-append (loading [] ix.doc_lengths [] total []) terms nodes
          ∙ ap (λ t. load_lines t nodes)
              (load-terms_lines [] ix.doc_lengths ix.doc_terms [] total [] v.distinct_terms
                (Fresh-nil ix.doc_terms))
          ∙ e)
    ∙ (λ i. (
      record {
        index = ix.index;
        doc_lengths = ix.doc_lengths;
        doc_terms = with_terms ix.doc_terms;
        avg_doc_len = (ap (λ t. average t ix.doc_lengths) (sym v.total) ∙ sym v.averaged) i;
        total_docs = total;
        total_doc_len = sym v.total i;
      },
      true,
    ))

with_terms_kept : (m : List (Bytes × List Bytes)) → All (λ e. e.1 ≢ []) m → with_terms m ≡ m
unfolding with_terms
with_terms_kept [] h = refl
with_terms_kept ((d, []) ∷ m) h = absurd (h.0 refl)
with_terms_kept ((d, t ∷ ts) ∷ m) h = ap (◌∷◌ (d, t ∷ ts)) (with_terms_kept m h.1)

absent-with_terms :
    (d : Bytes) (m : List (Bytes × List Bytes))
    → find bytes_discrete d m ≡ none
    → find bytes_discrete d (with_terms m) ≡ none
unfolding find with_terms
absent-with_terms d [] h = refl
absent-with_terms d ((e, []) ∷ m) h = ground (arith, h, absent-with_terms d m)
absent-with_terms d ((e, t ∷ ts) ∷ m) h = ground (arith, h, absent-with_terms d m)

find-with_terms :
    (d : Bytes) (m : List (Bytes × List Bytes))
    → Distinct bytes_discrete m
    → find bytes_discrete d m ≡ some []
    → find bytes_discrete d (with_terms m) ≡ none
unfolding find with_terms
find-with_terms d [] u h = refl
find-with_terms d ((e, []) ∷ m) u h =
    ground (arith, h, absent-with_terms e m u.0, find-with_terms d m u.1)
find-with_terms d ((e, t ∷ ts) ∷ m) u h = ground (arith, h, find-with_terms d m u.1)

remove_document_absent :
    (ix : InvertedIndex) (d : Bytes)
    → find bytes_discrete d ix.doc_terms ≡ none
    → remove_document ix d ≡ ix
unfolding remove_document
remove_document_absent ix d h = ground (arith, h)

remove_document_lengths :
    (ix : InvertedIndex) (d : Bytes)
    → find bytes_discrete d ix.doc_terms ≡ some []
    → find bytes_discrete d (remove_document ix d).doc_lengths ≡ none
unfolding remove_document
remove_document_lengths ix d h = ground (arith, h, find-erase bytes_discrete d d ix.doc_lengths)

-- What `Save` writes, `Load` reads back in full, whatever the index held before, if the index is valid and
-- storable and every document has a term. Storable: no key of the postings is there twice, names and
-- terms are not empty and have no white space, no posting list is empty, the counts are below 2^32, the
-- number of documents is below 2^64, and a field weight is below 100000, which a stream prints in full.
pub load-save :
    (ix old : InvertedIndex)
    → IsValid ix
    → IsStorable ix
    → All (λ e. e.1 ≢ []) ix.doc_terms
    → load (some (save ix)) old ≡ (ix, true)
load-save ix old v s h =
    reloaded ix old v s
    ∙ ap (λ ts. (record ix { doc_terms = ts }, true)) (with_terms_kept ix.doc_terms h)

-- A document without a term is stuck in the index after a restart: in a valid and storable index (names
-- and terms not empty and without white space, no empty posting list, numbers in range, field weights
-- below 100000), `RemoveDocument` takes its length off the table, but after `Save` and `Load` the same
-- call changes nothing, and the length stays.
pub load-save_stuck :
    (ix old : InvertedIndex) (d : Bytes) (n : ℕ)
    → IsValid ix
    → IsStorable ix
    → find bytes_discrete d ix.doc_terms ≡ some []
    → find bytes_discrete d ix.doc_lengths ≡ some n
    → let again = (load (some (save ix)) old).0 in
      (find bytes_discrete d (remove_document ix d).doc_lengths ≡ none)
      × (remove_document again d ≡ again)
      × (find bytes_discrete d again.doc_lengths ≡ some n)
load-save_stuck ix old d n v s h l =
    let kept = record ix { doc_terms = with_terms ix.doc_terms } in
    let absent = find-with_terms d ix.doc_terms v.distinct_terms h in
    let (stays, length_stays) =
      subst (λ x. (remove_document x d ≡ x) × (find bytes_discrete d x.doc_lengths ≡ some n))
        (sym (ap (λ r. r.0) (reloaded ix old v s))) (remove_document_absent kept d absent, l) in
    (remove_document_lengths ix d h, stays, length_stays)
