-- ===== src/Index/Inverted.antt =====
-- src/lib/index/inverted_index.h and .cpp: `InvertedIndex`. Hash maps are association lists. A field weight is counted in halves
-- (3.0f is 6), so all weights of the source are whole; the average length is kept as the pair of
-- numbers that the source divides, and none is 0.0f. The reader-writer lock is held for the whole of
-- each call, so a call is one step.
pub mod Postings
pub mod Invariant
pub mod Removal
pub mod Fields
pub mod Addition
use mini_search_rec.Index.Tokenizer.{tokenize}
use mini_search_rec.Prelude.{
  ℕ, zero, suc, ◌+◌, ◌-◌, ◌*◌, ◌/◌, ◌%◌, ◌^◌, Bool, true, false, not, ◌&&◌, ◌||◌, if◌then◌else◌,
  ltb, leb, ◌==◌, ite, List, [], ◌∷◌, ◌++◌, length, take, drop, keep, Option, none, some, find,
  insert, erase, ℤ, pos, negsuc, Bytes, bytes_discrete, contains, add_to,
}

pub record PostingNode : Type 0 where
  pub doc_id : Bytes
  pub term_freq : ℕ
  pub field_weight : ℕ
  pub doc_len : ℕ

pub record InvertedIndex : Type 0 where
  pub index : List (Bytes × List PostingNode)
  pub doc_lengths : List (Bytes × ℕ)
  pub doc_terms : List (Bytes × List Bytes)
  pub avg_doc_len : Option (ℕ × ℕ)
  -- counts documents in memory, and so does not reach 2^64
  pub total_docs : ℕ
  pub total_doc_len : ℕ

abbrev title_weight : ℕ
title_weight = 6

abbrev content_weight : ℕ
content_weight = 2

abbrev tag_weight : ℕ
tag_weight = 4

abbrev category_weight : ℕ
category_weight = 3

-- `postings.erase(remove_if(..., n.doc_id == doc_id), postings.end())`
unfoldable pub strip : Bytes → List PostingNode → List PostingNode
strip doc_id [] = []
strip doc_id (n ∷ ns) = ite (bytes_discrete n.doc_id doc_id) (strip doc_id ns) (n ∷ strip doc_id ns)

-- `if (postings.empty()) index_.erase(pit)`, after the erasure in place.
unfoldable pub store_postings :
    Bytes → List PostingNode → List (Bytes × List PostingNode) → List (Bytes × List PostingNode)
store_postings term [] ix = erase bytes_discrete term ix
store_postings term (n ∷ ns) ix = insert bytes_discrete term (n ∷ ns) ix

-- The loop over the terms of a document that takes it out of every posting list.
unfoldable pub scrub :
    Bytes → List Bytes → List (Bytes × List PostingNode) → List (Bytes × List PostingNode)
scrub doc_id [] ix = ix
scrub doc_id (term ∷ terms) ix = scrub doc_id terms (elim (find bytes_discrete term ix) [
  | none ↦ ix
  | some postings ↦ store_postings term (strip doc_id postings) ix
])

-- `std::max(a, b)`
abbrev pub max_of : ℕ → ℕ → ℕ
max_of a b = if ltb a b then b else a

-- The loop over the postings of a term in `add_tokens`: count the term up, or add a node at the end.
unfoldable pub count_up : Bytes → ℕ → ℕ → List PostingNode → List PostingNode
count_up doc_id fw doc_len [] =
    record { doc_id = doc_id; term_freq = 1; field_weight = fw; doc_len = doc_len } ∷ []
count_up doc_id fw doc_len (n ∷ ns) =
    ite (bytes_discrete n.doc_id doc_id)
      (record n { term_freq = (n.term_freq + 1) % 2 ^ 32; field_weight = max_of n.field_weight fw }
        ∷ ns)
      (n ∷ count_up doc_id fw doc_len ns)

-- `index_[term]`, which makes an empty list where there is none
abbrev pub postings_of : Bytes → List (Bytes × List PostingNode) → List PostingNode
postings_of term ix = elim (find bytes_discrete term ix) [ none ↦ [] | some ps ↦ ps ]

-- `add_tokens`: the map and the set of the document's terms.
unfoldable pub add_tokens :
    Bytes
    → ℕ
    → ℕ
    → List Bytes
    → List (Bytes × List PostingNode) × List Bytes
    → List (Bytes × List PostingNode) × List Bytes
add_tokens doc_id doc_len fw [] s = s
add_tokens doc_id doc_len fw (term ∷ terms) s = add_tokens doc_id doc_len fw terms (
  insert bytes_discrete term (count_up doc_id fw doc_len (postings_of term s.0)) s.0,
  add_to bytes_discrete term s.1,
)

-- `doc_lengths_.empty() ? 0.0f : total_doc_len_ / doc_lengths_.size()`
unfoldable pub average : ℕ → List (Bytes × ℕ) → Option (ℕ × ℕ)
average total [] = none
average total (d ∷ ds) = some (total, length (d ∷ ds))

-- a - b of `uint64_t`
abbrev pub sub64 : ℕ → ℕ → ℕ
sub64 a b = (a + 2 ^ 64 - b % 2 ^ 64) % 2 ^ 64

pub record Document : Type 0 where
  pub doc_id : Bytes
  pub title : Bytes
  pub content : Bytes
  pub category : Bytes
  pub tags : List Bytes
  pub content_length : ℤ

-- `content_length > 0 ? content_length : static_cast<uint32_t>(content.size())`
unfoldable pub doc_len_of : Document → ℕ
doc_len_of d = elim d.content_length [
  | negsuc n ↦ length d.content % 2 ^ 32
  | pos n ↦ if ltb 0 n then n % 2 ^ 32 else length d.content % 2 ^ 32
]

-- The loop over the tags.
unfoldable pub add_tags :
    Bytes
    → ℕ
    → List Bytes
    → List (Bytes × List PostingNode) × List Bytes
    → List (Bytes × List PostingNode) × List Bytes
add_tags doc_id doc_len [] s = s
add_tags doc_id doc_len (tag ∷ tags) s =
    add_tags doc_id doc_len tags (add_tokens doc_id doc_len tag_weight (tokenize tag) s)

-- All the fields of a document.
unfoldable pub add_fields :
    Document → ℕ → List (Bytes × List PostingNode) → List (Bytes × List PostingNode) × List Bytes
add_fields d doc_len ix =
    let s1 = add_tokens d.doc_id doc_len title_weight (tokenize d.title) (ix, []) in
    let s2 = add_tokens d.doc_id doc_len content_weight (tokenize d.content) s1 in
    let s3 = add_tags d.doc_id doc_len d.tags s2 in
    elim d.category [
      | [] ↦ s3
      | c ∷ cs ↦ add_tokens d.doc_id doc_len category_weight (tokenize d.category) s3
    ]

-- The clearing of an old version at the start of `AddDocument`: its terms, and its length.
unfoldable pub forget_old : Bytes → InvertedIndex → InvertedIndex
forget_old doc_id ix = elim (find bytes_discrete doc_id ix.doc_lengths) [
  | none ↦ ix
  | some old_len ↦
      let ix' : InvertedIndex = record ix { total_doc_len = sub64 ix.total_doc_len old_len } in
      elim (find bytes_discrete doc_id ix.doc_terms) [
        | none ↦ ix'
        | some terms ↦ record ix' {
          index = scrub doc_id terms ix.index;
          doc_terms = erase bytes_discrete doc_id ix.doc_terms;
        }
      ]
]

-- `AddDocument`
unfoldable pub add_document : InvertedIndex → Document → InvertedIndex
add_document ix d =
    let doc_len = doc_len_of d in
    let old = find bytes_discrete d.doc_id ix.doc_lengths in
    let ix1 = forget_old d.doc_id ix in
    let lengths = insert bytes_discrete d.doc_id doc_len ix1.doc_lengths in
    let total = (ix1.total_doc_len + doc_len) % 2 ^ 64 in
    let s = add_fields d doc_len ix1.index in
    record {
      index = s.0;
      doc_lengths = lengths;
      doc_terms = insert bytes_discrete d.doc_id s.1 ix1.doc_terms;
      avg_doc_len = average total lengths;
      total_docs = (elim old [ none ↦ ix1.total_docs + 1 | some _ ↦ ix1.total_docs ]);
      total_doc_len = total;
    }

-- `RemoveDocument`
unfoldable pub remove_document : InvertedIndex → Bytes → InvertedIndex
remove_document ix doc_id = elim (find bytes_discrete doc_id ix.doc_terms) [
  | none ↦ ix
  | some terms ↦
      let lengths = erase bytes_discrete doc_id ix.doc_lengths in
      let total : ℕ = elim (find bytes_discrete doc_id ix.doc_lengths) [
        | none ↦ ix.total_doc_len
        | some len ↦ sub64 ix.total_doc_len len
      ] in
      record {
        index = scrub doc_id terms ix.index;
        doc_lengths = lengths;
        doc_terms = erase bytes_discrete doc_id ix.doc_terms;
        avg_doc_len = average total lengths;
        total_docs = ix.total_docs - 1;
        total_doc_len = total;
      }
]

-- A new index, and what `Clear` leaves.
unfoldable pub empty : InvertedIndex
empty = record {
  index = [];
  doc_lengths = [];
  doc_terms = [];
  avg_doc_len = none;
  total_docs = 0;
  total_doc_len = 0;
}
