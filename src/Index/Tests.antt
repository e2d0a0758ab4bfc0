-- ===== src/Index/Tests.antt =====
-- The inverted index on two small documents.
use mini_search_rec.Prelude.{
  Distinct, ℕ, ◌≡◌, ◌≢◌, refl, List, [], ◌∷◌, take, none, some, pos, Bytes, bytes_discrete,
  ℕ_discrete, contains, find, insert, add_to,
}
use mini_search_rec.Index.Tokenizer.{
  tokenize, tokenize_from, dedup_from, to_lower, is_space, is_punct,
}
use mini_search_rec.Index.Inverted.{
  InvertedIndex, Document, empty, add_document, remove_document, doc_len_of, forget_old, add_fields,
  add_tags, add_tokens, count_up, average,
}
use mini_search_rec.Index.Inverted.Postings.{has, posting}
use mini_search_rec.Index.Inverted.Invariant.{IsValid, empty-IsValid}
use mini_search_rec.Index.Inverted.Fields.{in_document}
use mini_search_rec.Index.Inverted.Removal.{remove_document-IsValid, remove_document-purges}
use mini_search_rec.Index.Inverted.Addition.{
  add_document-IsValid, add_document-terms, remove_document-add_document,
}
use mini_search_rec.Index.Queries.{search, search_and, ids, score_terms, score_nodes, rank, place}
use mini_search_rec.Index.Queries.Results.{
  contains-search_and, search-ranked, Falling, any_has, all_have, score, hits,
}

abbrev doc_1 : Bytes
doc_1 = b'1' ∷ []

abbrev doc_2 : Bytes
doc_2 = b'2' ∷ []

abbrev word_a : Bytes
word_a = b'a' ∷ []

abbrev word_b : Bytes
word_b = b'b' ∷ []

-- "A b" and "b b, a".
abbrev text_1 : Bytes
text_1 = b'A' ∷ b' ' ∷ b'b' ∷ []

abbrev text_2 : Bytes
text_2 = b'b' ∷ b' ' ∷ b'b' ∷ b',' ∷ b'a' ∷ []

abbrev first : Document
first = record {
  doc_id = doc_1;
  title = word_a;
  content = text_1;
  category = [];
  tags = [];
  content_length = pos 0;
}

abbrev second : Document
second = record {
  doc_id = doc_2;
  title = [];
  content = text_2;
  category = word_b;
  tags = word_a ∷ [];
  content_length = pos 5;
}

abbrev one : InvertedIndex
one = add_document empty first

one-IsValid : IsValid one
one-IsValid = add_document-IsValid empty first empty-IsValid

abbrev two : InvertedIndex
two = add_document one second

add_document-IsValid_example : IsValid two
add_document-IsValid_example = add_document-IsValid one second one-IsValid

two-IsValid : IsValid two
two-IsValid = add_document-IsValid one second one-IsValid

remove_document-IsValid_example : IsValid (remove_document two doc_1)
remove_document-IsValid_example = remove_document-IsValid two doc_1 two-IsValid

add_document-terms_example :
    ((t : Bytes) → has t doc_2 two.index ≡ in_document t second)
    × (find bytes_discrete doc_2 two.doc_lengths ≡ some (doc_len_of second))
    × ((t j : Bytes)
        → doc_2 ≢ j
        → (posting t j two.index ≡ posting t j one.index)
          × (find bytes_discrete j two.doc_lengths ≡ find bytes_discrete j one.doc_lengths)
          × (find bytes_discrete j two.doc_terms ≡ find bytes_discrete j one.doc_terms))
add_document-terms_example = add_document-terms one second one-IsValid

remove_document-purges_example :
    ((t : Bytes) → posting t doc_1 (remove_document two doc_1).index ≡ none)
    × (find bytes_discrete doc_1 (remove_document two doc_1).doc_lengths ≡ none)
    × (find bytes_discrete doc_1 (remove_document two doc_1).doc_terms ≡ none)
    × ((t j : Bytes)
        → doc_1 ≢ j
        → (posting t j (remove_document two doc_1).index ≡ posting t j two.index)
          × (find bytes_discrete j (remove_document two doc_1).doc_lengths
              ≡ find bytes_discrete j two.doc_lengths)
          × (find bytes_discrete j (remove_document two doc_1).doc_terms
              ≡ find bytes_discrete j two.doc_terms))
remove_document-purges_example = remove_document-purges two doc_1 two-IsValid

remove_document-add_document_example :
    ((t j : Bytes) → posting t j (remove_document two doc_2).index ≡ posting t j one.index)
    × ((j : Bytes)
        → (find bytes_discrete j (remove_document two doc_2).doc_lengths
            ≡ find bytes_discrete j one.doc_lengths)
          × (find bytes_discrete j (remove_document two doc_2).doc_terms
              ≡ find bytes_discrete j one.doc_terms))
unfolding search score_terms score_nodes rank place add_document forget_old add_fields add_tags
    add_tokens count_up doc_len_of average empty tokenize tokenize_from dedup_from to_lower is_space
    is_punct contains add_to find insert bytes_discrete ℕ_discrete
remove_document-add_document_example = remove_document-add_document one second one-IsValid refl

search-ranked_example :
    (ranked : List (Bytes × ℕ)) × (search two (word_a ∷ word_b ∷ []) (pos 1) ≡ ids (take 1 ranked))
    × Falling ranked
    × Distinct bytes_discrete ranked
    × ((d : Bytes)
        → contains bytes_discrete d (ids ranked) ≡ any_has (word_a ∷ word_b ∷ []) d two.index)
    × ((d : Bytes) → score d ranked ≡ hits (word_a ∷ word_b ∷ []) d two.index)
search-ranked_example = search-ranked two (word_a ∷ word_b ∷ []) (pos 1)

contains-search_and_example :
    contains bytes_discrete doc_2 (search_and two (word_a ∷ word_b ∷ []))
    ≡ all_have (word_a ∷ word_b ∷ []) doc_2 two.index
contains-search_and_example = contains-search_and two word_a (word_b ∷ []) doc_2

search-two : search two (word_a ∷ word_b ∷ []) (pos 9) ≡ doc_1 ∷ doc_2 ∷ []
unfolding search score_terms score_nodes rank place add_document forget_old add_fields add_tags
    add_tokens count_up doc_len_of average empty tokenize tokenize_from dedup_from to_lower is_space
    is_punct contains add_to find insert bytes_discrete ℕ_discrete
search-two = refl
