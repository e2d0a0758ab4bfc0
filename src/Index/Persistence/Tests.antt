-- ===== src/Index/Persistence/Tests.antt =====
-- `Save` and `Load` of an index of one document.
use mini_search_rec.Prelude.{
  ℕ, ◌≡◌, ◌≢◌, refl, true, false, [], ◌∷◌, none, some, arith, pos, Bytes, bytes_discrete,
  ℕ_discrete, contains, find, insert, add_to, All,
}
use mini_search_rec.Index.Tokenizer.{
  tokenize, tokenize_from, dedup_from, to_lower, is_space, is_punct,
}
use mini_search_rec.Index.Inverted.{
  InvertedIndex, Document, empty, add_document, remove_document, doc_len_of, forget_old, add_fields,
  add_tags, add_tokens, count_up, average,
}
use mini_search_rec.Index.Inverted.Invariant.{empty-IsValid}
use mini_search_rec.Index.Inverted.Addition.{add_document-IsValid}
use mini_search_rec.Index.Persistence.{save}
use mini_search_rec.Index.Persistence.Reading.{load}
use mini_search_rec.Index.Persistence.Pieces.{Word}
use mini_search_rec.Index.Persistence.Format.{IsStorable}
use mini_search_rec.Index.Persistence.RoundTrip.{load-save, load-save_stuck}

abbrev doc : Bytes
doc = b'd' ∷ []

-- A document with the title "A b".
abbrev titled : Document
titled = record {
  doc_id = doc;
  title = b'A' ∷ b' ' ∷ b'b' ∷ [];
  content = [];
  category = [];
  tags = [];
  content_length = pos 7;
}

-- One without a word.
abbrev bare : Document
bare = record titled { title = [] }

abbrev titled_index : InvertedIndex
titled_index = add_document empty titled

abbrev bare_index : InvertedIndex
bare_index = add_document empty bare

titled-IsStorable : IsStorable titled_index
unfolding add_document forget_old add_fields add_tags add_tokens count_up doc_len_of average empty
    tokenize tokenize_from dedup_from to_lower is_space is_punct contains add_to find insert
    bytes_discrete ℕ_discrete
titled-IsStorable =
    let word : (c : ℕ) → is_space c ≡ false → Word is_space (c ∷ []) = λ c e. ((cc), (e, tt)) in
    record {
      distinct_index = (refl, (refl, tt));
      total_fits = omega arith;
      lengths_fit = ((word b'd' refl, omega arith), tt);
      terms_fit = ((word b'd' refl, (word b'a' refl, (word b'b' refl, tt))), tt);
      postings_fit = (
        (word b'a' refl, (cc), ((word b'd' refl, (omega arith, omega arith, omega arith)), tt)),
        (
          (word b'b' refl, (cc), ((word b'd' refl, (omega arith, omega arith, omega arith)), tt)),
          tt,
        ),
      );
    }

bare-IsStorable : IsStorable bare_index
unfolding add_document forget_old add_fields add_tags add_tokens count_up doc_len_of average empty
    tokenize tokenize_from dedup_from to_lower is_space is_punct contains add_to find insert
    bytes_discrete ℕ_discrete
bare-IsStorable = record {
  distinct_index = tt;
  total_fits = omega arith;
  lengths_fit = ((((cc), (refl, tt)), omega arith), tt);
  terms_fit = ((((cc), (refl, tt)), tt), tt);
  postings_fit = tt;
}

titled_terms : All (λ e. e.1 ≢ []) titled_index.doc_terms
unfolding add_document forget_old add_fields add_tags add_tokens count_up doc_len_of average empty
    tokenize tokenize_from dedup_from to_lower is_space is_punct contains add_to find insert
    bytes_discrete ℕ_discrete
titled_terms = ((cc), tt)

load-save_example : load (some (save titled_index)) bare_index ≡ (titled_index, true)
load-save_example =
    load-save titled_index bare_index (add_document-IsValid empty titled empty-IsValid)
      titled-IsStorable titled_terms

bare_terms : find bytes_discrete doc bare_index.doc_terms ≡ some []
unfolding add_document forget_old add_fields add_tags add_tokens count_up doc_len_of average empty
    tokenize tokenize_from dedup_from to_lower is_space is_punct contains add_to find insert
    bytes_discrete ℕ_discrete
bare_terms = refl

bare_lengths : find bytes_discrete doc bare_index.doc_lengths ≡ some 7
unfolding add_document forget_old add_fields add_tags add_tokens count_up doc_len_of average empty
    tokenize tokenize_from dedup_from to_lower is_space is_punct contains add_to find insert
    bytes_discrete ℕ_discrete
bare_lengths = refl

load-save_stuck_example :
    let again = (load (some (save bare_index)) titled_index).0 in
    (find bytes_discrete doc (remove_document bare_index doc).doc_lengths ≡ none)
    × (remove_document again doc ≡ again)
    × (find bytes_discrete doc again.doc_lengths ≡ some 7)
load-save_stuck_example =
    load-save_stuck bare_index titled_index doc 7 (add_document-IsValid empty bare empty-IsValid)
      bare-IsStorable bare_terms bare_lengths
