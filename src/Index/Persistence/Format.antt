-- ===== src/Index/Persistence/Format.antt =====
-- What `Save` writes of an index that the format can hold: lines of words, and numbers in range.
use mini_search_rec.Prelude.{
  ℕ, ◌^◌, ◌<◌, ◌≡◌, ◌≢◌, refl, Bool, true, false, Bool-cases, if◌then◌else◌, inl, inr, List, [],
  ◌∷◌, ◌++◌, Distinct, Bytes, bytes_discrete, All, arith,
}
use mini_search_rec.Index.Tokenizer.{is_space}
use mini_search_rec.Index.Inverted.{InvertedIndex, PostingNode}
use mini_search_rec.Index.Persistence.{all_lines, len_lines, terms_lines, node_lines, index_lines}
use mini_search_rec.Index.Persistence.Reading.{max_u32}
use mini_search_rec.Index.Persistence.Pieces.{Line, Word}
use mini_search_rec.Index.Persistence.Numbers.{decimal-Word, show_weight-Word}
use mini_search_rec.Index.Persistence.Lines.{Fits}

-- What the text format can hold: names and terms that are not empty and have no white space, numbers
-- of 32 and 64 bits, weights that are printed in full, no empty posting list.
pub record IsStorable (ix : InvertedIndex) : Type 0 where
  pub distinct_index : Distinct bytes_discrete ix.index
  pub total_fits : ix.total_docs < 2 ^ 64
  pub lengths_fit : All (λ e. Word is_space e.0 × (e.1 < max_u32)) ix.doc_lengths
  pub terms_fit : All (λ e. Word is_space e.0 × All (Word is_space) e.1) ix.doc_terms
  pub postings_fit :
      All
        (λ e. Word is_space e.0 × (e.1 ≢ []) × All (λ n. Word is_space n.doc_id × Fits n) e.1)
        ix.index

All-append {ℓ κ} :
    {A : Type ℓ} (P : A → Type κ) (xs ys : List A) → All P xs → All P ys → All P (xs ++ ys)
All-append P [] ys h k = k
All-append P (x ∷ xs) ys h k = (h.0, All-append P xs ys h.1 k)

-- The test that a constant has no white space.
abbrev is_free : Bytes → Bool
is_free [] = true
is_free (c ∷ cs) = let rest = is_free cs in if is_space c then false else rest

free_word : (w : Bytes) → is_free w ≡ true → All (λ c. is_space c ≡ false) w
free_word [] e = tt
free_word (c ∷ cs) e = elim (Bool-cases (is_space c)) [
  | inl s ↦ absurd (ground (arith, e, s))
  | inr s ↦ (s, free_word cs (ground (arith, e, s)))
]

tagged :
    (c : ℕ) (cs : Bytes) (ws : List Bytes)
    → is_free (c ∷ cs) ≡ true
    → All (Word is_space) ws
    → Line ((c ∷ cs) ∷ ws)
tagged c cs ws e k = ((cc), (((cc), free_word (c ∷ cs) e), k))

len_lines-Line :
    (m : List (Bytes × ℕ))
    → All (λ e. Word is_space e.0 × (e.1 < max_u32)) m
    → All Line (len_lines m)
unfolding len_lines is_space
len_lines-Line [] h = tt
len_lines-Line ((d, n) ∷ m) h =
    (tagged _ _ _ refl (h.0.0, (decimal-Word n, tt)), len_lines-Line m h.1)

terms_lines-Line :
    (m : List (Bytes × List Bytes))
    → All (λ e. Word is_space e.0 × All (Word is_space) e.1) m
    → All Line (terms_lines m)
unfolding terms_lines is_space
terms_lines-Line [] h = tt
terms_lines-Line ((d, ts) ∷ m) h = (tagged _ _ _ refl (h.0.0, h.0.1), terms_lines-Line m h.1)

node_lines-Line :
    (ns : List PostingNode)
    → All (λ n. Word is_space n.doc_id × Fits n) ns
    → All Line (node_lines ns)
unfolding node_lines is_space
node_lines-Line [] h = tt
node_lines-Line (n ∷ ns) h = (
  tagged _ _ _ refl (
    h.0.0,
    (decimal-Word n.term_freq, (show_weight-Word n.field_weight, (decimal-Word n.doc_len, tt))),
  ),
  node_lines-Line ns h.1,
)

index_lines-Line :
    (m : List (Bytes × List PostingNode))
    → All (λ e. Word is_space e.0 × (e.1 ≢ []) × All (λ n. Word is_space n.doc_id × Fits n) e.1) m
    → All Line (index_lines m)
unfolding index_lines is_space
index_lines-Line [] h = tt
index_lines-Line ((t, ns) ∷ m) h = (
  tagged _ _ _ refl (h.0.0, tt),
  All-append Line (node_lines ns) (index_lines m) (node_lines-Line ns h.0.2)
      (index_lines-Line m h.1),
)

pub all_lines-Line : (ix : InvertedIndex) → IsStorable ix → All Line (all_lines ix)
unfolding all_lines is_space
all_lines-Line ix v = (
  tagged _ _ _ refl (decimal-Word ix.total_docs, tt),
  All-append Line (len_lines ix.doc_lengths) _ (len_lines-Line ix.doc_lengths v.lengths_fit) (
      All-append Line (terms_lines ix.doc_terms) _ (terms_lines-Line ix.doc_terms v.terms_fit)
        (index_lines-Line ix.index v.postings_fit)),
)

pub lengths_numbers :
    (m : List (Bytes × ℕ))
    → All (λ e. Word is_space e.0 × (e.1 < max_u32)) m
    → All (λ e. e.1 < max_u32) m
lengths_numbers [] h = tt
lengths_numbers (e ∷ m) h = (h.0.1, lengths_numbers m h.1)

node_numbers : (ns : List PostingNode) → All (λ n. Word is_space n.doc_id × Fits n) ns → All Fits ns
node_numbers [] h = tt
node_numbers (n ∷ ns) h = (h.0.1, node_numbers ns h.1)

pub index_numbers :
    (m : List (Bytes × List PostingNode))
    → All (λ e. Word is_space e.0 × (e.1 ≢ []) × All (λ n. Word is_space n.doc_id × Fits n) e.1) m
    → All (λ e. (e.1 ≢ []) × All Fits e.1) m
index_numbers [] h = tt
index_numbers (e ∷ m) h = ((h.0.1, node_numbers e.1 h.0.2), index_numbers m h.1)
