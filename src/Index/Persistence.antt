-- ===== src/Index/Persistence.antt =====
-- `Save` and `Load` of src/lib/index/inverted_index.cpp. A file is its bytes; `operator<<` prints numbers
-- in base ten and `operator>>` reads a word up to the next white space. A field weight is counted in
-- halves, so that it is printed with `.5` or without a fraction; other fractions are not read.
pub mod Reading
pub mod Pieces
pub mod Numbers
pub mod Maps
pub mod Lines
pub mod Format
pub mod RoundTrip
mod Tests
use mini_search_rec.Prelude.{
  ℕ, zero, suc, ◌+◌, ◌-◌, ◌*◌, ◌/◌, ◌%◌, ◌^◌, Bool, true, false, ◌&&◌, if◌then◌else◌, ltb, leb,
  ◌==◌, ite, List, [], ◌∷◌, ◌++◌, length, Option, none, some, find, insert, pos, Bytes,
  bytes_discrete,
}
use mini_search_rec.Prelude.Decimal.{decimal}
use mini_search_rec.Index.Tokenizer.{is_space}
use mini_search_rec.Index.Inverted.{InvertedIndex, PostingNode, average, postings_of}
use mini_search_rec.Index.Inverted.Invariant.{sum_lengths}

abbrev pub tag_total : Bytes
tag_total = b'T' ∷ b'O' ∷ b'T' ∷ b'A' ∷ b'L' ∷ []

abbrev pub tag_doc_len : Bytes
tag_doc_len = b'D' ∷ b'O' ∷ b'C' ∷ b'_' ∷ b'L' ∷ b'E' ∷ b'N' ∷ []

abbrev pub tag_doc_terms : Bytes
tag_doc_terms = b'D' ∷ b'O' ∷ b'C' ∷ b'_' ∷ b'T' ∷ b'E' ∷ b'R' ∷ b'M' ∷ b'S' ∷ []

abbrev pub tag_term : Bytes
tag_term = b'T' ∷ b'E' ∷ b'R' ∷ b'M' ∷ []

abbrev pub tag_node : Bytes
tag_node = b'N' ∷ b'O' ∷ b'D' ∷ b'E' ∷ []

-- `<< node.field_weight` of a weight below 100000, a number of halves below 200000: the six digits of a
-- stream are enough for it.
abbrev pub show_weight : ℕ → Bytes
show_weight w = decimal (pos (w / 2)) ++ (if w % 2 == 1 then b'.' ∷ b'5' ∷ [] else [])

-- Words with a blank between each two.
unfoldable pub join : List Bytes → Bytes
join [] = []
join (w ∷ []) = w
join (w ∷ v ∷ ws) = w ++ (b' ' ∷ join (v ∷ ws))

-- The words of each line, loop by loop.
unfoldable pub len_lines : List (Bytes × ℕ) → List (List Bytes)
len_lines [] = []
len_lines ((d, n) ∷ m) = (tag_doc_len ∷ d ∷ decimal (pos n) ∷ []) ∷ len_lines m

unfoldable pub terms_lines : List (Bytes × List Bytes) → List (List Bytes)
terms_lines [] = []
terms_lines ((d, ts) ∷ m) = (tag_doc_terms ∷ d ∷ ts) ∷ terms_lines m

unfoldable pub node_lines : List PostingNode → List (List Bytes)
node_lines [] = []
node_lines (n ∷ ns) =
    (tag_node
      ∷ n.doc_id
      ∷ decimal (pos n.term_freq)
      ∷ show_weight n.field_weight
      ∷ decimal (pos n.doc_len)
      ∷ [])
    ∷ node_lines ns

unfoldable pub index_lines : List (Bytes × List PostingNode) → List (List Bytes)
index_lines [] = []
index_lines ((t, ns) ∷ m) = (tag_term ∷ t ∷ []) ∷ (node_lines ns ++ index_lines m)

unfoldable pub all_lines : InvertedIndex → List (List Bytes)
all_lines ix =
    (tag_total ∷ decimal (pos ix.total_docs) ∷ [])
    ∷ (len_lines ix.doc_lengths ++ (terms_lines ix.doc_terms ++ index_lines ix.index))

unfoldable pub print_lines : List (List Bytes) → Bytes
print_lines [] = []
print_lines (l ∷ ls) = join l ++ (b'\n' ∷ print_lines ls)

-- What `Save` writes into the temporary file that it then renames.
unfoldable pub save : InvertedIndex → Bytes
save ix = print_lines (all_lines ix)
