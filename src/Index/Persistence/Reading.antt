-- ===== src/Index/Persistence/Reading.antt =====
-- `Load`: lines, words and numbers, and what each line does. In a line that `Save` does not write, with a
-- number missing or followed by other characters, each word is read by itself, and a missing number is 0;
-- the stream of the source would leave the rest of such a line unread, and its fields as they were.
use mini_search_rec.Prelude.{
  ℕ, ◌+◌, ◌-◌, ◌*◌, ◌%◌, ◌^◌, Bool, true, false, ◌&&◌, if◌then◌else◌, ltb, leb, ◌==◌, ite, List, [],
  ◌∷◌, ◌++◌, Option, none, some, find, insert, Bytes, bytes_discrete,
}
use mini_search_rec.Index.Tokenizer.{is_space}
use mini_search_rec.Index.Inverted.{InvertedIndex, PostingNode, average}
use mini_search_rec.Index.Inverted.Invariant.{sum_lengths}
use mini_search_rec.Index.Persistence.{tag_total, tag_doc_len, tag_doc_terms, tag_term, tag_node}

abbrev pub flush : Bytes → List Bytes
flush [] = []
flush (c ∷ cs) = (c ∷ cs) ∷ []

-- The pieces between separators that are not empty: the words of a line for `ls >> t`, and the lines of a
-- file for `getline`, since `Load` passes over an empty line.
unfoldable pub pieces : (ℕ → Bool) → Bytes → Bytes → List Bytes
pieces sep current [] = flush current
pieces sep current (c ∷ cs) =
    let next = pieces sep [] cs in
    let more = pieces sep (current ++ (c ∷ [])) cs in if sep c then flush current ++ next else more

abbrev pub is_newline : ℕ → Bool
is_newline c = c == b'\n'

unfoldable pub words : Bytes → List Bytes
words line = pieces is_space [] line

unfoldable pub words_of_all : List Bytes → List (List Bytes)
words_of_all [] = []
words_of_all (l ∷ ls) = words l ∷ words_of_all ls

abbrev pub is_digit : ℕ → Bool
is_digit c = leb b'0' c && leb c b'9'

-- The digits at the start of a word.
unfoldable pub read_from : ℕ → Bytes → ℕ
read_from n [] = n
read_from n (c ∷ cs) =
    let rest = read_from (n * 10 + (c - b'0')) cs in if is_digit c then rest else n

-- `>>` of an unsigned number, which stops at the largest.
unfoldable pub read_number : ℕ → Bytes → ℕ
read_number limit s = let n = read_from 0 s in if ltb n limit then n else limit - 1

unfoldable pub half_at : Bytes → ℕ
half_at (c ∷ d ∷ cs) = if (c == b'.') && (d == b'5') then 1 else 0
half_at (c ∷ []) = 0
half_at [] = 0

-- `>> node.field_weight`, in halves.
unfoldable pub read_weight : ℕ → Bytes → ℕ
read_weight n [] = n * 2
read_weight n (c ∷ cs) =
    let rest = read_weight (n * 10 + (c - b'0')) cs in
    if is_digit c then rest else n * 2 + half_at (c ∷ cs)

-- `m[k].push_back(x)`
unfoldable pub push : {V : Type 0} → Bytes → V → List (Bytes × List V) → List (Bytes × List V)
push k x m =
    insert bytes_discrete k
      ((elim (find bytes_discrete k m) [ none ↦ [] | some xs ↦ xs ]) ++ (x ∷ [])) m

unfoldable pub push_all :
    {V : Type 0} → Bytes → List V → List (Bytes × List V) → List (Bytes × List V)
push_all k [] m = m
push_all k (x ∷ xs) m = push_all k xs (push k x m)

-- What `Load` has read so far, and `cur_term`.
pub record Loading : Type 0 where
  pub index : List (Bytes × List PostingNode)
  pub doc_lengths : List (Bytes × ℕ)
  pub doc_terms : List (Bytes × List Bytes)
  pub total_docs : ℕ
  pub cur_term : Bytes

abbrev pub max_u32 : ℕ
max_u32 = 2 ^ 32

-- A word of a line, or the empty word where the line is too short, which the source leaves as it was.
abbrev pub word_at : List Bytes → Bytes
word_at [] = []
word_at (w ∷ ws) = w

abbrev pub after_word : List Bytes → List Bytes
after_word [] = []
after_word (w ∷ ws) = ws

unfoldable pub read_node : List Bytes → PostingNode
read_node ws =
    let tf = after_word ws in
    let fw = after_word tf in
    record {
      doc_id = word_at ws;
      term_freq = read_number max_u32 (word_at tf);
      field_weight = read_weight 0 (word_at fw);
      doc_len = read_number max_u32 (word_at (after_word fw));
    }

-- One line, by its first word.
unfoldable pub load_line : Loading → List Bytes → Loading
load_line s [] = s
load_line s (tag ∷ ws) =
    ite (bytes_discrete tag tag_total)
      (elim ws [ [] ↦ s | w ∷ rest ↦ record s { total_docs = read_number (2 ^ 64) w } ])
      (ite (bytes_discrete tag tag_doc_len)
        (record s {
          doc_lengths =
              insert bytes_discrete (word_at ws) (read_number max_u32 (word_at (after_word ws)))
                s.doc_lengths;
        })
        (ite (bytes_discrete tag tag_doc_terms)
          (record s { doc_terms = push_all (word_at ws) (after_word ws) s.doc_terms })
          (ite (bytes_discrete tag tag_term)
            (elim ws [ [] ↦ s | w ∷ rest ↦ record s { cur_term = w } ])
            (ite (bytes_discrete tag tag_node)
              (record s { index = push s.cur_term (read_node ws) s.index }) s))))

unfoldable pub load_lines : Loading → List (List Bytes) → Loading
load_lines s [] = s
load_lines s (l ∷ ls) = load_lines (load_line s l) ls

-- `RecalculateAvgDocLen`
unfoldable pub recalculate : Loading → InvertedIndex
recalculate s =
    let total = sum_lengths s.doc_lengths % 2 ^ 64 in
    record {
      index = s.index;
      doc_lengths = s.doc_lengths;
      doc_terms = s.doc_terms;
      avg_doc_len = average total s.doc_lengths;
      total_docs = s.total_docs;
      total_doc_len = total;
    }

-- `Load` of a file into an index, and none for a file that cannot be opened.
unfoldable pub load : Option Bytes → InvertedIndex → InvertedIndex × Bool
load none ix = (ix, false)
load (some text) ix = (
  recalculate (
      load_lines
        (record {
          index = [];
          doc_lengths = [];
          doc_terms = [];
          total_docs = ix.total_docs;
          cur_term = [];
        })
        (words_of_all (pieces is_newline [] text))),
  true,
)
