-- ===== src/Index/Persistence/Pieces.antt =====
-- Words and lines: what is joined with separators comes apart again.
use mini_search_rec.Prelude.{
  ℕ, ◌≡◌, ◌≢◌, refl, sym, ap, ◌∙◌, Bool, true, false, List, [], ◌∷◌, ◌++◌, Bytes, All, arith,
}
use mathlib.Core.List.{append_assoc, append-nil}
use mini_search_rec.Index.Tokenizer.{is_space}
use mini_search_rec.Index.Persistence.{join, print_lines}
use mini_search_rec.Index.Persistence.Reading.{pieces, flush, words, words_of_all, is_newline}

-- No byte of the word is a separator.
abbrev pub Free : (ℕ → Bool) → Bytes → Type 0
Free sep w = All (λ c. sep c ≡ false) w

abbrev pub Word : (ℕ → Bool) → Bytes → Type 0
Word sep w = (w ≢ []) × Free sep w

module _ (sep : ℕ → Bool) where
  pieces-Free :
      (cur w rest : Bytes) → Free sep w → pieces sep cur (w ++ rest) ≡ pieces sep (cur ++ w) rest
  unfolding pieces
  pieces-Free cur [] rest f = ap (λ l. pieces sep l rest) (sym (append-nil cur))
  pieces-Free cur (c ∷ cs) rest f = rw f.0 (
      pieces-Free (cur ++ (c ∷ [])) cs rest f.1
      ∙ ap (λ l. pieces sep l rest) (append_assoc cur (c ∷ []) cs))

  flush_word : (w : Bytes) → w ≢ [] → flush w ≡ w ∷ []
  flush_word [] n = absurd (n refl)
  flush_word (c ∷ cs) n = refl

  pieces_last : (w : Bytes) → Word sep w → pieces sep [] w ≡ w ∷ []
  unfolding pieces
  pieces_last w (n, f) =
      ap (pieces sep []) (sym (append-nil w)) ∙ pieces-Free [] w [] f ∙ flush_word w n

  pieces_next :
      (w rest : Bytes) (c : ℕ)
      → Word sep w
      → sep c ≡ true
      → pieces sep [] (w ++ (c ∷ rest)) ≡ w ∷ pieces sep [] rest
  unfolding pieces
  pieces_next w rest c (n, f) e =
      pieces-Free [] w (c ∷ rest) f ∙ rw e (ap (λ l. l ++ pieces sep [] rest) (flush_word w n))

words-join : (ws : List Bytes) → All (Word is_space) ws → words (join ws) ≡ ws
unfolding words join pieces is_space
words-join [] h = refl
words-join (w ∷ []) h = pieces_last is_space w h.0
words-join (w ∷ v ∷ ws) h =
    pieces_next is_space w (join (v ∷ ws)) b' ' h.0 refl ∙ ap (◌∷◌ w) (words-join (v ∷ ws) h.1)

-- A line that `Save` writes: at least one word.
abbrev pub Line : List Bytes → Type 0
Line ws = (ws ≢ []) × All (Word is_space) ws

newline_space : (c : ℕ) → is_space c ≡ false → is_newline c ≡ false
unfolding is_space
newline_space c e = ground (arith, e)

Free-newline : (w : Bytes) → Free is_space w → Free is_newline w
Free-newline [] f = tt
Free-newline (c ∷ cs) f = (newline_space c f.0, Free-newline cs f.1)

pub Free-append : (sep : ℕ → Bool) (u v : Bytes) → Free sep u → Free sep v → Free sep (u ++ v)
Free-append sep [] v f g = g
Free-append sep (c ∷ cs) v f g = (f.0, Free-append sep cs v f.1 g)

Free-join : (ws : List Bytes) → All (Word is_space) ws → Free is_newline (join ws)
unfolding join
Free-join [] h = tt
Free-join (w ∷ []) h = Free-newline w h.0.1
Free-join (w ∷ v ∷ ws) h =
    Free-append is_newline w _ (Free-newline w h.0.1) (refl, Free-join (v ∷ ws) h.1)

pub nil-append : (u v : Bytes) → u ≢ [] → (u ++ v) ≢ []
nil-append [] v n = absurd (n refl)
nil-append (c ∷ cs) v n = (cc)

join-Word : (ws : List Bytes) → Line ws → Word is_newline (join ws)
unfolding join
join-Word [] (n, h) = absurd (n refl)
join-Word (w ∷ []) (n, h) = (h.0.0, Free-join (w ∷ []) h)
join-Word (w ∷ v ∷ ws) (n, h) = (nil-append w _ h.0.0, Free-join (w ∷ v ∷ ws) h)

-- The words of the lines of a file are those that were printed.
pub words-print_lines :
    (ls : List (List Bytes))
    → All Line ls
    → words_of_all (pieces is_newline [] (print_lines ls)) ≡ ls
unfolding print_lines words_of_all pieces
words-print_lines [] h = refl
words-print_lines (l ∷ ls) h =
    ap words_of_all (pieces_next is_newline (join l) (print_lines ls) b'\n' (join-Word l h.0) refl)
    ∙ (λ i. words-join l h.0.1 i ∷ words-print_lines ls h.1 i)
