-- ===== src/Index/Tokenizer/Tokens.antt =====
-- What `Tokenize` promises of its tokens, and where it does not fold case.
use mathlib.Core.List.{append-nil, append_assoc}
use mini_search_rec.Prelude.{
  lt→ltb, ℕ, zero, suc, ◌/◌, ◌<◌, ◌≡◌, ◌≢◌, refl, ◌∙◌, ap, Bool, true, false, ◌&&◌, ◌||◌,
  if◌then◌else◌, ltb, leb, ◌==◌, List, [], ◌∷◌, ◌++◌, length, take, arith, Bytes, bytes_discrete,
  contains, All,
}
use mini_search_rec.Index.Tokenizer.{
  lower, is_space, is_punct, flush, tokenize_from, simple_tokenize, dedup_from, tokenize,
}

-- No token twice.
abbrev pub Once : List Bytes → Type 0
Once [] = Unit {0}
Once (t ∷ ts) = (contains bytes_discrete t ts ≡ false) × Once ts

contains-dedup_seen :
    (t : Bytes) (seen ts : List Bytes)
    → contains bytes_discrete t seen ≡ true
    → contains bytes_discrete t (dedup_from seen ts) ≡ false
unfolding contains dedup_from
contains-dedup_seen t seen [] h = refl
contains-dedup_seen t seen (u ∷ us) h =
    ground (arith, contains-dedup_seen t seen us h, contains-dedup_seen t (u ∷ seen) us)

contains-dedup_new :
    (t : Bytes) (seen ts : List Bytes)
    → contains bytes_discrete t seen ≡ false
    → contains bytes_discrete t (dedup_from seen ts) ≡ contains bytes_discrete t ts
unfolding contains dedup_from
contains-dedup_new t seen [] h = refl
contains-dedup_new t seen (u ∷ us) h =
    ground (arith, contains-dedup_new t seen us h, contains-dedup_new t (u ∷ seen) us)

dedup-Once : (seen ts : List Bytes) → Once (dedup_from seen ts)
unfolding contains dedup_from
dedup-Once seen [] = tt
dedup-Once seen (u ∷ us) =
    ground
      (arith, dedup-Once seen us, dedup-Once (u ∷ seen) us, contains-dedup_seen u (u ∷ seen) us)

-- A token is not empty.
flush-nonempty :
    (w : Bytes) (ts : List Bytes) → All (λ t. t ≢ []) ts → All (λ t. t ≢ []) (flush w ts)
flush-nonempty [] ts h = h
flush-nonempty (c ∷ cs) ts h = ((λ e. cc), h)

abbrev Full : List Bytes → Type 0
Full = All (λ t. t ≢ [])

if-Full : (b : Bool) (ts us : List Bytes) → Full ts → Full us → Full (if b then ts else us)
if-Full true ts us h k = h
if-Full false ts us h k = k

tokenize_from-Full : (skip : ℕ) (current text : Bytes) → Full (tokenize_from skip current text)
unfolding tokenize_from
tokenize_from-Full (suc skip) current [] = flush-nonempty (lower current) [] tt
tokenize_from-Full (suc skip) current (c ∷ cs) = tokenize_from-Full skip current cs
tokenize_from-Full zero current [] = flush-nonempty (lower current) [] tt
tokenize_from-Full zero current (c ∷ cs) =
    let word = tokenize_from-Full 0 (current ++ (c ∷ [])) cs in
    let space =
      flush-nonempty (lower current) (tokenize_from 0 [] cs) (tokenize_from-Full 0 [] cs) in
    let several = λ (n : ℕ) (k : ℕ).
      flush-nonempty current ((c ∷ take n cs) ∷ tokenize_from k [] cs)
        ((λ e. cc), tokenize_from-Full k [] cs) in
    if-Full (ltb c 0x80) _ _ (if-Full (is_space c || is_punct c) _ _ space word) (
      if-Full (c / 32 == 6 && leb 1 (length cs)) _ _ (several 1 1) (
        if-Full (c / 16 == 14 && leb 2 (length cs)) _ _ (several 2 2) (
          if-Full (c / 8 == 30 && leb 3 (length cs)) _ _ (several 3 3)
            (tokenize_from-Full 0 current cs))))

-- `Tokenize` returns exactly the tokens of `SimpleTokenize`, each once, and no empty token.
pub tokenize-Once :
    (text : Bytes)
    → Once (tokenize text)
      × ((t : Bytes)
          → contains bytes_discrete t (tokenize text)
            ≡ contains bytes_discrete t (simple_tokenize text))
      × All (λ t. t ≢ []) (simple_tokenize text)
unfolding tokenize contains
tokenize-Once text = (
  dedup-Once [] (simple_tokenize text),
  (λ t. contains-dedup_new t [] (simple_tokenize text) refl),
  tokenize_from-Full 0 [] text,
)

-- A byte of a word: ASCII, and neither space nor punctuation.
abbrev pub IsWord : ℕ → Type 0
IsWord c = (c < 0x80) × ((is_space c || is_punct c) ≡ false)

tokenize_from-word :
    (w current rest : Bytes)
    → All IsWord w
    → tokenize_from 0 current (w ++ rest) ≡ tokenize_from 0 (current ++ w) rest
unfolding tokenize_from
tokenize_from-word [] current rest h = rw append-nil
tokenize_from-word (c ∷ cs) current rest h =
    let low = lt→ltb c 0x80 h.0.0 in
    let plain = h.0.1 in
    rw (low, plain)
      (tokenize_from-word cs (current ++ (c ∷ [])) rest h.1
        ∙ ap (λ w. tokenize_from 0 w rest) (append_assoc current (c ∷ []) cs))

-- A word is folded to lower case before a space and left as it is before a character of three bytes,
-- such as a Chinese one: there an upper case letter stays upper case.
pub simple_tokenize-case :
    (a : ℕ) (w : Bytes) (c c2 c3 : ℕ)
    → All IsWord (a ∷ w)
    → c / 16 ≡ 14
    → (simple_tokenize ((a ∷ w) ++ (b' ' ∷ [])) ≡ lower (a ∷ w) ∷ [])
      × (simple_tokenize ((a ∷ w) ++ (c ∷ c2 ∷ c3 ∷ [])) ≡ (a ∷ w) ∷ (c ∷ c2 ∷ c3 ∷ []) ∷ [])
unfolding tokenize_from is_space
simple_tokenize-case a w c c2 c3 h lead = (
  tokenize_from-word (a ∷ w) [] (b' ' ∷ []) h ∙ refl,
  tokenize_from-word (a ∷ w) [] (c ∷ c2 ∷ c3 ∷ []) h ∙ ground arith,
)
