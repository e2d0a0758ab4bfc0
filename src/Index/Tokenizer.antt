-- ===== src/Index/Tokenizer.antt =====
-- src/lib/index/inverted_index.cpp: `SimpleTokenize` and `Tokenize`, the tokenizer that is used where
-- cppjieba is not built in.
pub mod Tokens
use mini_search_rec.Prelude.{
  ℕ, zero, suc, ◌+◌, ◌/◌, Bool, ◌&&◌, ◌||◌, if◌then◌else◌, ltb, leb, ◌==◌, List, [], ◌∷◌, ◌++◌,
  length, take, Bytes, bytes_discrete, contains,
}

-- `std::tolower` in the C locale.
unfoldable pub to_lower : ℕ → ℕ
to_lower c = if leb b'A' c && leb c b'Z' then c + 32 else c

abbrev pub lower : Bytes → Bytes
lower [] = []
lower (c ∷ cs) = to_lower c ∷ lower cs

-- `std::isspace` and `std::ispunct` of a byte below 0x80, in the C locale.
unfoldable pub is_space : ℕ → Bool
is_space c = c == 32 || (leb 9 c && leb c 13)

unfoldable pub is_punct : ℕ → Bool
is_punct c =
    (leb 33 c && leb c 47)
    || (leb 58 c && leb c 64)
    || (leb 91 c && leb c 96)
    || (leb 123 c && leb c 126)

-- A pending word that is not empty becomes a token.
abbrev pub flush : Bytes → List Bytes → List Bytes
flush [] rest = rest
flush (c ∷ cs) rest = (c ∷ cs) ∷ rest

-- The loop of `SimpleTokenize` over the bytes that are left, `skip` of them taken already by a
-- character of several bytes; `current` is the pending word. A lead byte whose character is cut off
-- by the end of the text is skipped, and so is a stray byte; the pending word goes on across both.
unfoldable pub tokenize_from : ℕ → Bytes → Bytes → List Bytes
tokenize_from (suc skip) current [] = flush (lower current) []
tokenize_from (suc skip) current (c ∷ cs) = tokenize_from skip current cs
tokenize_from zero current [] = flush (lower current) []
tokenize_from zero current (c ∷ cs) =
    let word = tokenize_from 0 (current ++ (c ∷ [])) cs in
    let space = flush (lower current) (tokenize_from 0 [] cs) in
    let two = flush current (take 2 (c ∷ cs) ∷ tokenize_from 1 [] cs) in
    let three = flush current (take 3 (c ∷ cs) ∷ tokenize_from 2 [] cs) in
    let four = flush current (take 4 (c ∷ cs) ∷ tokenize_from 3 [] cs) in
    let stray = tokenize_from 0 current cs in
    if ltb c 0x80
    then (if is_space c || is_punct c then space else word)
    else if c / 32 == 6 && leb 1 (length cs)
    then two
    else if c / 16 == 14 && leb 2 (length cs)
    then three
    else if c / 8 == 30 && leb 3 (length cs)
    then four
    else stray

abbrev pub simple_tokenize : Bytes → List Bytes
simple_tokenize text = tokenize_from 0 [] text

-- The loop that drops repeated tokens, in order; `seen` holds those kept so far.
unfoldable pub dedup_from : List Bytes → List Bytes → List Bytes
dedup_from seen [] = []
dedup_from seen (t ∷ ts) =
    let again = dedup_from seen ts in
    let first = t ∷ dedup_from (t ∷ seen) ts in
    if contains bytes_discrete t seen then again else first

unfoldable pub tokenize : Bytes → List Bytes
tokenize text = dedup_from [] (simple_tokenize text)
