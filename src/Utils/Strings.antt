-- ===== src/Utils/Strings.antt =====
-- src/utils/string_utils.cpp: the string functions that Query/Normalizer does not need, but for
-- UrlDecode, Format and ReplaceAll. A string is its bytes.
pub mod Utf8
mod Tests
use mini_search_rec.Prelude.{
  ℕ, zero, suc, ◌+◌, ◌-◌, ◌*◌, ◌/◌, ◌%◌, ltb, leb, Bool, true, false, ◌&&◌, ◌||◌, if◌then◌else◌,
  ◌==◌, List, [], ◌∷◌, ◌++◌, length, take, drop, get_elem?, Option, none, some, Bytes, contains,
  ℕ_discrete,
}
use mini_search_rec.Index.Tokenizer.{is_space, flush}
use mini_search_rec.Query.Normalizer.{is_alpha, is_digit}

-- `std::toupper`, and `ToUpper`
pub upper : ℕ → ℕ
upper c = if leb b'a' c && leb c b'z' then c - 32 else c

pub to_upper : Bytes → Bytes
to_upper [] = []
to_upper (c ∷ cs) = upper c ∷ to_upper cs

-- `Split(str, delimiters)` from `start` on; `current` is what stands before `pos`.
pub split_any : Bytes → Bytes → Bytes → List Bytes
split_any delimiters current [] = flush current []
split_any delimiters current (c ∷ cs) =
    let next = flush current (split_any delimiters [] cs) in
    let more = split_any delimiters (current ++ (c ∷ [])) cs in
    if contains ℕ_discrete c delimiters then next else more

-- `IsBlank`
pub is_blank : Bytes → Bool
is_blank [] = true
is_blank (c ∷ cs) = let rest = is_blank cs in if is_space c then rest else false

-- The loop of `Tokenize`; `skip` bytes are taken already, `current_token` is the pending word.
pub tokenize_from : ℕ → Bytes → Bytes → List Bytes
tokenize_from (suc skip) current [] = flush current []
tokenize_from (suc skip) current (c ∷ cs) = tokenize_from skip current cs
tokenize_from zero current [] = flush current []
tokenize_from zero current (c ∷ cs) =
    let word = tokenize_from 0 (current ++ (c ∷ [])) cs in
    let alone = flush current (tokenize_from 0 [] cs) in
    let two = flush current (take 2 (c ∷ cs) ∷ tokenize_from 1 [] cs) in
    let three = flush current (take 3 (c ∷ cs) ∷ tokenize_from 2 [] cs) in
    let four = flush current (take 4 (c ∷ cs) ∷ tokenize_from 3 [] cs) in
    if c / 32 == 6
    then (if leb 1 (length cs) then two else alone)
    else if c / 16 == 14
    then (if leb 2 (length cs) then three else alone)
    else if c / 8 == 30
    then (if leb 3 (length cs) then four else alone)
    else if (is_alpha c || is_digit c) || c == 39
    then word
    else alone

pub tokenize : Bytes → List Bytes
tokenize text = tokenize_from 0 [] text

-- Whether three bytes are a character from U+4E00 to U+9FFF.
pub is_chinese : ℕ → ℕ → ℕ → Bool
is_chinese a b c =
    let code = a % 16 * 4096 + b % 64 * 64 + c % 64 in leb 0x4E00 code && leb code 0x9FFF

-- `ContainsChinese`, with `skip` bytes to pass over.
pub chinese_from : ℕ → Bytes → Bool
chinese_from skip [] = false
chinese_from (suc skip) (c ∷ cs) = chinese_from skip cs
chinese_from zero (c ∷ cs) =
    let one = chinese_from 0 cs in
    let two = chinese_from 1 cs in
    let three = chinese_from 2 cs in
    let four = chinese_from 3 cs in
    if ltb c 0x80
    then one
    else if ltb c 0xE0
    then two
    else if ltb c 0xF0
    then (elim cs [
      | [] ↦ three
      | b ∷ [] ↦ three
      | b ∷ d ∷ ds ↦ if is_chinese c b d then true else three
    ])
    else four

pub contains_chinese : Bytes → Bool
contains_chinese s = chinese_from 0 s

-- Whether a byte goes on a character: 10xxxxxx.
abbrev pub is_continuation : ℕ → Bool
is_continuation c = c / 64 == 2

-- The loop of `Utf8Truncate` that moves back to the start of a character.
pub back_up : ℕ → Bytes → ℕ
back_up zero s = zero
back_up (suc i) s =
    let before = back_up i s in
    elim (get_elem? s (suc i)) [
      | none ↦ suc i
      | some c ↦ if is_continuation c then before else suc i
    ]

-- `Utf8Truncate`
pub utf8_truncate : Bytes → ℕ → Bytes
utf8_truncate s max_bytes = if leb (length s) max_bytes then s else take (back_up max_bytes s) s

-- `Utf8Len`, with `skip` bytes to pass over.
pub utf8_len_from : ℕ → Bytes → ℕ
utf8_len_from skip [] = 0
utf8_len_from (suc skip) (c ∷ cs) = utf8_len_from skip cs
utf8_len_from zero (c ∷ cs) =
    let one = utf8_len_from 0 cs in
    let two = utf8_len_from 1 cs in
    let three = utf8_len_from 2 cs in
    let four = utf8_len_from 3 cs in
    suc (if ltb c 0x80 then one else if ltb c 0xE0 then two else if ltb c 0xF0 then three else four)

pub utf8_len : Bytes → ℕ
utf8_len s = utf8_len_from 0 s
