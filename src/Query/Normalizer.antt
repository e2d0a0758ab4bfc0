-- ===== src/Query/Normalizer.antt =====
-- src/lib/query/query_normalizer.cpp: `QueryNormalizer`, and of src/utils/string_utils.cpp the
-- functions that it calls. A string is its bytes; the character tests are those of the C locale.
pub mod Words
pub mod Letters
mod Tests
use mini_search_rec.Prelude.{
  ℕ, zero, suc, ◌+◌, ◌-◌, ltb, leb, Bool, true, false, not, ◌&&◌, ◌||◌, if◌then◌else◌, ◌==◌, List,
  [], ◌∷◌, ◌++◌, keep, Bytes, bytes_discrete, contains,
}
use mini_search_rec.Index.Tokenizer.{to_lower, lower, is_space, flush}

unfoldable pub is_upper : ℕ → Bool
is_upper c = leb b'A' c && leb c b'Z'

-- `std::isalpha` and `std::isdigit` of a byte, in the C locale.
unfoldable pub is_alpha : ℕ → Bool
is_alpha c = is_upper c || (leb b'a' c && leb c b'z')

unfoldable pub is_digit : ℕ → Bool
is_digit c = leb b'0' c && leb c b'9'

-- `utils::LTrim` and `utils::RTrim`
unfoldable pub ltrim : Bytes → Bytes
ltrim [] = []
ltrim (c ∷ cs) = let rest = ltrim cs in if is_space c then rest else c ∷ cs

unfoldable pub rtrim : Bytes → Bytes
rtrim [] = []
rtrim (c ∷ cs) = elim (rtrim cs) [ [] ↦ if is_space c then [] else c ∷ [] | d ∷ ds ↦ c ∷ d ∷ ds ]

unfoldable pub trim : Bytes → Bytes
trim s = ltrim (rtrim s)

-- `utils::Split(str, delimiter)`; `current` is the token that `std::getline` is reading.
unfoldable pub split_from : ℕ → Bytes → Bytes → List Bytes
split_from delimiter current [] = flush current []
split_from delimiter current (c ∷ cs) =
    let next = flush current (split_from delimiter [] cs) in
    let more = split_from delimiter (current ++ (c ∷ [])) cs in
    if c == delimiter then next else more

abbrev pub split : ℕ → Bytes → List Bytes
split delimiter s = split_from delimiter [] s

-- `FullWidthToHalfWidth`: a character of three bytes becomes one byte.
unfoldable pub full_width_to_half_width : Bytes → Bytes
full_width_to_half_width [] = []
full_width_to_half_width (c ∷ []) = c ∷ []
full_width_to_half_width (c ∷ c1 ∷ []) = c ∷ c1 ∷ []
full_width_to_half_width (c ∷ c1 ∷ c2 ∷ cs) =
    let after = full_width_to_half_width cs in
    let next = full_width_to_half_width (c1 ∷ c2 ∷ cs) in
    if c == 0xEF && c1 == 0xBC && c2 == 0x80
    then b' ' ∷ after
    else if c == 0xEF && c1 == 0xBC && (leb 0xA1 c2 && leb c2 0xBA)
    then (c2 - 0xA1 + b'A') ∷ after
    else if c == 0xEF && c1 == 0xBC && (leb 0x90 c2 && leb c2 0x99)
    then (c2 - 0x90 + b'0') ∷ after
    else if c == 0xEF && c1 == 0xBD && (leb 0x81 c2 && leb c2 0x9A)
    then (c2 - 0x81 + b'a') ∷ after
    else c ∷ next

-- `NormalizeAlnum`: a space between a letter and a digit.
unfoldable pub alnum_from : ℕ → Bytes → Bytes
alnum_from last [] = []
alnum_from last (c ∷ cs) =
    let rest = alnum_from c cs in
    if (is_alpha last && is_digit c) || (is_digit last && is_alpha c)
    then b' ' ∷ c ∷ rest
    else c ∷ rest

unfoldable pub normalize_alnum : Bytes → Bytes
normalize_alnum [] = []
normalize_alnum (c ∷ cs) = c ∷ alnum_from c cs

-- `CollapseSpaces`
unfoldable pub collapse_from : Bool → Bytes → Bytes
collapse_from last_was_space [] = []
collapse_from last_was_space (c ∷ cs) =
    let space = collapse_from true cs in
    let other = c ∷ collapse_from false cs in
    if c == 32 || c == 9 then (if last_was_space then space else b' ' ∷ space) else other

unfoldable pub collapse_spaces : Bytes → Bytes
collapse_spaces s = trim (collapse_from false s)

-- `RemoveNoise`
unfoldable pub is_kept : ℕ → Bool
is_kept c =
    (is_alpha c || is_digit c) || leb 0x80 c || (c == b' ' || c == 39) || (c == b'-' || c == b'_')

unfoldable pub remove_noise : Bytes → Bytes
remove_noise s = keep is_kept s

-- `SpellCorrection`: the third and further of equal letters are dropped.
unfoldable pub spell_from : ℕ → ℕ → Bytes → Bytes
spell_from a b [] = []
spell_from a b (c ∷ cs) =
    let rest = spell_from b c cs in if is_alpha c && (c == b && b == a) then rest else c ∷ rest

unfoldable pub spell_correction : Bytes → Bytes
spell_correction [] = []
spell_correction (a ∷ []) = a ∷ []
spell_correction (a ∷ b ∷ cs) = a ∷ b ∷ spell_from a b cs

abbrev pub stop_words : List Bytes
stop_words =
    (0xE7 ∷ 0x9A ∷ 0x84 ∷ [])
    ∷ (0xE4 ∷ 0xBA ∷ 0x86 ∷ [])
    ∷ (0xE5 ∷ 0x9C ∷ 0xA8 ∷ [])
    ∷ (0xE6 ∷ 0x98 ∷ 0xAF ∷ [])
    ∷ (0xE6 ∷ 0x88 ∷ 0x91 ∷ [])
    ∷ (0xE6 ∷ 0x9C ∷ 0x89 ∷ [])
    ∷ (0xE5 ∷ 0x92 ∷ 0x8C ∷ [])
    ∷ (0xE5 ∷ 0xB0 ∷ 0xB1 ∷ [])
    ∷ (0xE4 ∷ 0xB8 ∷ 0x8D ∷ [])
    ∷ (0xE4 ∷ 0xBA ∷ 0xBA ∷ [])
    ∷ (0xE9 ∷ 0x83 ∷ 0xBD ∷ [])
    ∷ (0xE4 ∷ 0xB8 ∷ 0x80 ∷ [])
    ∷ (0xE4 ∷ 0xB8 ∷ 0x80 ∷ 0xE4 ∷ 0xB8 ∷ 0xAA ∷ [])
    ∷ (0xE4 ∷ 0xB8 ∷ 0x8A ∷ [])
    ∷ (0xE4 ∷ 0xB9 ∷ 0x9F ∷ [])
    ∷ (0xE5 ∷ 0xBE ∷ 0x88 ∷ [])
    ∷ (0xE5 ∷ 0x88 ∷ 0xB0 ∷ [])
    ∷ (0xE8 ∷ 0xAF ∷ 0xB4 ∷ [])
    ∷ (0xE8 ∷ 0xA6 ∷ 0x81 ∷ [])
    ∷ (0xE5 ∷ 0x8E ∷ 0xBB ∷ [])
    ∷ (0xE4 ∷ 0xBD ∷ 0xA0 ∷ [])
    ∷ (0xE4 ∷ 0xBC ∷ 0x9A ∷ [])
    ∷ (0xE7 ∷ 0x9D ∷ 0x80 ∷ [])
    ∷ (0xE6 ∷ 0xB2 ∷ 0xA1 ∷ 0xE6 ∷ 0x9C ∷ 0x89 ∷ [])
    ∷ (0xE7 ∷ 0x9C ∷ 0x8B ∷ [])
    ∷ (0xE5 ∷ 0xA5 ∷ 0xBD ∷ [])
    ∷ (0xE8 ∷ 0x87 ∷ 0xAA ∷ 0xE5 ∷ 0xB7 ∷ 0xB1 ∷ [])
    ∷ (0xE8 ∷ 0xBF ∷ 0x99 ∷ [])
    ∷ (b't' ∷ b'h' ∷ b'e' ∷ [])
    ∷ (b'i' ∷ b's' ∷ [])
    ∷ (b'a' ∷ b't' ∷ [])
    ∷ (b'o' ∷ b'f' ∷ [])
    ∷ (b'o' ∷ b'n' ∷ [])
    ∷ (b'a' ∷ b'n' ∷ b'd' ∷ [])
    ∷ (b'a' ∷ [])
    ∷ (b'a' ∷ b'n' ∷ [])
    ∷ (b'i' ∷ b't' ∷ [])
    ∷ (b't' ∷ b'o' ∷ [])
    ∷ (b't' ∷ b'h' ∷ b'a' ∷ b't' ∷ [])
    ∷ (b't' ∷ b'h' ∷ b'i' ∷ b's' ∷ [])
    ∷ (b'w' ∷ b'i' ∷ b't' ∷ b'h' ∷ [])
    ∷ (b'f' ∷ b'o' ∷ b'r' ∷ [])
    ∷ (b'a' ∷ b's' ∷ [])
    ∷ (b'w' ∷ b'a' ∷ b's' ∷ [])
    ∷ (b'b' ∷ b'u' ∷ b't' ∷ [])
    ∷ (b'b' ∷ b'e' ∷ [])
    ∷ (b'a' ∷ b'r' ∷ b'e' ∷ [])
    ∷ []

-- The loop that joins words with spaces, from the result so far.
unfoldable pub join_from : Bytes → List Bytes → Bytes
join_from result [] = result
join_from [] (w ∷ ws) = join_from w ws
join_from (c ∷ cs) (w ∷ ws) = join_from ((c ∷ cs) ++ (b' ' ∷ w)) ws

-- `RemoveStopWords`
unfoldable pub is_stop_word : Bytes → Bool
is_stop_word w = contains bytes_discrete (lower w) stop_words

unfoldable pub remove_stop_words : Bytes → Bytes
remove_stop_words s = join_from [] (keep (λ w. not (is_stop_word w)) (split b' ' s))

-- `TraditionalToSimplified` returns its argument.
unfoldable pub traditional_to_simplified : Bytes → Bytes
traditional_to_simplified s = s

-- `Normalize` up to the stop words.
unfoldable pub prepare : Bytes → Bytes
prepare s =
    spell_correction
      (remove_noise (collapse_spaces (lower (normalize_alnum (full_width_to_half_width s)))))

-- `Normalize`
unfoldable pub normalize : Bytes → Bytes
normalize [] = []
normalize (c ∷ cs) = traditional_to_simplified (remove_stop_words (prepare (c ∷ cs)))

-- `NeedsNormalization`
pub needs_normalization : Bytes → Bool
needs_normalization [] = false
needs_normalization (c ∷ cs) =
    let rest = needs_normalization cs in if ltb 127 c || is_upper c then true else rest
