-- ===== src/Query/Normalizer/Tests.antt =====
-- `QueryNormalizer` on a query and on wide characters.
use mini_search_rec.Prelude.{
  ◌≡◌, refl, true, not, keep, All, [], ◌∷◌, Bytes, contains, bytes_discrete, ℕ_discrete,
}
use mini_search_rec.Index.Tokenizer.{to_lower, is_space}
use mini_search_rec.Query.Normalizer.{
  is_upper, is_alpha, is_digit, split, split_from, normalize, prepare, is_stop_word,
  remove_stop_words, join_from, traditional_to_simplified, full_width_to_half_width,
  normalize_alnum, alnum_from, collapse_spaces, collapse_from, remove_noise, is_kept,
  spell_correction, spell_from, trim, ltrim, rtrim,
}
use mini_search_rec.Query.Normalizer.Words.{split-normalize}

-- "A x1"
abbrev query : Bytes
query = b'A' ∷ b' ' ∷ b'x' ∷ b'1' ∷ []

normalize_query : normalize query ≡ b'x' ∷ b' ' ∷ b'1' ∷ []
unfolding normalize prepare is_stop_word remove_stop_words join_from traditional_to_simplified
    full_width_to_half_width normalize_alnum alnum_from collapse_spaces collapse_from remove_noise
    is_kept spell_correction spell_from trim ltrim rtrim split_from is_upper is_alpha is_digit
    to_lower is_space contains bytes_discrete ℕ_discrete
normalize_query = refl

split-normalize_example :
    (split b' ' (normalize query) ≡ keep (λ w. not (is_stop_word w)) (split b' ' (prepare query)))
    × All (λ w. not (is_stop_word w) ≡ true) (split b' ' (normalize query))
split-normalize_example = split-normalize query
