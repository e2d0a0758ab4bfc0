-- ===== src/Utils/Strings/Tests.antt =====
-- The string functions on short texts.
use mini_search_rec.Prelude.{
  ℕ, ◌≤◌, ◌≡◌, ◌⊎◌, refl, true, false, [], ◌∷◌, length, take, get_elem?, some, Bytes,
}
use mini_search_rec.Utils.Strings.{
  utf8_truncate, back_up, is_continuation, utf8_len, utf8_len_from, contains_chinese, chinese_from,
  is_chinese,
}
use mini_search_rec.Utils.Strings.Utf8.{utf8_truncate-take}

-- "a", and the character with the bytes E4 B8 AD.
abbrev text : Bytes
text = b'a' ∷ 0xE4 ∷ 0xB8 ∷ 0xAD ∷ []

truncate_text : utf8_truncate text 3 ≡ b'a' ∷ []
unfolding utf8_truncate back_up
truncate_text = refl

len_text : utf8_len text ≡ 2
unfolding utf8_len utf8_len_from
len_text = refl

chinese_text : contains_chinese text ≡ true
unfolding contains_chinese chinese_from is_chinese
chinese_text = refl

utf8_truncate-take_example :
    (i : ℕ) × (utf8_truncate text 3 ≡ take i text)
    × (length (utf8_truncate text 3) ≤ 3)
    × (length text ≤ 3 → utf8_truncate text 3 ≡ text)
    × ((c : ℕ) → get_elem? text i ≡ some c → (i ≡ 0) ⊎ (is_continuation c ≡ false))
utf8_truncate-take_example = utf8_truncate-take text 3
