-- ===== src/Query/Normalizer/Letters.antt =====
-- What the passes of `Normalize` do to letters and to wide characters.
use mini_search_rec.Prelude.{ℕ, ◌+◌, ◌<◌, ◌≡◌, refl, false, ◌&&◌, ◌==◌, [], ◌∷◌, Bytes, arith}
use mini_search_rec.Query.Normalizer.{
  is_alpha, spell_correction, spell_from, full_width_to_half_width,
}

-- No letter stands three times in a row.
abbrev pub NoTriple : Bytes → Type 0
NoTriple [] = Unit {0}
NoTriple (a ∷ []) = Unit {0}
NoTriple (a ∷ b ∷ []) = Unit {0}
NoTriple (a ∷ b ∷ c ∷ cs) = ((is_alpha c && (c == b && b == a)) ≡ false) × NoTriple (b ∷ c ∷ cs)

spell_from-NoTriple : (a b : ℕ) (s : Bytes) → NoTriple (a ∷ b ∷ spell_from a b s)
unfolding spell_from
spell_from-NoTriple a b [] = tt
spell_from-NoTriple a b (c ∷ cs) = ground (arith, spell_from-NoTriple b c cs)

-- After `SpellCorrection` no letter stands three times in a row.
pub spell_correction-NoTriple : (s : Bytes) → NoTriple (spell_correction s)
unfolding spell_correction
spell_correction-NoTriple [] = tt
spell_correction-NoTriple (a ∷ []) = tt
spell_correction-NoTriple (a ∷ b ∷ cs) = spell_from-NoTriple a b cs

-- A wide letter or digit at the front becomes the letter or digit, but the wide space, whose bytes are
-- E3 80 80, stays as it is; the bytes EF BC 80, which are no wide space, become a space.
pub full_width_space :
    (cs : Bytes)
    → (full_width_to_half_width (0xE3 ∷ 0x80 ∷ 0x80 ∷ cs)
        ≡ 0xE3 ∷ full_width_to_half_width (0x80 ∷ 0x80 ∷ cs))
      × (full_width_to_half_width (0xEF ∷ 0xBC ∷ 0x80 ∷ cs) ≡ b' ' ∷ full_width_to_half_width cs)
      × ((n : ℕ)
          → n < 26
          → (full_width_to_half_width (0xEF ∷ 0xBC ∷ (0xA1 + n) ∷ cs)
              ≡ (b'A' + n) ∷ full_width_to_half_width cs)
            × (full_width_to_half_width (0xEF ∷ 0xBD ∷ (0x81 + n) ∷ cs)
                ≡ (b'a' + n) ∷ full_width_to_half_width cs))
unfolding full_width_to_half_width
full_width_space cs = (refl, refl, (λ n lt. (ground arith, ground arith)))
