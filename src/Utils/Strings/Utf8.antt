-- ===== src/Utils/Strings/Utf8.antt =====
-- What `Utf8Truncate` keeps.
use mini_search_rec.Prelude.{
  ℕ, zero, suc, ◌≤◌, ◌≡◌, ◌⊎◌, inl, inr, refl, sym, ap, ◌∙◌, false, leb, [], ◌∷◌, length, take,
  length-take-le, get_elem?, none, some, Bytes, arith, Bool-cases, Option-cases, leb→le,
}
use mini_search_rec.Utils.Strings.{is_continuation, back_up, utf8_truncate}

back_up_le : (i : ℕ) (s : Bytes) → back_up i s ≤ i
unfolding back_up
back_up_le zero s = omega arith
back_up_le (suc i) s = elim (Option-cases (get_elem? s (suc i))) [
  | inl end ↦ ground arith
  | inr (c, at) ↦ ground (arith, back_up_le i s)
]

-- The byte at which the loop stops, if it does not stop at the front.
back_up_stop :
    (i : ℕ) (s : Bytes) (c : ℕ)
    → get_elem? s (back_up i s) ≡ some c
    → (back_up i s ≡ 0) ⊎ (is_continuation c ≡ false)
unfolding back_up
back_up_stop zero s c h = inl refl
back_up_stop (suc i) s c h = elim (Option-cases (get_elem? s (suc i))) [
  | inl end ↦ absurd (ground arith)
  | inr (d, at) ↦ elim (Bool-cases (is_continuation d)) [
    | inl inside ↦ ground (arith, back_up_stop i s c)
    | inr start ↦ inr (ground arith)
  ]
]

take-length : (s : Bytes) → take (length s) s ≡ s
take-length [] = refl
take-length (c ∷ cs) = ap (◌∷◌ c) (take-length cs)

get_elem?-length : (s : Bytes) → get_elem? s (length s) ≡ none
get_elem?-length [] = refl
get_elem?-length (c ∷ cs) = get_elem?-length cs

-- `Utf8Truncate` keeps a front of the text of at most `max_bytes` bytes, and all of a text that is no
-- longer than that. It does not cut within a character: unless nothing is kept, the first byte that
-- is left out does not go on a character.
pub utf8_truncate-take :
    (s : Bytes) (max_bytes : ℕ)
    → (i : ℕ) × (utf8_truncate s max_bytes ≡ take i s)
      × (length (utf8_truncate s max_bytes) ≤ max_bytes)
      × (length s ≤ max_bytes → utf8_truncate s max_bytes ≡ s)
      × ((c : ℕ) → get_elem? s i ≡ some c → (i ≡ 0) ⊎ (is_continuation c ≡ false))
unfolding utf8_truncate
utf8_truncate-take s max_bytes = elim (Bool-cases (leb (length s) max_bytes)) [
  | inl short ↦
      let whole : utf8_truncate s max_bytes ≡ s = rw (short, utf8_truncate) refl in
      (
        length s,
        whole ∙ sym (take-length s),
        ground (arith, whole, leb→le _ _ short),
        (λ le. whole),
        (λ c at. absurd (ground (arith, get_elem?-length s))),
      )
  | inr long ↦
      let n = back_up max_bytes s in
      let cut : utf8_truncate s max_bytes ≡ take n s = rw (long, utf8_truncate) refl in
      (
        n,
        cut,
        ground (arith, cut, length-take-le n s, back_up_le max_bytes s),
        (λ le. absurd (ground arith)),
        (λ c at. back_up_stop max_bytes s c at),
      )
]
