-- ===== src/Query/Normalizer/Words.antt =====
-- The words of a normalized query.
use mini_search_rec.Prelude.{
  ℕ, ◌≡◌, ◌≢◌, refl, sym, ap, subst, ◌∙◌, Bool, true, false, not, ◌==◌, List, [], ◌∷◌, ◌++◌, keep,
  All, Bytes, Bool-cases, inl, inr,
}
use mathlib.Core.List.{append-nil, append_assoc}
use mini_search_rec.Index.Tokenizer.{flush}
use mini_search_rec.Query.Normalizer.{
  split, split_from, join_from, is_stop_word, remove_stop_words, normalize, prepare,
  traditional_to_simplified, full_width_to_half_width, normalize_alnum, collapse_spaces,
  collapse_from, remove_noise, spell_correction, trim, ltrim, rtrim,
}

-- A word without a delimiter.
abbrev pub Plain : ℕ → Bytes → Type 0
Plain d w = All (λ c. (c == d) ≡ false) w

-- A token: not empty, and without the delimiter.
abbrev pub IsToken : ℕ → Bytes → Type 0
IsToken d w = (w ≢ []) × Plain d w

split_from-Plain :
    (d : ℕ) (current w rest : Bytes)
    → Plain d w
    → split_from d current (w ++ rest) ≡ split_from d (current ++ w) rest
unfolding split_from
split_from-Plain d current [] rest h = ap (λ l. split_from d l rest) (sym (append-nil current))
split_from-Plain d current (c ∷ cs) rest h = rw h.0 (
    split_from-Plain d (current ++ (c ∷ [])) cs rest h.1
    ∙ ap (λ l. split_from d l rest) (append_assoc current (c ∷ []) cs))

-- What a join puts behind its first word.
tail : List Bytes → Bytes
tail [] = []
tail (w ∷ ws) = b' ' ∷ w ++ tail ws

join_from-tail :
    (c : ℕ) (cs : Bytes) (ws : List Bytes) → join_from (c ∷ cs) ws ≡ (c ∷ cs) ++ tail ws
unfolding join_from tail
join_from-tail c cs [] = sym (append-nil (c ∷ cs))
join_from-tail c cs (w ∷ ws) =
    join_from-tail c (cs ++ (b' ' ∷ w)) ws ∙ append_assoc (c ∷ cs) (b' ' ∷ w) (tail ws)

split_from-tail :
    (w : Bytes) (ws : List Bytes)
    → w ≢ []
    → All (IsToken b' ') ws
    → split_from b' ' w (tail ws) ≡ w ∷ ws
unfolding split_from tail
split_from-tail [] ws h k = absurd (h refl)
split_from-tail (c ∷ cs) [] h k = refl
split_from-tail (c ∷ cs) (w ∷ ws) h k =
    ap (λ l. (c ∷ cs) ∷ l)
      (split_from-Plain b' ' [] w (tail ws) k.0.1 ∙ split_from-tail w ws k.0.0 k.1)

split-join_from : (ws : List Bytes) → All (IsToken b' ') ws → split b' ' (join_from [] ws) ≡ ws
unfolding split_from join_from
split-join_from [] h = refl
split-join_from ([] ∷ ws) h = absurd (h.0.0 refl)
split-join_from ((c ∷ cs) ∷ ws) h =
    ap (split b' ') (join_from-tail c cs ws)
    ∙ (split_from-Plain b' ' [] (c ∷ cs) (tail ws) h.0.1 ∙ split_from-tail (c ∷ cs) ws h.0.0 h.1)

Plain-append : (d c : ℕ) (w : Bytes) → Plain d w → (c == d) ≡ false → Plain d (w ++ (c ∷ []))
Plain-append d c [] h k = (k, tt)
Plain-append d c (a ∷ w) h k = (h.0, Plain-append d c w h.1 k)

flush-IsToken :
    (d : ℕ) (w : Bytes) (ws : List Bytes)
    → Plain d w
    → All (IsToken d) ws
    → All (IsToken d) (flush w ws)
flush-IsToken d [] ws h k = k
flush-IsToken d (c ∷ cs) ws h k = (((λ e. cc), h), k)

split_from-IsToken :
    (d : ℕ) (current s : Bytes) → Plain d current → All (IsToken d) (split_from d current s)
unfolding split_from
split_from-IsToken d current [] h = flush-IsToken d current [] h tt
split_from-IsToken d current (c ∷ cs) h = elim (Bool-cases (c == d)) [
  | inl at ↦ rw at (flush-IsToken d current (split_from d [] cs) h (split_from-IsToken d [] cs tt))
  | inr other ↦
      rw other (split_from-IsToken d (current ++ (c ∷ [])) cs (Plain-append d c current h other))
]

All-keep : {A : Type 0} (P : A → Type 0) (p : A → Bool) (xs : List A) → All P xs → All P (keep p xs)
All-keep P p [] h = tt
All-keep P p (x ∷ xs) h = elim (Bool-cases (p x)) [
  | inl passed ↦ rw passed (h.0, All-keep P p xs h.1)
  | inr failed ↦ rw failed (All-keep P p xs h.1)
]

keep_passes : {A : Type 0} (p : A → Bool) (xs : List A) → All (λ x. p x ≡ true) (keep p xs)
keep_passes p [] = tt
keep_passes p (x ∷ xs) = elim (Bool-cases (p x)) [
  | inl passed ↦ rw passed (passed, keep_passes p xs)
  | inr failed ↦ rw failed (keep_passes p xs)
]

-- The words of a normalized query are those of the query as it is before the stop words are taken
-- out, in order, without the stop words; none of them is a stop word.
pub split-normalize :
    (q : Bytes)
    → (split b' ' (normalize q) ≡ keep (λ w. not (is_stop_word w)) (split b' ' (prepare q)))
      × All (λ w. not (is_stop_word w) ≡ true) (split b' ' (normalize q))
unfolding normalize remove_stop_words traditional_to_simplified prepare full_width_to_half_width
    normalize_alnum collapse_spaces collapse_from remove_noise spell_correction trim ltrim rtrim
    split_from
split-normalize [] = (refl, tt)
split-normalize (c ∷ cs) =
    let ws = split b' ' (prepare (c ∷ cs)) in
    let kept = keep (λ w. not (is_stop_word w)) ws in
    let same : split b' ' (join_from [] kept) ≡ kept = split-join_from kept (
      All-keep (IsToken b' ') (λ w. not (is_stop_word w)) ws
        (split_from-IsToken b' ' [] (prepare (c ∷ cs)) tt)) in
    (
      same,
      subst (All (λ w. not (is_stop_word w) ≡ true)) (sym same)
          (keep_passes (λ w. not (is_stop_word w)) ws),
    )
