-- ===== src/Index/Persistence/Numbers.antt =====
-- Numbers: what is printed is read back.
use mini_search_rec.Prelude.{
  ℕ, zero, suc, ◌+◌, ◌-◌, ◌*◌, ◌/◌, ◌%◌, ◌<◌, ◌≡◌, ◌≢◌, refl, sym, ap, ◌∙◌, Bool-cases, inl, inr,
  [], ◌∷◌, ◌++◌, Bytes, arith, if◌then◌else◌, ltb, ◌==◌, pos,
}
use mathlib.Core.List.{append-nil}
use mini_search_rec.Prelude.Decimal.{decimal, digits_from}
use mini_search_rec.Index.Tokenizer.{is_space}
use mini_search_rec.Index.Persistence.{show_weight}
use mini_search_rec.Index.Persistence.Reading.{read_from, read_number, read_weight, half_at}
use mini_search_rec.Index.Persistence.Pieces.{Free, Word, Free-append, nil-append}

digit_read :
    (n d : ℕ) (rest : Bytes)
    → d < 10
    → read_from n ((b'0' + d) ∷ rest) ≡ read_from (n * 10 + d) rest
unfolding read_from
digit_read n d rest lt = ground (arith, lt)

weight_read :
    (n d : ℕ) (rest : Bytes)
    → d < 10
    → read_weight n ((b'0' + d) ∷ rest) ≡ read_weight (n * 10 + d) rest
unfolding read_weight
weight_read n d rest lt = ground (arith, lt)

-- A reader that takes a digit as `>>` does takes the number that `digits_from` prints.
through_digits :
    (read : ℕ → Bytes → ℕ)
    → ((n d : ℕ) (rest : Bytes) → d < 10 → read n ((b'0' + d) ∷ rest) ≡ read (n * 10 + d) rest)
    → (fuel n : ℕ) (acc rest : Bytes) → n < fuel
    → read 0 (digits_from fuel n acc ++ rest) ≡ read n (acc ++ rest)
through_digits read step zero n acc rest lt = absurd (omega (arith, lt))
through_digits read step (suc fuel) n acc rest lt = elim (Bool-cases (ltb n 10)) [
  | inl e ↦
      rw e
        (step 0 n (acc ++ rest) (ground (arith, e)) ∙ ap (λ m. read m (acc ++ rest)) (omega arith))
  | inr e ↦ rw e (
      through_digits read step fuel (n / 10) ((b'0' + n % 10) ∷ acc) rest (ground (arith, e, lt))
      ∙ step (n / 10) (n % 10) (acc ++ rest) (omega arith)
      ∙ ap (λ m. read m (acc ++ rest)) (omega arith))
]

Free-digits_from :
    (fuel n : ℕ) (acc : Bytes) → Free is_space acc → Free is_space (digits_from fuel n acc)
unfolding is_space
Free-digits_from zero n acc f = f
Free-digits_from (suc fuel) n acc f = elim (Bool-cases (ltb n 10)) [
  | inl e ↦ rw e (ground (arith, e), f)
  | inr e ↦ rw e (Free-digits_from fuel (n / 10) ((b'0' + n % 10) ∷ acc) (ground arith, f))
]

digits_from-nil : (fuel n : ℕ) (c : ℕ) (acc : Bytes) → digits_from fuel n (c ∷ acc) ≢ []
digits_from-nil zero n c acc = (cc)
digits_from-nil (suc fuel) n c acc = elim (Bool-cases (ltb n 10)) [
  | inl e ↦ rw e (cc)
  | inr e ↦ rw e (digits_from-nil fuel (n / 10) (b'0' + n % 10) (c ∷ acc))
]

decimal-nil : (n : ℕ) → decimal (pos n) ≢ []
decimal-nil n = elim (Bool-cases (ltb n 10)) [
  | inl e ↦ rw e (cc)
  | inr e ↦ rw e (digits_from-nil n (n / 10) (b'0' + n % 10) [])
]

pub decimal-Word : (n : ℕ) → Word is_space (decimal (pos n))
decimal-Word n = (decimal-nil n, Free-digits_from (suc n) n [] tt)

read_from-decimal : (n : ℕ) → read_from 0 (decimal (pos n)) ≡ n
unfolding read_from
read_from-decimal n =
    ap (read_from 0) (sym (append-nil (decimal (pos n))))
    ∙ through_digits read_from digit_read (suc n) n [] [] (omega arith)

pub read_number-decimal : (limit n : ℕ) → n < limit → read_number limit (decimal (pos n)) ≡ n
unfolding read_number
read_number-decimal limit n lt =
    ap (λ m. if ltb m limit then m else limit - 1) (read_from-decimal n) ∙ ground (arith, lt)

read_weight-decimal :
    (n : ℕ) (rest : Bytes) → read_weight 0 (decimal (pos n) ++ rest) ≡ read_weight n rest
read_weight-decimal n rest = through_digits read_weight weight_read (suc n) n [] rest (omega arith)

pub read_weight-show_weight : (w : ℕ) → read_weight 0 (show_weight w) ≡ w
unfolding read_weight half_at
read_weight-show_weight w = elim (Bool-cases (w % 2 == 1)) [
  | inl e ↦ rw e (read_weight-decimal (w / 2) (b'.' ∷ b'5' ∷ []) ∙ ground (arith, e))
  | inr e ↦ rw e (read_weight-decimal (w / 2) [] ∙ ground (arith, e))
]

pub show_weight-Word : (w : ℕ) → Word is_space (show_weight w)
unfolding is_space
show_weight-Word w =
    let (n, f) = decimal-Word (w / 2) in
    let tail : Bytes = if w % 2 == 1 then b'.' ∷ b'5' ∷ [] else [] in
    let free : Free is_space tail = elim (Bool-cases (w % 2 == 1)) [
      | inl e ↦ rw e (refl, (refl, tt))
      | inr e ↦ rw e tt
    ] in
    (
      nil-append (decimal (pos (w / 2))) tail n,
      Free-append is_space (decimal (pos (w / 2))) tail f free,
    )
