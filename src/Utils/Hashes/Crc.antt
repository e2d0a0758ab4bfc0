-- ===== src/Utils/Hashes/Crc.antt =====
-- `CRC32Hash`: the table and the definition bit by bit.
use Prim.Native.Nat.{bit_and, bit_xor}
use mini_search_rec.Prelude.{
  ℕ, zero, suc, ◌+◌, ◌*◌, ◌/◌, ◌%◌, ◌^◌, ◌<◌, ◌≡◌, refl, sym, ap, ◌∙◌, [], ◌∷◌, get_elem?, some,
  Bytes, All, arith, inl, inr, Bool-cases, ◌==◌,
}
use mini_search_rec.Prelude.Bits.{
  half-bit_xor, lowest-bit_xor, xor_zero, xor_exchange, xor_disjoint, xor_high, and_one, and_255,
}
use mini_search_rec.Utils.Hashes.{
  polynomial, crc_step, crc_steps, table_from, crc32_table, table_at, crc_from, crc32_hash,
}

-- What a digit that is shifted out adds.
abbrev feedback : ℕ → ℕ
feedback b = b * polynomial

crc_step_lem : (x : ℕ) → crc_step x ≡ bit_xor (x / 2) (feedback (x % 2))
unfolding crc_step
crc_step_lem x = elim (Bool-cases (bit_and x 1 == 1)) [
  | inl e ↦ rw e (ap (bit_xor (x / 2)) (ground (arith, e, and_one x)))
  | inr e ↦ rw e (sym (xor_zero (x / 2)) ∙ ap (bit_xor (x / 2)) (ground (arith, e, and_one x)))
]

feedback_digits :
    (x y : ℕ) → x < 2 → y < 2 → feedback ((x + y) % 2) ≡ bit_xor (feedback x) (feedback y)
feedback_digits zero zero p q = refl
feedback_digits zero (suc zero) p q = refl
feedback_digits (suc zero) zero p q = refl
feedback_digits (suc zero) (suc zero) p q = refl
feedback_digits (suc (suc x)) y p q = absurd (omega (arith, p))
feedback_digits zero (suc (suc y)) p q = absurd (omega (arith, q))
feedback_digits (suc zero) (suc (suc y)) p q = absurd (omega (arith, q))

feedback_sum : (a b : ℕ) → feedback ((a + b) % 2) ≡ bit_xor (feedback (a % 2)) (feedback (b % 2))
feedback_sum a b =
    ap feedback (omega arith) ∙ feedback_digits (a % 2) (b % 2) (omega arith) (omega arith)

crc_step_sum : (a b : ℕ) → crc_step (bit_xor a b) ≡ bit_xor (crc_step a) (crc_step b)
crc_step_sum a b =
    crc_step_lem (bit_xor a b)
    ∙ (λ i. bit_xor (half-bit_xor a b i) (feedback (lowest-bit_xor a b i)))
    ∙ ap (bit_xor (bit_xor (a / 2) (b / 2))) (feedback_sum a b)
    ∙ xor_exchange (a / 2) (b / 2) (feedback (a % 2)) (feedback (b % 2))
    ∙ (λ i. bit_xor (sym (crc_step_lem a) i) (sym (crc_step_lem b) i))

crc_steps_sum : (j a b : ℕ) → crc_steps j (bit_xor a b) ≡ bit_xor (crc_steps j a) (crc_steps j b)
unfolding crc_steps
crc_steps_sum zero a b = refl
crc_steps_sum (suc j) a b =
    ap (crc_steps j) (crc_step_sum a b) ∙ crc_steps_sum j (crc_step a) (crc_step b)

pow_product : (h k : ℕ) → h * 2 ^ suc k ≡ h * 2 ^ k * 2
pow_product h k = grind arith

-- Digits above the first `k` only move down in `k` rounds.
crc_steps_high : (k h : ℕ) → crc_steps k (h * 2 ^ k) ≡ h
unfolding crc_steps
crc_steps_high zero h = omega arith
crc_steps_high (suc k) h =
    let even : h * 2 ^ suc k % 2 ≡ 0 = omega (arith, pow_product h k) in
    let half : h * 2 ^ suc k / 2 ≡ h * 2 ^ k = omega (arith, pow_product h k) in
    ap (crc_steps k) (
      crc_step_lem (h * 2 ^ suc k)
      ∙ (λ i. bit_xor (half i) (feedback (even i)))
      ∙ xor_zero (h * 2 ^ k))
    ∙ crc_steps_high k h

table_from_lem : (n i j : ℕ) → j < n → get_elem? (table_from n i) j ≡ some (crc_steps 8 (i + j))
unfolding table_from
table_from_lem zero i j lt = absurd (omega (arith, lt))
table_from_lem (suc n) i zero lt = ap (λ x. some (crc_steps 8 x)) (omega arith)
table_from_lem (suc n) i (suc j) lt =
    table_from_lem n (suc i) j (omega (arith, lt)) ∙ ap (λ x. some (crc_steps 8 x)) (omega arith)

table_at_lem : (i : ℕ) → i < 256 → table_at i ≡ crc_steps 8 i
unfolding table_at crc32_table
table_at_lem i lt = ground (arith, table_from_lem 256 0 i lt)

-- One byte: eight rounds over the sum of the register and the byte.
byte_step :
    (crc c : ℕ)
    → c < 256
    → bit_xor (crc / 2 ^ 8) (table_at (bit_and (bit_xor crc c) 0xFF)) ≡ crc_steps 8 (bit_xor crc c)
byte_step crc c lt =
    let y = bit_xor crc c in
    let low : y % 256 < 256 = omega arith in
    let parts : y ≡ bit_xor (y / 256 * 2 ^ 8) (y % 256) =
      omega (arith, xor_disjoint 8 (y / 256) (y % 256) low) in
    (λ i. bit_xor (sym (xor_high crc c lt) i) (table_at (and_255 y i)))
    ∙ (λ i. bit_xor (sym (crc_steps_high 8 (y / 256)) i) (table_at_lem (y % 256) low i))
    ∙ sym (crc_steps_sum 8 (y / 256 * 2 ^ 8) (y % 256))
    ∙ ap (crc_steps 8) (sym parts)

-- The checksum without a table: each byte is added to the register, which then shifts out eight digits.
unfoldable pub bitwise_from : ℕ → Bytes → ℕ
bitwise_from crc [] = crc
bitwise_from crc (c ∷ cs) = bitwise_from (crc_steps 8 (bit_xor crc c)) cs

crc_from-bitwise_from :
    (s : Bytes) (crc : ℕ) → All (λ c. c < 256) s → crc_from crc s ≡ bitwise_from crc s
unfolding crc_from bitwise_from
crc_from-bitwise_from [] crc h = refl
crc_from-bitwise_from (c ∷ cs) crc h =
    ap (λ x. crc_from x cs) (byte_step crc c h.0)
    ∙ crc_from-bitwise_from cs (crc_steps 8 (bit_xor crc c)) h.1

-- On every string of bytes `CRC32Hash`, which looks up a table of 256 words, is the checksum that shifts
-- the register bit by bit with the polynomial 0xEDB88320.
pub crc32_hash-bitwise_from :
    (s : Bytes)
    → All (λ c. c < 256) s
    → crc32_hash s ≡ bit_xor (bitwise_from 0xFFFFFFFF s) 0xFFFFFFFF
unfolding crc32_hash
crc32_hash-bitwise_from s h = ap (λ x. bit_xor x 0xFFFFFFFF) (crc_from-bitwise_from s 0xFFFFFFFF h)
