-- ===== src/Utils/Hashes/Murmur.antt =====
-- `MurmurHash3_x64_128` of src/utils/hash_utils.cpp.
use Prim.Native.Nat.{bit_or, bit_xor}
use mini_search_rec.Prelude.{
  ℕ, zero, suc, ◌+◌, ◌-◌, ◌*◌, ◌/◌, ◌^◌, [], ◌∷◌, length, take, drop, Bytes, if◌then◌else◌, ltb,
}
use mini_search_rec.Utils.Hashes.{wrap64, tail_word, fold_high}

-- `(k << r) | (k >> (64 - r))`
unfoldable pub rotate64 : ℕ → ℕ → ℕ
rotate64 k r = bit_or (wrap64 (k * 2 ^ r)) (k / 2 ^ (64 - r))

abbrev c1 : ℕ
c1 = 0x87c37b91114253d5

abbrev c2 : ℕ
c2 = 0x4cf5ad432745937f

unfoldable pub mix_k1 : ℕ → ℕ
mix_k1 k = wrap64 (rotate64 (wrap64 (k * c1)) 31 * c2)

unfoldable pub mix_k2 : ℕ → ℕ
mix_k2 k = wrap64 (rotate64 (wrap64 (k * c2)) 33 * c1)

-- One block of two words.
unfoldable pub mix_pair : ℕ × ℕ → ℕ → ℕ → ℕ × ℕ
mix_pair (h1, h2) k1 k2 =
    let g1 = wrap64 (wrap64 (rotate64 (bit_xor h1 (mix_k1 k1)) 27 + h2) * 5 + 0x52dce729) in
    let g2 = wrap64 (wrap64 (rotate64 (bit_xor h2 (mix_k2 k2)) 31 + g1) * 5 + 0x38495ab5) in
    (g1, g2)

-- `blocks[i]`, little-endian
unfoldable pub word : Bytes → ℕ
word [] = 0
word (b ∷ bs) = b + word bs * 2 ^ 8

unfoldable pub mix_pairs : ℕ → Bytes → ℕ × ℕ → ℕ × ℕ
mix_pairs zero bytes h = h
mix_pairs (suc nblocks) bytes h =
    mix_pairs nblocks (drop 16 bytes)
      (mix_pair h (word (take 8 bytes)) (word (take 8 (drop 8 bytes))))

-- `switch (len & 15)`: the second word of the tail if it has more than 8 bytes, the first if it has any.
unfoldable pub mix_tail : Bytes → ℕ × ℕ → ℕ × ℕ
mix_tail tail (h1, h2) = (
  (if ltb 0 (length tail) then bit_xor h1 (mix_k1 (tail_word 0 (take 8 tail))) else h1),
  (if ltb 8 (length tail) then bit_xor h2 (mix_k2 (tail_word 0 (drop 8 tail))) else h2),
)

unfoldable pub finish64 : ℕ → ℕ → ℕ
finish64 multiplier h = fold_high 33 (wrap64 (fold_high 33 h * multiplier))

unfoldable pub murmur_hash3_x64_128 : Bytes → ℕ → ℕ × ℕ
murmur_hash3_x64_128 key seed =
    let nblocks = length key / 16 in
    let (h1, h2) = mix_tail (drop (nblocks * 16) key) (mix_pairs nblocks key (seed, seed)) in
    let x1 = bit_xor h1 (length key) in
    let x2 = bit_xor h2 (length key) in
    let s1 = wrap64 (x1 + x2) in
    let s2 = wrap64 (x2 + s1) in
    let f1 = finish64 0xff51afd7ed558ccd s1 in
    let f2 = finish64 0xc4ceb9fe1a85ec53 s2 in let r1 = wrap64 (f1 + f2) in (r1, wrap64 (f2 + r1))
