-- ===== src/Utils/Hashes/Tests.antt =====
-- The hashes of short strings.
use Prim.Native.Nat.{bit_xor}
use mini_search_rec.Prelude.{◌≡◌, refl, [], ◌∷◌, length, Bytes, arith}
use mini_search_rec.Utils.Hashes.{
  murmur_hash3, murmur_blocks, mix_block, mix_k, rotate32, finish32, djb2_hash, djb2_from,
  sdbm_hash, sdbm_from, fnv1a_hash32, fnv1a_from32, fnv1a_hash64, fnv1a_from64, crc32_hash,
  crc_from, crc_step, crc_steps, table_at, crc32_table, table_from, simple_hash, simple_from,
  md5_hash, hex,
}
use mini_search_rec.Utils.Hashes.Murmur.{murmur_hash3_x64_128, mix_tail, mix_pairs, finish64}
use mini_search_rec.Utils.Hashes.Crc.{bitwise_from, crc32_hash-bitwise_from}

-- "123456789", the string that checksums are compared on
abbrev check : Bytes
check = b'1' ∷ b'2' ∷ b'3' ∷ b'4' ∷ b'5' ∷ b'6' ∷ b'7' ∷ b'8' ∷ b'9' ∷ []

crc32_check : crc32_hash check ≡ 0xCBF43926
unfolding crc32_hash crc_from crc_step crc_steps table_at crc32_table table_from
crc32_check = refl

crc32_hash-bitwise_from_example :
    crc32_hash check ≡ bit_xor (bitwise_from 0xFFFFFFFF check) 0xFFFFFFFF
crc32_hash-bitwise_from_example = crc32_hash-bitwise_from check (
  omega arith,
  (
    omega arith,
    (
      omega arith,
      (omega arith, (omega arith, (omega arith, (omega arith, (omega arith, (omega arith, tt)))))),
    ),
  ),
)

fnv1a_a : (fnv1a_hash32 (b'a' ∷ []) ≡ 0xE40C292C) × (fnv1a_hash64 (b'a' ∷ []) ≡ 0xAF63DC4C8601EC8C)
unfolding fnv1a_hash32 fnv1a_from32 fnv1a_hash64 fnv1a_from64
fnv1a_a = (refl, refl)

djb2_a : djb2_hash (b'a' ∷ []) ≡ 177670
unfolding djb2_hash djb2_from
djb2_a = refl

simple_ab : simple_hash (b'a' ∷ b'b' ∷ []) ≡ 3105
unfolding simple_hash simple_from
simple_ab = refl

sdbm_ab : sdbm_hash (b'a' ∷ b'b' ∷ []) ≡ 6363201
unfolding sdbm_hash sdbm_from
sdbm_ab = refl

murmur_test : murmur_hash3 (b't' ∷ b'e' ∷ b's' ∷ b't' ∷ []) 0 ≡ 0xBA6BD213
unfolding murmur_hash3 murmur_blocks mix_block mix_k rotate32 finish32
murmur_test = refl

md5_length : length (md5_hash (b'a' ∷ [])) ≡ 32
unfolding md5_hash hex
md5_length = refl

murmur_128_empty : murmur_hash3_x64_128 [] 0 ≡ (0, 0)
unfolding murmur_hash3_x64_128 mix_tail mix_pairs finish64
murmur_128_empty = refl
