-- ===== src/Utils/Hashes.antt =====
-- src/utils/hash_utils.cpp, on a machine with little-endian words and signed characters. A shift to the
-- left multiplies and a shift to the right divides by a power of two; words wrap at 32 and 64 bits.
pub mod Murmur
pub mod Crc
pub mod Ranges
mod Tests
use Prim.Native.Nat.{bit_and, bit_or, bit_xor}
use mini_search_rec.Prelude.{
  ℕ, zero, suc, ◌+◌, ◌-◌, ◌*◌, ◌/◌, ◌%◌, ◌^◌, Bool, true, false, if◌then◌else◌, ltb, ◌==◌, List, [],
  ◌∷◌, ◌++◌, length, get_elem?, Option, none, some, pos, Bytes,
}
use mini_search_rec.Prelude.Decimal.{decimal}

abbrev pub wrap32 : ℕ → ℕ
wrap32 n = n % 2 ^ 32

abbrev pub wrap64 : ℕ → ℕ
wrap64 n = n % 2 ^ 64

-- `static_cast<uint32_t>(c)` and `static_cast<uint64_t>(c)` of a signed character
abbrev pub extend32 : ℕ → ℕ
extend32 c = if ltb c 128 then c else 2 ^ 32 + c - 256

abbrev pub extend64 : ℕ → ℕ
extend64 c = if ltb c 128 then c else 2 ^ 64 + c - 256

-- `(k << r) | (k >> (32 - r))`
unfoldable pub rotate32 : ℕ → ℕ → ℕ
rotate32 k r = bit_or (wrap32 (k * 2 ^ r)) (k / 2 ^ (32 - r))

-- The tail bytes of `switch (len & 3)`, the last first: `k1 ^= tail[i] << 8 * i`.
unfoldable pub tail_word : ℕ → Bytes → ℕ
tail_word shift [] = 0
tail_word shift (b ∷ bs) = bit_xor (tail_word (shift + 8) bs) (b * 2 ^ shift)

abbrev pub c1_32 : ℕ
c1_32 = 0xcc9e2d51

abbrev pub c2_32 : ℕ
c2_32 = 0x1b873593

unfoldable pub mix_k : ℕ → ℕ
mix_k k = wrap32 (rotate32 (wrap32 (k * c1_32)) 15 * c2_32)

-- One block of four bytes.
unfoldable pub mix_block : ℕ → ℕ → ℕ
mix_block h k = wrap32 (rotate32 (bit_xor h (mix_k k)) 13 * 5 + 0xe6546b64)

-- The loop over the blocks, and the tail.
unfoldable pub murmur_blocks : ℕ → Bytes → ℕ
murmur_blocks h [] = h
murmur_blocks h (a ∷ []) = bit_xor h (mix_k (tail_word 0 (a ∷ [])))
murmur_blocks h (a ∷ b ∷ []) = bit_xor h (mix_k (tail_word 0 (a ∷ b ∷ [])))
murmur_blocks h (a ∷ b ∷ c ∷ []) = bit_xor h (mix_k (tail_word 0 (a ∷ b ∷ c ∷ [])))
murmur_blocks h (a ∷ b ∷ c ∷ d ∷ rest) =
    murmur_blocks (mix_block h (a + b * 2 ^ 8 + c * 2 ^ 16 + d * 2 ^ 24)) rest

-- `h1 ^= h1 >> n`
abbrev pub fold_high : ℕ → ℕ → ℕ
fold_high n h = bit_xor h (h / 2 ^ n)

unfoldable pub finish32 : ℕ → ℕ
finish32 h =
    let h1 = wrap32 (fold_high 16 h * 0x85ebca6b) in
    let h2 = wrap32 (fold_high 13 h1 * 0xc2b2ae35) in fold_high 16 h2

-- `MurmurHash3`; a key is shorter than 2 GB.
unfoldable pub murmur_hash3 : Bytes → ℕ → ℕ
murmur_hash3 key seed = finish32 (bit_xor (murmur_blocks seed key) (length key))

unfoldable pub djb2_from : ℕ → Bytes → ℕ
djb2_from hash [] = hash
djb2_from hash (c ∷ cs) = djb2_from (wrap32 (wrap32 (wrap32 (hash * 2 ^ 5) + hash) + c)) cs

-- `DJB2Hash`
unfoldable pub djb2_hash : Bytes → ℕ
djb2_hash str = djb2_from 5381 str

unfoldable pub sdbm_from : ℕ → Bytes → ℕ
sdbm_from hash [] = hash
sdbm_from hash (c ∷ cs) =
    sdbm_from
      (wrap32 (extend32 c + wrap32 (hash * 2 ^ 6) + wrap32 (hash * 2 ^ 16) + (2 ^ 32 - hash))) cs

-- `SDBMHash`
unfoldable pub sdbm_hash : Bytes → ℕ
sdbm_hash str = sdbm_from 0 str

unfoldable pub fnv1a_from32 : ℕ → Bytes → ℕ
fnv1a_from32 hash [] = hash
fnv1a_from32 hash (c ∷ cs) = fnv1a_from32 (wrap32 (bit_xor hash (extend32 c) * 16777619)) cs

-- `FNV1aHash32`
unfoldable pub fnv1a_hash32 : Bytes → ℕ
fnv1a_hash32 str = fnv1a_from32 2166136261 str

unfoldable pub fnv1a_from64 : ℕ → Bytes → ℕ
fnv1a_from64 hash [] = hash
fnv1a_from64 hash (c ∷ cs) = fnv1a_from64 (wrap64 (bit_xor hash (extend64 c) * 1099511628211)) cs

-- `FNV1aHash64`
unfoldable pub fnv1a_hash64 : Bytes → ℕ
fnv1a_hash64 str = fnv1a_from64 14695981039346656037 str

abbrev pub polynomial : ℕ
polynomial = 0xEDB88320

-- The body of the inner loop of `InitCRC32Table`.
unfoldable pub crc_step : ℕ → ℕ
crc_step crc = if bit_and crc 1 == 1 then bit_xor (crc / 2) polynomial else crc / 2

-- The inner loop of `j` rounds.
unfoldable pub crc_steps : ℕ → ℕ → ℕ
crc_steps zero crc = crc
crc_steps (suc j) crc = crc_steps j (crc_step crc)

-- The entries of `crc32_table` from `i` on.
unfoldable pub table_from : ℕ → ℕ → List ℕ
table_from zero i = []
table_from (suc n) i = crc_steps 8 i ∷ table_from n (suc i)

unfoldable pub crc32_table : List ℕ
crc32_table = table_from 256 0

-- `crc32_table[i]`, for an index in range
unfoldable pub table_at : ℕ → ℕ
table_at i = elim (get_elem? crc32_table i) [ none ↦ 0 | some x ↦ x ]

unfoldable pub crc_from : ℕ → Bytes → ℕ
crc_from crc [] = crc
crc_from crc (c ∷ cs) =
    crc_from (bit_xor (crc / 2 ^ 8) (table_at (bit_and (bit_xor crc c) 0xFF))) cs

-- `CRC32Hash`
unfoldable pub crc32_hash : Bytes → ℕ
crc32_hash str = bit_xor (crc_from 0xFFFFFFFF str) 0xFFFFFFFF

unfoldable pub simple_from : ℕ → Bytes → ℕ
simple_from hash [] = hash
simple_from hash (c ∷ cs) = simple_from (wrap32 (wrap32 (hash * 31) + extend32 c)) cs

-- `SimpleHash`
unfoldable pub simple_hash : Bytes → ℕ
simple_hash str = simple_from 0 str

-- `HashToRange`
unfoldable pub hash_to_range : ℕ → ℕ → ℕ
hash_to_range hash range = wrap64 (hash * range) / 2 ^ 32

-- The loop of `ConsistentHash`, with `count` rounds left.
unfoldable pub highest_hash : Bytes → ℕ → ℕ → ℕ → ℕ
highest_hash key zero i final = final
highest_hash key (suc count) i final =
    let hash = murmur_hash3 (key ++ (b'#' ∷ decimal (pos i))) 0 in
    highest_hash key count (suc i) (if ltb final hash then hash else final)

-- `ConsistentHash`, for a count that is not negative
unfoldable pub consistent_hash : Bytes → ℕ → ℕ → ℕ
consistent_hash key virtual_node_count range =
    hash_to_range (highest_hash key virtual_node_count 0 0) range

unfoldable pub bloom_positions : ℕ → ℕ → ℕ → ℕ → ℕ → List ℕ
bloom_positions zero i h1 h2 m = []
bloom_positions (suc k) i h1 h2 m =
    (wrap64 (h1 + wrap64 (i * h2)) % m) ∷ bloom_positions k (suc i) h1 h2 m

-- `BloomHash`, for `k` that is not negative; a zero `m` would divide by zero.
unfoldable pub bloom_hash : Bytes → ℕ → ℕ → List ℕ
bloom_hash key k m =
    let h = murmur_hash3 key 0 in bloom_positions k 0 (fnv1a_hash64 key) (if h == 0 then 1 else h) m

-- A digit of `%x`.
abbrev hex_digit : ℕ → ℕ
hex_digit d = if ltb d 10 then b'0' + d else b'a' + (d - 10)

-- `%0wx` of a number of at most `w` digits
unfoldable pub hex : ℕ → ℕ → Bytes
hex zero n = []
hex (suc w) n = hex w (n / 16) ++ (hex_digit (n % 16) ∷ [])

-- `MD5Hash`
unfoldable pub md5_hash : Bytes → Bytes
md5_hash str =
    hex 8 (murmur_hash3 str 0x1234abcd)
    ++ hex 8 (murmur_hash3 str 0x5678ef01)
    ++ hex 8 (murmur_hash3 str 0x9abcdef0)
    ++ hex 8 (murmur_hash3 str 0x13579bdf)

-- `SHA1Hash`
unfoldable pub sha1_hash : Bytes → Bytes
sha1_hash str =
    let h2 = murmur_hash3 str 0xdeadbeef in
    let h3 = murmur_hash3 str 0xcafebabe in
    hex 16 (fnv1a_hash64 str) ++ hex 8 h2 ++ hex 8 h3 ++ hex 8 (bit_xor h2 h3)
