-- ===== src/Utils/Hashes/Ranges.antt =====
-- `ConsistentHash` and `BloomHash`: their results are in range.
use mini_search_rec.Prelude.{
  ℕ, zero, suc, ◌-◌, ◌*◌, ◌/◌, ◌^◌, ◌≤◌, ◌<◌, ◌≡◌, refl, ap, ◌∷◌, ◌++◌, length, Bytes, All, arith,
  pos, ltb, if◌then◌else◌, Bool-cases, inl, inr,
}
use native.Mathlib.Nat.{mod-lt}
use mini_search_rec.Prelude.Bits.{xor_bound}
use mini_search_rec.Prelude.Decimal.{decimal}
use mini_search_rec.Utils.Hashes.{
  wrap32, fold_high, finish32, murmur_hash3, hash_to_range, highest_hash, consistent_hash,
  bloom_positions, bloom_hash,
}

finish32-lt : (h : ℕ) → finish32 h < 2 ^ 32
unfolding finish32
finish32-lt h =
    let h2 = wrap32 (fold_high 13 (wrap32 (fold_high 16 h * 0x85ebca6b)) * 0xc2b2ae35) in
    xor_bound 32 h2 (h2 / 2 ^ 16) (omega arith) (omega arith)

murmur_hash3-lt : (key : Bytes) (seed : ℕ) → murmur_hash3 key seed < 2 ^ 32
unfolding murmur_hash3
murmur_hash3-lt key seed = finish32-lt _

highest_hash-lt :
    (key : Bytes) (count i final : ℕ) → final < 2 ^ 32 → highest_hash key count i final < 2 ^ 32
unfolding highest_hash
highest_hash-lt key zero i final lt = lt
highest_hash-lt key (suc count) i final lt =
    let hash = murmur_hash3 (key ++ (b'#' ∷ decimal (pos i))) 0 in
    elim (Bool-cases (ltb final hash)) [
      | inl e ↦ rw e (highest_hash-lt key count (suc i) hash (murmur_hash3-lt _ 0))
      | inr e ↦ rw e (highest_hash-lt key count (suc i) final lt)
    ]

highest_hash-suc :
    (key : Bytes) (count i final : ℕ)
    → highest_hash key count i final ≤ highest_hash key (suc count) i final
unfolding highest_hash
highest_hash-suc key zero i final = ground arith
highest_hash-suc key (suc count) i final =
    let hash = murmur_hash3 (key ++ (b'#' ∷ decimal (pos i))) 0 in
    highest_hash-suc key count (suc i) (if ltb final hash then hash else final)

mul_mono : (a b r : ℕ) → a ≤ b → a * r ≤ b * r
mul_mono a b r le = grind (arith, le)

hash_to_range-lt :
    (hash range : ℕ) → hash < 2 ^ 32 → 0 < range → range < 2 ^ 32 → hash_to_range hash range < range
unfolding hash_to_range
hash_to_range-lt hash range h p r =
    omega (arith, p, r, mul_mono hash (2 ^ 32 - 1) range (omega (arith, h)))

hash_to_range_mono :
    (a b range : ℕ)
    → a ≤ b
    → b < 2 ^ 32
    → range < 2 ^ 32
    → hash_to_range a range ≤ hash_to_range b range
unfolding hash_to_range
hash_to_range_mono a b range le h r =
    omega (arith, r, mul_mono a b range le, mul_mono b (2 ^ 32 - 1) range (omega (arith, h)))

-- For a positive `range` of 32 bits `ConsistentHash` names one of the `range` places, and a further
-- virtual node never makes the place lower.
pub consistent_hash-range :
    (key : Bytes) (count range : ℕ)
    → 0 < range
    → range < 2 ^ 32
    → (consistent_hash key count range < range)
      × (consistent_hash key count range ≤ consistent_hash key (suc count) range)
unfolding consistent_hash
consistent_hash-range key count range p r =
    let bound = λ (n : ℕ). highest_hash-lt key n 0 0 (omega arith) in
    (
      hash_to_range-lt _ range (bound count) p r,
      hash_to_range_mono _ _ range (highest_hash-suc key count 0 0) (bound (suc count)) r,
    )

bloom_positions-range :
    (k i h1 h2 m : ℕ)
    → 0 < m
    → (length (bloom_positions k i h1 h2 m) ≡ k) × All (λ p. p < m) (bloom_positions k i h1 h2 m)
unfolding bloom_positions
bloom_positions-range zero i h1 h2 m lt = (refl, tt)
bloom_positions-range (suc k) i h1 h2 m lt =
    let (a, b) = bloom_positions-range k (suc i) h1 h2 m lt in (ap suc a, (mod-lt _ lt, b))

-- `BloomHash` gives `k` positions, each below the size `m` of the filter, if that is positive.
pub bloom_hash-range :
    (key : Bytes) (k m : ℕ)
    → 0 < m
    → (length (bloom_hash key k m) ≡ k) × All (λ p. p < m) (bloom_hash key k m)
unfolding bloom_hash
bloom_hash-range key k m lt = bloom_positions-range k 0 _ _ m lt
