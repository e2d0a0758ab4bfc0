-- ===== src/Prelude/Bits.antt =====
-- Exclusive or of the binary digits of native numbers: its laws at variables.
use Prim.Native.Nat.{
  ℕ, zero, suc, ◌+◌, ◌*◌, ◌/◌, ◌%◌, ◌^◌, ◌≤◌, ◌<◌, digits, bitwise, differ, bit_xor,
  bit_xor-bitwise, bit_and, bit_and-bitwise, min,
}
use mathlib.Core.Path.{◌≡◌, refl, sym, ap, ◌∙◌}
use native.Mathlib.Omega.{arith}

-- Any operation digit by digit: a count of rounds that is large enough may be another one.
module _ (rest : ℕ → ℕ) (op : ℕ → ℕ → ℕ) where
  recount : (b a k l : ℕ) → a ≤ k → a ≤ l → digits rest op k a b ≡ digits rest op l a b
  recount b zero zero zero le le' = refl
  recount b zero zero (suc l) le le' = refl
  recount b zero (suc k) zero le le' = refl
  recount b zero (suc k) (suc l) le le' = refl
  recount b (suc a) zero l le le' = absurd (omega (arith, le))
  recount b (suc a) (suc k) zero le le' = absurd (omega (arith, le'))
  recount b (suc a) (suc k) (suc l) le le' =
      let same = recount (b / 2) (suc a / 2) k l (omega (arith, le)) (omega (arith, le')) in
      ap (λ high. high * 2 + op (suc a % 2) (b % 2)) same

  first_digit :
      (a b : ℕ)
      → bitwise rest op (suc a) b ≡ bitwise rest op (suc a / 2) (b / 2) * 2 + op (suc a % 2) (b % 2)
  first_digit a b =
      ap (λ high. high * 2 + op (suc a % 2) (b % 2))
        (recount (b / 2) (suc a / 2) a (suc a / 2) (omega arith) (omega arith))

pub zero-bit_xor : (b : ℕ) → bit_xor 0 b ≡ b
zero-bit_xor b = bit_xor-bitwise 0 b

differ_digits : (x y : ℕ) → x < 2 → y < 2 → differ x y ≡ (x + y) % 2
differ_digits zero y p q = omega (arith, q)
differ_digits (suc zero) zero p q = refl
differ_digits (suc zero) (suc zero) p q = refl
differ_digits (suc zero) (suc (suc y)) p q = absurd (omega (arith, q))
differ_digits (suc (suc x)) y p q = absurd (omega (arith, p))

differ_lem : (a b : ℕ) → differ (a % 2) (b % 2) ≡ (a % 2 + b % 2) % 2
differ_lem a b = differ_digits (a % 2) (b % 2) (omega arith) (omega arith)

sum_lowest : (a b : ℕ) → (a % 2 + b % 2) % 2 ≡ (a + b) % 2
sum_lowest a b = omega arith

xor_step : (a b : ℕ) → bit_xor a b ≡ bit_xor (a / 2) (b / 2) * 2 + (a + b) % 2
xor_step zero b = omega (arith, zero-bit_xor b, zero-bit_xor (b / 2))
xor_step (suc a) b = bit_xor-bitwise (suc a) b ∙ first_digit (λ x. x) differ a b ∙ (λ i.
    sym (bit_xor-bitwise (suc a / 2) (b / 2)) i * 2
    + (differ_lem (suc a) b ∙ sum_lowest (suc a) b) i)

-- Digit by digit: the half and the lowest digit.
pub half-bit_xor : (a b : ℕ) → bit_xor a b / 2 ≡ bit_xor (a / 2) (b / 2)
half-bit_xor a b = omega (arith, xor_step a b)

pub lowest-bit_xor : (a b : ℕ) → bit_xor a b % 2 ≡ (a + b) % 2
lowest-bit_xor a b = omega (arith, xor_step a b)

xor_zero_fuel : (n a : ℕ) → a ≤ n → bit_xor a 0 ≡ a
xor_zero_fuel n zero h = refl
xor_zero_fuel zero (suc a) h = absurd (omega (arith, h))
xor_zero_fuel (suc n) (suc a) h =
    omega (arith, xor_step (suc a) 0, xor_zero_fuel n (suc a / 2) (omega (arith, h)))

pub xor_zero : (a : ℕ) → bit_xor a 0 ≡ a
xor_zero a = xor_zero_fuel a a (omega arith)

xor_self_fuel : (n a : ℕ) → a ≤ n → bit_xor a a ≡ 0
xor_self_fuel n zero h = refl
xor_self_fuel zero (suc a) h = absurd (omega (arith, h))
xor_self_fuel (suc n) (suc a) h =
    omega (arith, xor_step (suc a) (suc a), xor_self_fuel n (suc a / 2) (omega (arith, h)))

pub xor_self : (a : ℕ) → bit_xor a a ≡ 0
xor_self a = xor_self_fuel a a (omega arith)

xor_comm_fuel : (n a b : ℕ) → a + b ≤ n → bit_xor a b ≡ bit_xor b a
xor_comm_fuel zero zero zero h = refl
xor_comm_fuel zero zero (suc b) h = absurd (omega (arith, h))
xor_comm_fuel zero (suc a) b h = absurd (omega (arith, h))
xor_comm_fuel (suc n) a b h =
    omega (arith, xor_step a b, xor_step b a, xor_comm_fuel n (a / 2) (b / 2) (omega (arith, h)))

pub xor_comm : (a b : ℕ) → bit_xor a b ≡ bit_xor b a
xor_comm a b = xor_comm_fuel (a + b) a b (omega arith)

xor_assoc_fuel : (n a b c : ℕ) → a + b + c ≤ n → bit_xor (bit_xor a b) c ≡ bit_xor a (bit_xor b c)
xor_assoc_fuel zero zero zero zero h = refl
xor_assoc_fuel zero zero zero (suc c) h = absurd (omega (arith, h))
xor_assoc_fuel zero zero (suc b) c h = absurd (omega (arith, h))
xor_assoc_fuel zero (suc a) b c h = absurd (omega (arith, h))
xor_assoc_fuel (suc n) a b c h =
    let ih = xor_assoc_fuel n (a / 2) (b / 2) (c / 2) (omega (arith, h)) in
    let left = ap (λ x. bit_xor x (c / 2)) (half-bit_xor a b) in
    let right = ap (bit_xor (a / 2)) (half-bit_xor b c) in
    omega (
      arith,
      xor_step (bit_xor a b) c,
      xor_step a (bit_xor b c),
      left,
      right,
      ih,
      lowest-bit_xor a b,
      lowest-bit_xor b c,
    )

pub xor_assoc : (a b c : ℕ) → bit_xor (bit_xor a b) c ≡ bit_xor a (bit_xor b c)
xor_assoc a b c = xor_assoc_fuel (a + b + c) a b c (omega arith)

pow_suc : (k : ℕ) → 2 ^ suc k ≡ 2 ^ k * 2
pow_suc k = omega arith

pow_product : (h k : ℕ) → h * 2 ^ suc k ≡ h * 2 ^ k * 2
pow_product h k = grind (arith, pow_suc k)

-- The result has no more digits than the two numbers.
pub xor_bound : (k a b : ℕ) → a < 2 ^ k → b < 2 ^ k → bit_xor a b < 2 ^ k
xor_bound zero zero zero p q = omega arith
xor_bound zero zero (suc b) p q = absurd (omega (arith, q))
xor_bound zero (suc a) b p q = absurd (omega (arith, p))
xor_bound (suc k) a b p q = omega (
  arith,
  pow_suc k,
  xor_step a b,
  xor_bound k (a / 2) (b / 2) (omega (arith, p, pow_suc k)) (omega (arith, q, pow_suc k)),
)

-- A number and one below its lowest digit do not meet.
pub xor_disjoint : (k h l : ℕ) → l < 2 ^ k → bit_xor (h * 2 ^ k) l ≡ h * 2 ^ k + l
xor_disjoint zero h zero p = omega (arith, xor_zero (h * 1))
xor_disjoint zero h (suc l) p = absurd (omega (arith, p))
xor_disjoint (suc k) h l p =
    let ih = xor_disjoint k h (l / 2) (omega (arith, p, pow_suc k)) in
    let half : h * 2 ^ suc k / 2 ≡ h * 2 ^ k = omega (arith, pow_product h k) in
    omega (arith, xor_step (h * 2 ^ suc k) l, ap (λ x. bit_xor x (l / 2)) half, ih, pow_product h k)

and_step : (a b : ℕ) → bit_and a b ≡ bit_and (a / 2) (b / 2) * 2 + min (a % 2) (b % 2)
and_step zero b =
    let none : (x : ℕ) → bit_and 0 x ≡ 0 = λ x. bit_and-bitwise 0 x in
    omega (arith, none b, none (b / 2))
and_step (suc a) b =
    bit_and-bitwise (suc a) b
    ∙ first_digit (λ x. zero) min a b
    ∙ ap (λ high. high * 2 + min (suc a % 2) (b % 2)) (sym (bit_and-bitwise (suc a / 2) (b / 2)))

meets_nothing : (most a : ℕ) → a ≤ most → bit_and a 0 ≡ 0
meets_nothing most zero le = refl
meets_nothing zero (suc a) le = absurd (omega (arith, le))
meets_nothing (suc most) (suc a) le =
    let high = meets_nothing most (suc a / 2) (omega (arith, le)) in
    omega (arith, high, and_step (suc a) 0)

-- A mask of ones keeps the lowest digits, one by one.
one_more :
    (a ones modulus : ℕ)
    → ones % 2 ≡ 1
    → bit_and (a / 2) (ones / 2) ≡ a / 2 % modulus
    → bit_and a ones ≡ a / 2 % modulus * 2 + a % 2
one_more a ones modulus odd high = omega (arith, odd, high, and_step a ones)

pub and_one : (a : ℕ) → bit_and a 1 ≡ a % 2
and_one a = omega (arith, and_step a 1, meets_nothing (a / 2) (a / 2) (omega arith))

and_3 : (a : ℕ) → bit_and a 3 ≡ a % 4
and_3 a = omega (arith, one_more a 3 2 refl (and_one (a / 2)))

and_7 : (a : ℕ) → bit_and a 7 ≡ a % 8
and_7 a = omega (arith, one_more a 7 4 refl (and_3 (a / 2)))

and_15 : (a : ℕ) → bit_and a 15 ≡ a % 16
and_15 a = omega (arith, one_more a 15 8 refl (and_7 (a / 2)))

and_31 : (a : ℕ) → bit_and a 31 ≡ a % 32
and_31 a = omega (arith, one_more a 31 16 refl (and_15 (a / 2)))

and_63 : (a : ℕ) → bit_and a 63 ≡ a % 64
and_63 a = omega (arith, one_more a 63 32 refl (and_31 (a / 2)))

and_127 : (a : ℕ) → bit_and a 127 ≡ a % 128
and_127 a = omega (arith, one_more a 127 64 refl (and_63 (a / 2)))

pub and_255 : (a : ℕ) → bit_and a 255 ≡ a % 256
and_255 a = omega (arith, one_more a 255 128 refl (and_127 (a / 2)))

-- A byte does not reach the higher digits.
pub xor_high : (a c : ℕ) → c < 256 → bit_xor a c / 256 ≡ a / 256
xor_high a c lt =
    let a4 = a / 2 / 2 / 2 / 2 in
    let c4 = c / 2 / 2 / 2 / 2 in
    let none : c4 / 2 / 2 / 2 / 2 ≡ 0 = omega (arith, lt) in
    omega (
      arith,
      half-bit_xor a c,
      half-bit_xor (a / 2) (c / 2),
      half-bit_xor (a / 2 / 2) (c / 2 / 2),
      half-bit_xor (a / 2 / 2 / 2) (c / 2 / 2 / 2),
      half-bit_xor a4 c4,
      half-bit_xor (a4 / 2) (c4 / 2),
      half-bit_xor (a4 / 2 / 2) (c4 / 2 / 2),
      half-bit_xor (a4 / 2 / 2 / 2) (c4 / 2 / 2 / 2),
      ap (bit_xor (a4 / 2 / 2 / 2 / 2)) none,
      xor_zero (a4 / 2 / 2 / 2 / 2),
    )

-- Two pairs, paired the other way round.
pub xor_exchange :
    (a b c d : ℕ) → bit_xor (bit_xor a b) (bit_xor c d) ≡ bit_xor (bit_xor a c) (bit_xor b d)
xor_exchange a b c d =
    xor_assoc a b (bit_xor c d)
    ∙ ap (bit_xor a)
        (sym (xor_assoc b c d) ∙ ap (λ x. bit_xor x d) (xor_comm b c) ∙ xor_assoc c b d)
    ∙ sym (xor_assoc a c (bit_xor b d))
