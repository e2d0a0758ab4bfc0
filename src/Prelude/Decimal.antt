-- ===== src/Prelude/Decimal.antt =====
-- Printing a number in base ten, as `operator<<` and `std::to_string` do.
use Prim.Native.Nat.{ℕ, zero, suc, ◌+◌, ◌/◌, ◌%◌}
use mathlib.Core.List.{◌∷◌, []}
use mini_search_rec.Prelude.Tests.{if◌then◌else◌, ltb}
use mini_search_rec.Prelude.Int.{ℤ, pos, negsuc}
use mini_search_rec.Prelude.Sets.{Bytes}

-- Most significant digit first; a number has at most as many digits as its value, plus 1.
abbrev pub digits_from : ℕ → ℕ → Bytes → Bytes
digits_from zero n acc = acc
digits_from (suc fuel) n acc =
    let rest = digits_from fuel (n / 10) ((b'0' + n % 10) ∷ acc) in
    if ltb n 10 then (b'0' + n) ∷ acc else rest

abbrev pub decimal : ℤ → Bytes
decimal (pos n) = digits_from (suc n) n []
decimal (negsuc n) = b'-' ∷ digits_from (suc (suc n)) (suc n) []
