-- ===== src/Base/Word.antt =====
-- The fixed-width integers of the source: `uint64_t` and `size_t` are numbers below 2^64, `int64_t`
-- is ℤ read in two's complement, with the wrap-around written out.
use Prim.Native.Nat.{ℕ, ◌+◌, ◌-◌, ◌%◌, ◌^◌, ◌<◌}
use mathlib.Core.Path.{◌≡◌}
use native.Mathlib.Omega.{arith}
use ayafileio.Base.Boolean.{ltb, if◌then◌else◌}
use ayafileio.Base.Int.{ℤ, pos, negsuc, ◌+ℤ◌, ◌-ℤ◌, ◌≤ℤ◌, ◌<ℤ◌, sub_ℕ}

abbrev pub u64_mod : ℕ
u64_mod = 2 ^ 64

abbrev pub i64_lim : ℕ
i64_lim = 2 ^ 63

abbrev pub u32_mod : ℕ
u32_mod = 2 ^ 32

-- uint64_t addition
unfoldable pub add_u64 : ℕ → ℕ → ℕ
add_u64 a b = (a + b) % 2 ^ 64

-- uint64_t subtraction, of operands below 2^64
unfoldable pub sub_u64 : ℕ → ℕ → ℕ
sub_u64 a b = (a + 2 ^ 64 - b) % 2 ^ 64

-- static_cast<int64_t> of a uint64_t
unfoldable pub to_i64 : ℕ → ℤ
to_i64 n = if ltb n (2 ^ 63) then pos n else negsuc (2 ^ 64 - 1 - n)

-- static_cast<uint64_t> of an int64_t
unfoldable pub to_u64 : ℤ → ℕ
to_u64 (pos n) = n % 2 ^ 64
to_u64 (negsuc n) = 2 ^ 64 - 1 - n % 2 ^ 64

-- An integer brought back into the range of int64_t.
unfoldable pub wrap_i64 : ℤ → ℤ
unfolding to_i64 to_u64
wrap_i64 a = to_i64 (to_u64 a)

-- int64_t addition and subtraction as the machine does them: two's complement.
unfoldable pub add_i64 : ℤ → ℤ → ℤ
unfolding wrap_i64 ◌+ℤ◌
add_i64 a b = wrap_i64 (a +ℤ b)

unfoldable pub sub_i64 : ℤ → ℤ → ℤ
unfolding wrap_i64 ◌-ℤ◌
sub_i64 a b = wrap_i64 (a -ℤ b)

-- The values that an int64_t holds.
abbrev pub IsI64 : ℤ → Type 0
IsI64 a = (negsuc (2 ^ 63 - 1) ≤ℤ a) × (a <ℤ pos (2 ^ 63))

-- In range nothing wraps.
pub wrap_i64_lem : (a : ℤ) → IsI64 a → wrap_i64 a ≡ a
unfolding wrap_i64
wrap_i64_lem (pos n) h = ground arith
wrap_i64_lem (negsuc n) h = ground arith

pub to_i64_lem : (n : ℕ) → n < 2 ^ 63 → to_i64 n ≡ pos n
unfolding to_i64
to_i64_lem n h = ground arith

pub to_u64_lem : (n : ℕ) → n < 2 ^ 64 → to_u64 (pos n) ≡ n
unfolding to_u64
to_u64_lem n h = ground arith

pub add_u64_lem : (a b : ℕ) → a + b < 2 ^ 64 → add_u64 a b ≡ a + b
unfolding add_u64
add_u64_lem a b h = omega arith

-- The distance of two file offsets does not wrap.
pub sub_i64-to_i64 : (a b : ℕ) → a < 2 ^ 63 → b < 2 ^ 63 → sub_i64 (to_i64 a) (to_i64 b) ≡ sub_ℕ a b
unfolding sub_i64
sub_i64-to_i64 a b ha hb = ground arith
