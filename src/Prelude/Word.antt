-- ===== src/Prelude/Word.antt =====
-- Go's fixed-width integers. A counter is kept as the bit pattern of its int64, and `wrap_32` is
-- what a product or a sum of int32 values becomes.
use kratos_layout_monolith.Prelude.{ℕ, ◌+◌, ◌-◌, ◌%◌, ◌^◌, ◌<◌, ◌≡◌, arith, ltb, if◌then◌else◌}
use kratos_layout_monolith.Prelude.Int.{ℤ, pos, negsuc}

-- `x.Add(1)` on an atomic.Int64.
unfoldable pub add_one_64 : ℕ → ℕ
add_one_64 n = (n + 1) % 2 ^ 64

-- `a + b` on two int64 patterns.
unfoldable pub add_64 : ℕ → ℕ → ℕ
add_64 a b = (a + b) % 2 ^ 64

-- The signed value of a w-bit pattern, given 2 ^ (w - 1).
abbrev signed : ℕ → ℕ → ℤ
signed half n = if ltb n half then pos n else negsuc (half + half - 1 - n)

unfoldable pub to_int_64 : ℕ → ℤ
to_int_64 n = signed (2 ^ 63) (n % 2 ^ 64)

-- The int32 that the integer `a` wraps to.
unfoldable pub wrap_32 : ℤ → ℤ
wrap_32 (pos n) = signed (2 ^ 31) (n % 2 ^ 32)
wrap_32 (negsuc n) = signed (2 ^ 31) (2 ^ 32 - 1 - n % 2 ^ 32)

-- The int64 that the integer `a` wraps to.
unfoldable pub wrap_64 : ℤ → ℤ
wrap_64 (pos n) = signed (2 ^ 63) (n % 2 ^ 64)
wrap_64 (negsuc n) = signed (2 ^ 63) (2 ^ 64 - 1 - n % 2 ^ 64)

pub add_one_64_lem : (n : ℕ) → n < 2 ^ 63 → add_one_64 n ≡ n + 1
unfolding add_one_64
add_one_64_lem n h = omega arith

pub wrap_32_small : (n : ℕ) → n < 2 ^ 31 → wrap_32 (pos n) ≡ pos n
unfolding wrap_32
wrap_32_small n h = ground arith
