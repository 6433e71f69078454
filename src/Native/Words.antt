-- ===== src/Native/Words.antt =====
-- Words of the C library: w-bit patterns, which Go reads as unsigned or as two's complement.
use objectbox_go.Base.{ℕ, ◌-◌, ◌%◌, ◌^◌, ◌<◌, ◌≡◌, ltb, if◌then◌else◌, arith}
use objectbox_go.Base.Int.{ℤ, pos, negsuc, ◌<ℤ◌}

-- int64(x), int32(x), int16(x), int8(x) of a pattern.
unfoldable pub to_int64 : ℕ → ℤ
to_int64 n = if ltb n (2 ^ 63) then pos n else negsuc (2 ^ 64 - n - 1)

unfoldable pub to_int32 : ℕ → ℤ
to_int32 n = if ltb n (2 ^ 31) then pos n else negsuc (2 ^ 32 - n - 1)

unfoldable pub to_int16 : ℕ → ℤ
to_int16 n = if ltb n (2 ^ 15) then pos n else negsuc (2 ^ 16 - n - 1)

unfoldable pub to_int8 : ℕ → ℤ
to_int8 n = if ltb n (2 ^ 7) then pos n else negsuc (2 ^ 8 - n - 1)

-- The pattern of an int64, as a conversion to uint64 takes it.
unfoldable pub to_uint64 : ℤ → ℕ
to_uint64 (pos n) = n % 2 ^ 64
to_uint64 (negsuc n) = (2 ^ 64 - 1 - n % 2 ^ 64) % 2 ^ 64

-- A uint64 survives the way through an int64.
pub to_uint64-to_int64 : (n : ℕ) → n < 2 ^ 64 → to_uint64 (to_int64 n) ≡ n
unfolding to_uint64 to_int64
to_uint64-to_int64 n h = ground arith

-- The order of two patterns is kept exactly as long as both have the top bit alike.
pub to_int64-lt : (m n : ℕ) → m < n → n < 2 ^ 63 → to_int64 m <ℤ to_int64 n
unfolding to_int64
to_int64-lt m n h k = ground arith
