-- ===== src/Net/Writer.antt =====
-- `Writer` of src/net/codec.hpp. A buffer is the list of the bytes written so far; every operation
-- returns the longer buffer. Numbers are written with their lowest byte first.
use rtdb_common.Common.{ℕ, ◌/◌, ◌%◌, ◌^◌, [], ◌∷◌, ◌++◌, ℤ, to_unsigned, length}
use rtdb_common.Types.{Bytes}

unfoldable pub u8 : Bytes → ℕ → Bytes
u8 buf v = buf ++ (v % 256 ∷ [])

-- A cast to a narrower type is `%`, a shift to the right is `/`.
unfoldable pub u16 : Bytes → ℕ → Bytes
unfolding u8
u16 buf v = u8 (u8 buf (v % 256)) (v / 2 ^ 8 % 256)

unfoldable pub u32 : Bytes → ℕ → Bytes
unfolding u16
u32 buf v = u16 (u16 buf (v % 2 ^ 16)) (v / 2 ^ 16 % 2 ^ 16)

unfoldable pub u64 : Bytes → ℕ → Bytes
unfolding u32
u64 buf v = u32 (u32 buf (v % 2 ^ 32)) (v / 2 ^ 32 % 2 ^ 32)

unfoldable pub i16 : Bytes → ℤ → Bytes
i16 buf v = u16 buf (to_unsigned (2 ^ 16) v)

unfoldable pub i64 : Bytes → ℤ → Bytes
i64 buf v = u64 buf (to_unsigned (2 ^ 64) v)

-- A double is its bit pattern.
unfoldable pub f64 : Bytes → ℕ → Bytes
f64 buf bits = u64 buf bits

unfoldable pub raw : Bytes → Bytes → Bytes
raw buf s = buf ++ s

unfoldable pub str : Bytes → Bytes → Bytes
str buf s = raw (u16 buf (length s % 2 ^ 16)) s

unfoldable pub var : Bytes → Bytes → Bytes
var buf s = raw (u32 buf (length s % 2 ^ 32)) s
