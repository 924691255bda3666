-- ===== src/Net/RoundTrip.antt =====
-- What `Writer` appends, `Reader` reads back, and leaves whatever follows it.
use rtdb_common.Common.{
  ℕ, ◌%◌, ◌^◌, ◌<◌, ◌≡◌, ap, ◌∙◌, arith, [], ◌∷◌, ◌++◌, append_assoc, true, ℤ, InSigned,
  to_unsigned, length, some, take-length-append, drop-length-append, length-append, leb, le→leb,
  to_signed-to_unsigned_64, to_signed-to_unsigned_16, to_unsigned-lt_64, to_unsigned-lt_16,
}
use rtdb_common.Types.{Bytes}
use rtdb_common.Net.Writer
use rtdb_common.Net.Reader
use rtdb_common.Net.Reader.{Reader, open_reader}

pub u8-append : (buf rest : Bytes) (v : ℕ) → Writer.u8 buf v ++ rest ≡ buf ++ (v % 256 ∷ rest)
unfolding Writer.u8
u8-append buf rest v = append_assoc buf (v % 256 ∷ []) rest

-- Every operation appends to the buffer what it writes to an empty one.
pub u16-append : (buf : Bytes) (v : ℕ) → Writer.u16 buf v ≡ buf ++ Writer.u16 [] v
unfolding Writer.u16
u16-append buf v = simp append_assoc

pub u32-append : (buf : Bytes) (v : ℕ) → Writer.u32 buf v ≡ buf ++ Writer.u32 [] v
unfolding Writer.u32
u32-append buf v = simp append_assoc

pub u64-append : (buf : Bytes) (v : ℕ) → Writer.u64 buf v ≡ buf ++ Writer.u64 [] v
unfolding Writer.u64
u64-append buf v = simp append_assoc

pub i16-append : (buf : Bytes) (v : ℤ) → Writer.i16 buf v ≡ buf ++ Writer.i16 [] v
unfolding Writer.i16
i16-append buf v = u16-append buf (to_unsigned (2 ^ 16) v)

pub i64-append : (buf : Bytes) (v : ℤ) → Writer.i64 buf v ≡ buf ++ Writer.i64 [] v
unfolding Writer.i64
i64-append buf v = u64-append buf (to_unsigned (2 ^ 64) v)

pub f64-append : (buf : Bytes) (v : ℕ) → Writer.f64 buf v ≡ buf ++ Writer.f64 [] v
unfolding Writer.f64
f64-append buf v = u64-append buf v

pub str-append : (buf s : Bytes) → Writer.str buf s ≡ buf ++ Writer.str [] s
unfolding Writer.str Writer.raw
str-append buf s = rw u16-append (append_assoc buf _ s)

pub var-append : (buf s : Bytes) → Writer.var buf s ≡ buf ++ Writer.var [] s
unfolding Writer.var Writer.raw
var-append buf s = rw u32-append (append_assoc buf _ s)

pub u8-u8 :
    (v : ℕ) (rest : Bytes)
    → v < 2 ^ 8
    → Reader.u8 (open_reader (Writer.u8 [] v ++ rest)) ≡ (v, open_reader rest)
unfolding Writer.u8 Reader.u8
u8-u8 v rest h = ground arith

pub u16-u16 :
    (v : ℕ) (rest : Bytes)
    → v < 2 ^ 16
    → Reader.u16 (open_reader (Writer.u16 [] v ++ rest)) ≡ (v, open_reader rest)
unfolding Writer.u16 Reader.u16
u16-u16 v rest h = ground arith

pub u32-u32 :
    (v : ℕ) (rest : Bytes)
    → v < 2 ^ 32
    → Reader.u32 (open_reader (Writer.u32 [] v ++ rest)) ≡ (v, open_reader rest)
unfolding Writer.u32 Reader.u32
u32-u32 v rest h = ground arith

pub u64-u64 :
    (v : ℕ) (rest : Bytes)
    → v < 2 ^ 64
    → Reader.u64 (open_reader (Writer.u64 [] v ++ rest)) ≡ (v, open_reader rest)
unfolding Writer.u64 Reader.u64
u64-u64 v rest h = ground arith

pub i64-i64 :
    (v : ℤ) (rest : Bytes)
    → InSigned (2 ^ 63) v
    → Reader.i64 (open_reader (Writer.i64 [] v ++ rest)) ≡ (v, open_reader rest)
unfolding Writer.i64 Reader.i64
i64-i64 v rest h =
    rw (u64-u64 (to_unsigned (2 ^ 64) v) rest (to_unsigned-lt_64 v))
      (rw (to_signed-to_unsigned_64 v h))

pub i16-i16 :
    (v : ℤ) (rest : Bytes)
    → InSigned (2 ^ 15) v
    → Reader.i16 (open_reader (Writer.i16 [] v ++ rest)) ≡ (v, open_reader rest)
unfolding Writer.i16 Reader.i16
i16-i16 v rest h =
    rw (u16-u16 (to_unsigned (2 ^ 16) v) rest (to_unsigned-lt_16 v))
      (rw (to_signed-to_unsigned_16 v h))

pub f64-f64 :
    (v : ℕ) (rest : Bytes)
    → v < 2 ^ 64
    → Reader.f64 (open_reader (Writer.f64 [] v ++ rest)) ≡ (v, open_reader rest)
unfolding Writer.f64 Reader.f64
f64-f64 v rest h = u64-u64 v rest h

-- What a length prefix announces is there.
fits : (s rest : Bytes) → leb (length s) (length (s ++ rest)) ≡ true
fits s rest = le→leb _ _ (omega (arith, length-append s rest))

-- A text of fewer than 2^16 bytes is read back, and the reader stands behind it, not poisoned.
pub str-str :
    (s rest : Bytes)
    → length s < 2 ^ 16
    → Reader.str (open_reader (Writer.str [] s ++ rest)) ≡ (some s, open_reader rest)
unfolding Writer.str Writer.raw Reader.str
str-str s rest h = rw (append_assoc, header) (rw (fits, take-length-append, drop-length-append))
  where
    header :
        Reader.u16 (open_reader (Writer.u16 [] (length s % 2 ^ 16) ++ (s ++ rest)))
        ≡ (length s, open_reader (s ++ rest))
    header =
        u16-u16 (length s % 2 ^ 16) (s ++ rest) (omega arith)
        ∙ ap (λ n. (n, open_reader (s ++ rest))) (omega arith)

pub var-var :
    (s rest : Bytes)
    → length s < 2 ^ 32
    → Reader.var (open_reader (Writer.var [] s ++ rest)) ≡ (some s, open_reader rest)
unfolding Writer.var Writer.raw Reader.var
var-var s rest h = rw (append_assoc, header) (rw (fits, take-length-append, drop-length-append))
  where
    header :
        Reader.u32 (open_reader (Writer.u32 [] (length s % 2 ^ 32) ++ (s ++ rest)))
        ≡ (length s, open_reader (s ++ rest))
    header =
        u32-u32 (length s % 2 ^ 32) (s ++ rest) (omega arith)
        ∙ ap (λ n. (n, open_reader (s ++ rest))) (omega arith)
