-- ===== src/Net/Reader.antt =====
-- `Reader` of src/net/codec.hpp. `rest` holds the bytes from `p_ + off_` to `p_ + n_`, so `n_ - off_`
-- is its length; `ok` is the sticky flag.
use rtdb_common.Common.{
  ℕ, ◌+◌, ◌*◌, ◌^◌, Bool, true, false, ◌&&◌, ℤ, to_signed, length, get_or, take, drop, leb, ◌==◌,
  if◌then◌else◌, Option, none, some,
}
use rtdb_common.Types.{Bytes}

pub record Reader : Type 0 where
  pub rest : Bytes
  pub ok : Bool

abbrev pub open_reader : Bytes → Reader
open_reader p = record { rest = p; ok = true }

unfoldable pub remaining : Reader → ℕ
remaining r = if r.ok then length r.rest else 0

unfoldable pub finish : Reader → Bool
finish r = r.ok && length r.rest == 0

abbrev pub poison : Reader → Reader
poison r = record r { ok = false }

-- `Need`, as the test alone; its callers poison the reader where it fails.
abbrev pub need : Reader → ℕ → Bool
need r n = r.ok && leb n (length r.rest)

abbrev pub advance : Reader → ℕ → Reader
advance r n = record r { rest = drop n r.rest }

-- `p_[off_ + i]`
abbrev pub at : Reader → ℕ → ℕ
at r i = get_or r.rest i 0

unfoldable pub u8 : Reader → ℕ × Reader
u8 r = if need r 1 then (at r 0, advance r 1) else (0, poison r)

-- The shifted bytes occupy different bits, so `|` adds them.
unfoldable pub u16 : Reader → ℕ × Reader
u16 r = if need r 2 then (at r 0 + at r 1 * 2 ^ 8, advance r 2) else (0, poison r)

unfoldable pub u32 : Reader → ℕ × Reader
u32 r =
    if need r 4
    then (at r 0 + at r 1 * 2 ^ 8 + at r 2 * 2 ^ 16 + at r 3 * 2 ^ 24, advance r 4)
    else (0, poison r)

unfoldable pub u64 : Reader → ℕ × Reader
u64 r =
    let lo = at r 0 + at r 1 * 2 ^ 8 + at r 2 * 2 ^ 16 + at r 3 * 2 ^ 24 in
    let hi = at r 4 + at r 5 * 2 ^ 8 + at r 6 * 2 ^ 16 + at r 7 * 2 ^ 24 in
    if need r 8 then (lo + hi * 2 ^ 32, advance r 8) else (0, poison r)

unfoldable pub i16 : Reader → ℤ × Reader
i16 r = let (v, r') = u16 r in (to_signed (2 ^ 15) v, r')

unfoldable pub i64 : Reader → ℤ × Reader
i64 r = let (v, r') = u64 r in (to_signed (2 ^ 63) v, r')

unfoldable pub f64 : Reader → ℕ × Reader
f64 r = u64 r

-- The bytes copied, or `none` for a return of false.
unfoldable pub raw : Reader → ℕ → Option Bytes × Reader
raw r n = if need r n then (some (take n r.rest), advance r n) else (none, poison r)

unfoldable pub skip : Reader → ℕ → Bool × Reader
skip r n = if need r n then (true, advance r n) else (false, poison r)

unfoldable pub str : Reader → Option Bytes × Reader
str r =
    let (n, r') = u16 r in
    if need r' n then (some (take n r'.rest), advance r' n) else (none, poison r')

unfoldable pub var : Reader → Option Bytes × Reader
var r =
    let (n, r') = u32 r in
    if need r' n then (some (take n r'.rest), advance r' n) else (none, poison r')
