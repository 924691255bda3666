-- ===== src/Infra/Crc32.antt =====
-- CRC32 of src/infra/crc32.hpp: a table of 256 words, and a checksum that is continued over several
-- pieces of data.
use Prim.Native.Nat.{bit_and, bit_xor}
use rtdb_common.Common.{
  ℕ, zero, suc, ◌/◌, ◌^◌, ◌<◌, [], ◌∷◌, ◌++◌, ◌==◌, if◌then◌else◌, ◌≡◌, refl, arith, All,
}
use rtdb_common.Types.{Bytes}
use rtdb_common.Infra.Bits.{bit_xor-lt, bit_and-lt, bit_xor_twice}

-- `(c & 1u) ? (0xEDB88320u ^ (c >> 1)) : (c >> 1)`
unfoldable pub shift_once : ℕ → ℕ
shift_once c = if bit_and c 1 == 1 then bit_xor 0xEDB8_8320 (c / 2) else c / 2

-- `for (int k = 0; k < 8; ++k)`
unfoldable pub shift_times : ℕ → ℕ → ℕ
shift_times zero c = c
shift_times (suc k) c = shift_times k (shift_once c)

-- Entry `i` of the table.
unfoldable pub table_entry : ℕ → ℕ
table_entry i = shift_times 8 i

-- One round of the loop over the data.
unfoldable pub absorb : ℕ → ℕ → ℕ
absorb c b = bit_xor (table_entry (bit_and (bit_xor c b) 0xFF)) (c / 2 ^ 8)

unfoldable pub absorb_all : ℕ → Bytes → ℕ
absorb_all c [] = c
absorb_all c (b ∷ data') = absorb_all (absorb c b) data'

unfoldable pub crc32_update : ℕ → Bytes → ℕ
crc32_update crc data' = bit_xor (absorb_all (bit_xor crc 0xFFFF_FFFF) data') 0xFFFF_FFFF

unfoldable pub crc32 : Bytes → ℕ
crc32 data' = crc32_update 0 data'

abbrev pub IsByte : ℕ → Type 0
IsByte b = b < 256

shift_once-lt : (c : ℕ) → c < 2 ^ 32 → shift_once c < 2 ^ 32
unfolding shift_once
shift_once-lt c h = ground (arith, bit_xor-lt 32 0xEDB8_8320 (c / 2) (omega arith) (omega arith))

shift_times-lt : (k c : ℕ) → c < 2 ^ 32 → shift_times k c < 2 ^ 32
unfolding shift_times
shift_times-lt zero c h = h
shift_times-lt (suc k) c h = shift_times-lt k (shift_once c) (shift_once-lt c h)

absorb-lt : (c b : ℕ) → c < 2 ^ 32 → IsByte b → absorb c b < 2 ^ 32
unfolding absorb table_entry
absorb-lt c b h hb =
    bit_xor-lt 32 _ (c / 2 ^ 8)
      (shift_times-lt 8 _
        (bit_and-lt 32 (bit_xor c b) 0xFF (bit_xor-lt 32 c b h (omega arith)) (omega arith)))
      (omega arith)

absorb_all-lt : (c : ℕ) (s : Bytes) → c < 2 ^ 32 → All IsByte s → absorb_all c s < 2 ^ 32
unfolding absorb_all
absorb_all-lt c [] h hs = h
absorb_all-lt c (b ∷ s) h (hb, hs) = absorb_all-lt (absorb c b) s (absorb-lt c b h hb) hs

absorb_all-append : (c : ℕ) (s t : Bytes) → absorb_all c (s ++ t) ≡ absorb_all (absorb_all c s) t
unfolding absorb_all
absorb_all-append c [] t = refl
absorb_all-append c (b ∷ s) t = absorb_all-append (absorb c b) s t

-- A checksum is a 32-bit word.
pub crc32_update-lt : (c : ℕ) (s : Bytes) → c < 2 ^ 32 → All IsByte s → crc32_update c s < 2 ^ 32
unfolding crc32_update
crc32_update-lt c s h hs =
    bit_xor-lt 32 _ 0xFFFF_FFFF (absorb_all-lt _ s (bit_xor-lt 32 c 0xFFFF_FFFF h (omega arith)) hs)
      (omega arith)

-- Continuing a checksum over a second piece is the checksum of both pieces joined.
pub crc32_update-append :
    (c : ℕ) (s t : Bytes)
    → c < 2 ^ 32
    → All IsByte s
    → crc32_update (crc32_update c s) t ≡ crc32_update c (s ++ t)
unfolding crc32_update
crc32_update-append c s t h hs = rw (
  bit_xor_twice 32 (absorb_all (bit_xor c 0xFFFF_FFFF) s) 0xFFFF_FFFF
      (absorb_all-lt _ s (bit_xor-lt 32 c 0xFFFF_FFFF h (omega arith)) hs) (omega arith),
  absorb_all-append,
)
