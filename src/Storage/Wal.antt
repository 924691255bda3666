-- ===== src/Storage/Wal.antt =====
-- The ring of the write-ahead log (src/storage/wal_ring.hpp, wal_ring.cpp): its header and the
-- operations that write to it. The record area is a function from an offset to the byte there.
pub mod Scan
pub mod Room
pub mod Reclaim
pub mod Replay
use rtdb_common.Common.{
  ℕ, zero, suc, ◌+◌, ◌-◌, ◌*◌, ◌/◌, ◌%◌, ◌^◌, List, [], ◌∷◌, ◌++◌, Bool, true, false, not, ◌&&◌,
  ◌||◌, ℤ, pos, length, replicate, get_or, leb, ltb, ◌==◌, if◌then◌else◌, to_unsigned,
}
use rtdb_common.Types.{
  Bytes, Err, k_poisoned, k_corruption, k_limit_exceeded, Result, ok, err, ◌>>=◌, ◌>>◌, guard,
}
use rtdb_common.Infra.Crc32.{crc32, crc32_update}

abbrev pub Area : Type 0
Area = ℕ → ℕ

abbrev pub wal_ring_magic : ℕ
wal_ring_magic = 0x5254_4442_5741_4C31

abbrev pub wal_rec_hdr_bytes : ℕ
wal_rec_hdr_bytes = 56

abbrev pub wal_rec_crc_bytes : ℕ
wal_rec_crc_bytes = 4

abbrev pub wal_min_record_bytes : ℕ
wal_min_record_bytes = 60

-- `enum WalOp : uint8_t`; a record may hold any byte.
abbrev pub wal_op_insert : ℕ
wal_op_insert = 1

abbrev pub wal_op_update : ℕ
wal_op_update = 2

abbrev pub wal_op_delete : ℕ
wal_op_delete = 3

abbrev pub wal_op_batch_begin : ℕ
wal_op_batch_begin = 4

abbrev pub wal_op_batch_commit : ℕ
wal_op_batch_commit = 5

abbrev pub wal_op_create_table : ℕ
wal_op_create_table = 6

abbrev pub wal_op_drop_table : ℕ
wal_op_drop_table = 7

abbrev pub wal_op_pad : ℕ
wal_op_pad = 0xFF

-- `EncodeU32LE`, `EncodeU64LE`: the bytes that are written.
unfoldable pub encode_u32le : ℕ → Bytes
encode_u32le v = (v % 256) ∷ (v / 2 ^ 8 % 256) ∷ (v / 2 ^ 16 % 256) ∷ (v / 2 ^ 24 % 256) ∷ []

unfoldable pub encode_bytes_le : ℕ → ℕ → Bytes
encode_bytes_le zero v = []
encode_bytes_le (suc k) v = (v % 256) ∷ encode_bytes_le k (v / 256)

unfoldable pub encode_u64le : ℕ → Bytes
unfolding encode_bytes_le
encode_u64le v = encode_bytes_le 8 v

-- `DecodeU32LE`, `DecodeU64LE` at an offset of the area.
unfoldable pub decode_u32le : Area → ℕ → ℕ
decode_u32le a p = a p + a (p + 1) * 2 ^ 8 + a (p + 2) * 2 ^ 16 + a (p + 3) * 2 ^ 24

-- `for (i = 7; i >= 0; --i) v = (v << 8) | src[i]`, from the last byte down.
unfoldable pub decode_bytes_le : ℕ → Area → ℕ → ℕ
decode_bytes_le zero a p = 0
decode_bytes_le (suc k) a p = a p + decode_bytes_le k a (p + 1) * 256

unfoldable pub decode_u64le : Area → ℕ → ℕ
unfolding decode_bytes_le
decode_u64le a p = decode_bytes_le 8 a p

-- `memcpy(area + p, bytes, n)` and the bytes `area[p .. p + n)`.
unfoldable pub write_at : Area → ℕ → Bytes → Area
write_at a p bytes i = if leb p i && ltb i (p + length bytes) then get_or bytes (i - p) 0 else a i

unfoldable pub slice : Area → ℕ → ℕ → Bytes
slice a p zero = []
slice a p (suc n) = a p ∷ slice a (p + 1) n

-- `shm_WalRingHeader` with the area behind it.
pub record WalRing : Type 0 where
  pub magic : ℕ
  pub area_bytes : ℕ
  pub head_seq : ℕ
  pub tail_seq : ℕ
  pub head_pos : ℕ
  pub tail_pos : ℕ
  pub poisoned : Bool
  pub area : Area

unfoldable pub record_bytes : ℕ → ℕ
record_bytes payload_len = wal_rec_hdr_bytes + payload_len + wal_rec_crc_bytes

unfoldable pub pending_bytes : WalRing → ℕ
pending_bytes r =
    if r.head_seq == r.tail_seq
    then 0
    else if ltb r.tail_pos r.head_pos
    then r.head_pos - r.tail_pos
    else r.area_bytes - r.tail_pos + r.head_pos

unfoldable pub has_room_for : WalRing → ℕ → Bool
unfolding pending_bytes
has_room_for r rec_bytes =
    if ltb r.area_bytes rec_bytes
    then false
    else if pending_bytes r == 0
    then true
    else if ltb (r.area_bytes - pending_bytes r) rec_bytes
    then false
    else if ltb (r.area_bytes - r.head_pos) rec_bytes && ltb r.tail_pos rec_bytes
    then false
    else true

-- A record's fixed header, as it is laid out in `hdr_buf`.
unfoldable pub record_header : ℕ → ℕ → ℕ → ℕ → ℕ → ℕ → ℕ → ℕ → Bytes
record_header total_len payload_len seq ts_ns row_no row_ver table_id op =
    encode_u32le total_len
    ++ (encode_u32le payload_len
        ++ (encode_u64le seq
            ++ (encode_u64le ts_ns
                ++ (encode_u64le row_no
                    ++ (encode_u64le row_ver ++ (encode_u64le table_id ++ (op ∷ replicate 7 0)))))))

-- The pad record fills the area to its end; less than a smallest record is left as it is.
unfoldable pub write_tail_pad_and_wrap : WalRing → WalRing
write_tail_pad_and_wrap r =
    let remaining = r.area_bytes - r.head_pos in
    let hdr = record_header remaining (remaining - wal_min_record_bytes) 0 0 0 0 0 wal_op_pad in
    let a1 = write_at r.area r.head_pos hdr in
    let a2 =
      write_at a1 (r.head_pos + wal_rec_hdr_bytes)
        (replicate (remaining - wal_min_record_bytes) 0) in
    let crc = crc32 (slice a2 r.head_pos (remaining - wal_rec_crc_bytes)) in
    let a3 = write_at a2 (r.head_pos + remaining - wal_rec_crc_bytes) (encode_u32le crc) in
    if leb wal_min_record_bytes remaining
    then record r { head_pos = 0; area = a3 }
    else record r { head_pos = 0 }

-- What `Append` does once it has room at `head_pos`. The point of failure injection between the
-- header and the payload is not modelled.
unfoldable pub append_here : ℕ → WalRing → ℕ → ℤ → ℕ → ℕ → Bytes → ℕ × WalRing
append_here now r op table_id row_no row_ver payload =
    let consumed = record_bytes (length payload) in
    let hdr =
      record_header consumed (length payload) r.head_seq now row_no row_ver
        (to_unsigned (2 ^ 64) table_id) op in
    let a1 = write_at r.area r.head_pos hdr in
    let a2 = write_at a1 (r.head_pos + wal_rec_hdr_bytes) payload in
    let crc =
      crc32_update (crc32_update 0 (slice a2 r.head_pos wal_rec_hdr_bytes))
        (slice a2 (r.head_pos + wal_rec_hdr_bytes) (length payload)) in
    let a3 = write_at a2 (r.head_pos + wal_rec_hdr_bytes + length payload) (encode_u32le crc) in
    let next = r.head_pos + consumed in
    (
      r.head_seq,
      record r {
        head_seq = r.head_seq + 1;
        head_pos = if leb r.area_bytes next then 0 else next;
        area = a3;
      },
    )

-- `Append`; `now` is the clock. The record's bytes stand where `head_pos` was, or at the start.
unfoldable pub append : ℕ → WalRing → ℕ → ℤ → ℕ → ℕ → Bytes → Result (ℕ × WalRing)
append now r op table_id row_no row_ver payload =
    let consumed = record_bytes (length payload) in
    let r1 = (if ltb (r.area_bytes - r.head_pos) consumed then write_tail_pad_and_wrap r else r) in
    if not (r.magic == wal_ring_magic)
    then err k_corruption
    else if r.poisoned
    then err k_poisoned
    else if not (has_room_for r consumed)
    then err k_limit_exceeded
    else ok (append_here now r1 op table_id row_no row_ver payload)

unfoldable pub append_mark : ℕ → WalRing → ℕ → Bytes → Result (ℕ × WalRing)
append_mark now r op payload = append now r op (pos 0) 0 0 payload

unfoldable pub drop_all_retained : WalRing → WalRing
drop_all_retained r = record r { tail_pos = r.head_pos; tail_seq = r.head_seq }

-- One round of the loop of `ReclaimForRecord`, which drops the oldest thing in the ring.
unfoldable pub reclaim_step : WalRing → ℕ → Result WalRing
reclaim_step r safe_through_seq =
    let remaining = r.area_bytes - r.tail_pos in
    let total_len = decode_u32le r.area r.tail_pos in
    let op = r.area (r.tail_pos + 48) in
    let seq = decode_u64le r.area (r.tail_pos + 8) in
    let next = r.tail_pos + total_len in
    let tail_pos' = (if leb r.area_bytes next then 0 else next) in
    if r.head_seq == r.tail_seq
    then err k_limit_exceeded
    else if ltb remaining wal_min_record_bytes
    then ok (record r { tail_pos = 0 })
    else if ltb total_len wal_min_record_bytes || ltb remaining total_len
    then err k_corruption
    else if op == wal_op_pad
    then ok (record r { tail_pos = tail_pos' })
    else if not (seq == r.tail_seq)
    then err k_corruption
    else if ltb safe_through_seq r.tail_seq
    then err k_limit_exceeded
    else ok (record r { tail_seq = r.tail_seq + 1; tail_pos = tail_pos' })

-- The rounds that are left; `none` of them left is an outcome of the model alone.
pub data Reclaimed : Type 0 where
  done : WalRing → Reclaimed
  failed : Err → WalRing → Reclaimed
  out_of_fuel : Reclaimed

unfoldable pub reclaim_loop : ℕ → WalRing → ℕ → ℕ → Reclaimed
reclaim_loop zero r rec_bytes safe = if has_room_for r rec_bytes then done r else out_of_fuel
reclaim_loop (suc n) r rec_bytes safe = elim (has_room_for r rec_bytes) [
  | true ↦ done r
  | false ↦ elim (reclaim_step r safe) [
    | ok r' ↦ reclaim_loop n r' rec_bytes safe
    | err e ↦ failed e r
  ]
]

-- `fuel` bounds the rounds of the `while` loop, which has no bound of its own.
unfoldable pub reclaim_for_record : ℕ → WalRing → ℕ → ℕ → Reclaimed
reclaim_for_record fuel r rec_bytes safe =
    if not (r.magic == wal_ring_magic)
    then failed k_corruption r
    else reclaim_loop fuel r rec_bytes safe

unfoldable pub rewind_head_after_replay : WalRing → ℕ → ℕ → Result WalRing
rewind_head_after_replay r next_seq next_pos =
    if not (r.magic == wal_ring_magic)
    then err k_corruption
    else if ltb next_seq r.tail_seq || ltb r.head_seq next_seq
    then err k_corruption
    else if leb r.area_bytes next_pos
    then err k_corruption
    else ok (record r { head_seq = next_seq; head_pos = next_pos })

unfoldable pub rewind_head_to_tail : WalRing → WalRing
rewind_head_to_tail r = record r { head_seq = r.tail_seq; head_pos = r.tail_pos }
