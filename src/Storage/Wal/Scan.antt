-- ===== src/Storage/Wal/Scan.antt =====
-- Scanning the ring: `ScanValid` and `ScanRange` of src/storage/wal_ring.cpp.
use rtdb_common.Common.{
  ℕ, zero, suc, ◌+◌, ◌-◌, ◌/◌, ◌^◌, Bool, true, false, not, ◌||◌, ℤ, leb, ltb, ◌==◌, if◌then◌else◌,
  to_signed,
}
use rtdb_common.Types.{Bytes, k_corruption, k_cursor_overflow, Result, ok, err}
use rtdb_common.Infra.Crc32.{crc32}
use rtdb_common.Storage.Wal.{
  WalRing, decode_u32le, decode_u64le, slice, wal_ring_magic, wal_rec_hdr_bytes, wal_rec_crc_bytes,
  wal_min_record_bytes, wal_op_pad,
}

-- `WalRecordView`; the payload is the bytes that the view points to.
pub record WalRecordView : Type 0 where
  pub seq : ℕ
  pub ts_ns : ℕ
  pub row_no : ℕ
  pub row_ver : ℕ
  pub table_id : ℤ
  pub op : ℕ
  pub payload : Bytes
  pub end_pos : ℕ

-- What stands at a position: something to pass over, the end of the valid data, a framing error,
-- or a record.
pub data Visit : Type 0 where
  skip_to : ℕ → Visit
  torn : Visit
  bad : Visit
  found : WalRecordView → Visit

-- One round of the loop, up to the delivery of the record.
unfoldable pub visit : WalRing → ℕ → ℕ → Visit
visit r pos expect_seq =
    let a = r.area in
    let remaining = r.area_bytes - pos in
    let total_len = decode_u32le a pos in
    let op = a (pos + 48) in
    let crc_stored = decode_u32le a (pos + total_len - wal_rec_crc_bytes) in
    let crc_calc = crc32 (slice a pos (total_len - wal_rec_crc_bytes)) in
    let next = (if leb r.area_bytes (pos + total_len) then 0 else pos + total_len) in
    let payload_len = decode_u32le a (pos + 4) in
    if ltb remaining wal_min_record_bytes
    then skip_to 0
    else if ltb total_len wal_min_record_bytes || ltb r.area_bytes (pos + total_len)
    then torn
    else if not (crc_stored == crc_calc)
    then (if op == wal_op_pad then skip_to next else torn)
    else if op == wal_op_pad
    then skip_to next
    else if not (decode_u64le a (pos + 8) == expect_seq)
    then bad
    else if ltb total_len (wal_rec_hdr_bytes + payload_len + wal_rec_crc_bytes)
    then bad
    else found (record {
      seq = decode_u64le a (pos + 8);
      ts_ns = decode_u64le a (pos + 16);
      row_no = decode_u64le a (pos + 24);
      row_ver = decode_u64le a (pos + 32);
      table_id = to_signed (2 ^ 63) (decode_u64le a (pos + 40));
      op = op;
      payload = slice a (pos + wal_rec_hdr_bytes) payload_len;
      end_pos = next;
    })

abbrev pub max_steps : WalRing → ℕ
max_steps r = r.area_bytes / wal_min_record_bytes + 16

-- The loop of `ScanValid` with a callback that keeps a state of its own; the number is the steps
-- that are left, and `last` the sequence number delivered last.
module _ {ℓ} {S : Type ℓ} (fn : S → WalRecordView → Result S) where
  unfoldable pub scan_loop : ℕ → WalRing → Bool → ℕ → ℕ → ℕ → S → Result (ℕ × S)
  scan_loop zero r first pos expect last s =
      if first || not (pos == r.head_pos) then err k_corruption else ok (last, s)
  scan_loop (suc n) r first pos expect last s = elim (first || not (pos == r.head_pos)) [
    | false ↦ ok (last, s)
    | true ↦ elim (visit r pos expect) [
      | skip_to q ↦ scan_loop n r false q expect last s
      | torn ↦ ok (last, s)
      | bad ↦ err k_corruption
      | found v ↦ elim (fn s v) [
        | err e ↦ err e
        | ok s' ↦ scan_loop n r false v.end_pos (v.seq + 1) v.seq s'
      ]
    ]
  ]

  unfoldable pub scan_valid : WalRing → S → Result (ℕ × S)
  scan_valid r s =
      if not (r.magic == wal_ring_magic)
      then err k_corruption
      else if r.head_seq == r.tail_seq
      then ok (0, s)
      else if ltb r.head_seq r.tail_seq
      then err k_corruption
      else scan_loop (max_steps r) r true r.tail_pos r.tail_seq 0 s

-- `ScanRange`: its callback answers whether to go on, and a record that it turns down is not counted.
module _ {ℓ} {S : Type ℓ} (fn : S → WalRecordView → Bool × S) where
  unfoldable pub range_loop : ℕ → WalRing → Bool → ℕ → ℕ → ℕ → ℕ → ℕ → S → Result (ℕ × S)
  range_loop zero r first pos expect from to last s =
      if first || not (pos == r.head_pos) then err k_corruption else ok (last, s)
  range_loop (suc n) r first pos expect from to last s = elim (first || not (pos == r.head_pos)) [
    | false ↦ ok (last, s)
    | true ↦ elim (visit r pos expect) [
      | skip_to q ↦ range_loop n r false q expect from to last s
      | torn ↦ ok (last, s)
      | bad ↦ err k_corruption
      | found v ↦ elim (ltb to v.seq) [
        | true ↦ ok (last, s)
        | false ↦ elim (ltb from v.seq) [
          | false ↦ range_loop n r false v.end_pos (v.seq + 1) from to last s
          | true ↦ elim (fn s v).0 [
            | false ↦ ok (last, (fn s v).1)
            | true ↦ range_loop n r false v.end_pos (v.seq + 1) from to v.seq (fn s v).1
          ]
        ]
      ]
    ]
  ]

  unfoldable pub scan_range : WalRing → ℕ → ℕ → S → Result (ℕ × S)
  scan_range r from to s =
      if not (r.magic == wal_ring_magic)
      then err k_corruption
      else if leb to from
      then ok (from, s)
      else if ltb (from + 1) r.tail_seq
      then err k_cursor_overflow
      else if ltb r.head_seq r.tail_seq
      then err k_corruption
      else if r.head_seq == r.tail_seq
      then ok (from, s)
      else if leb r.head_seq (from + 1)
      then ok (from, s)
      else range_loop (max_steps r) r true r.tail_pos r.tail_seq from to from s
