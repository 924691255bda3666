-- ===== src/Examples/Wal.antt =====
-- Instances for the log of src/storage/wal_ring.cpp.
use rtdb_common.Common.{
  ℕ, ◌+◌, ◌-◌, ◌≤◌, ◌<◌, ◌≡◌, refl, arith, List, [], ◌∷◌, ◌++◌, true, false, pos, length, ◌==◌,
  if◌then◌else◌, replicate, ◌*◌,
}
use rtdb_common.Types.{Bytes, ok}
use rtdb_common.Storage.Wal.{
  WalRing, wal_ring_magic, wal_op_insert, wal_op_delete, wal_op_batch_begin, wal_op_batch_commit,
  wal_op_pad, append, append_here, has_room_for, pending_bytes, record_bytes,
  write_tail_pad_and_wrap, reclaim_for_record, reclaim_loop, reclaim_step, decode_u32le,
  decode_u64le, decode_bytes_le, out_of_fuel, done,
}
use rtdb_common.Storage.Wal.Scan.{WalRecordView}
use rtdb_common.Storage.Wal.Replay.{
  TableOps, Replay, start, apply_op, discard_open_batch, Recovered,
}
use rtdb_common.Storage.Wal.Replay.Batches.{
  deliver, effect, tables_of, torn_batch_discarded, committed_batch_applied,
}
use rtdb_common.Storage.Wal.Room.{append-Retained, append_empty_overlaps}
use rtdb_common.Storage.Wal.Reclaim.{Outcome, reclaim-Outcome, IsPadOnly, reclaim_pad_only}

-- Tables that remember the rows that were written, the last one first.
abbrev rows : TableOps
rows = record {
  Tables = List ℕ;
  replay_upsert = λ t id row ver payload. ok (row ∷ t);
  replay_delete = λ t id row ver payload. ok (0 ∷ t);
  rebuild_counts = λ t. ok t;
}

abbrev view : ℕ → ℕ → ℕ → WalRecordView
view seq op row = record {
  seq = seq;
  ts_ns = 0;
  row_no = row;
  row_ver = 1;
  table_id = pos 1;
  op = op;
  payload = [];
  end_pos = 60 * seq;
}

abbrev batch : List WalRecordView
batch = view 3 wal_op_insert 7 ∷ view 4 wal_op_delete 7 ∷ []

torn_batch_discarded_example :
    (st' : Replay rows) × (deliver rows 0
        (start rows (5 ∷ []))
        (view 2 wal_op_batch_begin 0 ∷ batch)
      ≡ ok st')
    × ((discard_open_batch rows st').tables ≡ (start rows (5 ∷ [])).tables)
    × ((discard_open_batch rows st').valid_end ≡ (start rows (5 ∷ [])).valid_end)
    × ((discard_open_batch rows st').valid_end_pos ≡ (start rows (5 ∷ [])).valid_end_pos)
    × ((discard_open_batch rows st').valid_prefix_exists
        ≡ (start rows (5 ∷ [])).valid_prefix_exists)
torn_batch_discarded_example =
    torn_batch_discarded rows 0 (start rows (5 ∷ [])) (view 2 wal_op_batch_begin 0) batch refl
      ((omega arith, omega arith), ((omega arith, omega arith), tt))

committed_batch_applied_example :
    tables_of rows 0 (
      deliver rows 0
        (start rows (5 ∷ []))
        (view 2 wal_op_batch_begin 0 ∷ (batch ++ (view 5 wal_op_batch_commit 0 ∷ []))))
    ≡ effect rows 0 (start rows (5 ∷ [])).tables batch
committed_batch_applied_example =
    committed_batch_applied rows 0 (start rows (5 ∷ [])) (view 2 wal_op_batch_begin 0)
      (view 5 wal_op_batch_commit 0) batch refl refl
      ((omega arith, omega arith), ((omega arith, omega arith), tt))

-- The batch is applied in order, and its first record not if the checkpoint has it.
effect_test : effect rows 3 (5 ∷ []) batch ≡ ok (0 ∷ 5 ∷ [])
unfolding effect apply_op
effect_test = refl

abbrev ring : WalRing
ring = record {
  magic = wal_ring_magic;
  area_bytes = 256;
  head_seq = 2;
  tail_seq = 1;
  head_pos = 61;
  tail_pos = 0;
  poisoned = false;
  area = λ i. 0;
}

abbrev payload : Bytes
payload = 1 ∷ 2 ∷ 3 ∷ []

append_fits :
    append 9 ring wal_op_insert (pos 1) 4 1 payload
    ≡ ok (append_here 9 ring wal_op_insert (pos 1) 4 1 payload)
unfolding append has_room_for pending_bytes record_bytes
append_fits = refl

append-Retained_example :
    (append_here 9 ring wal_op_insert (pos 1) 4 1 payload).1.area 5 ≡ ring.area 5
append-Retained_example =
    append-Retained 9 ring wal_op_insert (pos 1) 4 1 payload
      (append_here 9 ring wal_op_insert (pos 1) 4 1 payload).0
      (append_here 9 ring wal_op_insert (pos 1) 4 1 payload).1 5
      (record { head = omega arith; tail = omega arith }) append_fits
      (omega arith, (omega arith, omega arith))

-- An empty ring of 160 bytes whose positions stand at 70, and a record of 100.
abbrev empty_ring : WalRing
empty_ring = record ring { area_bytes = 160; tail_seq = 2; head_pos = 70; tail_pos = 70 }

abbrev long_payload : Bytes
long_payload = replicate 40 7

append_empty_overlaps_example :
    let r' : WalRing =
      (append_here 9
        (write_tail_pad_and_wrap empty_ring)
        wal_op_insert
        (pos 1)
        4
        1
        long_payload).1 in
    (append 9 empty_ring wal_op_insert (pos 1) 4 1 long_payload ≡ ok (2, r'))
    × ((write_tail_pad_and_wrap empty_ring).head_pos ≡ 0)
    × (r'.head_seq ≡ r'.tail_seq + 1)
    × (0 < r'.tail_pos)
    × (r'.tail_pos < record_bytes (length long_payload))
append_empty_overlaps_example =
    append_empty_overlaps 9 empty_ring wal_op_insert (pos 1) 4 1 long_payload (refl, refl)
      (refl, refl, omega arith) sizes
  where
    sizes :
        (empty_ring.area_bytes - empty_ring.head_pos < record_bytes (length long_payload))
        × (empty_ring.head_pos < record_bytes (length long_payload))
        × (record_bytes (length long_payload) ≤ empty_ring.area_bytes)
    sizes = unfold record_bytes in (omega arith, omega arith, omega arith)

-- A full ring with one record of 64 bytes, number 1.
abbrev full_ring : WalRing
full_ring = record ring {
  area_bytes = 64;
  head_pos = 0;
  area = λ i. if i == 0 then 64 else if i == 8 then 1 else if i == 48 then 1 else 0;
}

reclaim-Outcome_example : Outcome 5 full_ring 60 (reclaim_for_record 3 full_ring 60 5)
reclaim-Outcome_example = reclaim-Outcome 3 5 60 full_ring

reclaim_test :
    reclaim_for_record 3 full_ring 60 5 ≡ done (record full_ring { tail_seq = 2; tail_pos = 0 })
unfolding reclaim_for_record reclaim_loop reclaim_step has_room_for pending_bytes decode_u32le
    decode_u64le decode_bytes_le
reclaim_test = refl

-- A ring that a pad of 64 bytes fills.
abbrev padded : WalRing
padded = record ring {
  area_bytes = 64;
  head_pos = 0;
  area = λ i. if i == 0 then 64 else if i == 48 then wal_op_pad else 0;
}

padded-IsPadOnly : IsPadOnly padded
unfolding decode_u32le
padded-IsPadOnly = record {
  large = omega arith;
  total = refl;
  op = refl;
  tail = refl;
  head = refl;
  seqs = omega arith;
}

reclaim_pad_only_example : reclaim_loop 100 padded 60 9 ≡ out_of_fuel
reclaim_pad_only_example = reclaim_pad_only 100 9 60 padded padded-IsPadOnly (omega arith)

-- Recovery of the ring above, whose record is torn: the head goes back to the tail.
abbrev recovered : Recovered rows
recovered = record {
  ring = record ring { head_seq = 1; head_pos = 0 };
  state = start rows [];
  batches_discarded = 0;
  recovered_to_seq = 0;
  head_rewound = true;
}
