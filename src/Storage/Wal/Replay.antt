-- ===== src/Storage/Wal/Replay.antt =====
-- Recovery from the ring: `ReplayWal` of src/storage/wal_ring.cpp. The tables are a parameter, with
-- the two operations of `TableStore` that the replay calls.
pub mod Batches
pub mod Head
use rtdb_common.Common.{
  ℕ, ◌+◌, List, [], ◌∷◌, ◌++◌, Bool, true, false, not, ◌&&◌, ◌||◌, ℤ, leb, ltb, ◌==◌, if◌then◌else◌,
}
use rtdb_common.Types.{Bytes, Result, ok, err, ◌>>=◌}
use rtdb_common.Storage.Wal.{
  WalRing, wal_op_insert, wal_op_update, wal_op_delete, wal_op_batch_begin, wal_op_batch_commit,
  rewind_head_after_replay, rewind_head_to_tail,
}
use rtdb_common.Storage.Wal.Scan.{WalRecordView, scan_valid}

-- `Tables` stands for the catalog with the stores that it opens; a record of a table that the
-- catalog does not have changes nothing there.
pub record TableOps : Type 1 where
  pub Tables : Type 0
  pub replay_upsert : Tables → ℤ → ℕ → ℕ → Bytes → Result Tables
  pub replay_delete : Tables → ℤ → ℕ → ℕ → Bytes → Result Tables
  pub rebuild_counts : Tables → Result Tables

module _ (ops : TableOps) where
  open ops use {Tables, replay_upsert, replay_delete, rebuild_counts}

  -- The variables that the callback of the scan captures.
  pub record Replay : Type 0 where
    pub tables : Tables
    pub records_walked : ℕ
    pub records_applied : ℕ
    pub batch_buf : List WalRecordView
    pub in_batch : Bool
    pub valid_end : ℕ
    pub valid_end_pos : ℕ
    pub valid_prefix_exists : Bool
    pub valid_end_before_batch : ℕ
    pub pos_before_batch : ℕ
    pub had_before_batch : Bool

  unfoldable pub start : Tables → Replay
  start t = record {
    tables = t;
    records_walked = 0;
    records_applied = 0;
    batch_buf = [];
    in_batch = false;
    valid_end = 0;
    valid_end_pos = 0;
    valid_prefix_exists = false;
    valid_end_before_batch = 0;
    pos_before_batch = 0;
    had_before_batch = false;
  }

  -- What one record does to the tables.
  unfoldable pub apply_op : Tables → WalRecordView → Result Tables
  apply_op t v =
      if v.op == wal_op_insert || v.op == wal_op_update
      then replay_upsert t v.table_id v.row_no v.row_ver v.payload
      else if v.op == wal_op_delete
      then replay_delete t v.table_id v.row_no v.row_ver v.payload
      else ok t

  -- `apply_one`; a record up to the checkpoint is on disk already.
  unfoldable pub apply_one : ℕ → Replay → WalRecordView → Result Replay
  apply_one ckpt st v = if leb v.seq ckpt then ok st else (do
    t ← apply_op st.tables v
    ok (record st { tables = t; records_applied = st.records_applied + 1 }))

  unfoldable pub apply_batch : ℕ → Replay → List WalRecordView → Result Replay
  apply_batch ckpt st [] = ok st
  apply_batch ckpt st (v ∷ vs) = do st' ← apply_one ckpt st v; apply_batch ckpt st' vs

  -- The valid prefix ends behind this record.
  abbrev pub extend_prefix : Replay → WalRecordView → Replay
  extend_prefix st v = record st {
    valid_end = v.seq;
    valid_end_pos = v.end_pos;
    valid_prefix_exists = true;
  }

  -- The callback of the scan.
  unfoldable pub on_record : ℕ → Replay → WalRecordView → Result Replay
  on_record ckpt st0 v =
      let st = record st0 { records_walked = st0.records_walked + 1 } in
      if v.op == wal_op_batch_begin
      then ok (record st {
        in_batch = true;
        batch_buf = [];
        valid_end_before_batch = st.valid_end;
        pos_before_batch = st.valid_end_pos;
        had_before_batch = st.valid_prefix_exists;
      })
      else if v.op == wal_op_batch_commit
      then (do
        st' ← apply_batch ckpt st st.batch_buf
        ok (extend_prefix (record st' { batch_buf = []; in_batch = false }) v))
      else if st.in_batch
      then ok (record st { batch_buf = st.batch_buf ++ (v ∷ []) })
      else (do st' ← apply_one ckpt st v; ok (extend_prefix st' v))

  -- A batch that is open when the scan ends is given up.
  unfoldable pub discard_open_batch : Replay → Replay
  discard_open_batch st =
      if st.in_batch
      then record st {
        valid_end = st.valid_end_before_batch;
        valid_end_pos = st.pos_before_batch;
        valid_prefix_exists = st.had_before_batch;
      }
      else st

  -- The head goes back behind the valid prefix.
  unfoldable pub rewind : WalRing → Replay → Result WalRing
  rewind r st =
      if ltb (st.valid_end + 1) r.head_seq
      then (if st.valid_prefix_exists
          then rewind_head_after_replay r (st.valid_end + 1) st.valid_end_pos
          else ok (rewind_head_to_tail r))
      else ok r

  pub record Recovered : Type 0 where
    pub ring : WalRing
    pub state : Replay
    pub batches_discarded : ℕ
    pub recovered_to_seq : ℕ
    pub head_rewound : Bool

  unfoldable pub replay_wal : ℕ → WalRing → Tables → Result Recovered
  replay_wal ckpt r t = do
    (last, scanned) ← scan_valid (on_record ckpt) r (start t)
    let st = discard_open_batch scanned
    r' ← rewind r st
    t' ← rebuild_counts st.tables
    ok (record {
      ring = r';
      state = record st { tables = t' };
      batches_discarded = if scanned.in_batch then 1 else 0;
      recovered_to_seq = if ltb ckpt st.valid_end then st.valid_end else ckpt;
      head_rewound = not (r'.head_seq == r.head_seq);
    })
