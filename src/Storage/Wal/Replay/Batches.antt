-- ===== src/Storage/Wal/Replay/Batches.antt =====
-- Batches in recovery: what is committed is applied in order, and what is not leaves no trace.
use rtdb_common.Common.{
  ℕ, ◌+◌, ◌≡◌, ◌≢◌, refl, sym, ap, ◌∙◌, arith, List, [], ◌∷◌, ◌++◌, append-nil, append_assoc, true,
  false, leb, All, if◌then◌else◌, Bool-cases, inl, inr,
}
use rtdb_common.Types.{Result, ok, err, ◌>>=◌, Result-cases}
use rtdb_common.Storage.Wal.{wal_op_batch_begin, wal_op_batch_commit}
use rtdb_common.Storage.Wal.Scan.{WalRecordView}
use rtdb_common.Storage.Wal.Replay.{
  TableOps, Replay, apply_op, apply_one, apply_batch, on_record, discard_open_batch, extend_prefix,
}

-- A record that is no mark of a batch.
abbrev pub IsPlain : WalRecordView → Type 0
IsPlain v = (v.op ≢ wal_op_batch_begin) × (v.op ≢ wal_op_batch_commit)

module _ (ops : TableOps) (ckpt : ℕ) where
  open ops use {Tables}

  -- The scan's deliveries one after the other.
  unfoldable pub deliver : Replay ops → List WalRecordView → Result (Replay ops)
  deliver st [] = ok st
  deliver st (v ∷ vs) = do st' ← on_record ops ckpt st v; deliver st' vs

  -- The effect of records on the tables, with no account of batches: those behind the checkpoint,
  -- each in its turn.
  unfoldable pub effect : Tables → List WalRecordView → Result Tables
  effect t [] = ok t
  effect t (v ∷ vs) = do t' ← if leb v.seq ckpt then ok t else apply_op ops t v; effect t' vs

  -- The tables of a replay that has not failed.
  abbrev pub tables_of : Result (Replay ops) → Result Tables
  tables_of (ok st) = ok st.tables
  tables_of (err e) = err e

  deliver-append :
      (st : Replay ops) (vs ws : List WalRecordView)
      → deliver st (vs ++ ws) ≡ (deliver st vs >>= λ st'. deliver st' ws)
  unfolding deliver
  deliver-append st [] ws = refl
  deliver-append st (v ∷ vs) ws = by_step (on_record ops ckpt st v) (λ s. deliver-append s vs ws)
    where
      by_step :
          (m : Result (Replay ops))
          → ((s : Replay ops) → deliver s (vs ++ ws) ≡ (deliver s vs >>= λ st'. deliver st' ws))
          → (m >>= λ s. deliver s (vs ++ ws))
            ≡ ((m >>= λ s. deliver s vs) >>= λ st'. deliver st' ws)
      by_step (ok s) ih = ih s
      by_step (err e) ih = refl

  -- A record that waits for the end of its batch.
  buffer : Replay ops → WalRecordView → Replay ops
  buffer st v = record st {
    records_walked = st.records_walked + 1;
    batch_buf = st.batch_buf ++ (v ∷ []);
  }

  on_record-buffer :
      (st : Replay ops) (v : WalRecordView)
      → st.in_batch ≡ true
      → IsPlain v
      → on_record ops ckpt st v ≡ ok (buffer st v)
  unfolding on_record buffer
  on_record-buffer st v e h = ground arith

  -- Inside a batch, records only wait.
  abbrev waiting : Replay ops → List WalRecordView → Replay ops
  waiting st [] = st
  waiting st (v ∷ vs) = waiting (buffer st v) vs

  deliver_buffered :
      (st : Replay ops) (vs : List WalRecordView)
      → st.in_batch ≡ true
      → All IsPlain vs
      → deliver st vs ≡ ok (waiting st vs)
  unfolding deliver buffer
  deliver_buffered st [] e h = refl
  deliver_buffered st (v ∷ vs) e h =
      rw (on_record-buffer st v e h.0) (deliver_buffered (buffer st v) vs e h.1)

  -- All that waiting changes is the count of records and the buffer.
  record SameBut (buf : List WalRecordView) (st st' : Replay ops) : Type 0 where
    same_tables : st'.tables ≡ st.tables
    same_batch : st'.in_batch ≡ st.in_batch
    same_end : st'.valid_end_before_batch ≡ st.valid_end_before_batch
    same_pos : st'.pos_before_batch ≡ st.pos_before_batch
    same_had : st'.had_before_batch ≡ st.had_before_batch
    buffered : st'.batch_buf ≡ st.batch_buf ++ buf

  waiting_lem : (st : Replay ops) (vs : List WalRecordView) → SameBut vs st (waiting st vs)
  waiting_lem st [] = record {
    same_tables = refl;
    same_batch = refl;
    same_end = refl;
    same_pos = refl;
    same_had = refl;
    buffered = sym (append-nil _);
  }
  waiting_lem st (v ∷ vs) = extend (waiting_lem (buffer st v) vs)
    where
      extend :
          SameBut vs (buffer st v) (waiting (buffer st v) vs)
          → SameBut (v ∷ vs) st (waiting (buffer st v) vs)
      extend h =
          unfold buffer in
          record {
            same_tables = h.same_tables;
            same_batch = h.same_batch;
            same_end = h.same_end;
            same_pos = h.same_pos;
            same_had = h.same_had;
            buffered = h.buffered ∙ append_assoc st.batch_buf (v ∷ []) vs;
          }

  -- The state behind the mark that opens a batch.
  opened : Replay ops → Replay ops
  opened st = record st {
    records_walked = st.records_walked + 1;
    in_batch = true;
    batch_buf = [];
    valid_end_before_batch = st.valid_end;
    pos_before_batch = st.valid_end_pos;
    had_before_batch = st.valid_prefix_exists;
  }

  on_record-begin :
      (st : Replay ops) (b : WalRecordView)
      → b.op ≡ wal_op_batch_begin
      → on_record ops ckpt st b ≡ ok (opened st)
  unfolding on_record opened
  on_record-begin st b e = ground arith

  deliver-opened :
      (st : Replay ops) (b : WalRecordView) (vs : List WalRecordView)
      → b.op ≡ wal_op_batch_begin
      → All IsPlain vs
      → deliver st (b ∷ vs) ≡ ok (waiting (opened st) vs)
  unfolding deliver opened
  deliver-opened st b vs e h = rw (on_record-begin st b e) (deliver_buffered (opened st) vs refl h)

  -- A batch that the log does not commit leaves no trace: the tables and the end of the valid prefix
  -- are those from before it.
  pub torn_batch_discarded :
      (st : Replay ops) (b : WalRecordView) (vs : List WalRecordView)
      → b.op ≡ wal_op_batch_begin
      → All IsPlain vs
      → (st' : Replay ops) × (deliver st (b ∷ vs) ≡ ok st')
        × ((discard_open_batch ops st').tables ≡ st.tables)
        × ((discard_open_batch ops st').valid_end ≡ st.valid_end)
        × ((discard_open_batch ops st').valid_end_pos ≡ st.valid_end_pos)
        × ((discard_open_batch ops st').valid_prefix_exists ≡ st.valid_prefix_exists)
  unfolding discard_open_batch opened
  torn_batch_discarded st b vs e h =
      let w = waiting_lem (opened st) vs in
      (
        waiting (opened st) vs,
        deliver-opened st b vs e h,
        ground (arith, w),
        ground (arith, w),
        ground (arith, w),
        ground (arith, w),
      )

  apply_batch-effect :
      (st : Replay ops) (vs : List WalRecordView)
      → tables_of (apply_batch ops ckpt st vs) ≡ effect st.tables vs
  unfolding apply_batch effect apply_one
  apply_batch-effect st [] = refl
  apply_batch-effect st (v ∷ vs) = elim (Bool-cases (leb v.seq ckpt)) [
    | inl e ↦ rw e (apply_batch-effect st vs)
    | inr e ↦ rw e (elim (Result-cases (apply_op ops st.tables v)) [
      | inl (t, q) ↦ rw q (
          apply_batch-effect (record st { tables = t; records_applied = st.records_applied + 1 })
            vs)
      | inr (x, q) ↦ rw q
    ])
  ]

  on_record-commit :
      (st : Replay ops) (c : WalRecordView)
      → c.op ≡ wal_op_batch_commit
      → tables_of (on_record ops ckpt st c) ≡ effect st.tables st.batch_buf
  unfolding on_record
  on_record-commit st c e = rw (e) (
      closed
        (apply_batch ops ckpt (record st { records_walked = st.records_walked + 1 }) st.batch_buf)
      ∙ apply_batch-effect (record st { records_walked = st.records_walked + 1 }) st.batch_buf)
    where
      closed :
          (m : Result (Replay ops))
          → tables_of (
              m >>= λ st'.
              ok (extend_prefix ops (record st' { batch_buf = []; in_batch = false }) c))
            ≡ tables_of m
      closed (ok s) = refl
      closed (err x) = refl

  deliver_one :
      (st : Replay ops) (v : WalRecordView) → deliver st (v ∷ []) ≡ on_record ops ckpt st v
  unfolding deliver
  deliver_one st v = last (on_record ops ckpt st v)
    where
      last : (m : Result (Replay ops)) → (m >>= λ s. ok s) ≡ m
      last (ok s) = refl
      last (err x) = refl

  -- A committed batch has on the tables exactly the effect of its records behind the checkpoint, one
  -- after the other, and fails where the first of them fails.
  pub committed_batch_applied :
      (st : Replay ops) (b c : WalRecordView) (vs : List WalRecordView)
      → b.op ≡ wal_op_batch_begin
      → c.op ≡ wal_op_batch_commit
      → All IsPlain vs
      → tables_of (deliver st (b ∷ (vs ++ (c ∷ [])))) ≡ effect st.tables vs
  committed_batch_applied st b c vs e f h =
      let w = waiting_lem (opened st) vs in
      ap tables_of (deliver-append st (b ∷ vs) (c ∷ []))
      ∙ rw (deliver-opened st b vs e h, deliver_one)
          (on_record-commit (waiting (opened st) vs) c f
            ∙ ap (λ t. effect t (waiting (opened st) vs).batch_buf) w.same_tables
            ∙ ap (effect (opened st).tables) w.buffered
            ∙ (unfold opened in refl))
