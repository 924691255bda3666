-- ===== src/Storage/Wal/Replay/Head.antt =====
-- The head of the ring after recovery, and the sequence number that recovery publishes.
use rtdb_common.Common.{ℕ, ◌+◌, ◌≤◌, ◌<◌, ◌≡◌, Bool, true, false}
use rtdb_common.Storage.Wal.{WalRing}
use rtdb_common.Storage.Wal.Scan.{WalRecordView, found, visit}
use rtdb_common.Storage.Wal.Replay.{TableOps, Replay, Recovered}

-- Where a valid prefix exists, it ends with a record that the scan finds in the ring: this is its number,
-- and the place behind it.
abbrev pub EndOf : WalRing → Bool → ℕ → ℕ → Type 0
EndOf r exists end pos =
    exists ≡ true
    → (at : ℕ) × (due : ℕ) × (v : WalRecordView) × (visit r at due ≡ found v)
      × (v.seq ≡ end)
      × (v.end_pos ≡ pos)

-- The head of `r'` is behind the valid prefix of `st`; where the ring `r` had more behind that prefix, it
-- has been taken back to it, or to the tail where there is no such prefix.
pub data HeadBehind (ops : TableOps) (r r' : WalRing) (st : Replay ops) : Type 0 where
  at_end :
      r.head_seq ≤ st.valid_end + 1
      → (r'.head_seq ≡ r.head_seq) × (r'.head_pos ≡ r.head_pos)
      → HeadBehind ops r r' st
  taken_back :
      st.valid_end + 1 < r.head_seq
      → st.valid_prefix_exists ≡ true
      → (r'.head_seq ≡ st.valid_end + 1) × (r'.head_pos ≡ st.valid_end_pos)
      → (r.tail_seq ≤ r'.head_seq) × (r'.head_seq ≤ r.head_seq)
      → r'.head_pos < r.area_bytes
      → HeadBehind ops r r' st
  emptied :
      st.valid_end + 1 < r.head_seq
      → st.valid_prefix_exists ≡ false
      → (r'.head_seq ≡ r.tail_seq) × (r'.head_pos ≡ r.tail_pos)
      → HeadBehind ops r r' st

-- The ring `r'` goes on behind the valid prefix of `st`, and is otherwise the ring `r`.
pub record GoesOnBehind (ops : TableOps) (r r' : WalRing) (st : Replay ops) : Type 0 where
  pub area : (r'.area ≡ r.area) × (r'.area_bytes ≡ r.area_bytes)
  pub tail : (r'.tail_seq ≡ r.tail_seq) × (r'.tail_pos ≡ r.tail_pos)
  pub head : HeadBehind ops r r' st
  pub prefix : EndOf r st.valid_prefix_exists st.valid_end st.valid_end_pos

module _ (ops : TableOps) where
  open ops use {Tables, rebuild_counts}

  -- Both ends that a state remembers are ends of records in the ring.
  abbrev Ends : WalRing → Replay ops → Type 0
  Ends r st =
      EndOf r st.valid_prefix_exists st.valid_end st.valid_end_pos
      × EndOf r st.had_before_batch st.valid_end_before_batch st.pos_before_batch

  abbrev Published : ℕ → WalRing → Recovered ops → Type 0
  Published ckpt r done =
      (ckpt ≤ done.recovered_to_seq)
      × (done.state.valid_end ≤ done.recovered_to_seq)
      × GoesOnBehind ops r done.ring done.state
