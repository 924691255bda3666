-- ===== src/Storage/Wal/Room.antt =====
-- Where `Append` writes (src/storage/wal_ring.cpp): with room in a ring that is not empty, outside of
-- what the ring retains; in an empty ring, not always outside of where its scan begins.
use rtdb_common.Common.{
  ℕ, ◌+◌, ◌-◌, ◌≤◌, ◌<◌, ◌≡◌, ◌≢◌, ◌⊎◌, inl, inr, refl, ◌∙◌, arith, length, false, Bool-cases, ltb,
  leb, ℤ, if◌then◌else◌,
}
use rtdb_common.Types.{Bytes, ok}
use rtdb_common.Storage.Wal.{
  WalRing, Area, write_at, record_header, encode_u32le, encode_u64le, record_bytes, has_room_for,
  write_tail_pad_and_wrap, append_here, append, wal_ring_magic,
}

-- The positions lie in the area.
pub record PositionsValid (r : WalRing) : Type 0 where
  pub head : r.head_pos < r.area_bytes
  pub tail : r.tail_pos < r.area_bytes

-- The offset belongs to what the ring retains, from the tail up to the head, round the end.
abbrev pub Retained : WalRing → ℕ → Type 0
Retained r i =
    (r.head_seq ≢ r.tail_seq)
    × (if ltb r.tail_pos r.head_pos
        then (r.tail_pos ≤ i) × (i < r.head_pos)
        else (i < r.area_bytes) × ((r.tail_pos ≤ i) ⊎ (i < r.head_pos)))

write_at_outside :
    (a : Area) (p : ℕ) (s : Bytes) (i : ℕ) → (i < p) ⊎ (p + length s ≤ i) → write_at a p s i ≡ a i
unfolding write_at
write_at_outside a p s i h = ground arith

length-record_header :
    (total len seq ts row ver table op : ℕ)
    → length (record_header total len seq ts row ver table op) ≡ 56
unfolding record_header encode_u32le encode_u64le
length-record_header total len seq ts row ver table op = refl

length-encode_u32le : (v : ℕ) → length (encode_u32le v) ≡ 4
unfolding encode_u32le
length-encode_u32le v = refl

abbrev Outside : ℕ → ℕ → ℕ → Type 0
Outside p n i = (i < p) ⊎ (p + n ≤ i)

three_writes-Outside :
    (a : Area) (p q t : ℕ) (x y z : Bytes) (i : ℕ)
    → Outside p (length x) i
    → Outside q (length y) i
    → Outside t (length z) i
    → write_at (write_at (write_at a p x) q y) t z i ≡ a i
three_writes-Outside a p q t x y z i hx hy hz =
    write_at_outside (write_at (write_at a p x) q y) t z i hz
    ∙ write_at_outside (write_at a p x) q y i hy
    ∙ write_at_outside a p x i hx

-- A pad is written behind the head only.
pub write_tail_pad-outside :
    (r : WalRing) (i : ℕ) → i < r.head_pos → (write_tail_pad_and_wrap r).area i ≡ r.area i
unfolding write_tail_pad_and_wrap
write_tail_pad-outside r i h = elim (Bool-cases (leb 60 (r.area_bytes - r.head_pos))) [
  | inl e ↦ rw e (
      three_writes-Outside r.area r.head_pos _ _ _ _ _ i (inl h) (inl (omega arith))
        (inl (ground arith)))
  | inr e ↦ rw e
]

head_pos-write_tail_pad : (r : WalRing) → (write_tail_pad_and_wrap r).head_pos ≡ 0
unfolding write_tail_pad_and_wrap
head_pos-write_tail_pad r = ground arith

-- A record is written to the bytes from the head on that it takes.
pub append_here-outside :
    (now : ℕ) (r : WalRing) (op : ℕ) (table : ℤ) (row ver : ℕ) (payload : Bytes) (i : ℕ)
    → (i < r.head_pos) ⊎ (r.head_pos + record_bytes (length payload) ≤ i)
    → (append_here now r op table row ver payload).1.area i ≡ r.area i
unfolding append_here record_bytes
append_here-outside now r op table row ver payload i h =
    three_writes-Outside r.area r.head_pos _ _ _ payload _ i
      (rw length-record_header (ground arith)) (ground arith)
      (rw length-encode_u32le (ground arith))

-- A successful append to a ring whose positions lie in the area leaves every byte that the ring
-- retains as it was, whether the record fits behind the head or goes round the end behind a pad.
pub append-Retained :
    (now : ℕ) (r : WalRing) (op : ℕ) (table : ℤ) (row ver : ℕ) (payload : Bytes) (seq : ℕ)
    (r' : WalRing) (i : ℕ)
    → PositionsValid r
    → append now r op table row ver payload ≡ ok (seq, r')
    → Retained r i
    → r'.area i ≡ r.area i
unfolding append has_room_for record_bytes
append-Retained now r op table row ver payload seq r' i v e h =
    let pad = write_tail_pad_and_wrap r in
    ground (
      arith,
      append_here-outside now r op table row ver payload i,
      append_here-outside now pad op table row ver payload i,
      write_tail_pad-outside r i,
      head_pos-write_tail_pad r,
    )

append_here_frame :
    (now : ℕ) (r : WalRing) (op : ℕ) (table : ℤ) (row ver : ℕ) (payload : Bytes)
    → ((append_here now r op table row ver payload).0 ≡ r.head_seq)
      × ((append_here now r op table row ver payload).1.head_seq ≡ r.head_seq + 1)
      × ((append_here now r op table row ver payload).1.tail_seq ≡ r.tail_seq)
      × ((append_here now r op table row ver payload).1.tail_pos ≡ r.tail_pos)
unfolding append_here
append_here_frame now r op table row ver payload = (refl, refl, refl, refl)

write_tail_pad_frame :
    (r : WalRing)
    → ((write_tail_pad_and_wrap r).head_seq ≡ r.head_seq)
      × ((write_tail_pad_and_wrap r).tail_seq ≡ r.tail_seq)
      × ((write_tail_pad_and_wrap r).tail_pos ≡ r.tail_pos)
unfolding write_tail_pad_and_wrap
write_tail_pad_frame r = ground arith

-- An empty ring whose head stands inside the area accepts a record, not larger than the area,
-- that fits neither behind the head nor in front of it. The record is written from the start of the area on, and the tail, where
-- every scan begins, stays where it was: strictly inside the record.
pub append_empty_overlaps :
    (now : ℕ) (r : WalRing) (op : ℕ) (table : ℤ) (row ver : ℕ) (payload : Bytes)
    → (r.magic ≡ wal_ring_magic) × (r.poisoned ≡ false)
    → (r.head_seq ≡ r.tail_seq) × (r.head_pos ≡ r.tail_pos) × (0 < r.head_pos)
    → (r.area_bytes - r.head_pos < record_bytes (length payload))
      × (r.head_pos < record_bytes (length payload))
      × (record_bytes (length payload) ≤ r.area_bytes)
    → let r' : WalRing = (append_here now (write_tail_pad_and_wrap r) op table row ver payload).1 in
      (append now r op table row ver payload ≡ ok (r.head_seq, r'))
      × ((write_tail_pad_and_wrap r).head_pos ≡ 0)
      × (r'.head_seq ≡ r'.tail_seq + 1)
      × (0 < r'.tail_pos)
      × (r'.tail_pos < record_bytes (length payload))
unfolding append has_room_for
append_empty_overlaps now r op table row ver payload m e f =
    let pad = write_tail_pad_and_wrap r in
    ground (
      arith,
      append_here_frame now pad op table row ver payload,
      write_tail_pad_frame r,
      head_pos-write_tail_pad r,
    )
