-- ===== src/Storage/Wal/Reclaim.antt =====
-- `ReclaimForRecord` of src/storage/wal_ring.cpp: what a reclaim may drop, and when it ends.
use rtdb_common.Common.{
  ℕ, zero, suc, ◌+◌, ◌-◌, leb, if◌then◌else◌, sym, ap, ◌≤◌, ◌<◌, ◌≡◌, ◌≢◌, ◌⊎◌, inl, inr, refl, ◌∙◌,
  arith, true, false, Bool-cases, ◌==◌,
}
use mathlib.Core.Path.{subst}
use rtdb_common.Types.{ok, err, Err, Result-cases}
use rtdb_common.Storage.Wal.{
  WalRing, has_room_for, reclaim_step, reclaim_loop, reclaim_for_record, Reclaimed, done, failed,
  out_of_fuel, decode_u32le, decode_u64le, wal_op_pad, wal_ring_magic,
}

-- The place behind `len` bytes at `pos`; at the end of the area it is the start.
abbrev pub behind : WalRing → ℕ → ℕ → ℕ
behind r pos len = if leb r.area_bytes (pos + len) then 0 else pos + len

-- A record or a pad whose length is in order and that ends in the area.
abbrev pub Whole : WalRing → ℕ → Type 0
Whole r pos = (60 ≤ decode_u32le r.area pos) × (decode_u32le r.area pos ≤ r.area_bytes - pos)

-- A walk over what the ring holds from a place on, where the record with number `seq` is due, up to a place
-- where the record with number `seq'` is: over the end of the area that is too short for a record, over
-- pads, and over whole records, each with the number that is due, none of them behind the safe one.
pub data Walk (safe : ℕ) (r : WalRing) : ℕ → ℕ → ℕ → ℕ → Type 0 where
  stay : (seq pos : ℕ) → Walk safe r seq pos seq pos
  over_end :
      (seq pos seq' pos' : ℕ)
      → r.area_bytes - pos < 60
      → Walk safe r seq 0 seq' pos'
      → Walk safe r seq pos seq' pos'
  over_pad :
      (seq pos seq' pos' : ℕ)
      → (r.area (pos + 48) ≡ wal_op_pad) × Whole r pos
      → Walk safe r seq (behind r pos (decode_u32le r.area pos)) seq' pos'
      → Walk safe r seq pos seq' pos'
  over_record :
      (seq pos seq' pos' : ℕ)
      → (decode_u64le r.area (pos + 8) ≡ seq) × Whole r pos
      → seq ≤ safe
      → Walk safe r (suc seq) (behind r pos (decode_u32le r.area pos)) seq' pos'
      → Walk safe r seq pos seq' pos'

Walk-trans :
    {safe : ℕ} {r : WalRing} {seq pos seq' pos' seq'' pos'' : ℕ}
    → Walk safe r seq pos seq' pos'
    → Walk safe r seq' pos' seq'' pos''
    → Walk safe r seq pos seq'' pos''
Walk-trans (stay seq pos) v = v
Walk-trans (over_end seq pos _ _ h w) v = over_end seq pos _ _ h (Walk-trans w v)
Walk-trans (over_pad seq pos _ _ h w) v = over_pad seq pos _ _ h (Walk-trans w v)
Walk-trans (over_record seq pos _ _ h l w) v = over_record seq pos _ _ h l (Walk-trans w v)

-- What a reclaim leaves as it was, and how far it may move the tail.
pub record KeepsUnflushed (safe : ℕ) (r r' : WalRing) : Type 0 where
  pub area : (r'.area ≡ r.area) × (r'.area_bytes ≡ r.area_bytes)
  pub head : (r'.head_seq ≡ r.head_seq) × (r'.head_pos ≡ r.head_pos)
  -- Nothing behind the safe sequence number is dropped.
  pub walked : Walk safe r r.tail_seq r.tail_pos r'.tail_seq r'.tail_pos

KeepsUnflushed-refl : (safe : ℕ) (r : WalRing) → KeepsUnflushed safe r r
KeepsUnflushed-refl safe r = record {
  area = (refl, refl);
  head = (refl, refl);
  walked = stay r.tail_seq r.tail_pos;
}

moved_tail :
    (safe : ℕ) (r r' : WalRing) (seq pos : ℕ)
    → Walk safe r r.tail_seq r.tail_pos seq pos
    → record r { tail_seq = seq; tail_pos = pos } ≡ r'
    → KeepsUnflushed safe r r'
moved_tail safe r r' seq pos w e =
    subst (KeepsUnflushed safe r) e
      (record { area = (refl, refl); head = (refl, refl); walked = w })

-- What one round may do: pass over the end of the area, a pad or a record up to the safe one.
reclaim_step-cases :
    (safe : ℕ) (r r' : WalRing)
    → reclaim_step r safe ≡ ok r'
    → let next : ℕ = behind r r.tail_pos (decode_u32le r.area r.tail_pos) in
      ((r.area_bytes - r.tail_pos < 60) × (record r { tail_seq = r.tail_seq; tail_pos = 0 } ≡ r'))
      ⊎ ((((r.area (r.tail_pos + 48) ≡ wal_op_pad) × Whole r r.tail_pos)
            × (record r { tail_seq = r.tail_seq; tail_pos = next } ≡ r'))
          ⊎ (((decode_u64le r.area (r.tail_pos + 8) ≡ r.tail_seq) × Whole r r.tail_pos)
              × (r.tail_seq ≤ safe)
              × (record r { tail_seq = suc r.tail_seq; tail_pos = next } ≡ r')))
unfolding reclaim_step
reclaim_step-cases safe r r' e = ground arith

reclaim_step-KeepsUnflushed :
    (safe : ℕ) (r r' : WalRing) → reclaim_step r safe ≡ ok r' → KeepsUnflushed safe r r'
reclaim_step-KeepsUnflushed safe r r' e =
    let next = behind r r.tail_pos (decode_u32le r.area r.tail_pos) in
    elim (reclaim_step-cases safe r r' e) [
      | inl (short, q) ↦
          moved_tail safe r r' r.tail_seq 0
            (over_end r.tail_seq r.tail_pos r.tail_seq 0 short (stay r.tail_seq 0)) q
      | inr (inl (pad, q)) ↦
          moved_tail safe r r' r.tail_seq next
            (over_pad r.tail_seq r.tail_pos r.tail_seq next pad (stay r.tail_seq next)) q
      | inr (inr (number, flushed, q)) ↦
          moved_tail safe r r' (suc r.tail_seq) next
            (over_record r.tail_seq r.tail_pos (suc r.tail_seq) next number flushed
              (stay (suc r.tail_seq) next))
            q
    ]

module _ (r s : WalRing) (a : s.area ≡ r.area) (n : s.area_bytes ≡ r.area_bytes) where
  same_behind :
      (pos : ℕ) → behind s pos (decode_u32le s.area pos) ≡ behind r pos (decode_u32le r.area pos)
  same_behind pos =
      ap (λ (m : ℕ → ℕ). behind s pos (decode_u32le m pos)) a
      ∙ ap (λ k. if leb k (pos + decode_u32le r.area pos) then 0 else pos + decode_u32le r.area pos)
          n

  Whole-area : (pos : ℕ) → Whole s pos → Whole r pos
  Whole-area pos h =
      let len : decode_u32le s.area pos ≡ decode_u32le r.area pos =
        ap (λ (m : ℕ → ℕ). decode_u32le m pos) a in
      (omega (arith, h.0, len), omega (arith, h.1, len, n))

  -- A walk sees only the bytes of the area.
  Walk-area :
      (safe : ℕ) {seq pos seq' pos' : ℕ}
      → Walk safe s seq pos seq' pos'
      → Walk safe r seq pos seq' pos'
  Walk-area safe (stay seq pos) = stay seq pos
  Walk-area safe (over_end seq pos seq' pos' h w) =
      over_end seq pos seq' pos' (omega (arith, h, n)) (Walk-area safe w)
  Walk-area safe (over_pad seq pos seq' pos' h w) =
      over_pad seq pos seq' pos' (sym (ap (λ m. m (pos + 48)) a) ∙ h.0, Whole-area pos h.1)
        (subst (λ p. Walk safe r seq p seq' pos') (same_behind pos) (Walk-area safe w))
  Walk-area safe (over_record seq pos seq' pos' h l w) =
      over_record seq pos seq' pos'
        (sym (ap (λ m. decode_u64le m (pos + 8)) a) ∙ h.0, Whole-area pos h.1) l
        (subst (λ p. Walk safe r (suc seq) p seq' pos') (same_behind pos) (Walk-area safe w))

KeepsUnflushed-trans :
    (safe : ℕ) (r s t : WalRing)
    → KeepsUnflushed safe r s
    → KeepsUnflushed safe s t
    → KeepsUnflushed safe r t
KeepsUnflushed-trans safe r s t h k = record {
  area = (k.area.0 ∙ h.area.0, k.area.1 ∙ h.area.1);
  head = (k.head.0 ∙ h.head.0, k.head.1 ∙ h.head.1);
  walked = Walk-trans h.walked (Walk-area r s h.area.0 h.area.1 safe k.walked);
}

abbrev pub Outcome : ℕ → WalRing → ℕ → Reclaimed → Type 0
Outcome safe r rec_bytes (done r') = KeepsUnflushed safe r r' × (has_room_for r' rec_bytes ≡ true)
Outcome safe r rec_bytes (failed e r') = KeepsUnflushed safe r r'
Outcome safe r rec_bytes out_of_fuel = Unit

Outcome-before :
    (safe rec_bytes : ℕ) (r s : WalRing) (o : Reclaimed)
    → KeepsUnflushed safe r s
    → Outcome safe s rec_bytes o
    → Outcome safe r rec_bytes o
Outcome-before safe rec_bytes r s (done t) h (k, room) = (KeepsUnflushed-trans safe r s t h k, room)
Outcome-before safe rec_bytes r s (failed e t) h k = KeepsUnflushed-trans safe r s t h k
Outcome-before safe rec_bytes r s out_of_fuel h k = tt

module _ (n safe rec_bytes : ℕ) (r : WalRing) where
  loop_done : has_room_for r rec_bytes ≡ true → reclaim_loop n r rec_bytes safe ≡ done r
  loop_done e = by_rounds n
    where
      by_rounds : (k : ℕ) → reclaim_loop k r rec_bytes safe ≡ done r
      by_rounds zero = unfold reclaim_loop in ground (arith, e)
      by_rounds (suc k) = unfold reclaim_loop in ground (arith, e)

  loop_spent : has_room_for r rec_bytes ≡ false → reclaim_loop zero r rec_bytes safe ≡ out_of_fuel
  unfolding reclaim_loop
  loop_spent e = ground (arith, e)

  loop_step :
      (s : WalRing)
      → has_room_for r rec_bytes ≡ false
      → reclaim_step r safe ≡ ok s
      → reclaim_loop (suc n) r rec_bytes safe ≡ reclaim_loop n s rec_bytes safe
  unfolding reclaim_loop
  loop_step s e q = ground (arith, e, q)

  loop_failed :
      (x : Err)
      → has_room_for r rec_bytes ≡ false
      → reclaim_step r safe ≡ err x
      → reclaim_loop (suc n) r rec_bytes safe ≡ failed x r
  unfolding reclaim_loop
  loop_failed x e q = ground (arith, e, q)

reclaim_loop-Outcome :
    (fuel safe rec_bytes : ℕ) (r : WalRing)
    → Outcome safe r rec_bytes (reclaim_loop fuel r rec_bytes safe)
reclaim_loop-Outcome zero safe rec_bytes r = elim (Bool-cases (has_room_for r rec_bytes)) [
  | inl e ↦ rw (loop_done zero safe rec_bytes r e) (KeepsUnflushed-refl safe r, e)
  | inr e ↦ rw (loop_spent zero safe rec_bytes r e) tt
]
reclaim_loop-Outcome (suc fuel) safe rec_bytes r = elim (Bool-cases (has_room_for r rec_bytes)) [
  | inl e ↦ rw (loop_done (suc fuel) safe rec_bytes r e) (KeepsUnflushed-refl safe r, e)
  | inr e ↦ elim (Result-cases (reclaim_step r safe)) [
    | inl (s, q) ↦ rw (loop_step fuel safe rec_bytes r s e q) (
        Outcome-before safe rec_bytes r s _ (reclaim_step-KeepsUnflushed safe r s q)
          (reclaim_loop-Outcome fuel safe rec_bytes s))
    | inr (x, q) ↦ rw (loop_failed fuel safe rec_bytes r x e q) (KeepsUnflushed-refl safe r)
  ]
]

-- A reclaim that ends has made room if it reports success. Whether it does or fails, it has changed
-- neither the bytes nor the head of the ring, and has moved the tail, its place and its number together,
-- over whole records only, each with the number that was due and none behind the safe one, over pads, and
-- over the end of the area where it is too short for a record.
pub reclaim-Outcome :
    (fuel safe rec_bytes : ℕ) (r : WalRing)
    → Outcome safe r rec_bytes (reclaim_for_record fuel r rec_bytes safe)
unfolding reclaim_for_record
reclaim-Outcome fuel safe rec_bytes r = elim (Bool-cases (r.magic == wal_ring_magic)) [
  | inl e ↦ rw e (reclaim_loop-Outcome fuel safe rec_bytes r)
  | inr e ↦ rw e (KeepsUnflushed-refl safe r)
]

-- A ring that holds one pad over its whole area.
pub record IsPadOnly (r : WalRing) : Type 0 where
  pub large : 60 ≤ r.area_bytes
  pub total : decode_u32le r.area 0 ≡ r.area_bytes
  pub op : r.area 48 ≡ wal_op_pad
  pub tail : r.tail_pos ≡ 0
  pub head : r.head_pos ≡ 0
  pub seqs : r.head_seq ≢ r.tail_seq

pad_only_step : (r : WalRing) (safe : ℕ) → IsPadOnly r → reclaim_step r safe ≡ ok r
unfolding reclaim_step
pad_only_step r safe h = ground arith

pad_only_full : (r : WalRing) (n : ℕ) → IsPadOnly r → 0 < n → has_room_for r n ≡ false
unfolding has_room_for
pad_only_full r n h p = ground arith

-- On a ring that holds one pad over its whole area, the loop makes no progress: it takes every number
-- of rounds and is not done.
pub reclaim_pad_only :
    (fuel safe rec_bytes : ℕ) (r : WalRing)
    → IsPadOnly r
    → 0 < rec_bytes
    → reclaim_loop fuel r rec_bytes safe ≡ out_of_fuel
reclaim_pad_only zero safe rec_bytes r h p =
    loop_spent zero safe rec_bytes r (pad_only_full r rec_bytes h p)
reclaim_pad_only (suc fuel) safe rec_bytes r h p =
    loop_step fuel safe rec_bytes r r (pad_only_full r rec_bytes h p) (pad_only_step r safe h)
    ∙ reclaim_pad_only fuel safe rec_bytes r h p
