-- ===== src/Infra/Slab/Blocks.antt =====
-- Blocks of the allocator: where a new one lies, what is accounted for it, and what happens to one
-- that is given back.
use native.Mathlib.Nat.{one-le-pow}
use mathlib.Core.Path.{subst}
use rtdb_common.Common.{ℕ, ◌+◌, ◌-◌, ◌%◌, ◌≤◌, ◌<◌, ◌≡◌, ◌≢◌, refl, arith, ==_iff}
use rtdb_common.Types.{ok, err, k_internal}
use rtdb_common.Infra.Slab.{
  Slab, class_size, size_to_class, allocate, deallocate, reserve_permanent, owns_offset, update,
  carve_block, reuse_block, max_alloc_bytes, poisoned_magic, hdr_bytes, used_bytes,
}
use rtdb_common.Infra.Slab.Classes.{align_up_least, size_to_class_smallest}

class_size_pos : (c : ℕ) → 8 < class_size c
unfolding class_size
class_size_pos c = omega (arith, one-le-pow c 2)

class_size_last : class_size 11 ≡ max_alloc_bytes
unfolding class_size
class_size_last = refl

-- Where the free list of the class is empty, a request that succeeds gets a block behind everything
-- that was cut before, aligned to its class, as long as asked for and within the data area; the account grows by exactly the space that the cut took.
pub allocate_fresh :
    (s s' : Slab) (size off : ℕ)
    → s.free_heads (size_to_class size) ≡ 0
    → allocate s size ≡ ok (off, s')
    → (s.bump + hdr_bytes ≤ off)
      × (off + size ≤ s'.bump)
      × (s'.bump ≤ s.data_end)
      × (off % class_size (size_to_class size) ≡ 0)
      × (used_bytes s' + s.bump ≡ used_bytes s + s'.bump)
unfolding allocate carve_block used_bytes
allocate_fresh s s' size off f e = ground (
  arith,
  class_size_pos (size_to_class size),
  class_size_last,
  size_to_class_smallest size,
  align_up_least (s.bump + hdr_bytes) (class_size (size_to_class size)),
)

-- A block that has been given back is not taken back a second time.
pub deallocate_twice :
    (s s' : Slab) (off : ℕ) → deallocate s off ≡ ok s' → deallocate s' off ≡ err k_internal
unfolding deallocate owns_offset
deallocate_twice s s' off e = ground (arith, ==_iff off off)

-- The state that a block given back leaves.
abbrev freed : Slab → ℕ → Slab
freed s off = record s {
  hdr = update s.hdr off (record (s.hdr off) { magic = poisoned_magic });
  carved_bytes = s.carved_bytes - (s.hdr off).span;
  cell = update s.cell off (s.free_heads (s.hdr off).class_idx);
  free_heads = update s.free_heads (s.hdr off).class_idx off;
}

deallocate_ok :
    (s s' : Slab) (off : ℕ)
    → deallocate s off ≡ ok s'
    → (freed s off ≡ s') × (0 < off) × ((s.hdr off).span ≤ s.carved_bytes)
unfolding deallocate owns_offset
deallocate_ok s s' off e = ground arith

abbrev ReusedLast : Slab → ℕ → ℕ → Slab → Type 0
ReusedLast s off size s' =
    (t : Slab) × (allocate s' size ≡ ok (off, t))
    × (used_bytes t ≡ used_bytes s)
    × ((c : ℕ) → t.free_heads c ≡ s.free_heads c)

freed-ReusedLast :
    (s : Slab) (off size : ℕ)
    → 0 < off
    → (s.hdr off).span ≤ s.carved_bytes
    → (s.hdr off).class_idx ≡ size_to_class size
    → 0 < size
    → size ≤ max_alloc_bytes
    → ReusedLast s off size (freed s off)
unfolding allocate reuse_block used_bytes
freed-ReusedLast s off size o p h z l = (
  reuse_block (freed s off) (size_to_class size),
  ground (arith, class_size_last),
  ground arith,
  λ c. ground arith,
)

-- A block that is given back is handed out to the next request of its class, which succeeds, and
-- then the account and the free lists are what they were before.
pub allocate-deallocate :
    (s s' : Slab) (off size : ℕ)
    → deallocate s off ≡ ok s'
    → (s.hdr off).class_idx ≡ size_to_class size
    → 0 < size
    → size ≤ max_alloc_bytes
    → (t : Slab) × (allocate s' size ≡ ok (off, t))
      × (used_bytes t ≡ used_bytes s)
      × ((c : ℕ) → t.free_heads c ≡ s.free_heads c)
allocate-deallocate s s' off size e h z l =
    let (same, o, p) = deallocate_ok s s' off e in
    subst (ReusedLast s off size) same (freed-ReusedLast s off size o p h z l)

-- A permanent area that is reserved lies on a page behind everything that was cut before, within the
-- data area, and giving it back fails.
pub reserve_permanent_kept :
    (s s' : Slab) (size off : ℕ)
    → reserve_permanent s size ≡ ok (off, s')
    → (s.bump + hdr_bytes ≤ off)
      × (off % 4096 ≡ 0)
      × (off + size ≤ s'.data_end)
      × ((t : Slab) → deallocate s' off ≢ ok t)
unfolding reserve_permanent deallocate
reserve_permanent_kept s s' size off e =
    let up = align_up_least (s.bump + hdr_bytes) 4096 (omega arith) in
    (ground (arith, up), ground (arith, up), ground arith, λ t q. ground (arith, ==_iff off off))
