-- ===== src/Infra/Slab.antt =====
-- The allocator of the shared image (src/infra/slab_allocator.hpp, slab_allocator.cpp).
-- The control block is a record. Of the blocks, the model holds the header in front of each user
-- offset and the first 8 bytes at it, which a free block uses as its link; the rest is the clients'.
pub mod Classes
pub mod Blocks
use rtdb_common.Common.{
  ℕ, zero, suc, ◌+◌, ◌-◌, ◌*◌, ◌/◌, ◌%◌, ◌^◌, Bool, true, false, not, ◌&&◌, ◌||◌, leb, ltb, ◌==◌,
  if◌then◌else◌,
}
use rtdb_common.Types.{
  Err, k_invalid_argument, k_bad_super_block, k_incompatible_layout, k_unsupported, k_out_of_memory,
  k_internal, Result, ok, err,
}

abbrev pub slab_class_count : ℕ
slab_class_count = 12

abbrev pub max_alloc_bytes : ℕ
max_alloc_bytes = 32 * 2 ^ 11

abbrev pub block_hdr_magic : ℕ
block_hdr_magic = 0x4C42_4442

-- `kBlockHdrMagic ^ 0x5A5A5A5A`
abbrev pub poisoned_magic : ℕ
poisoned_magic = 0x1618_1E18

abbrev pub alloc_magic : ℕ
alloc_magic = 0x5254_4442_414C_4331

abbrev pub hdr_bytes : ℕ
hdr_bytes = 16

abbrev pub data_start_offset : ℕ
data_start_offset = 8192

pub record BlockHeader : Type 0 where
  pub class_idx : ℕ
  pub magic : ℕ
  pub span : ℕ

pub record Slab : Type 0 where
  pub magic : ℕ
  pub class_count : ℕ
  pub data_base : ℕ
  pub data_end : ℕ
  pub bump : ℕ
  pub carved_bytes : ℕ
  pub free_heads : ℕ → ℕ
  pub hdr : ℕ → BlockHeader
  pub cell : ℕ → ℕ

unfoldable pub align_up : ℕ → ℕ → ℕ
align_up v a = (v + a - 1) / a * a

unfoldable pub align_down : ℕ → ℕ → ℕ
align_down v a = v / a * a

unfoldable pub class_size : ℕ → ℕ
class_size c = 32 * 2 ^ c

-- `while ((32ull << c) < size && c < kSlabClassCount - 1) ++c;` with the rounds that are left.
unfoldable pub size_to_class_from : ℕ → ℕ → ℕ → ℕ
size_to_class_from zero c size = c
size_to_class_from (suc n) c size =
    let more = size_to_class_from n (c + 1) size in if ltb (class_size c) size then more else c

unfoldable pub size_to_class : ℕ → ℕ
size_to_class size = size_to_class_from (slab_class_count - 1) 0 size

-- A function changed at one place.
abbrev pub update {ℓ} : {A : Type ℓ} → (ℕ → A) → ℕ → A → ℕ → A
update f k v i = if k == i then v else f i

-- The mapped memory is given as the control block that stands in it.
unfoldable pub attach : Slab → ℕ → Bool → Result Slab
attach ctl map_size create_new =
    if ltb map_size data_start_offset
    then err k_invalid_argument
    else if not create_new && not (ctl.magic == alloc_magic)
    then err k_bad_super_block
    else if not create_new && not (ctl.class_count == slab_class_count)
    then err k_incompatible_layout
    else if not create_new && ltb (align_down map_size 4096) ctl.data_end
    then err k_incompatible_layout
    else if create_new
    then ok (record ctl {
      magic = alloc_magic;
      class_count = slab_class_count;
      data_base = data_start_offset;
      data_end = align_up map_size 4096;
      bump = data_start_offset;
      carved_bytes = 0;
      free_heads = λ c. 0;
    })
    else ok ctl

-- A block from the free list of its class.
unfoldable pub reuse_block : Slab → ℕ → Slab
reuse_block s cls =
    let user_off = s.free_heads cls in
    record s {
      free_heads = update s.free_heads cls (s.cell user_off);
      carved_bytes = s.carved_bytes + (s.hdr user_off).span;
      hdr =
          update s.hdr user_off
            (record (s.hdr user_off) { class_idx = cls; magic = block_hdr_magic });
    }

-- A block from the space that has not been cut; its user area begins at `off`.
unfoldable pub carve_block : Slab → ℕ → ℕ → Slab
carve_block s cls off =
    let span = off + class_size cls - s.bump in
    record s {
      bump = off + class_size cls;
      carved_bytes = s.carved_bytes + span;
      hdr = update s.hdr off (record { class_idx = cls; magic = block_hdr_magic; span = span });
    }

unfoldable pub allocate : Slab → ℕ → Result (ℕ × Slab)
allocate s size =
    let cls = size_to_class size in
    let cls_size = class_size cls in
    let off = align_up (s.bump + hdr_bytes) (if ltb 8 cls_size then cls_size else 8) in
    if size == 0 || ltb (class_size (slab_class_count - 1)) size
    then err k_unsupported
    else if not (s.free_heads cls == 0)
    then ok (s.free_heads cls, reuse_block s cls)
    else if ltb s.data_end (off + cls_size)
    then err k_out_of_memory
    else ok (off, carve_block s cls off)

unfoldable pub owns_offset : Slab → ℕ → Bool
owns_offset s user_off =
    leb (s.data_base + hdr_bytes) user_off && leb (user_off + 8) s.data_end && user_off % 8 == 0

unfoldable pub deallocate : Slab → ℕ → Result Slab
deallocate s user_off =
    let h = s.hdr user_off in
    if not (owns_offset s user_off)
    then err k_invalid_argument
    else if not (h.magic == block_hdr_magic) || leb slab_class_count h.class_idx
    then err k_internal
    else if h.span == 0 || ltb s.carved_bytes h.span
    then err k_internal
    else ok (record s {
      hdr = update s.hdr user_off (record h { magic = poisoned_magic });
      carved_bytes = s.carved_bytes - h.span;
      cell = update s.cell user_off (s.free_heads h.class_idx);
      free_heads = update s.free_heads h.class_idx user_off;
    })

unfoldable pub reserve_permanent : Slab → ℕ → Result (ℕ × Slab)
reserve_permanent s size =
    let off = align_up (s.bump + hdr_bytes) 4096 in
    let span = off + size - s.bump in
    if size == 0
    then err k_invalid_argument
    else if ltb s.data_end off || ltb (s.data_end - off) size
    then err k_out_of_memory
    else ok (
      off,
      record s {
        bump = off + size;
        carved_bytes = s.carved_bytes + span;
        hdr =
            update s.hdr off
              (record { class_idx = slab_class_count; magic = block_hdr_magic; span = span });
      },
    )

unfoldable pub capacity_bytes : Slab → ℕ
capacity_bytes s = s.data_end - s.data_base

unfoldable pub used_bytes : Slab → ℕ
used_bytes s = s.carved_bytes
