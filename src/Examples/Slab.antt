-- ===== src/Examples/Slab.antt =====
-- Instances for the allocator and the checksum of src/infra.
use rtdb_common.Common.{
  ℕ, ◌+◌, ◌-◌, ◌%◌, ◌≤◌, ◌<◌, ◌≡◌, ◌≢◌, ◌⊎◌, refl, sym, arith, [], ◌∷◌, true, false, ◌==◌,
  if◌then◌else◌,
}
use rtdb_common.Types.{ok, err, k_internal, k_incompatible_layout}
use rtdb_common.Infra.Crc32.{crc32_update, crc32_update-append}
use rtdb_common.Infra.Slab.{
  Slab, alloc_magic, slab_class_count, data_start_offset, block_hdr_magic, hdr_bytes, class_size,
  size_to_class, size_to_class_from, attach, align_up, align_down, allocate, carve_block,
  deallocate, owns_offset, reserve_permanent, used_bytes,
}
use rtdb_common.Infra.Slab.Classes.{size_to_class_smallest, attach_unaligned}
use rtdb_common.Infra.Slab.Blocks.{
  allocate_fresh, deallocate_twice, allocate-deallocate, reserve_permanent_kept,
}

-- An allocator on an image of 1 MB, from which nothing has been cut.
abbrev fresh : Slab
fresh = record {
  magic = alloc_magic;
  class_count = slab_class_count;
  data_base = data_start_offset;
  data_end = 1048576;
  bump = data_start_offset;
  carved_bytes = 0;
  free_heads = λ c. 0;
  hdr = λ i. record { class_idx = 0; magic = 0; span = 0 };
  cell = λ i. 0;
}

-- A request of 100 bytes gets a block of 128 at 8320.
abbrev one_block : Slab
one_block = record fresh {
  bump = 8448;
  carved_bytes = 256;
  hdr = λ i.
      if 8320 == i
      then record { class_idx = 2; magic = block_hdr_magic; span = 256 }
      else record { class_idx = 0; magic = 0; span = 0 };
}

class_of_100 : size_to_class 100 ≡ 2
unfolding size_to_class size_to_class_from class_size
class_of_100 = refl

allocate_100 : allocate fresh 100 ≡ ok (8320, one_block)
unfolding allocate carve_block size_to_class size_to_class_from class_size align_up
allocate_100 = refl

allocate_fresh_example :
    (fresh.bump + hdr_bytes ≤ 8320)
    × (8320 + 100 ≤ one_block.bump)
    × (one_block.bump ≤ one_block.data_end)
    × (8320 % class_size (size_to_class 100) ≡ 0)
    × (used_bytes one_block + fresh.bump ≡ used_bytes fresh + one_block.bump)
allocate_fresh_example = allocate_fresh fresh one_block 100 8320 refl allocate_100

abbrev given_back : Slab
given_back = record one_block {
  carved_bytes = 0;
  hdr = λ i.
      if 8320 == i
      then record { class_idx = 2; magic = 0x1618_1E18; span = 256 }
      else one_block.hdr i;
  cell = λ i. if 8320 == i then 0 else 0;
  free_heads = λ c. if 2 == c then 8320 else 0;
}

deallocate_8320 : deallocate one_block 8320 ≡ ok given_back
unfolding deallocate owns_offset
deallocate_8320 = refl

deallocate_twice_example : deallocate given_back 8320 ≡ err k_internal
deallocate_twice_example = deallocate_twice one_block given_back 8320 deallocate_8320

allocate-deallocate_example :
    (t : Slab) × (allocate given_back 100 ≡ ok (8320, t))
    × (used_bytes t ≡ used_bytes one_block)
    × ((c : ℕ) → t.free_heads c ≡ one_block.free_heads c)
allocate-deallocate_example =
    allocate-deallocate one_block given_back 8320 100 deallocate_8320 class_of_100' (omega arith)
      (omega arith)
  where
    class_of_100' : (one_block.hdr 8320).class_idx ≡ size_to_class 100
    class_of_100' = sym class_of_100

abbrev reserved : Slab
reserved = record fresh {
  bump = 12388;
  carved_bytes = 4196;
  hdr = λ i.
      if 12288 == i
      then record { class_idx = 12; magic = block_hdr_magic; span = 4196 }
      else record { class_idx = 0; magic = 0; span = 0 };
}

reserve_100 : reserve_permanent fresh 100 ≡ ok (12288, reserved)
unfolding reserve_permanent align_up
reserve_100 = refl

reserve_permanent_kept_example :
    (fresh.bump + hdr_bytes ≤ 12288)
    × (12288 % 4096 ≡ 0)
    × (12288 + 100 ≤ reserved.data_end)
    × ((t : Slab) → deallocate reserved 12288 ≢ ok t)
reserve_permanent_kept_example = reserve_permanent_kept fresh reserved 100 12288 reserve_100

size_to_class_smallest_example :
    (size_to_class 65 < 12)
    × (65 ≤ class_size (size_to_class 65))
    × ((size_to_class 65 ≡ 0) ⊎ (class_size (size_to_class 65 - 1) < 65))
size_to_class_smallest_example = size_to_class_smallest 65 (omega arith)

-- An image of 1000001 bytes: the data area ends 3503 bytes behind it.
abbrev odd_sized : Slab
odd_sized = record fresh { data_end = 1003520 }

attach_odd : attach fresh 1000001 true ≡ ok odd_sized
unfolding attach align_up align_down
attach_odd = refl

attach_unaligned_example :
    (1000001 < odd_sized.data_end) × (attach odd_sized 1000001 false ≡ err k_incompatible_layout)
attach_unaligned_example = attach_unaligned fresh odd_sized 1000001 (omega arith) attach_odd

crc32_update-append_example :
    crc32_update (crc32_update 0 (1 ∷ 2 ∷ [])) (255 ∷ []) ≡ crc32_update 0 (1 ∷ 2 ∷ 255 ∷ [])
crc32_update-append_example =
    crc32_update-append 0 (1 ∷ 2 ∷ []) (255 ∷ []) (omega arith) (omega arith, (omega arith, tt))
