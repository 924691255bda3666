-- ===== src/Infra/Slab/Classes.antt =====
-- Size classes and alignment of the allocator.
use native.Mathlib.Nat.{mod-lt, div-add-mod', mul-mod_left}
use rtdb_common.Common.{ℕ, ◌+◌, ◌-◌, ◌/◌, ◌%◌, ◌≤◌, ◌<◌, ◌≡◌, ◌≢◌, ◌⊎◌, arith, true, false}
use rtdb_common.Types.{ok, err, k_incompatible_layout}
use rtdb_common.Infra.Slab.{
  Slab, align_up, align_down, class_size, size_to_class_from, size_to_class, attach,
  max_alloc_bytes,
}

-- A request of at most 64 KB gets one of the twelve classes, and of them the smallest that holds it.
pub size_to_class_smallest :
    (size : ℕ)
    → size ≤ max_alloc_bytes
    → (size_to_class size < 12)
      × (size ≤ class_size (size_to_class size))
      × ((size_to_class size ≡ 0) ⊎ (class_size (size_to_class size - 1) < size))
unfolding size_to_class size_to_class_from class_size
size_to_class_smallest size h = ground arith

-- The rounded number is a multiple, not smaller, and less than one step larger.
pub align_up_least :
    (v a : ℕ) → 0 < a → (v ≤ align_up v a) × (align_up v a < v + a) × (align_up v a % a ≡ 0)
unfolding align_up
align_up_least v a h =
    grind
      (arith, div-add-mod' (v + a - 1) a, mod-lt (v + a - 1) h, mul-mod_left ((v + a - 1) / a) a)

-- A fresh image whose size is no multiple of 4096 gets a data area that ends behind the mapping, and
-- cannot be attached again with the size that it was made with.
pub attach_unaligned :
    (ctl s : Slab) (map_size : ℕ)
    → map_size % 4096 ≢ 0
    → attach ctl map_size true ≡ ok s
    → (map_size < s.data_end) × (attach s map_size false ≡ err k_incompatible_layout)
unfolding attach align_up align_down
attach_unaligned ctl s map_size h e = ground arith
