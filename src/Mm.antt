-- ===== src/Mm.antt =====
-- Constants of include/mm/mm_defs.hpp, and the alignment helpers of it and of
-- kernel/lib/mem_util.cpp.
pub mod Align
use mio_os.Common.{ℕ, ◌-◌, ◌^◌, bit_and, add64, sub64, not64, Bool, ◌==◌}

abbrev pub hhdm_base : ℕ
hhdm_base = 0xFFFF800000000000

abbrev pub early_boot_map_limit : ℕ
early_boot_map_limit = 0x40000000

abbrev pub buddy_max_order : ℕ
buddy_max_order = 10

abbrev pub page_shift : ℕ
page_shift = 12

abbrev pub page_size : ℕ
page_size = 4096

abbrev pub page_size_2m : ℕ
page_size_2m = 0x200000

abbrev pub page_size_1g : ℕ
page_size_1g = 0x40000000

abbrev pub page_mask : ℕ
page_mask = 4095

-- `align_up` and `align_down` of mem_util.cpp.
unfoldable pub align_up : ℕ → ℕ → ℕ
align_up value alignment = bit_and (add64 value (sub64 alignment 1)) (not64 (sub64 alignment 1))

unfoldable pub align_down : ℕ → ℕ → ℕ
align_down value alignment = bit_and value (not64 (sub64 alignment 1))

-- The versions of mm_defs.hpp for a page.
unfoldable pub page_align_up : ℕ → ℕ
page_align_up addr = bit_and (add64 addr page_mask) (not64 page_mask)

unfoldable pub page_align_down : ℕ → ℕ
page_align_down addr = bit_and addr (not64 page_mask)

unfoldable pub is_page_aligned : ℕ → Bool
is_page_aligned addr = bit_and addr page_mask == 0
