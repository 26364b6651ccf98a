-- ===== src/Pmm/Start/Examples.antt =====
-- A map with one usable region of a mebibyte, which the kernel begins.
use mio_os.Common.{true, false, some, List, [], ◌∷◌}
use mio_os.Pmm.State.{Pmm, MemoryEntry}

abbrev regions : List MemoryEntry
regions =
    record { addr = 0x100000; len = 0x100000; is_usable = true; type = 1; is_uefi = false } ∷ []

abbrev early : Pmm
early = record {
  node = λ a. record { next = 0; prev = 0 };
  free_lists = λ o. 0;
  buddy_map = λ o i. 0;
  total_memory = 0;
  free_memory = 0;
  used_memory = 0;
  initialized_buddy = false;
  bump_ptr_phys = 0x104000;
  bump_region_end_phys = 0x200000;
  highest_reserved_phys = 0x102345;
  bump_watermark = 0x102345;
  mmap = some regions;
}
