-- ===== src/Pmm/State.antt =====
-- The static data of `PMM` (include/mm/pmm.hpp) and of pmm.cpp, with the memory that it writes:
-- the list nodes at the start of free pages and the bytes of the XOR bitmaps.
use mio_os.Common.{ℕ, add64, sub64, ◌<<<◌, ◌>>>◌, u64, ◌==◌, Bool, Option, List}
use mio_os.Common.{if◌then◌else◌}
use mio_os.Mm.{hhdm_base, page_shift}

-- `buddy_free_node`: addresses, with 0 for `nullptr`.
pub record BuddyFreeNode : Type 0 where
  pub next : ℕ
  pub prev : ℕ

-- An entry of the memory map, as `UnifiedMemoryEntry` of include/mm/mmap_util.hpp has it.
pub record MemoryEntry : Type 0 where
  pub addr : ℕ
  pub len : ℕ
  pub is_usable : Bool
  pub type : ℕ
  pub is_uefi : Bool

pub record Pmm : Type 0 where
  -- the node at a virtual address
  pub node : ℕ → BuddyFreeNode
  -- the head of the list of an order
  pub free_lists : ℕ → ℕ
  -- the byte at an order and an index: the view of the bitmaps that Bitmap/Slices takes of the block
  -- of memory that holds them one behind the other. It is that view for frames up to `max_pfn` alone.
  pub buddy_map : ℕ → ℕ → ℕ
  pub total_memory : ℕ
  pub free_memory : ℕ
  pub used_memory : ℕ
  pub initialized_buddy : Bool
  pub bump_ptr_phys : ℕ
  pub bump_region_end_phys : ℕ
  pub highest_reserved_phys : ℕ
  pub bump_watermark : ℕ
  -- the regions that `MmapIterator` visits, in order; `none` for a null tag
  pub mmap : Option (List MemoryEntry)

-- `(pfn << PAGE_SHIFT) + HHDM_BASE`
unfoldable pub frame_ptr : ℕ → ℕ
frame_ptr pfn = add64 (u64 (pfn <<< page_shift)) hhdm_base

-- `((uintptr_t)block - HHDM_BASE) >> PAGE_SHIFT`
unfoldable pub ptr_frame : ℕ → ℕ
ptr_frame block = sub64 block hhdm_base >>> page_shift

-- A write of one cell of a table.
abbrev pub update {ℓ} : {A : Type ℓ} → (ℕ → A) → ℕ → A → ℕ → A
update f k v i = if i == k then v else f i
