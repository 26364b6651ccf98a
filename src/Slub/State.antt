-- ===== src/Slub/State.antt =====
-- The data of the SLUB allocator. A slab is a page whose header stands at its start; the links
-- `next_slab` and `prev_slab` of the headers are a table of their own, in the shape of the free
-- lists of the PMM. Addresses are virtual, 0 is `nullptr`.
use mio_os.Common.{ℕ, List}
use mio_os.Pmm.State.{BuddyFreeNode}

pub record SlabHeader : Type 0 where
  pub magic : ℕ
  -- the address of the `KmemCache`
  pub cache : ℕ
  pub freelist : ℕ
  pub inuse : ℕ
  pub max_objs : ℕ

-- What SLUB calls of the PMM: `alloc_pages` and `free_pages` with their counts.
pub record PageOps (A : Type 0) : Type 0 where
  pub alloc_pages : A → ℕ → ℕ × A
  pub free_pages : A → ℕ → ℕ → A

pub record Slub (A : Type 0) : Type 0 where
  -- the header at a page, and its two links
  pub header : ℕ → SlabHeader
  pub links : ℕ → BuddyFreeNode
  -- the word at the start of a free object: `*get_freepointer(object)`
  pub free_pointer : ℕ → ℕ
  -- the fields of the `KmemCache` at an address
  pub obj_size : ℕ → ℕ
  pub partial_list : ℕ → ℕ
  -- `bsp_kmalloc_caches`, and `ap_kmalloc_caches` in the order of its elements
  pub bsp_caches : ℕ → ℕ
  pub ap_caches : List (ℕ → ℕ)
  -- `*meta_pages` of the page before a large allocation
  pub meta_pages : ℕ → ℕ
  pub pages : A

abbrev pub slab_magic : ℕ
slab_magic = 0x51AB51AB

-- `sizeof(SlabHeader)`
abbrev pub header_size : ℕ
header_size = 48
