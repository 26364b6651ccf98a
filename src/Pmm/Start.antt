-- ===== src/Pmm/Start.antt =====
-- The start of the two allocators: `initialize_bump`, `check_overlap_with_reserved` and
-- `initialize_buddy`. `kernel_start` and `kernel_end` are the addresses of the linker's symbols.
pub mod Order
pub mod Advance
pub mod Insert
pub mod Measure
pub mod Moved
pub mod Establish
pub mod Examples
use mio_os.Common.{
  ℕ, zero, suc, ◌+◌, ◌-◌, ◌*◌, ◌/◌, ◌%◌, ◌^◌, add64, sub64, ◌>>>◌, ltb, leb, ◌==◌, if◌then◌else◌,
  Bool, true, false, not, ◌&&◌, ◌||◌, Option, none, some, List, [], ◌∷◌,
}
use mio_os.Mm.{hhdm_base, page_size, buddy_max_order, align_up, align_down}
use mio_os.Pmm.State.{Pmm, MemoryEntry}
use mio_os.Pmm.Buddy.{free_pages_order}
use mio_os.Pmm.Bump.{Run, alloc_pages_bump}

-- `multiboot_word` is what `*(VirtAddr*)multiboot_ptr` reads. A panic is `none`.
unfoldable pub initialize_bump :
    (kernel_end multiboot_word multiboot_ptr : ℕ)
    → Option (List MemoryEntry)
    → Pmm
    → Option (Bool × Pmm)
initialize_bump kernel_end multiboot_word multiboot_ptr none s = none
initialize_bump kernel_end multiboot_word multiboot_ptr (some ents) s =
    let mb_total_size = sub64 multiboot_word hhdm_base in
    let mb_end = add64 multiboot_ptr mb_total_size in
    let highest = if ltb kernel_end mb_end then mb_end else kernel_end in
    some (
      true,
      record s { mmap = some ents; highest_reserved_phys = highest; bump_watermark = highest },
    )

unfoldable pub check_overlap_with_reserved : (kernel_start : ℕ) → Pmm → ℕ → ℕ → Bool
check_overlap_with_reserved kernel_start s p block_size =
    let block_end = add64 p block_size in
    let kernel_mbi_end = align_up s.highest_reserved_phys page_size in
    if ltb p kernel_mbi_end && ltb kernel_start block_end
    then true
    else if ltb p s.bump_ptr_phys && ltb s.highest_reserved_phys block_end
    then true
    else false

-- The first visit: the sizes of the usable regions, and the largest of their ends.
unfoldable pub measure_entry : ℕ × Pmm → MemoryEntry → ℕ × Pmm
measure_entry (max_usable_addr, s) ent =
    let entry_end = add64 ent.addr ent.len in
    if not ent.is_usable then (max_usable_addr, s) else (
      (if ltb max_usable_addr entry_end then entry_end else max_usable_addr),
      record s { total_memory = add64 s.total_memory ent.len },
    )

unfoldable pub measure_entries : ℕ × Pmm → List MemoryEntry → ℕ × Pmm
unfolding measure_entry
measure_entries st [] = st
measure_entries st (ent ∷ ents) = measure_entries (measure_entry st ent) ents

-- The bytes of the bitmap of an order, and of those of all orders below `count`.
unfoldable pub bytes_needed : ℕ → ℕ → ℕ
bytes_needed max_pfn order =
    let num_pairs = add64 (max_pfn >>> (order + 1)) 1 in
    let bytes = add64 num_pairs 7 / 8 in if bytes == 0 then 1 else bytes

unfoldable pub total_bitmap_bytes : ℕ → ℕ → ℕ
unfolding bytes_needed
total_bitmap_bytes zero max_pfn = 0
total_bitmap_bytes (suc count) max_pfn =
    add64 (total_bitmap_bytes count max_pfn) (bytes_needed max_pfn count)

-- `while (order > 0)`: the largest order whose block at `p` fits.
unfoldable pub find_fit : (kernel_start : ℕ) → Pmm → ℕ → ℕ → ℕ → ℕ
unfolding check_overlap_with_reserved
find_fit kernel_start s p region_end zero = 0
find_fit kernel_start s p region_end (suc order) =
    let block_size = page_size * 2 ^ suc order in
    let lower = find_fit kernel_start s p region_end order in
    if leb (add64 p block_size) region_end && (p % block_size == 0)
    then (if not (check_overlap_with_reserved kernel_start s p block_size)
        then suc order
        else lower)
    else lower

-- One round of the loop over a region: the state and the next address.
unfoldable pub advance : (kernel_start kernel_mbi_end : ℕ) → Pmm → ℕ → ℕ → Pmm × ℕ
unfolding find_fit
advance kernel_start kernel_mbi_end s p region_end =
    let order = find_fit kernel_start s p region_end buddy_max_order in
    if p == 0
    then (s, add64 p page_size)
    else if leb kernel_start p && ltb p kernel_mbi_end
    then (s, kernel_mbi_end)
    else if leb s.highest_reserved_phys p && ltb p s.bump_ptr_phys
    then (s, s.bump_ptr_phys)
    else (free_pages_order s p order, add64 p (page_size * 2 ^ order))

-- `while (p < region_end)`; `none` when it still runs.
unfoldable pub insert_region : (fuel kernel_start kernel_mbi_end : ℕ) → Pmm → ℕ → ℕ → Option Pmm
unfolding advance
insert_region zero kernel_start kernel_mbi_end s p region_end = none
insert_region (suc fuel) kernel_start kernel_mbi_end s p region_end =
    let (s', p') = advance kernel_start kernel_mbi_end s p region_end in
    let rest = insert_region fuel kernel_start kernel_mbi_end s' p' region_end in
    if ltb p region_end then rest else some s

unfoldable pub insert_entries :
    (fuel kernel_start kernel_mbi_end : ℕ) → Pmm → List MemoryEntry → Option Pmm
unfolding insert_region
insert_entries fuel kernel_start kernel_mbi_end s [] = some s
insert_entries fuel kernel_start kernel_mbi_end s (ent ∷ ents) =
    let p = align_up ent.addr page_size in
    let region_end = align_down (add64 ent.addr ent.len) page_size in
    elim (if not ent.is_usable
      then some s
      else insert_region fuel kernel_start kernel_mbi_end s p region_end) [
        | none ↦ none
        | some s' ↦ insert_entries fuel kernel_start kernel_mbi_end s' ents
      ]

-- `alloc_pages_bump` has given the memory of the bitmaps, which is cleared and divided among the
-- orders; the regions follow.
unfoldable pub fill_lists :
    (fuel kernel_start : ℕ) → List MemoryEntry → Run (ℕ × Pmm) → Run (Bool × Pmm)
unfolding insert_entries
fill_lists fuel kernel_start ents Run.panicked = Run.panicked
fill_lists fuel kernel_start ents Run.running = Run.running
fill_lists fuel kernel_start ents (Run.done (bitmap_memory, s)) =
    let kernel_mbi_end = align_up s.highest_reserved_phys page_size in
    let s' = record s { buddy_map = λ order byte_index. 0 } in
    elim (insert_entries fuel kernel_start kernel_mbi_end s' ents) [
      | none ↦ Run.running
      | some s'' ↦ Run.done (true, record s'' { initialized_buddy = true })
    ]

-- `bump_fuel` is for the search of the bump allocator, `fuel` for each region.
unfoldable pub initialize_buddy :
    (bump_fuel fuel kernel_start : ℕ) → Option (List MemoryEntry) → Pmm → Run (Bool × Pmm)
unfolding measure_entries total_bitmap_bytes fill_lists
initialize_buddy bump_fuel fuel kernel_start none s = Run.panicked
initialize_buddy bump_fuel fuel kernel_start (some ents) s =
    let cleared = record s {
      free_lists = λ order. if leb order buddy_max_order then 0 else s.free_lists order;
    } in
    let (max_usable_addr, s') = measure_entries (0, cleared) ents in
    let total_pages = sub64 (add64 max_usable_addr page_size) 1 / page_size in
    let bytes = total_bitmap_bytes (buddy_max_order + 1) (total_pages - 1) in
    let bitmap_pages = align_up bytes page_size / page_size in
    let s'' = record s' { used_memory = s'.total_memory; free_memory = 0 } in
    if total_pages == 0
    then Run.panicked
    else fill_lists fuel kernel_start ents (alloc_pages_bump bump_fuel s'' bitmap_pages)
