-- ===== src/Pmm/Region.antt =====
-- Single pages and regions: `is_page_free`, `allocate_specific_page`, `alloc_page_below_1mib`,
-- `mark_region_free`, `mark_region_used` and `reclaim_acpi_memory`. A walk along a list has fuel
-- for its nodes.
pub mod Walk
pub mod Take
pub mod Mark
pub mod Below
pub mod Inside
use mio_os.Common.{
  ℕ, zero, suc, ◌+◌, ◌-◌, ◌/◌, ◌^◌, bit_xor, add64, sub64, u64, ◌<<<◌, ◌>>>◌, ltb, leb, ◌==◌,
  if◌then◌else◌, Bool, true, false, not, ◌&&◌, ◌||◌, Option, none, some, List, [], ◌∷◌,
}
use mio_os.Mm.{page_shift, page_size, align_up, align_down}
use mio_os.Pmm.State.{BuddyFreeNode, Pmm, MemoryEntry, frame_ptr, ptr_frame}
use mio_os.Pmm.FreeList.{list_add, list_remove}
use mio_os.Pmm.Bitmap.{toggle_buddy_bit}
use mio_os.Pmm.Buddy.{free_pages}

-- `while (curr)`: the node whose block holds `target_pfn`, or 0.
unfoldable pub walk : ℕ → (ℕ → BuddyFreeNode) → ℕ → ℕ → ℕ → ℕ
walk zero node order target_pfn curr = 0
walk (suc fuel) node order target_pfn curr =
    let block_pfn = ptr_frame curr in
    let rest = walk fuel node order target_pfn (node curr).next in
    if curr == 0
    then 0
    else if leb block_pfn target_pfn && ltb target_pfn (block_pfn + 2 ^ order)
    then curr
    else rest

-- The loop over the orders: the first order with such a node, and the node.
unfoldable pub scan : ℕ → ℕ → Pmm → ℕ → ℕ → Option (ℕ × ℕ)
unfolding walk
scan zero fuel s target_pfn order = none
scan (suc left) fuel s target_pfn order =
    let curr = walk fuel s.node order target_pfn (s.free_lists order) in
    let rest = scan left fuel s target_pfn (order + 1) in
    if curr == 0 then rest else some (order, curr)

unfoldable pub is_page_free : ℕ → Pmm → ℕ → Bool
unfolding scan
is_page_free fuel s target_pfn = elim (scan 11 fuel s target_pfn 0) [ none ↦ false | some _ ↦ true ]

-- The loop that splits a block down to the target page, keeping the half with the target.
unfoldable pub carve : Pmm → ℕ → ℕ → ℕ → Pmm
carve s pfn target_pfn zero = s
carve s pfn target_pfn (suc current_order) =
    let buddy_pfn = bit_xor pfn (2 ^ current_order) in
    let in_buddy = leb buddy_pfn target_pfn && ltb target_pfn (buddy_pfn + 2 ^ current_order) in
    let free_half = if in_buddy then pfn else buddy_pfn in
    let kept = if in_buddy then buddy_pfn else pfn in
    let s' = list_add s (frame_ptr free_half) current_order in
    carve (toggle_buddy_bit s' kept current_order).1 kept target_pfn current_order

unfoldable pub take_page : Pmm → ℕ → ℕ → ℕ → Pmm
unfolding carve
take_page s target_pfn order curr =
    let block_pfn = ptr_frame curr in
    let s1 = (toggle_buddy_bit (list_remove s curr order) block_pfn order).1 in
    let s2 = carve s1 block_pfn target_pfn order in
    record s2 {
      used_memory = add64 s2.used_memory page_size;
      free_memory = sub64 s2.free_memory page_size;
    }

unfoldable pub allocate_specific_page : ℕ → Pmm → ℕ → Bool × Pmm
unfolding scan take_page
allocate_specific_page fuel s target_pfn = elim (scan 11 fuel s target_pfn 0) [
  | none ↦ (false, s)
  | some (order, curr) ↦ (true, take_page s target_pfn order curr)
]

-- `for (pfn = 8; pfn < 256; pfn++)`
unfoldable pub below_loop : ℕ → ℕ → Pmm → ℕ → ℕ × Pmm
below_loop zero fuel s pfn = (0, s)
below_loop (suc left) fuel s pfn =
    let (ok, s') = allocate_specific_page fuel s pfn in
    let rest = below_loop left fuel s' (pfn + 1) in
    if ok then (u64 (pfn <<< page_shift), s') else rest

unfoldable pub alloc_page_below_1mib : ℕ → Pmm → ℕ × Pmm
unfolding below_loop
alloc_page_below_1mib fuel s = if s.initialized_buddy then below_loop 248 fuel s 8 else (0, s)

-- `for (p = start; p < end; p += PAGE_SIZE)`, at most `rounds` times.
unfoldable pub free_loop : ℕ → ℕ → Pmm → ℕ → ℕ → Pmm
free_loop zero fuel s p end = s
free_loop (suc rounds) fuel s p end =
    let s' = if is_page_free fuel s (p >>> page_shift) then s else free_pages s p 1 in
    let rest = free_loop rounds fuel s' (add64 p page_size) end in if ltb p end then rest else s

unfoldable pub used_loop : ℕ → ℕ → Pmm → ℕ → ℕ → Pmm
used_loop zero fuel s p end = s
used_loop (suc rounds) fuel s p end =
    let s' = (allocate_specific_page fuel s (p >>> page_shift)).1 in
    let rest = used_loop rounds fuel s' (add64 p page_size) end in if ltb p end then rest else s

unfoldable pub mark_region_free : ℕ → Pmm → ℕ → ℕ → Pmm
unfolding free_loop
mark_region_free fuel s base length =
    let start = align_up base page_size in
    let end = align_down (add64 base length) page_size in
    if s.initialized_buddy then free_loop ((end - start) / page_size) fuel s start end else s

unfoldable pub mark_region_used : ℕ → Pmm → ℕ → ℕ → Pmm
unfolding used_loop
mark_region_used fuel s base length =
    let start = align_down base page_size in
    let end = align_up (add64 base length) page_size in
    if s.initialized_buddy then used_loop ((end - start) / page_size) fuel s start end else s

-- `UnifiedMemoryEntry::is_acpi_reclaimable`
unfoldable pub is_acpi_reclaimable : MemoryEntry → Bool
is_acpi_reclaimable ent =
    if ent.is_uefi && (ent.type == 9)
    then true
    else if not ent.is_uefi && (ent.type == 3)
    then true
    else false

unfoldable pub reclaim_entries : ℕ → Pmm → List MemoryEntry → Pmm
unfolding is_acpi_reclaimable
reclaim_entries fuel s [] = s
reclaim_entries fuel s (ent ∷ ents) =
    reclaim_entries fuel
      (if is_acpi_reclaimable ent then mark_region_free fuel s ent.addr ent.len else s) ents

unfoldable pub reclaim_acpi_memory : ℕ → Pmm → Pmm
unfolding reclaim_entries
reclaim_acpi_memory fuel s = elim s.mmap [
  | none ↦ s
  | some ents ↦ if s.initialized_buddy then reclaim_entries fuel s ents else s
]
