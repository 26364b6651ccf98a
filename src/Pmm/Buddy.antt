-- ===== src/Pmm/Buddy.antt =====
-- The buddy allocator: `alloc_pages` once it runs, `free_pages` and `free_pages_order`.
use mio_os.Common.{
  ℕ, zero, suc, ◌+◌, ◌-◌, ◌*◌, ◌^◌, bit_and, bit_xor, add64, sub64, not64, u64, ◌<<<◌, ◌>>>◌, ltb,
  ◌==◌, if◌then◌else◌, ◌||◌,
}
use mio_os.Mm.{page_shift, page_size, buddy_max_order}
use mio_os.Pmm.State.{Pmm, frame_ptr, ptr_frame}
use mio_os.Pmm.FreeList.{list_add, list_remove}
use mio_os.Pmm.Bitmap.{toggle_buddy_bit}
use mio_os.Pmm.Order.{pages_to_order}

-- `used_memory += PAGE_SIZE << order; free_memory -= PAGE_SIZE << order`, and back.
unfoldable pub account_alloc : Pmm → ℕ → Pmm
account_alloc s order = record s {
  used_memory = add64 s.used_memory (page_size * 2 ^ order);
  free_memory = sub64 s.free_memory (page_size * 2 ^ order);
}

unfoldable pub account_free : Pmm → ℕ → Pmm
account_free s order = record s {
  used_memory = sub64 s.used_memory (page_size * 2 ^ order);
  free_memory = add64 s.free_memory (page_size * 2 ^ order);
}

-- The first order from `order` on whose list is not empty; `left` orders are still to be tried.
-- With none it is `BUDDY_MAX_ORDER + 1`.
unfoldable pub find_order : ℕ → Pmm → ℕ → ℕ
find_order zero s order = order
find_order (suc left) s order =
    let rest = find_order left s (order + 1) in if s.free_lists order == 0 then rest else order

-- The loop that splits a block from order `current` down to `order`.
unfoldable pub split : Pmm → ℕ → ℕ → ℕ → Pmm
split s pfn order zero = s
split s pfn order (suc current) =
    let buddy_pfn = bit_xor pfn (2 ^ current) in
    let s' = list_add s (frame_ptr buddy_pfn) current in
    let rest = split (toggle_buddy_bit s' pfn current).1 pfn order current in
    if ltb order (suc current) then rest else s

-- What follows once an order with a block is found.
unfoldable pub take_block : Pmm → ℕ → ℕ → ℕ × Pmm
unfolding split account_alloc
take_block s order current =
    let block = s.free_lists current in
    let s1 = list_remove s block current in
    let pfn = ptr_frame block in
    let s2 = (toggle_buddy_bit s1 pfn current).1 in
    (u64 (pfn <<< page_shift), account_alloc (split s2 pfn order current) order)

-- `alloc_pages` with the buddy allocator running. The pointer 0 is `nullptr`.
unfoldable pub alloc_buddy : Pmm → ℕ → ℕ × Pmm
unfolding find_order take_block
alloc_buddy s num =
    let order = pages_to_order num in
    if ltb buddy_max_order order
    then (0, s)
    else (let current = find_order (buddy_max_order + 1 - order) s order in
        if ltb buddy_max_order current then (0, s) else take_block s order current)

-- The loop of `free_pages` from order `order` on, with `left = BUDDY_MAX_ORDER - order` rounds at
-- most; it ends with the push onto the list.
unfoldable pub merge : ℕ → Pmm → ℕ → ℕ → Pmm
merge zero s pfn order = list_add s (frame_ptr pfn) order
merge (suc left) s pfn order =
    let (bit_is_now_one, s1) = toggle_buddy_bit s pfn order in
    let buddy_pfn = bit_xor pfn (2 ^ order) in
    let s2 = list_remove s1 (frame_ptr buddy_pfn) order in
    let rest = merge left s2 (bit_and pfn (not64 (2 ^ order))) (order + 1) in
    if bit_is_now_one then list_add s1 (frame_ptr pfn) order else rest

unfoldable pub free_pages_order : Pmm → ℕ → ℕ → Pmm
unfolding merge account_free
free_pages_order s ptr order =
    if ptr == 0 || ltb buddy_max_order order
    then s
    else account_free (merge (buddy_max_order - order) s (ptr >>> page_shift) order) order

-- The body of `free_pages` repeats that of `free_pages_order`, at the order of `num`.
unfoldable pub free_pages : Pmm → ℕ → ℕ → Pmm
unfolding free_pages_order
free_pages s ptr num = free_pages_order s ptr (pages_to_order num)
