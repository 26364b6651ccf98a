-- ===== src/Pmm/Bitmap.antt =====
-- `toggle_buddy_bit`: one bit for each pair of buddies of an order. The bitmap of an order is here
-- a function of the byte's index without an end: the view of the bytes that `initialize_buddy`
-- reserves for the order, which ends with the pair of frame `max_pfn`. Inside has the number of
-- these bytes, Slices the bitmaps and the toggle in the memory where they stand one behind another.
pub mod Flip
pub mod Inside
pub mod Slices
use mio_os.Common.{ℕ, ◌+◌, ◌/◌, ◌%◌, ◌^◌, bit_and, bit_xor, ◌>>>◌, ◌!=◌, Bool, ◌≡◌}
use mio_os.Pmm.State.{Pmm, update}

unfoldable pub flip : (ℕ → ℕ → ℕ) → ℕ → ℕ → ℕ → ℕ → ℕ
flip map pfn order =
    let pair_index = pfn >>> (order + 1) in
    let byte_index = pair_index / 8 in
    let bit_index = pair_index % 8 in
    update map order
      (update (map order) byte_index (bit_xor (map order byte_index) (2 ^ bit_index)))

-- The new value of the bit, and the state with it.
unfoldable pub toggle_buddy_bit : Pmm → ℕ → ℕ → Bool × Pmm
unfolding flip
toggle_buddy_bit s pfn order =
    let pair_index = pfn >>> (order + 1) in
    let map = flip s.buddy_map pfn order in
    (bit_and (map order (pair_index / 8)) (2 ^ (pair_index % 8)) != 0, record s { buddy_map = map })
