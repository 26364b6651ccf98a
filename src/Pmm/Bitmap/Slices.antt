-- ===== src/Pmm/Bitmap/Slices.antt =====
-- The bitmaps as `initialize_buddy` of kernel/mm/pmm.cpp lays them out, one behind the other in a
-- block of memory, and the toggle of a bit there.
use mio_os.Common.{
  ℕ, zero, suc, ◌+◌, ◌*◌, ◌/◌, ◌%◌, ◌^◌, ◌≤◌, ◌<◌, ◌≡◌, refl, inl, inr, arith, ◌==◌, false, ◌>>>◌,
  bit_xor, Bool-cases,
}
use native.Mathlib.Nat.{div-le_self}
use mio_os.Runtime.Memory.{Memory}
use mio_os.Pmm.State.{update}
use mio_os.Pmm.Frame.{frame_limit}
use mio_os.Pmm.Bitmap.{flip}
use mio_os.Pmm.Bitmap.Inside.{byte-lt}
use mio_os.Pmm.Start.{bytes_needed, total_bitmap_bytes}

-- `buddy_map[order]`: the offset is the sum of the bytes of the orders below.
unfoldable pub slice : (bitmap_memory max_pfn order : ℕ) → ℕ
slice bitmap_memory max_pfn order = bitmap_memory + total_bitmap_bytes order max_pfn

-- The write of `toggle_buddy_bit`.
unfoldable pub toggle_byte : Memory → (bitmap_memory max_pfn pfn order : ℕ) → Memory
unfolding slice
toggle_byte m bitmap_memory max_pfn pfn order =
    let pair_index = pfn >>> (order + 1) in
    let p = slice bitmap_memory max_pfn order + pair_index / 8 in
    update m p (bit_xor (m p) (2 ^ (pair_index % 8)))

-- The bitmaps of the orders are these bytes.
abbrev pub Sliced : Memory → (bitmap_memory max_pfn : ℕ) → (ℕ → ℕ → ℕ) → Type 0
Sliced m bitmap_memory max_pfn map =
    (o b : ℕ)
    → o < 11
    → b < bytes_needed max_pfn o
    → m (slice bitmap_memory max_pfn o + b) ≡ map o b

bytes_needed-le : (max_pfn o : ℕ) → max_pfn < frame_limit → bytes_needed max_pfn o ≤ frame_limit
unfolding bytes_needed
bytes_needed-le max_pfn o top = ground (arith, div-le_self max_pfn (2 ^ (o + 1)))

total-le :
    (max_pfn count : ℕ)
    → max_pfn < frame_limit
    → count ≤ 11
    → total_bitmap_bytes count max_pfn ≤ count * frame_limit
unfolding total_bitmap_bytes
total-le max_pfn zero top few = omega arith
total-le max_pfn (suc count) top few =
    omega (arith, total-le max_pfn count top (omega arith), bytes_needed-le max_pfn count top)

-- The bytes of an order end before those of a higher one begin.
slices_apart :
    (max_pfn o i : ℕ)
    → max_pfn < frame_limit
    → o < i
    → i ≤ 11
    → total_bitmap_bytes o max_pfn + bytes_needed max_pfn o ≤ total_bitmap_bytes i max_pfn
unfolding total_bitmap_bytes
slices_apart max_pfn o zero top lt few = absurd (omega arith)
slices_apart max_pfn o (suc i) top lt few = elim (Bool-cases (o == i)) [
  | inl e ↦
      let e' : o ≡ i = ground arith in
      rw e' (omega (arith, total-le max_pfn i top (omega arith), bytes_needed-le max_pfn i top))
  | inr e ↦ omega (
    arith,
    slices_apart max_pfn o i top (ground arith) (omega arith),
    total-le max_pfn i top (omega arith),
    bytes_needed-le max_pfn i top,
  )
]

-- Of two bytes in the bitmaps, those with another order or index stand elsewhere.
elsewhere :
    (base max_pfn o b i c : ℕ)
    → max_pfn < frame_limit
    → o < i
    → i < 11
    → b < bytes_needed max_pfn o
    → slice base max_pfn o + b < slice base max_pfn i + c
unfolding slice
elsewhere base max_pfn o b i c top lt few h =
    omega (arith, slices_apart max_pfn o i top lt (omega arith))

module _ (m : Memory) (base max_pfn : ℕ) (map : ℕ → ℕ → ℕ) (pfn o : ℕ) (few : o < 11)
    (top : max_pfn < frame_limit) (h : pfn ≤ max_pfn) (sliced : Sliced m base max_pfn map) where
  -- In the bitmap of the order itself.
  own_byte :
      (b : ℕ)
      → b < bytes_needed max_pfn o
      → toggle_byte m base max_pfn pfn o (slice base max_pfn o + b)
        ≡ update
            (map o)
            ((pfn >>> (o + 1)) / 8)
            (bit_xor (map o ((pfn >>> (o + 1)) / 8)) (2 ^ ((pfn >>> (o + 1)) % 8)))
            b
  unfolding toggle_byte
  own_byte b b_lt =
      let k = (pfn >>> (o + 1)) / 8 in
      let lt : k < bytes_needed max_pfn o = byte-lt max_pfn pfn o top h in
      let here : (slice base max_pfn o + b == slice base max_pfn o + k) ≡ (b == k) = ground arith in
      rw here (elim (Bool-cases (b == k)) [
        | inl q ↦ rw (q, sliced o k few lt) refl
        | inr q ↦ rw q (sliced o b few b_lt)
      ])

-- For a frame up to `max_pfn`, the toggle in memory is the flip of the bit in the bitmap of the
-- order, and of no other.
pub toggle_byte-flip :
    (m : Memory) (base max_pfn : ℕ) (map : ℕ → ℕ → ℕ) (pfn o : ℕ)
    → o < 11
    → max_pfn < frame_limit
    → pfn ≤ max_pfn
    → Sliced m base max_pfn map
    → Sliced (toggle_byte m base max_pfn pfn o) base max_pfn (flip map pfn o)
unfolding toggle_byte flip
toggle_byte-flip m base max_pfn map pfn o few top h sliced i b i_lt b_lt =
    let k = (pfn >>> (o + 1)) / 8 in
    let lt : k < bytes_needed max_pfn o = byte-lt max_pfn pfn o top h in
    let at = slice base max_pfn o + k in
    elim (Bool-cases (i == o)) [
      | inr e ↦
          let apart : (slice base max_pfn i + b == at) ≡ false =
            ground
              (arith, elsewhere base max_pfn o k i b top, elsewhere base max_pfn i b o k top) in
          rw (e, apart) (sliced i b i_lt b_lt)
      | inl e ↦
          let e' : i ≡ o = ground arith in
          let b_lt' : b < bytes_needed max_pfn o = rw e' at b_lt in
          rw (e, e') (own_byte m base max_pfn map pfn o few top h sliced b b_lt')
    ]
