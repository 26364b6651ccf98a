-- ===== src/Pmm/Bitmap/Inside.antt =====
-- The bitmaps of an order have the bytes that `initialize_buddy` reserves for them
-- (kernel/mm/pmm.cpp): a toggle stays in them as long as the frame is at most `max_pfn`.
use native.Mathlib.Nat.{div-le_self, div-mul-le_self, le-div_iff_mul-le, one-le-pow}
use mio_os.Common.{
  ℕ, suc, ◌+◌, ◌/◌, ◌^◌, ◌≤◌, ◌<◌, ◌≡◌, refl, inl, inr, arith, ◌==◌, false, ◌>>>◌, bit_and,
  Bool-cases,
}
use mio_os.Common.Bits.{by_halves, bit_and_step, bit_and-zero}
use mio_os.Pmm.State.{Pmm}
use mio_os.Pmm.Frame.{frame_limit}
use mio_os.Pmm.Bitmap.{flip, toggle_buddy_bit}
use mio_os.Pmm.Start.{bytes_needed}

-- No byte behind those of its order is changed.
abbrev pub Inside : (max_pfn : ℕ) → Pmm → Pmm → Type 0
Inside max_pfn s s' = (i b : ℕ) → bytes_needed max_pfn i ≤ b → s'.buddy_map i b ≡ s.buddy_map i b

zero_and : (b : ℕ) → bit_and 0 b ≤ 0
zero_and =
    by_halves (λ b. bit_and 0 b ≤ 0) (omega (arith, bit_and-zero 0))
      (λ n ih. omega (arith, bit_and_step 0 (suc n)))

pub bit_and-le : (a b : ℕ) → bit_and a b ≤ a
bit_and-le =
    by_halves (λ a. (b : ℕ) → bit_and a b ≤ a) zero_and
      (λ n ih b. omega (arith, bit_and_step (suc n) b, ih (b / 2)))

pub byte-lt :
    (max_pfn pfn o : ℕ)
    → max_pfn < frame_limit
    → pfn ≤ max_pfn
    → (pfn >>> (o + 1)) / 8 < bytes_needed max_pfn o
unfolding bytes_needed
byte-lt max_pfn pfn o top h =
    let some : 0 < 2 ^ (o + 1) = one-le-pow (o + 1) 2 (omega arith) in
    let pair : pfn / 2 ^ (o + 1) ≤ max_pfn / 2 ^ (o + 1) =
      (le-div_iff_mul-le some).1 (omega (arith, div-mul-le_self pfn (2 ^ (o + 1)), h)) in
    ground (arith, pair, div-le_self max_pfn (2 ^ (o + 1)))

pub toggle-Inside :
    (max_pfn : ℕ) (s : Pmm) (pfn o : ℕ)
    → max_pfn < frame_limit
    → pfn ≤ max_pfn
    → Inside max_pfn s (toggle_buddy_bit s pfn o).1
unfolding toggle_buddy_bit flip
toggle-Inside max_pfn s pfn o top h i b out =
    let lt = byte-lt max_pfn pfn o top h in
    elim (Bool-cases (i == o)) [
      | inr e ↦ rw e refl
      | inl e ↦
          let e' : i ≡ o = ground arith in
          let other : (b == (pfn >>> (o + 1)) / 8) ≡ false = ground (arith, lt, e', out) in
          rw (e, e', other) refl
    ]
