-- ===== src/Pmm/Cover.antt =====
-- What a push and a removal do to the frames that the free blocks hold, and the whole invariant of
-- the buddy allocator.
use mio_os.Common.{ℕ, ◌+◌, ◌*◌, ◌%◌, ◌^◌, ◌≤◌, ◌<◌, ◌≡◌, ◌∷◌, arith}
use mio_os.Common.Seq.{◌∈◌, erase}
use mio_os.Pmm.State.{Pmm, frame_ptr, ptr_frame, update}
use mio_os.Pmm.Lists.{Lists}
use mio_os.Pmm.Weigh.{weigh-update, sum-erase}
use mio_os.Pmm.Frame.{IsAligned, in_block, ptr_frame-frame_ptr}
use mio_os.Pmm.Invariant.{cover, pages, Core, aligned-lt}

module _ (l : Lists) (o : ℕ) (o_lt : o < 11) where
  pub cover-cons :
      {pfn : ℕ}
      → IsAligned o pfn
      → (f : ℕ) → cover (update l o (frame_ptr pfn ∷ l o)) f ≡ cover l f + in_block o pfn f
  cover-cons {pfn} a f =
      let w = λ (i b : ℕ). in_block i (ptr_frame b) f in
      let e : w o (frame_ptr pfn) ≡ in_block o pfn f =
        rw (ptr_frame-frame_ptr pfn (aligned-lt a)) in
      omega (arith, weigh-update w 11 o l (frame_ptr pfn ∷ l o) o_lt, e)

  pub pages-cons : (b : ℕ) → pages (update l o (b ∷ l o)) ≡ pages l + 2 ^ o
  pages-cons b = omega (arith, weigh-update (λ i _. 2 ^ i) 11 o l (b ∷ l o) o_lt)

  pub cover-erase :
      (b : ℕ)
      → b ∈ l o
      → (f : ℕ) → cover l f ≡ cover (update l o (erase b (l o))) f + in_block o (ptr_frame b) f
  cover-erase b m f =
      let w = λ (i a : ℕ). in_block i (ptr_frame a) f in
      omega (arith, weigh-update w 11 o l (erase b (l o)) o_lt, sum-erase (w o) b (l o) m)

  pub pages-erase : (b : ℕ) → b ∈ l o → pages l ≡ pages (update l o (erase b (l o))) + 2 ^ o
  pages-erase b m =
      let w = λ (i _ : ℕ). 2 ^ i in
      omega (arith, weigh-update w 11 o l (erase b (l o)) o_lt, sum-erase (w o) b (l o) m)

-- The invariant of the buddy allocator: lists and bitmaps agree, no frame is free twice, the free
-- memory is that of the blocks on the lists, and used and free memory make up the total.
pub record Wf (s : Pmm) (l : Lists) : Type 0 where
  pub core : Core s l
  pub once : (f : ℕ) → cover l f ≤ 1
  pub free : s.free_memory ≡ (4096 * pages l) % 2 ^ 64
  pub total : (s.used_memory + s.free_memory) % 2 ^ 64 ≡ s.total_memory % 2 ^ 64
