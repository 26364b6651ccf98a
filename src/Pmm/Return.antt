-- ===== src/Pmm/Return.antt =====
-- `alloc_pages` and `free_pages` together.
use mio_os.Common.{ℕ, ◌*◌, ◌%◌, ◌^◌, ◌≡◌, ◌≢◌, inl, inr, arith, ◌∙◌, sym, ap}
use mio_os.Pmm.State.{Pmm}
use mio_os.Pmm.Lists.{Lists}
use mio_os.Pmm.Order.{pages_to_order}
use mio_os.Pmm.Buddy.{alloc_buddy, free_pages}
use mio_os.Pmm.Invariant.{cover, pages}
use mio_os.Pmm.Cover.{Wf}
use mio_os.Pmm.Alloc.{alloc_buddy-Served}
use mio_os.Pmm.Free.{free_pages_order-Released}

-- Two states of the allocator with the same free frames and the same statistics.
pub record Restored (s : Pmm) (l : Lists) (s' : Pmm) : Type 0 where
  pub after : Lists
  pub wf : Wf s' after
  pub frames : (f : ℕ) → cover after f ≡ cover l f
  pub free_memory : s'.free_memory ≡ s.free_memory

nonzero : (pfn ptr : ℕ) → ptr ≡ pfn * 4096 → ptr ≢ 0 → pfn ≢ 0
nonzero pfn ptr e ne = omega arith

-- Under the invariant, a block that `alloc_pages` gave out and that goes back with `free_pages`
-- and the same number of pages leaves the same frames free as before and the same free memory,
-- whatever blocks were split and merged on the way, and the invariant holds.
pub free_pages-alloc_buddy :
    {s : Pmm} {l : Lists} (num : ℕ)
    → Wf s l
    → (alloc_buddy s num).0 ≢ 0
    → Restored s l (free_pages (alloc_buddy s num).1 (alloc_buddy s num).0 num)
unfolding free_pages
free_pages-alloc_buddy {s} {l} num w ne = elim (alloc_buddy-Served num w) [
  | inr refused ↦ absurd (ne refused.0.0)
  | inl served ↦
      let order = pages_to_order num in
      let back =
        free_pages_order-Released served.pfn order served.fits
          (nonzero served.pfn (alloc_buddy s num).0 served.pointer ne) served.wf served.aligned
          (λ f. omega (arith, w.once f, served.frames f)) in
      let same : pages back.after ≡ pages l = omega (arith, back.count, served.count) in
      rw served.pointer (record {
        after = back.after;
        wf = back.wf;
        frames = λ f. omega (arith, back.frames f, served.frames f);
        free_memory = back.wf.free ∙ ap (λ (t : ℕ). 4096 * t % 2 ^ 64) same ∙ sym w.free;
      })
]
