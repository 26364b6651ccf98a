-- ===== src/Pmm/Region/Inside.antt =====
-- `mark_region_free` of kernel/mm/pmm.cpp on the bitmaps for the frames up to `max_pfn`.
use mio_os.Common.{
  ℕ, zero, suc, ◌+◌, ◌-◌, ◌*◌, ◌/◌, ◌^◌, ◌≤◌, ◌<◌, ◌≡◌, ◌∙◌, refl, inl, inr, arith, add64, ltb,
  ◌>>>◌, true, Bool-cases, if◌then◌else◌,
}
use mio_os.Mm.Align.{align_down-page, align_up-page}
use mio_os.Pmm.State.{Pmm}
use mio_os.Pmm.Bitmap.Inside.{Inside}
use mio_os.Pmm.Lists.{Lists}
use mio_os.Pmm.Order.{pages_to_order}
use mio_os.Pmm.Buddy.{free_pages}
use mio_os.Pmm.Frame.{frame_limit}
use mio_os.Pmm.Invariant.{pages}
use mio_os.Pmm.Cover.{Wf}
use mio_os.Pmm.Free.Inside.{free_pages_order-keeps}
use mio_os.Pmm.Region.{is_page_free, free_loop, mark_region_free}
use mio_os.Pmm.Region.Mark.{Marked, ranged, mark_region_free-Marked}

one_page-Inside :
    (max_pfn fuel : ℕ) (s : Pmm) (q : ℕ)
    → max_pfn < frame_limit
    → q ≤ max_pfn
    → Inside max_pfn s (if is_page_free fuel s q then s else free_pages s (q * 4096) 1)
unfolding free_pages
one_page-Inside max_pfn fuel s q top h = elim (Bool-cases (is_page_free fuel s q)) [
  | inl e ↦ rw e (λ i b out. refl)
  | inr e ↦ rw e (free_pages_order-keeps max_pfn s q (pages_to_order 1) top h)
]

free_loop-Inside :
    (rounds max_pfn fuel : ℕ) (s : Pmm) (q : ℕ)
    → max_pfn < frame_limit
    → q + rounds ≤ max_pfn + 1
    → Inside max_pfn s (free_loop rounds fuel s (q * 4096) ((q + rounds) * 4096))
unfolding free_loop
free_loop-Inside zero max_pfn fuel s q top h = λ i b out. refl
free_loop-Inside (suc rounds) max_pfn fuel s q top h =
    let s' = if is_page_free fuel s q then s else free_pages s (q * 4096) 1 in
    let one = one_page-Inside max_pfn fuel s q top (omega arith) in
    let rest = free_loop-Inside rounds max_pfn fuel s' (q + 1) top (omega arith) in
    let frame : (q * 4096) >>> 12 ≡ q = omega arith in
    let next : add64 (q * 4096) 4096 ≡ (q + 1) * 4096 = omega arith in
    let bound : q + suc rounds ≡ q + 1 + rounds = omega arith in
    let more : ltb (q * 4096) ((q + 1 + rounds) * 4096) ≡ true = ground arith in
    rw (bound, more, frame, next) (λ i b out. rest i b out ∙ one i b out)

-- For bitmaps made for the frames up to `max_pfn`, below 2 ^ 35, `mark_region_free` of a region
-- of at least 4095 bytes above address 0 and below 2 ^ 47 whose last whole page is at most
-- `max_pfn`, with the buddy allocator running, the invariant and fuel for the free pages and the
-- region, keeps the invariant and changes no byte behind those that `initialize_buddy` reserves
-- for the bitmap of an order; afterwards every page that lies wholly in the region is free, once,
-- and every other page is free exactly if it was.
pub mark_region_free-Inside :
    (max_pfn fuel : ℕ) {s : Pmm} {l : Lists} (base length : ℕ)
    → s.initialized_buddy ≡ true
    → 0 < base
    → 4095 ≤ length
    → max_pfn < frame_limit
    → base + length < 2 ^ 47
    → (base + length) / 4096 ≤ max_pfn + 1
    → pages l + length < fuel
    → Wf s l
    → Marked
        (ranged 1 ((base + 4095) / 4096) ((base + length) / 4096) l)
        (mark_region_free fuel s base length)
      × Inside max_pfn s (mark_region_free fuel s base length)
unfolding mark_region_free
mark_region_free-Inside max_pfn fuel {s} {l} base length running pos long top h last enough w =
    let q = (base + 4095) / 4096 in
    let end = (base + length) / 4096 in
    let rounds = (end * 4096 - q * 4096) / 4096 in
    let whole : end ≡ q + rounds = omega arith in
    let wrap : add64 base length ≡ base + length = omega arith in
    let inside : Inside max_pfn s (mark_region_free fuel s base length) =
      rw (wrap, align_up-page base (omega arith), align_down-page (base + length) (omega arith))
        (simp running (
          rw (← whole) at (free_loop-Inside rounds max_pfn fuel s q top (omega (arith, whole))))) in
    (mark_region_free-Marked fuel base length running pos long h enough w, inside)
