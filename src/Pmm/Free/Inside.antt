-- ===== src/Pmm/Free/Inside.antt =====
-- `free_pages_order` of kernel/mm/pmm.cpp on the bitmaps that `initialize_buddy` makes for the
-- frames up to `max_pfn`.
use mio_os.Common.{
  ℕ, zero, suc, ◌+◌, ◌-◌, ◌*◌, ◌^◌, ◌≤◌, ◌<◌, ◌≡◌, ◌≢◌, ◌∙◌, refl, inl, inr, arith, ltb, ◌==◌, ◌||◌,
  ◌>>>◌, bit_and, bit_xor, not64, Bool-cases,
}
use mio_os.Pmm.State.{Pmm, frame_ptr}
use mio_os.Pmm.FreeList.{list_add, list_remove}
use mio_os.Pmm.Bitmap.{toggle_buddy_bit}
use mio_os.Pmm.Bitmap.Inside.{Inside, bit_and-le, toggle-Inside}
use mio_os.Pmm.Lists.{Lists}
use mio_os.Pmm.Buddy.{merge, free_pages_order, account_free}
use mio_os.Pmm.Frame.{IsAligned, frame_limit, in_block}
use mio_os.Pmm.Invariant.{cover}
use mio_os.Pmm.Cover.{Wf}
use mio_os.Pmm.Free.{Released, free_pages_order-Released}

add-Inside :
    (max_pfn : ℕ) (s s' : Pmm) (b o : ℕ) → Inside max_pfn s s' → Inside max_pfn s (list_add s' b o)
unfolding list_add
add-Inside max_pfn s s' b o h = h

remove-Inside :
    (max_pfn : ℕ) (s s' : Pmm) (b o : ℕ)
    → Inside max_pfn s s'
    → Inside max_pfn s (list_remove s' b o)
unfolding list_remove
remove-Inside max_pfn s s' b o h = h

merge-Inside :
    (left max_pfn : ℕ) (s : Pmm) (pfn o : ℕ)
    → max_pfn < frame_limit
    → pfn ≤ max_pfn
    → Inside max_pfn s (merge left s pfn o)
unfolding merge
merge-Inside zero max_pfn s pfn o top h = add-Inside max_pfn s s (frame_ptr pfn) o (λ i b out. refl)
merge-Inside (suc left) max_pfn s pfn o top h =
    let s1 = (toggle_buddy_bit s pfn o).1 in
    let first = toggle-Inside max_pfn s pfn o top h in
    elim (Bool-cases (toggle_buddy_bit s pfn o).0) [
      | inl one ↦ rw one (add-Inside max_pfn s s1 (frame_ptr pfn) o first)
      | inr none ↦
          let buddy = frame_ptr (bit_xor pfn (2 ^ o)) in
          let pfn' = bit_and pfn (not64 (2 ^ o)) in
          let rest =
            merge-Inside left max_pfn (list_remove s1 buddy o) pfn' (o + 1) top
              (omega (arith, bit_and-le pfn (not64 (2 ^ o)))) in
          rw none (λ i b out. rest i b out ∙ remove-Inside max_pfn s s1 buddy o first i b out)
    ]

pub free_pages_order-keeps :
    (max_pfn : ℕ) (s : Pmm) (pfn o : ℕ)
    → max_pfn < frame_limit
    → pfn ≤ max_pfn
    → Inside max_pfn s (free_pages_order s (pfn * 4096) o)
unfolding free_pages_order account_free
free_pages_order-keeps max_pfn s pfn o top h =
    let frame : (pfn * 4096) >>> 12 ≡ pfn = omega arith in
    elim (Bool-cases ((pfn * 4096 == 0) || ltb 10 o)) [
      | inl e ↦ rw e (λ i b out. refl)
      | inr e ↦ rw (e, frame) (merge-Inside (10 - o) max_pfn s pfn o top h)
    ]

-- For bitmaps made for the frames up to `max_pfn`, below 2 ^ 35, and under the invariant,
-- `free_pages_order` of an aligned block of an order up to 10 that starts neither at frame 0 nor
-- above `max_pfn`, none of whose frames is free, keeps the invariant, makes exactly the frames of
-- the block free, leaves every other frame as it was, and changes no byte behind those that
-- `initialize_buddy` reserves for the bitmap of an order.
pub free_pages_order-Inside :
    {s : Pmm} {l : Lists} (max_pfn pfn o : ℕ)
    → max_pfn < frame_limit
    → pfn ≤ max_pfn
    → o < 11
    → pfn ≢ 0
    → Wf s l
    → IsAligned o pfn
    → ((f : ℕ) → cover l f + in_block o pfn f ≤ 1)
    → Released l o pfn (free_pages_order s (pfn * 4096) o)
      × Inside max_pfn s (free_pages_order s (pfn * 4096) o)
free_pages_order-Inside {s} max_pfn pfn o top h lt ne w a free =
    (free_pages_order-Released pfn o lt ne w a free, free_pages_order-keeps max_pfn s pfn o top h)
