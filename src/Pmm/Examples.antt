-- ===== src/Pmm/Examples.antt =====
-- The allocator with one free block of sixteen pages, and runs of the operations of pmm.cpp on it.
use mio_os.Common.{
  mul64, ℕ, ◌+◌, ◌*◌, ◌/◌, ◌%◌, ◌≤◌, ◌<◌, ◌≡◌, ◌≢◌, refl, ◌⊎◌, arith, true, false, [], ◌∷◌, some,
  ◌==◌,
}
use mio_os.Common.Bits.{bit-zero}
use mio_os.Pmm.State.{MemoryEntry, Pmm, frame_ptr, ptr_frame, update}
use mio_os.Pmm.FreeList.{list_add}
use mio_os.Pmm.Bitmap.{toggle_buddy_bit}
use mio_os.Pmm.Lists.{Lists}
use mio_os.Pmm.Weigh.{weigh}
use mio_os.Pmm.Frame.{IsAligned, in_block}
use mio_os.Pmm.Invariant.{cover, pages, Core, Core-add, Core-statistics}
use mio_os.Pmm.Cover.{Wf, cover-cons}
use mio_os.Pmm.Order.{pages_to_order}
use mio_os.Pmm.Buddy.{alloc_buddy, free_pages, free_pages_order}
use mio_os.Pmm.Return.{Restored, free_pages-alloc_buddy}
use mio_os.Mm.{align_up, page_size}
use mio_os.Pmm.Bump.Fits.{Bumped, alloc_pages_bump-Bumped}
use mio_os.Pmm.Bump.{Run, alloc_pages_bump}
use mio_os.Pmm.Bump.Restart.{rewound, alloc_pages_bump-rewound}
use mio_os.Pmm.Region.{is_page_free, allocate_specific_page, mark_region_used, mark_region_free}
use mio_os.Pmm.Region.Walk.{Enough, is_page_free_iff}
use mio_os.Pmm.Region.Take.{Taken, allocate_specific_page-Taken}
use mio_os.Pmm.Region.Mark.{Enough-of_pages, ranged, Marked, mark_region_used-Marked}
use mio_os.Pmm.Alloc.{Served, Refused, alloc_buddy-Served}
use mio_os.Pmm.Free.{Released}
use mio_os.Pmm.Free.Inside.{free_pages_order-Inside}
use mio_os.Pmm.Bitmap.Inside.{Inside}
use mio_os.Pmm.Region.Inside.{mark_region_free-Inside}

abbrev pub empty : Pmm
empty = record {
  node = λ a. record { next = 0; prev = 0 };
  free_lists = λ o. 0;
  buddy_map = λ o i. 0;
  total_memory = 0x1000000;
  free_memory = 0;
  used_memory = 0x1000000;
  initialized_buddy = true;
  bump_ptr_phys = 0x300000;
  bump_region_end_phys = 0x1000000;
  highest_reserved_phys = 0x200000;
  bump_watermark = 0x200000;
  mmap = some [];
}

abbrev pub no_blocks : Lists
no_blocks o = []

empty-Core : Core empty no_blocks
empty-Core = record {
  rep = record { chain = λ o h. refl; distinct = λ o h. tt; apart = λ o i a h h' m m'. cc };
  blocks = λ o a h m. absurd cc;
  parity = λ o p h. bit-zero (p % 8);
}

no_cover : (f : ℕ) → cover no_blocks f ≡ 0
unfolding weigh
no_cover f = refl

-- The free block: frames 48 to 63.
at_48 : IsAligned 4 48
at_48 = record { index = 3; multiple = refl; below = omega arith }

abbrev pub one_block : Lists
one_block = update no_blocks 4 (frame_ptr 48 ∷ [])

abbrev pub start : Pmm
start = record (toggle_buddy_bit (list_add empty (frame_ptr 48) 4) 48 4).1 {
  used_memory = 0xff0000;
  free_memory = 0x10000;
}

one_page : pages one_block ≡ 16
unfolding weigh
one_page = refl

pub start-Wf : Wf start one_block
unfolding toggle_buddy_bit list_add
start-Wf = record {
  core =
      Core-statistics 0xff0000 0x10000
        (Core-add empty-Core 4 (omega arith) at_48 (λ i h. refl) 48 refl);
  once = λ f. ground (arith, cover-cons no_blocks 4 (omega arith) at_48 f, no_cover f);
  free = rw one_page refl;
  total = refl;
}

-- `alloc_pages` of three pages.
alloc_buddy-Served_example :
    (Served one_block (pages_to_order 3) (alloc_buddy start 3).0 (alloc_buddy start 3).1)
    ⊎ (Refused start (alloc_buddy start 3).0 (alloc_buddy start 3).1
        × ((i : ℕ) → pages_to_order 3 ≤ i → i < 11 → one_block i ≡ []))
alloc_buddy-Served_example = alloc_buddy-Served 3 start-Wf

-- The pages that it gives out.
alloc_three : (alloc_buddy start 3).0 ≡ 0x30000
unfolding alloc_buddy pages_to_order toggle_buddy_bit list_add frame_ptr ptr_frame
alloc_three = refl

-- The buddy of the free block goes back and merges with it.
at_32 : IsAligned 4 32
at_32 = record { index = 2; multiple = refl; below = omega arith }

pub start_cover : (f : ℕ) → cover one_block f ≡ in_block 4 48 f
start_cover f = ground (arith, cover-cons no_blocks 4 (omega arith) at_48 f, no_cover f)

free_pages_order-Inside_example :
    Released one_block 4 32 (free_pages_order start (32 * 4096) 4)
    × Inside 4095 start (free_pages_order start (32 * 4096) 4)
free_pages_order-Inside_example =
    free_pages_order-Inside 4095 32 4 (omega arith) (omega arith) (omega arith) (λ z. omega arith)
      start-Wf at_32 (λ f. ground (arith, start_cover f))

three_out : (alloc_buddy start 3).0 ≢ 0
three_out z = absurd (omega (arith, z, alloc_three))

free_pages-alloc_buddy_example :
    Restored start one_block (free_pages (alloc_buddy start 3).1 (alloc_buddy start 3).0 3)
free_pages-alloc_buddy_example = free_pages-alloc_buddy 3 start-Wf three_out

few_pages : pages one_block < 20
few_pages = rw one_page (omega arith)

few_lists : Enough 20 one_block
few_lists = Enough-of_pages 20 one_block few_pages

is_page_free_iff_example : is_page_free 20 start 50 ≡ (cover one_block 50 == 1)
is_page_free_iff_example = is_page_free_iff 20 50 few_lists start-Wf

allocate_specific_page-Taken_example :
    (((allocate_specific_page 20 start 53).0 ≡ true)
      × Taken one_block 53 (allocate_specific_page 20 start 53).1)
    ⊎ ((allocate_specific_page 20 start 53 ≡ (false, start)) × (cover one_block 53 ≡ 0))
allocate_specific_page-Taken_example = allocate_specific_page-Taken 20 53 few_lists start-Wf

start_running : start.initialized_buddy ≡ true
unfolding toggle_buddy_bit list_add
start_running = refl

mark_region_used-Marked_example :
    Marked
      (ranged 0 (0x31000 / 4096) ((0x31000 + 0x2000 + 4095) / 4096) one_block)
      (mark_region_used 20 start 0x31000 0x2000)
mark_region_used-Marked_example =
    mark_region_used-Marked 20 0x31000 0x2000 start_running (omega arith) few_pages start-Wf

mark_region_free-Inside_example :
    Marked
      (ranged 1 ((0x2f800 + 4095) / 4096) ((0x2f800 + 0x2000) / 4096) one_block)
      (mark_region_free 10000 start 0x2f800 0x2000)
    × Inside 4095 start (mark_region_free 10000 start 0x2f800 0x2000)
mark_region_free-Inside_example =
    mark_region_free-Inside 4095 10000 0x2f800 0x2000 start_running (omega arith) (omega arith)
      (omega arith) (omega arith) (omega arith) (omega (arith, few_pages)) start-Wf

-- Early boot with one region, and a first allocation of 256 pages behind it.
abbrev region : MemoryEntry
region = record { addr = 0x100000; len = 0x300000; is_usable = true; type = 1; is_uefi = false }

abbrev early : Pmm
early = record empty {
  initialized_buddy = false;
  bump_ptr_phys = 0x300000;
  bump_region_end_phys = 0x400000;
  mmap = some (region ∷ []);
}

alloc_pages_bump-rewound_example :
    alloc_pages_bump 5 early 512 ≡ alloc_pages_bump 5 (rewound early) 512
alloc_pages_bump-rewound_example = alloc_pages_bump-rewound 5 early 512 refl (omega arith)

address : Run (ℕ × Pmm) → ℕ
address (Run.done (p, s)) = p
address Run.panicked = 0
address Run.running = 0

-- The 512 pages start at the watermark, where the 256 did.
first_again : address (alloc_pages_bump 5 early 512) ≡ 0x200000
unfolding address alloc_pages_bump align_up
first_again = refl

-- The search from there ends, with room for the request.
alloc_pages_bump-Bumped_example : Bumped (mul64 512 page_size) (alloc_pages_bump 5 early 512)
alloc_pages_bump-Bumped_example =
    alloc_pages_bump-Bumped 3 early 512 refl (omega arith) (omega arith, tt)
