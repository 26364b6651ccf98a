-- ===== src/Pmm/Start/Establish.antt =====
-- `initialize_buddy` establishes the invariant of the buddy allocator.
use mio_os.Common.{
  ℕ, ◌+◌, ◌-◌, ◌/◌, ◌≡◌, ◌≢◌, true, leb, ◌&&◌, Bool, if◌then◌else◌, add64, sub64, List,
}
use mio_os.Mm.{page_size, buddy_max_order, align_up}
use mio_os.Pmm.State.{Pmm, MemoryEntry}
use mio_os.Pmm.Lists.{Lists}
use mio_os.Pmm.Invariant.{cover}
use mio_os.Pmm.Cover.{Wf}
use mio_os.Pmm.Bump.{Run, alloc_pages_bump}
use mio_os.Pmm.Start.{total_bitmap_bytes}
use mio_os.Pmm.Start.Measure.{largest_end, add_lengths}
use mio_os.Pmm.Start.Moved.{Moved}
use mio_os.Pmm.Start.Advance.{open_frame}
use mio_os.Pmm.Start.Insert.{in_usable}

-- The pages of a map that the buddy allocator starts with: they lie in a usable region, and
-- begin neither between the kernel and the end of what is reserved nor between that end and the
-- bump pointer.
abbrev pub given : (kernel_start : ℕ) → Pmm → List MemoryEntry → ℕ → Bool
given kernel_start s ents f =
    in_usable ents f
    && open_frame kernel_start ((s.highest_reserved_phys + 4095) / 4096) s.highest_reserved_phys
        (s.bump_ptr_phys / 4096) f

-- The allocator runs, its invariant holds, and exactly these pages are free.
pub record Started (kernel_start total highest : ℕ) (ents : List MemoryEntry) (r : Bool × Pmm)
    : Type 0 where
  pub answer : r.0 ≡ true
  pub running : r.1.initialized_buddy ≡ true
  pub counted : r.1.total_memory ≡ total
  pub reserved_end : r.1.highest_reserved_phys ≡ highest
  pub after : Lists
  pub wf : Wf r.1 after
  pub frames : (f : ℕ) → cover after f ≡ (if given kernel_start r.1 ents f then 1 else 0)

-- The pages up to the largest end, and those that the bitmaps for them take.
abbrev pub total_pages : List MemoryEntry → ℕ
total_pages ents = sub64 (add64 (largest_end 0 ents) page_size) 1 / page_size

abbrev pub bitmap_pages : List MemoryEntry → ℕ
bitmap_pages ents =
    align_up (total_bitmap_bytes (buddy_max_order + 1) (total_pages ents - 1)) page_size / page_size

-- The state in which the bitmaps are allocated.
abbrev pub measured_state : Pmm → List MemoryEntry → Pmm
measured_state s ents = record s {
  free_lists = λ order. if leb order buddy_max_order then 0 else s.free_lists order;
  total_memory = add_lengths s.total_memory ents;
  used_memory = add_lengths s.total_memory ents;
  free_memory = 0;
}

-- What `initialize_buddy` can end with: a panic, for a map without usable memory or one in which
-- the bump allocator finds no room for the bitmaps; or a running allocator.
pub data Outcome (kernel_start : ℕ) (s : Pmm) (ents : List MemoryEntry) (bump_fuel : ℕ)
    (r : Run (Bool × Pmm)) : Type 0 where
  no_memory : total_pages ents ≡ 0 → r ≡ Run.panicked → Outcome kernel_start s ents bump_fuel r
  no_room :
      total_pages ents ≢ 0
      → alloc_pages_bump bump_fuel (measured_state s ents) (bitmap_pages ents) ≡ Run.panicked
      → r ≡ Run.panicked
      → Outcome kernel_start s ents bump_fuel r
  started :
      (r' : Bool × Pmm)
      → r ≡ Run.done r'
      → Started kernel_start (add_lengths s.total_memory ents) s.highest_reserved_phys ents r'
      → Outcome kernel_start s ents bump_fuel r
