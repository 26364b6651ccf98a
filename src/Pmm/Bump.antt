-- ===== src/Pmm/Bump.antt =====
-- The bump allocator of early boot and the dispatch of `alloc_pages`.
pub mod Restart
pub mod Fits
use mio_os.Common.{
  ℕ, zero, suc, add64, mul64, ltb, leb, ◌==◌, if◌then◌else◌, Bool, true, false, not, ◌||◌, Option,
  none, some, List, [], ◌∷◌,
}
pub use mio_os.Common.Outcome.{Run}
use mio_os.Mm.{page_size, early_boot_map_limit, align_up}
use mio_os.Pmm.State.{Pmm, MemoryEntry}
use mio_os.Pmm.Buddy.{alloc_buddy}

-- The callback of `find_bump_alloc_region`, with `region_found`.
unfoldable pub visit_entry : ℕ → Bool × Pmm → MemoryEntry → Bool × Pmm
visit_entry required_size (region_found, s) ent =
    let entry_end = add64 ent.addr ent.len in
    let potential_start =
      align_up (if ltb s.bump_watermark ent.addr then ent.addr else s.bump_watermark) page_size in
    if region_found
    then (region_found, s)
    else if not ent.is_usable || (ent.addr == 0)
    then (region_found, s)
    else if leb entry_end s.bump_watermark
    then (region_found, s)
    else if ltb early_boot_map_limit (add64 potential_start required_size)
    then (region_found, s)
    else if leb (add64 potential_start required_size) entry_end
    then (
      true,
      record s {
        bump_ptr_phys = potential_start;
        bump_region_end_phys =
            if ltb early_boot_map_limit entry_end then early_boot_map_limit else entry_end;
      },
    )
    else (region_found, s)

-- `MmapIterator::for_each` with that callback.
unfoldable pub visit_entries : ℕ → Bool × Pmm → List MemoryEntry → Bool × Pmm
unfolding visit_entry
visit_entries required_size st [] = st
visit_entries required_size st (ent ∷ ents) =
    visit_entries required_size (visit_entry required_size st ent) ents

-- A panic if no region is found.
abbrev pub checked : Bool × Pmm → Option Pmm
checked (region_found, s) = if region_found then some s else none

-- A null tag is not visited at all.
unfoldable pub find_bump_alloc_region : Pmm → ℕ → Option Pmm
unfolding visit_entries
find_bump_alloc_region s required_size = elim s.mmap [
  | none ↦ none
  | some ents ↦ checked (visit_entries required_size (false, s) ents)
]

-- `while (bump_ptr_phys == 0 || bump_ptr_phys + alloc_size > bump_region_end_phys)`
unfoldable pub search_loop : ℕ → Pmm → ℕ → Run Pmm
unfolding find_bump_alloc_region
search_loop zero s alloc_size = Run.running
search_loop (suc fuel) s alloc_size =
    if (s.bump_ptr_phys == 0) || ltb s.bump_region_end_phys (add64 s.bump_ptr_phys alloc_size)
    then elim (find_bump_alloc_region s alloc_size) [
      | none ↦ Run.panicked
      | some s' ↦ search_loop fuel s' alloc_size
    ]
    else Run.done s

-- The address and the state after the pointer has moved.
unfoldable pub bump : ℕ → Run Pmm → Run (ℕ × Pmm)
bump alloc_size (Run.done s) =
    Run.done (s.bump_ptr_phys, record s { bump_ptr_phys = add64 s.bump_ptr_phys alloc_size })
bump alloc_size Run.panicked = Run.panicked
bump alloc_size Run.running = Run.running

unfoldable pub alloc_pages_bump : ℕ → Pmm → ℕ → Run (ℕ × Pmm)
unfolding search_loop bump
alloc_pages_bump fuel s num =
    let alloc_size = mul64 num page_size in
    if s.initialized_buddy then Run.done (0, s) else bump alloc_size (search_loop fuel s alloc_size)

unfoldable pub alloc_pages : ℕ → Pmm → ℕ → Run (ℕ × Pmm)
unfolding alloc_pages_bump
alloc_pages fuel s num =
    if not s.initialized_buddy then alloc_pages_bump fuel s num else Run.done (alloc_buddy s num)
