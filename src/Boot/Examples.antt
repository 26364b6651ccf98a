-- ===== src/Boot/Examples.antt =====
-- The iterator over a memory map of one region.
use mio_os.Common.{
  ℕ, ◌≡◌, inl, refl, arith, if◌then◌else◌, ◌==◌, true, false, List, [], ◌∷◌, some, Bool,
}
use mio_os.Runtime.Memory.{Memory}
use mio_os.Boot.Mmap.{for_each}
use mio_os.Boot.Mmap.Regions.{for_each-entries}
use mio_os.Pmm.State.{MemoryEntry, Pmm}
use mio_os.Pmm.Start.{measure_entry, measure_entries}
use mio_os.Pmm.Bump.{visit_entry, visit_entries}

-- A BIOS map at 0x1000 with a usable region of 4096 bytes at 0x100000.
abbrev map : Memory
map a =
    if a == 0x1000
    then 6
    else if a == 0x1004
    then 40
    else if a == 0x1008
    then 24
    else if a == 0x1012
    then 16
    else if a == 0x1019
    then 16
    else if a == 0x1020
    then 1
    else 0

abbrev regions : List MemoryEntry
regions = record { addr = 0x100000; len = 4096; is_usable = true; type = 1; is_uefi = false } ∷ []

for_each-entries_example :
    ((st : ℕ × Pmm) → for_each 2 map 0x1000 measure_entry st ≡ some (measure_entries st regions))
    × ((size : ℕ) (st : Bool × Pmm)
        → for_each 2 map 0x1000 (visit_entry size) st ≡ some (visit_entries size st regions))
for_each-entries_example =
    for_each-entries 2 map 0x1000 regions (omega arith)
      (inl (refl, (omega arith, (refl, refl, refl, refl, refl), omega arith))) (omega arith)
