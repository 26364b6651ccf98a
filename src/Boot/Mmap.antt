-- ===== src/Boot/Mmap.antt =====
-- `MmapIterator` of include/mm/mmap_util.hpp, over a memory of bytes.
pub mod Regions
use mio_os.Common.{
  ℕ, zero, suc, ◌+◌, ◌*◌, ltb, ◌==◌, mul64, if◌then◌else◌, true, false, ◌||◌, Option, none, some,
}
use mio_os.Runtime.Memory.{Memory}
use mio_os.Boot.Multiboot.{load32, load64}
use mio_os.Pmm.State.{MemoryEntry}

-- The entry of a BIOS map at an address, and of an EFI map.
unfoldable pub bios_entry : Memory → ℕ → MemoryEntry
bios_entry m ent = record {
  addr = load64 m ent;
  len = load64 m (ent + 8);
  is_usable = load32 m (ent + 16) == 1;
  type = load32 m (ent + 16);
  is_uefi = false;
}

unfoldable pub efi_entry : Memory → ℕ → MemoryEntry
efi_entry m ent = record {
  addr = load64 m (ent + 8);
  len = mul64 (load64 m (ent + 24)) 4096;
  is_usable = (load32 m ent == 7) || ((load32 m ent == 3) || (load32 m ent == 4));
  type = load32 m ent;
  is_uefi = true;
}

-- A loop of `for_each`; `none` when it still runs.
unfoldable pub visit :
    {S : Type 0}
    → (fuel : ℕ) → (ℕ → MemoryEntry)
    → (S → MemoryEntry → S)
    → (stride : ℕ) → ℕ
    → ℕ
    → S
    → Option S
visit zero entry callback stride ptr mmap_end s = none
visit (suc fuel) entry callback stride ptr mmap_end s =
    let rest = visit fuel entry callback stride (ptr + stride) mmap_end (callback s (entry ptr)) in
    if ltb ptr mmap_end then rest else some s

-- `callback` changes a state that it captures.
unfoldable pub for_each :
    {S : Type 0} → (fuel : ℕ) → Memory → (tag : ℕ) → (S → MemoryEntry → S) → S → Option S
unfolding bios_entry efi_entry visit
for_each fuel m tag callback s =
    let mmap_start = tag + 16 in
    let mmap_end = tag + load32 m (tag + 4) in
    let stride = load32 m (tag + 8) in
    if tag == 0
    then some s
    else if load32 m tag == 6
    then visit fuel (bios_entry m) callback stride mmap_start mmap_end s
    else if load32 m tag == 17
    then visit fuel (efi_entry m) callback stride mmap_start mmap_end s
    else some s
