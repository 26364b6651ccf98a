-- ===== src/Boot/Mmap/Regions.antt =====
-- What the iterator visits, and what the PMM makes of it.
use mio_os.Common.{
  ℕ, zero, suc, ◌+◌, ◌*◌, mul64, ◌%◌, ◌^◌, ◌≤◌, ◌<◌, ◌≡◌, ◌≢◌, ◌⊎◌, inl, inr, refl, sym, arith, ◌∙◌,
  ap, ltb, ◌==◌, ◌||◌, if◌then◌else◌, true, false, some, List, [], ◌∷◌, Bool,
}
use mio_os.Common.Seq.{length}
use mio_os.Runtime.Memory.{Memory}
use mio_os.Boot.Multiboot.{load32, load64}
use mio_os.Boot.Mmap.{bios_entry, efi_entry, visit, for_each}
use mio_os.Pmm.State.{MemoryEntry, Pmm}
use mio_os.Pmm.Start.{measure_entry, measure_entries}
use mio_os.Pmm.Bump.{visit_entry, visit_entries}

-- One callback after another.
abbrev pub fold : {S : Type 0} → (S → MemoryEntry → S) → S → List MemoryEntry → S
fold callback s [] = s
fold callback s (e ∷ es) = fold callback (callback s e) es

-- The number that `count` bytes from `p` on are, the lowest first.
abbrev pub number : Memory → (p count : ℕ) → ℕ
number m p zero = 0
number m p (suc count) = m p + 256 * number m (p + 1) count

-- Whether a number is in a list.
abbrev pub listed : List ℕ → ℕ → Bool
listed [] k = false
listed (n ∷ ns) k = if k == n then true else listed ns k

-- A region as the multiboot specification lays it out: the base in eight bytes, the length in eight,
-- the type in four. Type 1 is available memory.
abbrev pub BiosRegion : Memory → ℕ → MemoryEntry → Type 0
BiosRegion m p e =
    (e.addr ≡ number m p 8)
    × (e.len ≡ number m (p + 8) 8)
    × (e.type ≡ number m (p + 16) 4)
    × (e.is_usable ≡ listed (1 ∷ []) e.type)
    × (e.is_uefi ≡ false)

-- A memory descriptor of the UEFI specification: the type in four bytes, four that pad, the start in
-- eight, the virtual start in eight, the number of pages of 4096 bytes in eight. Types 3 and 4 are
-- the code and the data of the boot services, 7 is conventional memory.
abbrev pub EfiRegion : Memory → ℕ → MemoryEntry → Type 0
EfiRegion m p e =
    (e.type ≡ number m p 4)
    × (e.addr ≡ number m (p + 8) 8)
    × (e.len ≡ number m (p + 24) 8 * 4096 % 2 ^ 64)
    × (e.is_usable ≡ listed (3 ∷ 4 ∷ 7 ∷ []) e.type)
    × (e.is_uefi ≡ true)

-- The entries stand one after another from `p` to the end of the map.
abbrev pub EntriesAt : (ℕ → MemoryEntry → Type 0) → (stride p end : ℕ) → List MemoryEntry → Type 0
EntriesAt Region stride p end [] = end ≤ p
EntriesAt Region stride p end (e ∷ es) =
    (p < end) × Region p e × EntriesAt Region stride (p + stride) end es

-- A tag with these regions, as the BIOS or the firmware describes them.
abbrev pub MapAt : Memory → ℕ → List MemoryEntry → Type 0
MapAt m tag es =
    ((number m tag 4 ≡ 6)
      × EntriesAt (BiosRegion m) (number m (tag + 8) 4) (tag + 16) (tag + number m (tag + 4) 4) es)
    ⊎ ((number m tag 4 ≡ 17)
        × EntriesAt (EfiRegion m) (number m (tag + 8) 4) (tag + 16) (tag + number m (tag + 4) 4) es)

number-load32 : (m : Memory) (p : ℕ) → load32 m p ≡ number m p 4
unfolding load32
number-load32 m p =
    let e2 : m (p + 1 + 1) ≡ m (p + 2) = ap m (omega arith) in
    let e3 : m (p + 1 + 1 + 1) ≡ m (p + 3) = ap m (omega arith) in omega (arith, e2, e3)

number-load64 : (m : Memory) (p : ℕ) → load64 m p ≡ number m p 8
unfolding load64
number-load64 m p =
    let low = number-load32 m p in
    let high = number-load32 m (p + 4) in
    let e : number m (p + 1 + 1 + 1 + 1) 4 ≡ number m (p + 4) 4 =
      ap (λ (q : ℕ). number m q 4) (omega arith) in
    omega (arith, low, high, e)

entry_eq :
    {a b : MemoryEntry}
    → a.addr ≡ b.addr
    → a.len ≡ b.len
    → a.is_usable ≡ b.is_usable
    → a.type ≡ b.type
    → a.is_uefi ≡ b.is_uefi
    → a ≡ b
entry_eq addr len usable type uefi = λ i. record {
  addr = addr i;
  len = len i;
  is_usable = usable i;
  type = type i;
  is_uefi = uefi i;
}

available : (k : ℕ) → (k == 1) ≡ listed (1 ∷ []) k
available k = ground arith

boot_or_free : (k : ℕ) → ((k == 7) || ((k == 3) || (k == 4))) ≡ listed (3 ∷ 4 ∷ 7 ∷ []) k
boot_or_free k = ground arith

bios_entry-Region : (m : Memory) (p : ℕ) (e : MemoryEntry) → BiosRegion m p e → bios_entry m p ≡ e
unfolding bios_entry
bios_entry-Region m p e (addr, len, type, usable, uefi) =
    let of_type : load32 m (p + 16) ≡ e.type = omega (arith, number-load32 m (p + 16), type) in
    let test : (load32 m (p + 16) == 1) ≡ e.is_usable = rw (of_type, usable) (available e.type) in
    entry_eq (omega (arith, number-load64 m p, addr)) (omega (arith, number-load64 m (p + 8), len))
      test of_type (sym uefi)

efi_entry-Region : (m : Memory) (p : ℕ) (e : MemoryEntry) → EfiRegion m p e → efi_entry m p ≡ e
unfolding efi_entry
efi_entry-Region m p e (type, addr, len, usable, uefi) =
    let of_type : load32 m p ≡ e.type = omega (arith, number-load32 m p, type) in
    let pages : load64 m (p + 24) ≡ number m (p + 24) 8 = number-load64 m (p + 24) in
    let size : mul64 (load64 m (p + 24)) 4096 ≡ e.len = rw (pages, len) refl in
    let test : ((load32 m p == 7) || ((load32 m p == 3) || (load32 m p == 4))) ≡ e.is_usable =
      rw (of_type, usable) (boot_or_free e.type) in
    entry_eq (omega (arith, number-load64 m (p + 8), addr)) size test of_type (sym uefi)

visit-fold :
    {S : Type 0} (fuel : ℕ) (entry : ℕ → MemoryEntry) (callback : S → MemoryEntry → S)
    → (Region : ℕ → MemoryEntry → Type 0) → ((q : ℕ) (e : MemoryEntry) → Region q e → entry q ≡ e)
    → (stride p end : ℕ) (s : S) (es : List MemoryEntry) → EntriesAt Region stride p end es
    → length es < fuel
    → visit fuel entry callback stride p end s ≡ some (fold callback s es)
unfolding visit
visit-fold zero entry callback Region read stride p end s es h f = absurd (omega arith)
visit-fold (suc fuel) entry callback Region read stride p end s [] h f =
    let over : ltb p end ≡ false = ground arith in rw over refl
visit-fold (suc fuel) entry callback Region read stride p end s (e ∷ es) (lt, at, rest) f =
    let more : ltb p end ≡ true = ground arith in
    rw (more, read p e at)
      (visit-fold fuel entry callback Region read stride (p + stride) end (callback s e) es rest
        (omega arith))

pub for_each-fold :
    {S : Type 0} (fuel : ℕ) (m : Memory) (tag : ℕ) (callback : S → MemoryEntry → S) (s : S)
    → (es : List MemoryEntry) → tag ≢ 0
    → MapAt m tag es
    → length es < fuel
    → for_each fuel m tag callback s ≡ some (fold callback s es)
unfolding for_each
for_each-fold fuel m tag callback s es ne (inl (k, h)) f =
    let real : (tag == 0) ≡ false = ground arith in
    rw (real, number-load32 m tag, number-load32 m (tag + 8), number-load32 m (tag + 4), k)
      (visit-fold fuel (bios_entry m) callback (BiosRegion m) (bios_entry-Region m)
        (number m (tag + 8) 4) (tag + 16) (tag + number m (tag + 4) 4) s es h f)
for_each-fold fuel m tag callback s es ne (inr (k, h)) f =
    let real : (tag == 0) ≡ false = ground arith in
    rw (real, number-load32 m tag, number-load32 m (tag + 8), number-load32 m (tag + 4), k)
      (visit-fold fuel (efi_entry m) callback (EfiRegion m) (efi_entry-Region m)
        (number m (tag + 8) 4) (tag + 16) (tag + number m (tag + 4) 4) s es h f)

fold-measure :
    (st : ℕ × Pmm) (es : List MemoryEntry) → fold measure_entry st es ≡ measure_entries st es
unfolding measure_entries
fold-measure st [] = refl
fold-measure st (e ∷ es) = fold-measure (measure_entry st e) es

fold-visit :
    (size : ℕ) (st : Bool × Pmm) (es : List MemoryEntry)
    → fold (visit_entry size) st es ≡ visit_entries size st es
unfolding visit_entries
fold-visit size st [] = refl
fold-visit size st (e ∷ es) = fold-visit size (visit_entry size st e) es

-- For a tag, not null, of a memory map of the multiboot specification, or of one of the UEFI
-- specification, whose regions stand one after another to its end, fuel above their number is
-- enough for the iterator: with the callback of `initialize_buddy` that measures a region, and
-- with that of the bump allocator that looks for one, it leaves what the same callback leaves
-- after the sequence of regions. A region of multiboot has the base, the length and the type in
-- 8, 8 and 4 bytes and is usable if the type is 1; one of UEFI has the type, the start and the
-- number of pages of 4096 bytes at 0, 8 and 24 and is usable if the type is 3, 4 or 7.
pub for_each-entries :
    (fuel : ℕ) (m : Memory) (tag : ℕ) (es : List MemoryEntry)
    → tag ≢ 0
    → MapAt m tag es
    → length es < fuel
    → ((st : ℕ × Pmm) → for_each fuel m tag measure_entry st ≡ some (measure_entries st es))
      × ((size : ℕ) (st : Bool × Pmm)
          → for_each fuel m tag (visit_entry size) st ≡ some (visit_entries size st es))
for_each-entries fuel m tag es ne h f = (
  λ st. for_each-fold fuel m tag measure_entry st es ne h f ∙ ap some (fold-measure st es),
  λ size st.
      for_each-fold fuel m tag (visit_entry size) st es ne h f ∙ ap some (fold-visit size st es),
)
