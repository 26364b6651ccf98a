-- ===== src/Acpi/Examples.antt =====
-- The search on a small memory.
use mio_os.Common.{
  Bool, true, false, refl, some, List, [], ◌∷◌, ℕ, ◌+◌, ◌-◌, ◌<◌, ◌≡◌, arith, ltb, leb, ◌&&◌,
  if◌then◌else◌, ◌==◌,
}
use mio_os.Mm.{hhdm_base}
use mio_os.Runtime.Memory.{Memory}
use mio_os.Common.Outcome.{Run}
use mio_os.Boot.Multiboot.{load32, find_tag}
use mio_os.Boot.Tags.{Tag, TagsAt, first_of, find_tag-first}
use mio_os.Acpi.Find.{SdpState, find_sdp}
use mio_os.Acpi.Find.Sought.{Sought, find_sdp-Sought}
use mio_os.Acpi.Madt.{SystemTopology, parse_madt}
use mio_os.Acpi.Madt.Entries.{
  Entry, lapic, other, EntriesAt, known, heard, address_of, parse_madt-known,
}
use mio_os.Acpi.Scan.{IsBytes}

-- The bytes of "RSD PTR " by their index.
abbrev signature : ℕ → ℕ
signature i =
    if i == 0
    then 82
    else if i == 1
    then 83
    else if i == 2
    then 68
    else if i == 3
    then 32
    else if i == 4
    then 80
    else if i == 5
    then 84
    else if i == 6
    then 82
    else if i == 7
    then 32
    else 0

-- The literal at 16, and a descriptor of revision 0 at 0xE0010, whose checksum is 225.
abbrev mem : Memory
mem a =
    if leb 16 a && ltb a 24
    then signature (a - 16)
    else if leb (0xE0010 + hhdm_base) a && ltb a (0xE0018 + hhdm_base)
    then signature (a - (0xE0010 + hhdm_base))
    else if a == 0xE0018 + hhdm_base
    then 225
    else 0

if-IsByte : (b : Bool) (x y : ℕ) → x < 256 → y < 256 → (if b then x else y) < 256
if-IsByte true x y h h' = h
if-IsByte false x y h h' = h'

signature-IsByte : (i : ℕ) → signature i < 256
signature-IsByte i = ground arith

mem-IsBytes : IsBytes mem
mem-IsBytes a = if-IsByte _ _ _ (signature-IsByte (a - 16)) (
    if-IsByte _ _ _ (signature-IsByte (a - (0xE0010 + hhdm_base)))
      (if-IsByte _ 225 0 (omega arith) (omega arith)))

-- Boot information at 0x1000 with a command line, beside the same descriptor.
abbrev boot_mem : Memory
boot_mem a = if a == 0x1000 then 32 else if a == 0x1008 then 1 else if a == 0x100C then 9 else mem a

boot_mem-IsBytes : IsBytes boot_mem
boot_mem-IsBytes a =
    if-IsByte _ 32 _ (omega arith)
      (if-IsByte _ 1 _ (omega arith) (if-IsByte _ 9 _ (omega arith) (mem-IsBytes a)))

abbrev tags : List Tag
tags = record { kind = 1; size = 9 } ∷ []

boot_mem-TagsAt : TagsAt boot_mem (0x1000 + load32 boot_mem 0x1000) 0x1008 tags
unfolding load32
boot_mem-TagsAt = (refl, refl, omega arith, omega arith, omega arith, refl)

find_tag-first_example : find_tag 2 boot_mem 0x1000 1 ≡ some (first_of 1 (0x1000 + 8) tags)
find_tag-first_example = find_tag-first 2 boot_mem 0x1000 1 tags (omega arith) boot_mem-TagsAt

unset : SdpState
unset = record { sdp = 0; acpi_reclaimed = false }

find_sdp-Sought_example : Sought boot_mem 16 unset (find_sdp 8193 boot_mem 16 unset 0x1000)
unfolding unset
find_sdp-Sought_example =
    find_sdp-Sought boot_mem 16 unset 0x1000 8192 tags boot_mem-IsBytes (omega arith) (omega arith)
      refl boot_mem-TagsAt (omega arith) (omega arith)

-- A MADT at 0x2000 with a processor and an entry of another kind.
abbrev table : Memory
table a =
    if a == 0x2004
    then 58
    else if a == 0x202D
    then 8
    else if a == 0x202E
    then 1
    else if a == 0x2030
    then 2
    else if a == 0x2034
    then 3
    else if a == 0x2035
    then 6
    else 0

abbrev entries : List Entry
entries = lapic 1 0 2 ∷ other 3 6 ∷ []

table-EntriesAt : EntriesAt table (0x2000 + 44) (0x2000 + load32 table (0x2000 + 4)) entries
unfolding load32
table-EntriesAt = ((refl, refl, refl, refl), refl, ((refl, refl, omega arith), refl, refl))

abbrev nothing_known : SystemTopology
nothing_known = record {
  cpu_infos = [];
  io_apics = [];
  overrides = [];
  lx2apics = [];
  local_apic_base_phys = 0;
}

-- No push for a record from 0x2034 on finds memory.
abbrev room : ℕ → Bool
room p = ltb p 0x2034

parse_madt-known_example :
    parse_madt 3 room 0 table (some 0x2000) nothing_known
    ≡ Run.done (
      true,
      record (known 0 nothing_known (heard room (0x2000 + 44) entries)) {
        local_apic_base_phys = address_of (load32 table (0x2000 + 36)) entries;
      },
    )
parse_madt-known_example =
    parse_madt-known 3 room 0 table 0x2000 nothing_known entries table-EntriesAt (omega arith)
