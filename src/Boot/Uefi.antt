-- ===== src/Boot/Uefi.antt =====
-- `compare_guid` and `scan_uefi_for_rsdp` of boot/uefi.cpp, over a memory of bytes. `text` is the
-- address of the literal "RSD PTR ".
use mio_os.Common.{
  ℕ, zero, suc, ◌+◌, ◌*◌, add64, ◌==◌, ◌!=◌, if◌then◌else◌, Bool, true, false, ◌||◌, Option, none,
  some,
}
use mio_os.Mm.{hhdm_base}
use mio_os.Runtime.Memory.{Memory}
use mio_os.Acpi.Rsdp.{is_valid_sdp}
use mio_os.Boot.Multiboot.{load32, load64, get_efi64}

pub record Guid : Type 0 where
  pub data1 : ℕ
  pub data2 : ℕ
  pub data3 : ℕ
  pub data4 : ℕ → ℕ

-- The loop over the eight bytes from `i` on.
unfoldable pub same_bytes : (rounds : ℕ) → (ℕ → ℕ) → (ℕ → ℕ) → ℕ → Bool
same_bytes zero a b i = true
same_bytes (suc rounds) a b i =
    let rest = same_bytes rounds a b (i + 1) in if a i != b i then false else rest

unfoldable pub compare_guid : Guid → Guid → Bool
unfolding same_bytes
compare_guid a b =
    if (a.data1 != b.data1) || ((a.data2 != b.data2) || (a.data3 != b.data3))
    then false
    else same_bytes 8 a.data4 b.data4 0

-- The GUID that stands at an address.
abbrev pub load_guid : Memory → ℕ → Guid
load_guid m p = record {
  data1 = load32 m p;
  data2 = m (p + 4) + m (p + 5) * 256;
  data3 = m (p + 6) + m (p + 7) * 256;
  data4 = λ i. m (p + 8 + i);
}

-- A byte of a number, the most significant of eight first.
abbrev pub guid_bytes : ℕ → ℕ → ℕ → ℕ → ℕ → ℕ → ℕ → ℕ → ℕ → ℕ
guid_bytes b0 b1 b2 b3 b4 b5 b6 b7 i =
    if i == 0
    then b0
    else if i == 1
    then b1
    else if i == 2
    then b2
    else if i == 3
    then b3
    else if i == 4
    then b4
    else if i == 5
    then b5
    else if i == 6
    then b6
    else b7

abbrev pub acpi20_guid : Guid
acpi20_guid = record {
  data1 = 0x8868E871;
  data2 = 0xE4F1;
  data3 = 0x11D3;
  data4 = guid_bytes 0xBC 0x22 0x00 0x80 0xC7 0x3C 0x88 0x81;
}

abbrev pub acpi10_guid : Guid
acpi10_guid = record {
  data1 = 0xEB9D2D30;
  data2 = 0x2D88;
  data3 = 0x11D3;
  data4 = guid_bytes 0x9A 0x16 0x00 0x90 0x27 0x3F 0xC1 0x4D;
}

-- The loop over the configuration tables, 24 bytes each.
unfoldable pub scan_tables : (entries : ℕ) → Memory → ℕ → ℕ → ℕ → ℕ
scan_tables zero m text entry fallback_rsdp = fallback_rsdp
scan_tables (suc entries) m text entry fallback_rsdp =
    let table = add64 (load64 m (entry + 16)) hhdm_base in
    let is_20 = compare_guid (load_guid m entry) acpi20_guid in
    let is_10 = compare_guid (load_guid m entry) acpi10_guid in
    let valid = is_valid_sdp m text table in
    let fallback' =
      if is_20
      then fallback_rsdp
      else if is_10
      then (if valid then table else fallback_rsdp)
      else fallback_rsdp in
    let rest = scan_tables entries m text (entry + 24) fallback' in
    if is_20 then (if valid then table else rest) else rest

unfoldable pub scan_uefi_for_rsdp : (fuel : ℕ) → Memory → ℕ → ℕ → Option ℕ
unfolding scan_tables
scan_uefi_for_rsdp fuel m text mb2_info = elim (get_efi64 fuel m mb2_info) [
  | none ↦ none
  | some efi_tag ↦
      let sys_table = add64 (load64 m (efi_tag + 8)) hhdm_base in
      let config_table = add64 (load64 m (sys_table + 112)) hhdm_base in
      if efi_tag == 0
      then some 0
      else some (scan_tables (load64 m (sys_table + 104)) m text config_table 0)
]
