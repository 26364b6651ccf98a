-- ===== src/Boot/Multiboot.antt =====
-- `Multiboot2` of boot/multiboot.cpp, over a memory of bytes.
use mio_os.Common.{
  ℕ, zero, suc, ◌+◌, ◌*◌, u32, bit_and, leb, ◌==◌, ◌!=◌, if◌then◌else◌, Option, none, some,
}
use mio_os.Runtime.Memory.{Memory}

-- Little-endian words of 32 and 64 bits.
unfoldable pub load32 : Memory → ℕ → ℕ
load32 m p = m p + m (p + 1) * 256 + m (p + 2) * 65536 + m (p + 3) * 16777216

unfoldable pub load64 : Memory → ℕ → ℕ
unfolding load32
load64 m p = load32 m p + load32 m (p + 4) * 4294967296

-- `(tag->size + 7) & ~7` on 32 bits.
unfoldable pub tag_stride : ℕ → ℕ
tag_stride size = bit_and (u32 (size + 7)) 4294967288

-- The loop of `find_tag`; `none` when it still runs, `some 0` for `nullptr`.
unfoldable pub find_from : (fuel : ℕ) → Memory → ℕ → ℕ → ℕ → Option ℕ
find_from zero m mb2_info tag_type tag = none
find_from (suc fuel) m mb2_info tag_type tag =
    let next = tag + tag_stride (load32 m (tag + 4)) in
    let rest = find_from fuel m mb2_info tag_type next in
    if load32 m tag == 0
    then some 0
    else if load32 m tag == tag_type
    then some tag
    else if leb (mb2_info + load32 m mb2_info) next
    then some 0
    else rest

unfoldable pub find_tag : (fuel : ℕ) → Memory → ℕ → ℕ → Option ℕ
unfolding find_from
find_tag fuel m mb2_info tag_type = find_from fuel m mb2_info tag_type (mb2_info + 8)

unfoldable pub get_framebuffer : (fuel : ℕ) → Memory → ℕ → Option ℕ
get_framebuffer fuel m mb2_info = find_tag fuel m mb2_info 8

unfoldable pub get_basic_meminfo : (fuel : ℕ) → Memory → ℕ → Option ℕ
get_basic_meminfo fuel m mb2_info = find_tag fuel m mb2_info 4

unfoldable pub get_cmdline : (fuel : ℕ) → Memory → ℕ → Option ℕ
get_cmdline fuel m mb2_info = find_tag fuel m mb2_info 1

unfoldable pub get_bootloader_name : (fuel : ℕ) → Memory → ℕ → Option ℕ
get_bootloader_name fuel m mb2_info = find_tag fuel m mb2_info 2

unfoldable pub get_acpi_new : (fuel : ℕ) → Memory → ℕ → Option ℕ
get_acpi_new fuel m mb2_info = find_tag fuel m mb2_info 15

unfoldable pub get_acpi_old : (fuel : ℕ) → Memory → ℕ → Option ℕ
get_acpi_old fuel m mb2_info = find_tag fuel m mb2_info 14

-- The memory map of the firmware, or else that of the BIOS.
unfoldable pub get_mmap : (fuel : ℕ) → Memory → ℕ → Option ℕ
get_mmap fuel m mbi =
    let bios_mmap = find_tag fuel m mbi 6 in
    elim (find_tag fuel m mbi 17) [
      | none ↦ none
      | some efi_mmap ↦ if efi_mmap != 0 then some efi_mmap else bios_mmap
    ]

unfoldable pub get_efi64 : (fuel : ℕ) → Memory → ℕ → Option ℕ
get_efi64 fuel m mb2_info = find_tag fuel m mb2_info 12

unfoldable pub get_bootdev : (fuel : ℕ) → Memory → ℕ → Option ℕ
get_bootdev fuel m mb2_info = find_tag fuel m mb2_info 5
