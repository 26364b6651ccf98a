-- ===== src/Acpi/Rsdp.antt =====
-- The search for the root system description pointer in kernel/arch/acpi/rsdp.cpp, and
-- `uacpi_kernel_get_rsdp` of uacpi_osl.cpp. `text` is the address of the literal "RSD PTR ".
use mio_os.Common.{
  ℕ, zero, suc, ◌+◌, ◌-◌, ◌*◌, u8, add64, ltb, leb, ◌==◌, ◌!=◌, if◌then◌else◌, Bool, true, false,
  Option, none, some,
}
use mio_os.Mm.{hhdm_base}
use mio_os.Runtime.Memory.{Memory, memcmp}

-- `sum += ptr[i]` for `count` rounds from `i` on.
unfoldable pub add_bytes : Memory → ℕ → ℕ → ℕ → ℕ → ℕ
add_bytes m ptr i sum zero = sum
add_bytes m ptr i sum (suc count) = add_bytes m ptr (i + 1) (u8 (sum + m (ptr + i))) count

-- The fields `revision` and `length` of the packed `sdp_descriptor`.
abbrev pub revision : Memory → ℕ → ℕ
revision m sdp = m (sdp + 15)

abbrev pub length : Memory → ℕ → ℕ
length m sdp = m (sdp + 20) + m (sdp + 21) * 256 + m (sdp + 22) * 65536 + m (sdp + 23) * 16777216

unfoldable pub is_valid_sdp : Memory → ℕ → ℕ → Bool
unfolding memcmp add_bytes
is_valid_sdp m text sdp =
    let res = memcmp m sdp text 8 in
    if res != 0
    then false
    else if add_bytes m sdp 0 0 20 != 0
    then false
    else if leb 2 (revision m sdp)
    then (if add_bytes m sdp 0 0 (length m sdp) != 0 then false else true)
    else true

-- `none`: the loop still runs after `fuel` rounds; `some 0` is `nullptr`.
unfoldable pub scan_memory_for_sdp : (fuel : ℕ) → Memory → ℕ → ℕ → ℕ → Option ℕ
unfolding is_valid_sdp
scan_memory_for_sdp zero m text addr end_phys = none
scan_memory_for_sdp (suc fuel) m text addr end_phys =
    let rest = scan_memory_for_sdp fuel m text (add64 addr 16) end_phys in
    let sdp = add64 addr hhdm_base in
    if ltb addr end_phys then (if is_valid_sdp m text sdp then some sdp else rest) else some 0

-- The physical address for uACPI, or `none` for `UACPI_STATUS_NOT_FOUND`.
unfoldable pub uacpi_kernel_get_rsdp : ℕ → Option ℕ
uacpi_kernel_get_rsdp sdp =
    if sdp == 0 then none else if leb hhdm_base sdp then some (sdp - hhdm_base) else some sdp
