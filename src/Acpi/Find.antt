-- ===== src/Acpi/Find.antt =====
-- `find_sdp` of kernel/arch/acpi/rsdp.cpp. `text` is the address of the literal "RSD PTR ".
pub mod Sought
use mio_os.Common.{ℕ, ◌+◌, ◌*◌, ◌==◌, ◌!=◌, if◌then◌else◌, Bool, ◌&&◌, ◌||◌, Option, none, some}
use mio_os.Common.Outcome.{Run}
use mio_os.Mm.{hhdm_base}
use mio_os.Runtime.Memory.{Memory}
use mio_os.Boot.Multiboot.{get_acpi_new, get_acpi_old}
use mio_os.Boot.Uefi.{scan_uefi_for_rsdp}
use mio_os.Acpi.Rsdp.{is_valid_sdp, scan_memory_for_sdp}

-- The static data of `SystemDescriptionPointer`.
pub record SdpState : Type 0 where
  pub sdp : ℕ
  pub acpi_reclaimed : Bool

-- The descriptor in a tag, if it is valid, or else 0.
unfoldable pub in_tag : Memory → ℕ → Option ℕ → Option ℕ
in_tag m text none = none
in_tag m text (some tag) = some (if (tag != 0) && is_valid_sdp m text (tag + 8) then tag + 8 else 0)

-- One source after another: the first pointer other than `nullptr` is kept and returned.
unfoldable pub or_else : SdpState → Option ℕ → Run (ℕ × SdpState) → Run (ℕ × SdpState)
or_else st none rest = Run.running
or_else st (some sdp) rest = if sdp == 0 then rest else Run.done (sdp, record st { sdp = sdp })

-- `(*ebda_ptr) << 4`
unfoldable pub ebda_address : Memory → ℕ
ebda_address m = (m (0x40E + hhdm_base) + m (0x40F + hhdm_base) * 256) * 16

unfoldable pub find_sdp : (fuel : ℕ) → Memory → ℕ → SdpState → ℕ → Run (ℕ × SdpState)
unfolding in_tag or_else
find_sdp fuel m text st mb2_info =
    let ebda = ebda_address m in
    let bios = or_else st (scan_memory_for_sdp fuel m text 0xE0000 0xFFFFF) Run.panicked in
    let area = or_else st (scan_memory_for_sdp fuel m text ebda (ebda + 1024)) bios in
    let uefi = or_else st (scan_uefi_for_rsdp fuel m text mb2_info) area in
    let old = or_else st (in_tag m text (get_acpi_old fuel m mb2_info)) uefi in
    let new = or_else st (in_tag m text (get_acpi_new fuel m mb2_info)) old in
    if (mb2_info == 0) || st.acpi_reclaimed then Run.done (0, st) else new
