-- ===== src/Acpi/Madt.antt =====
-- `MADT::parse_madt` of kernel/arch/acpi/madt.cpp, over a memory of bytes. The lists of
-- `SystemTopology` are the sequences that they hold. A push finds memory for its node or not, which
-- the heap decides: `room` says of the record at an address if the push for it does.
pub mod Entries
use mio_os.Common.{
  ℕ, zero, suc, ◌+◌, ◌*◌, bit_and, ltb, ◌==◌, ◌!=◌, if◌then◌else◌, Bool, ◌||◌, Option, none, some,
  List, [], ◌∷◌, ◌++◌,
}
use mio_os.Common.Outcome.{Run}
use mio_os.Runtime.Memory.{Memory}
use mio_os.Boot.Multiboot.{load32, load64}

pub record CpuCoreInfo : Type 0 where
  pub acpi_cpu_id : ℕ
  pub apic_id : ℕ
  pub flags : ℕ
  pub is_bsp : Bool

pub record IoapicInfo : Type 0 where
  pub ioapic_id : ℕ
  pub ioapic_address : ℕ
  pub gsib : ℕ

pub record IoapicIso : Type 0 where
  pub bus_source : ℕ
  pub irq_source : ℕ
  pub gsi : ℕ
  pub flags : ℕ

pub record Lx2apic : Type 0 where
  pub lx2apic_id : ℕ
  pub flags : ℕ
  pub acpi_id : ℕ

pub record SystemTopology : Type 0 where
  pub cpu_infos : List CpuCoreInfo
  pub io_apics : List IoapicInfo
  pub overrides : List IoapicIso
  pub lx2apics : List Lx2apic
  pub local_apic_base_phys : ℕ

-- `(flags & 1) || (flags & 2)`
abbrev pub usable_cpu : ℕ → Bool
usable_cpu flags = (bit_and flags 1 != 0) || (bit_and flags 2 != 0)

unfoldable pub load16 : Memory → ℕ → ℕ
load16 m p = m p + m (p + 1) * 256

-- What `push_back` leaves of the sequence, whose result the parser does not look at.
unfoldable pub pushed {ℓ} : {A : Type ℓ} → Bool → List A → A → List A
pushed room xs x = if room then xs ++ x ∷ [] else xs

-- The `switch` on the type of a record; `lapic_phys` is a local variable of the loop.
unfoldable pub parse_record :
    (ℕ → Bool) → (bsp_id : ℕ) → Memory → ℕ → SystemTopology × ℕ → SystemTopology × ℕ
unfolding pushed
parse_record room bsp_id m record_ptr (t, lapic_phys) =
    let kind = m record_ptr in
    if kind == 0
    then (let flags = load32 m (record_ptr + 4) in
        let info : CpuCoreInfo = record {
          acpi_cpu_id = m (record_ptr + 2);
          apic_id = m (record_ptr + 3);
          flags = flags;
          is_bsp = m (record_ptr + 3) == bsp_id;
        } in
        if usable_cpu flags
        then (record t { cpu_infos = pushed (room record_ptr) t.cpu_infos info }, lapic_phys)
        else (t, lapic_phys))
    else if kind == 1
    then (let info : IoapicInfo = record {
      ioapic_id = m (record_ptr + 2);
      ioapic_address = load32 m (record_ptr + 4);
      gsib = load32 m (record_ptr + 8);
    } in
        (record t { io_apics = pushed (room record_ptr) t.io_apics info }, lapic_phys))
    else if kind == 2
    then (let iso : IoapicIso = record {
      bus_source = m (record_ptr + 2);
      irq_source = m (record_ptr + 3);
      gsi = load32 m (record_ptr + 4);
      flags = load16 m (record_ptr + 8);
    } in
        (record t { overrides = pushed (room record_ptr) t.overrides iso }, lapic_phys))
    else if kind == 5
    then (t, load64 m (record_ptr + 4))
    else if kind == 9
    then (let flags = load32 m (record_ptr + 8) in
        let info : Lx2apic = record {
          lx2apic_id = load32 m (record_ptr + 4);
          flags = flags;
          acpi_id = load32 m (record_ptr + 12);
        } in
        if usable_cpu flags
        then (record t { lx2apics = pushed (room record_ptr) t.lx2apics info }, lapic_phys)
        else (t, lapic_phys))
    else (t, lapic_phys)

-- `while (current_record < end_of_table)`; `none` when it still runs.
unfoldable pub parse_records :
    (fuel : ℕ)
    → (ℕ → Bool)
    → (bsp_id : ℕ) → Memory
    → ℕ
    → ℕ
    → SystemTopology × ℕ
    → Option (SystemTopology × ℕ)
unfolding parse_record
parse_records zero room bsp_id m current_record end_of_table st = none
parse_records (suc fuel) room bsp_id m current_record end_of_table st =
    let next = current_record + m (current_record + 1) in
    let st' = parse_record room bsp_id m current_record st in
    let rest = parse_records fuel room bsp_id m next end_of_table st' in
    if ltb current_record end_of_table then rest else some st

-- `found` is the table that uACPI finds, if it finds one.
unfoldable pub parse_madt :
    (fuel : ℕ)
    → (ℕ → Bool)
    → (bsp_id : ℕ) → Memory
    → Option ℕ
    → SystemTopology
    → Run (Bool × SystemTopology)
unfolding parse_records
parse_madt fuel room bsp_id m none t = Run.panicked
parse_madt fuel room bsp_id m (some madt) t =
    elim (parse_records fuel room bsp_id m (madt + 44) (madt + load32 m (madt + 4))
      (t, load32 m (madt + 36))) [
        | none ↦ Run.running
        | some (t', lapic_phys) ↦
            Run.done (Bool.true, record t' { local_apic_base_phys = lapic_phys })
      ]
