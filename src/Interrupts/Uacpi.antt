-- ===== src/Interrupts/Uacpi.antt =====
-- The interrupt handlers of kernel/arch/acpi/uacpi_osl.cpp: a table of eight slots behind one
-- trampoline.
pub mod Slots
pub mod Install
use mio_os.Common.{
  ℕ, zero, suc, ◌+◌, ◌-◌, ◌%◌, ◌^◌, u8, u32, ◌==◌, ◌!=◌, if◌then◌else◌, Bool, true, false, not,
  ◌&&◌, ◌||◌, Option, none, some, List, [], ◌∷◌,
}
use mio_os.Interrupts.Ioapic.{
  cpu_irq_num, Handlers, Override, Ioapic, modify, find_gsi_and_write_rte,
  register_interrupt_handler, unregister_interrupt_handler,
}

-- `UacpiHandlerEntry`; a function and a context are addresses.
pub record Entry : Type 0 where
  pub handler : ℕ
  pub ctx : ℕ
  pub in_use : Bool
  pub vector : ℕ

pub data Status : Type 0 where
  success : Status
  not_found : Status
  no_resource : Status
  invalid_argument : Status

-- The place of the slot, and the table with the slot taken.
unfoldable pub allocate_uacpi_entry : List Entry → ℕ → Option (ℕ × List Entry)
allocate_uacpi_entry [] vector = none
allocate_uacpi_entry (e ∷ es) vector =
    let rest : Option (ℕ × List Entry) = elim (allocate_uacpi_entry es vector) [
      | none ↦ none
      | some (k, es') ↦ some (suc k, e ∷ es')
    ] in
    if not e.in_use then some (0, record e { in_use = true; vector = vector } ∷ es) else rest

unfoldable pub get_uacpi_entry : List Entry → ℕ → Option (ℕ × Entry)
get_uacpi_entry [] vector = none
get_uacpi_entry (e ∷ es) vector =
    let rest : Option (ℕ × Entry) = elim (get_uacpi_entry es vector) [
      | none ↦ none
      | some (k, f) ↦ some (suc k, f)
    ] in
    if e.in_use && (e.vector == vector) then some (0, e) else rest

-- The call that the trampoline makes: the handler and its argument.
unfoldable pub uacpi_interrupt_trampoline : List Entry → ℕ → Option (ℕ × ℕ)
uacpi_interrupt_trampoline entries interr_no = elim (get_uacpi_entry entries (u8 interr_no)) [
  | none ↦ none
  | some (k, e) ↦ if e.handler != 0 then some (e.handler, e.ctx) else none
]

-- What the functions below read and write, and the address of the trampoline.
pub record Host : Type 0 where
  pub entries : List Entry
  pub handlers : Handlers
  pub ioapics : List Ioapic
  pub overrides : List Override
  pub sci_irq : ℕ
  pub bsp_id : ℕ
  pub trampoline : ℕ

-- `entry->in_use = false; …`
abbrev pub clear_entry : Entry → Entry
clear_entry e = record e { in_use = false; handler = 0; ctx = 0; vector = 0 }

-- The status, `*out_irq_handle` on success, and the state.
unfoldable pub install_interrupt_handler : Host → ℕ → ℕ → ℕ → Status × ℕ × Host
install_interrupt_handler s irq handler ctx =
    let vector = u8 (cpu_irq_num + irq) in
    elim (allocate_uacpi_entry s.entries vector) [
      | none ↦ (no_resource, 0, s)
      | some (k, taken) ↦
          let entries = modify k (λ (e : Entry). record e { handler = handler; ctx = ctx }) taken in
          let handlers = register_interrupt_handler s.handlers vector s.trampoline in
          let (answer, ioapics) =
            find_gsi_and_write_rte s.overrides s.sci_irq s.bsp_id s.ioapics vector (2 ^ 32 - 1) in
          let s' : Host = record s { entries = entries; handlers = handlers; ioapics = ioapics } in
          if answer == 2 ^ 32 - 1
          then (
            not_found,
            0,
            record s' {
              handlers = unregister_interrupt_handler handlers vector;
              entries = modify k clear_entry entries;
            },
          )
          else (success, vector, s')
    ]

unfoldable pub uninstall_interrupt_handler : Host → ℕ → ℕ → Status × Host
uninstall_interrupt_handler s handler irq_handle =
    let vector = u8 irq_handle in
    elim (get_uacpi_entry s.entries vector) [
      | none ↦ (invalid_argument, s)
      | some (k, e) ↦ if e.handler != handler then (invalid_argument, s) else (
        success,
        record s {
          handlers = unregister_interrupt_handler s.handlers vector;
          entries = modify k clear_entry s.entries;
        },
      )
    ]
