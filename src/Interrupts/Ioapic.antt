-- ===== src/Interrupts/Ioapic.antt =====
-- kernel/arch/interrupts/ioapic.cpp and include/arch/interrupts/ioapic.hpp, and the handler table of
-- kernel/arch/interrupts/interrupts.cpp.
pub mod Route
use mio_os.Common.{
  ℕ, zero, suc, ◌+◌, ◌-◌, ◌*◌, ◌/◌, ◌%◌, ◌^◌, bit_and, bit_or, u8, u16, u32, ltb, leb, ◌==◌, ◌!=◌,
  if◌then◌else◌, Bool, true, false, not, ◌&&◌, Option, none, some, List, [], ◌∷◌,
}
use mio_os.Pmm.State.{update}

-- `CPU_IRQ_NUM`
abbrev pub cpu_irq_num : ℕ
cpu_irq_num = 32

-- The fields of `rte_t`.
pub record Rte : Type 0 where
  pub vector : ℕ
  pub delv_mode : ℕ
  pub dest_mode : ℕ
  pub delv_status : ℕ
  pub pin_polarity : ℕ
  pub remote_irr : ℕ
  pub trigger_mode : ℕ
  pub mask : ℕ
  pub destination : ℕ

-- The other view of the union.
unfoldable pub lower_dword : Rte → ℕ
lower_dword r =
    r.vector
    + 2 ^ 8 * r.delv_mode
    + 2 ^ 11 * r.dest_mode
    + 2 ^ 12 * r.delv_status
    + 2 ^ 13 * r.pin_polarity
    + 2 ^ 14 * r.remote_irr
    + 2 ^ 15 * r.trigger_mode
    + 2 ^ 16 * r.mask

unfoldable pub upper_dword : Rte → ℕ
upper_dword r = 2 ^ 24 * r.destination

-- An I/O APIC with its registers; `select` is the index in IOREGSEL, and IOWIN is the register with
-- that index.
pub record Ioapic : Type 0 where
  pub gsi_base : ℕ
  pub initialized : Bool
  pub max_entries : ℕ
  pub select : ℕ
  pub register : ℕ → ℕ

unfoldable pub read_reg : Ioapic → ℕ → ℕ × Ioapic
read_reg a reg = (a.register reg, record a { select = reg })

unfoldable pub write_reg : Ioapic → ℕ → ℕ → Ioapic
write_reg a reg value = record a { select = reg; register = update a.register reg value }

-- The entry that `write_rte` writes; the arguments that callers leave out are 0.
unfoldable pub make_rte : ℕ → ℕ → ℕ → Bool → ℕ → ℕ → Rte
make_rte vector dest flags masked delv_mode dest_mode = record {
  vector = vector;
  delv_mode = delv_mode % 8;
  dest_mode = dest_mode % 2;
  delv_status = 0;
  pin_polarity = if bit_and flags 2 != 0 then 1 else 0;
  remote_irr = 0;
  trigger_mode = if bit_and flags 8 != 0 then 1 else 0;
  mask = if masked then 1 else 0;
  destination = dest;
}

unfoldable pub write_rte : Ioapic → ℕ → ℕ → ℕ → ℕ → Bool → ℕ → ℕ → Ioapic
unfolding write_reg make_rte lower_dword upper_dword
write_rte a gsi vector dest flags masked delv_mode dest_mode =
    let low_index = 0x10 + gsi * 2 in
    let rte = make_rte vector dest flags masked delv_mode dest_mode in
    if a.initialized
    then write_reg (write_reg a low_index (lower_dword rte)) (low_index + 1) (upper_dword rte)
    else a

unfoldable pub mask_gsi : Ioapic → ℕ → Ioapic
unfolding read_reg write_reg
mask_gsi a gsi =
    let reg_low = 0x10 + gsi * 2 in
    let (current_low, a') = read_reg a reg_low in write_reg a' reg_low (bit_or current_low (2 ^ 16))

-- `ioapic_iso_t`: an override of an ISA interrupt.
pub record Override : Type 0 where
  pub irq_source : ℕ
  pub gsi : ℕ
  pub flags : ℕ

-- The GSI and `out_flags`; `sci_irq` is what the FADT says.
unfoldable pub get_gsi_for_irq : List Override → ℕ → ℕ → ℕ × ℕ
get_gsi_for_irq [] sci_irq irq = (irq, if irq == sci_irq then 10 else 0)
get_gsi_for_irq (o ∷ os) sci_irq irq =
    if o.irq_source == irq then (o.gsi, o.flags) else get_gsi_for_irq os sci_irq irq

-- The place of the I/O APIC in the list.
unfoldable pub get_ioapic_for_gsi : ℕ → List Ioapic → Option ℕ
get_ioapic_for_gsi gsi [] = none
get_ioapic_for_gsi gsi (a ∷ as') =
    let rest : Option ℕ = elim (get_ioapic_for_gsi gsi as') [
      | none ↦ none
      | some k ↦ some (suc k)
    ] in
    if a.initialized && (leb a.gsi_base gsi && ltb gsi (u32 (a.gsi_base + a.max_entries)))
    then some 0
    else rest

-- A call on the object at a place of the list.
abbrev pub modify {ℓ} : {A : Type ℓ} → ℕ → (A → A) → List A → List A
modify k f [] = []
modify zero f (a ∷ as') = f a ∷ as'
modify (suc k) f (a ∷ as') = a ∷ modify k f as'

-- `destination` is an `int`, -1 by its bit pattern; `bsp_id` is the APIC id of the BSP. The result
-- is the `bool` as an `int`.
unfoldable pub find_gsi_and_write_rte :
    List Override → ℕ → ℕ → List Ioapic → ℕ → ℕ → ℕ × List Ioapic
find_gsi_and_write_rte overrides sci_irq bsp_id ioapics vector destination =
    let (gsi, flags) = get_gsi_for_irq overrides sci_irq ((vector + 256 - cpu_irq_num) % 256) in
    let dest = u8 (if destination == 2 ^ 32 - 1 then bsp_id else destination) in
    elim (get_ioapic_for_gsi gsi ioapics) [
      | none ↦ (0, ioapics)
      | some k ↦ (1, modify k (λ a. write_rte a (u8 gsi) vector dest flags false 0 0) ioapics)
    ]

-- `interrupt_handlers`, the address of the handler at each vector.
abbrev pub Handlers : Type 0
Handlers = ℕ → ℕ

unfoldable pub register_interrupt_handler : Handlers → ℕ → ℕ → Handlers
register_interrupt_handler table vector handler = update table vector handler

unfoldable pub unregister_interrupt_handler : Handlers → ℕ → Handlers
unregister_interrupt_handler table vector = update table vector 0

-- What `hw_irq_handler` does, in order: the call of a handler, the report of an interrupt that has
-- none, and the end of interrupt at the LAPIC or the PIC.
pub data Action : Type 0 where
  call : ℕ → Action
  unhandled : ℕ → Action
  lapic_eoi : Action
  pic_eoi : ℕ → Action

unfoldable pub hw_irq_handler : Handlers → Bool → ℕ → List Action
hw_irq_handler table pic_disabled interr_no =
    let first = (if table interr_no != 0 then call (table interr_no) else unhandled interr_no) in
    if pic_disabled
    then first ∷ lapic_eoi ∷ []
    else if leb 32 interr_no && leb interr_no 47
    then first ∷ pic_eoi (interr_no - 32) ∷ []
    else first ∷ []
