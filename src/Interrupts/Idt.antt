-- ===== src/Interrupts/Idt.antt =====
-- The interrupt descriptor table: kernel/arch/interrupts/idt.cpp and include/arch/interrupts/idt.hpp.
pub mod Vectors
use mio_os.Common.{
  ℕ, zero, suc, ◌+◌, ◌-◌, ◌*◌, ◌/◌, ◌%◌, ◌^◌, u16, u32, ◌>>>◌, ltb, ◌==◌, if◌then◌else◌, Bool, ◌||◌,
  Option, none, some,
}
use mio_os.Pmm.State.{update}

-- `idt_gate_desc_t` without its reserved fields, which nothing writes.
pub record Gate : Type 0 where
  pub offset_1 : ℕ
  pub selector : ℕ
  pub ist : ℕ
  pub type : ℕ
  pub zero_bit : ℕ
  pub dpl : ℕ
  pub present : ℕ
  pub offset_2 : ℕ
  pub offset_3 : ℕ

-- The 256 gates.
abbrev pub Gates : Type 0
Gates = ℕ → Gate

-- `set_gate` of the gate at an index; `none` is the panic.
unfoldable pub set_gate : Gates → ℕ → ℕ → ℕ → ℕ → ℕ → ℕ → Option Gates
set_gate gates i base selector ist type dpl =
    if ltb 7 ist || (ltb 3 dpl || ltb 15 type)
    then none
    else some (
        update gates i (record {
          offset_1 = u16 base;
          selector = selector;
          ist = ist;
          type = type;
          zero_bit = 0;
          dpl = dpl;
          present = 1;
          offset_2 = u16 (base >>> 16);
          offset_3 = u32 (base >>> 32);
        }))

-- The gates are cleared by `memset`.
abbrev pub cleared_gate : Gate
cleared_gate = record {
  offset_1 = 0;
  selector = 0;
  ist = 0;
  type = 0;
  zero_bit = 0;
  dpl = 0;
  present = 0;
  offset_2 = 0;
  offset_3 = 0;
}

-- `for (; i < …; i++) set_gate(&gates[i], stub[i - first], 0x08, 0, 0xE, 0);`
unfoldable pub set_stubs : ℕ → Gates → ℕ → (ℕ → ℕ) → ℕ → Option Gates
unfolding set_gate
set_stubs zero gates first stubs i = some gates
set_stubs (suc left) gates first stubs i = elim (set_gate gates i (stubs (i - first)) 8 0 0xE 0) [
  | none ↦ none
  | some gates' ↦ set_stubs left gates' first stubs (i + 1)
]

unfoldable pub early_initialize : (ℕ → ℕ) → (ℕ → ℕ) → Option Gates
early_initialize cpu_stubs hw_stubs = elim (set_stubs 32 (λ i. cleared_gate) 0 cpu_stubs 0) [
  | none ↦ none
  | some gates ↦ set_stubs 224 gates 32 hw_stubs 32
]

-- Type, privilege level and stack of an exception.
abbrev pub gate_type : ℕ → ℕ
gate_type i = if (i == 1) || (i == 3) then 0xF else 0xE

abbrev pub gate_dpl : ℕ → ℕ
gate_dpl i = if i == 3 then 3 else 0

abbrev pub gate_ist : ℕ → ℕ
gate_ist i = if i == 18 then 3 else if i == 2 then 2 else if i == 8 then 1 else 0

-- The loop of `initialize`.
unfoldable pub set_exceptions : ℕ → Gates → (ℕ → ℕ) → ℕ → Option Gates
unfolding set_gate
set_exceptions zero gates stubs i = some gates
set_exceptions (suc left) gates stubs i =
    elim (set_gate gates i (stubs i) 8 (gate_ist i) (gate_type i) (gate_dpl i)) [
      | none ↦ none
      | some gates' ↦ set_exceptions left gates' stubs (i + 1)
    ]

unfoldable pub initialize : Gates → (ℕ → ℕ) → ℕ → Option Gates
initialize gates cpu_stubs spurious = elim (set_exceptions 32 gates cpu_stubs 0) [
  | none ↦ none
  | some gates' ↦ set_gate gates' 0xFF spurious 8 0 0xE 0
]
