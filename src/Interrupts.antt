-- ===== src/Interrupts.antt =====
-- Interrupt vectors, the I/O APICs and the interrupt handlers of uACPI.
pub mod Ioapic
pub mod Uacpi
pub mod Idt
pub mod Examples
