-- ===== src/Acpi.antt =====
-- The ACPI tables of kernel/arch/acpi, and how the host layer hands their address to uACPI.
pub mod Rsdp
pub mod Scan
pub mod Find
pub mod Madt
pub mod Examples
