-- ===== src/Boot.antt =====
-- The information that the boot loader leaves: boot/multiboot.cpp and boot/uefi.cpp.
pub mod Multiboot
pub mod Tags
pub mod Uefi
pub mod Mmap
pub mod Examples
