-- ===== src/Paging.antt =====
-- Paging of kernel/mm/paging.cpp and include/mm/paging.hpp.
pub mod Flags
pub mod Address
pub mod Entry
pub mod Map
pub mod Tables
pub mod Way
pub mod Mapped
pub mod Unmapped
pub mod Protected
pub mod Buddy
mod Examples
