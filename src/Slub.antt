-- ===== src/Slub.antt =====
-- The SLUB allocator: kernel/mm/slub.cpp and include/mm/slub.hpp.
pub mod State
pub mod Cache
pub mod Layout
pub mod Invariant
pub mod Pop
pub mod Format
pub mod Alloc
pub mod Push
pub mod Kmalloc
pub mod Sizes
pub mod Start
pub mod Global
pub mod Examples
pub mod Free
