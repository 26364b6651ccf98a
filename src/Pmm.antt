-- ===== src/Pmm.antt =====
-- The physical memory manager, kernel/mm/pmm.cpp and include/mm/pmm.hpp.
pub mod State
pub mod FreeList
pub mod Bitmap
pub mod Order
pub mod Lists
pub mod Weigh
pub mod Frame
pub mod Invariant
pub mod Cover
pub mod Buddy
pub mod Alloc
pub mod Free
pub mod Bump
pub mod Region
pub mod Return
pub mod Start
pub mod Examples
