-- ===== src/Util.antt =====
-- The data structures of include/util: the list and the spinlock.
pub mod LinkedList
pub mod Spinlock
pub mod Examples
