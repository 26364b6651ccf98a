-- ===== src/Runtime.antt =====
-- The freestanding C library of the kernel: mem_util.cpp, string_util.cpp and math.cpp of
-- kernel/lib, over a memory of bytes.
pub mod Memory
pub mod Move
pub mod Text
pub mod Digits
pub mod Arithmetic
pub mod Examples
