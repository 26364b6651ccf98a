-- ===== src/Time.antt =====
-- Clocks: the real-time clock of the CMOS and the time of the kernel.
pub mod Rtc
pub mod Calendar
pub mod Monotonic
pub mod Wait
pub mod Tsc
pub mod Hpet
pub mod Nanoseconds
pub mod Examples
