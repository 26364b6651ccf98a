-- ===== src/Time/Tsc.antt =====
-- kernel/arch/timers/tsc.cpp. The counter is a function of the moment at which `rdtsc` reads it, and
-- each reading happens a moment after the one before. What `calibrate` calls of the PIT and of
-- `KernelTime`, and the interrupt flag, are left out.
pub mod Delay
use mio_os.Common.{
  ℕ, zero, suc, ◌/◌, Bool, true, false, not, ◌||◌, ◌&&◌, ltb, leb, ◌==◌, if◌then◌else◌, Option,
  none, some, sub64, mul64, bit_and,
}
use mio_os.Common.Outcome.{Run, done, panicked, running}
use mio_os.Runtime.Arithmetic.{mul_div_u64}
use mio_os.Time.Monotonic.{Clock}

pub record Tsc : Type 0 where
  pub tsc_hz : ℕ
  pub calibrated : Bool

-- What `cpuid` answers for a leaf.
pub record Leaf : Type 0 where
  pub eax : ℕ
  pub ebx : ℕ
  pub ecx : ℕ
  pub edx : ℕ

unfoldable pub is_tsc_invariant : (max_ext_leaf : ℕ) → (ℕ → Leaf) → Bool
is_tsc_invariant max_ext_leaf cpuid =
    if ltb max_ext_leaf 0x80000007 then false else not (bit_and (cpuid 0x80000007).edx 256 == 0)

-- The frequency from leaf 0x15, from leaf 0x16, or from a window of 10 ms of the PIT.
unfoldable pub measured_hz : (max_std_leaf : ℕ) → (ℕ → Leaf) → (start_tsc end_tsc : ℕ) → ℕ
measured_hz max_std_leaf cpuid start_tsc end_tsc =
    let l = cpuid 0x15 in
    if leb 0x15 max_std_leaf && not (l.eax == 0) && not (l.ebx == 0) && not (l.ecx == 0)
    then mul64 l.ecx l.ebx / l.eax
    else if leb 0x16 max_std_leaf && not ((cpuid 0x16).eax == 0)
    then mul64 (bit_and (cpuid 0x16).eax 0xFFFF) 1000000
    else mul64 (sub64 end_tsc start_tsc) 100

unfoldable pub calibrate :
    Tsc → (max_ext_leaf max_std_leaf : ℕ) → (ℕ → Leaf) → (start_tsc end_tsc : ℕ) → Tsc
unfolding is_tsc_invariant measured_hz
calibrate s max_ext_leaf max_std_leaf cpuid start_tsc end_tsc =
    if is_tsc_invariant max_ext_leaf cpuid
    then record { tsc_hz = measured_hz max_std_leaf cpuid start_tsc end_tsc; calibrated = true }
    else s

-- The loop of `delay_us`, which ends at a moment.
unfoldable pub spin : (fuel : ℕ) → Clock → (start ticks_to_wait t : ℕ) → Run ℕ
spin zero rdtsc start ticks_to_wait t = running
spin (suc fuel) rdtsc start ticks_to_wait t =
    let rest = spin fuel rdtsc start ticks_to_wait (suc t) in
    if ltb (sub64 (rdtsc t) start) ticks_to_wait then rest else done t

-- A fault of the division is `panicked`.
unfoldable pub delay_us : (fuel : ℕ) → Tsc → Clock → (microseconds t : ℕ) → Run ℕ
unfolding spin
delay_us fuel s rdtsc microseconds t =
    if (s.tsc_hz == 0) || not s.calibrated
    then done t
    else elim (mul_div_u64 microseconds s.tsc_hz 1000000) [
      | none ↦ panicked
      | some ticks_to_wait ↦ spin fuel rdtsc (rdtsc t) ticks_to_wait (suc t)
    ]

unfoldable pub get_ns : Tsc → Clock → ℕ → Option ℕ
get_ns s rdtsc t =
    if (s.tsc_hz == 0) || not s.calibrated
    then some 0
    else mul_div_u64 (rdtsc t) 1000000000 s.tsc_hz
