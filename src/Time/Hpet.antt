-- ===== src/Time/Hpet.antt =====
-- kernel/arch/timers/hpet.cpp: the counter, the time and the delay. The main counter is a function of
-- the moment at which it is read, and each reading happens a moment after the one before.
pub mod Delay
use mio_os.Common.{ℕ, zero, suc, ◌/◌, Bool, not, ltb, ◌==◌, if◌then◌else◌, add64, mul64}
use mio_os.Common.Outcome.{Run, done, running}
use mio_os.Time.Monotonic.{Clock}

pub record Hpet : Type 0 where
  pub initialized : Bool
  pub hpet_frequency : ℕ

unfoldable pub get_ticks : Hpet → Clock → Clock
get_ticks s main_counter t = if s.initialized then main_counter t else 0

unfoldable pub get_ns : Hpet → Clock → Clock
unfolding get_ticks
get_ns s main_counter t =
    if s.hpet_frequency == 0
    then 0
    else mul64 (get_ticks s main_counter t) 1000000000 / s.hpet_frequency

-- The loop of `delay_us`, which ends at a moment.
unfoldable pub spin : (fuel : ℕ) → Hpet → Clock → (target_ticks t : ℕ) → Run ℕ
unfolding get_ticks
spin zero s main_counter target_ticks t = running
spin (suc fuel) s main_counter target_ticks t =
    let rest = spin fuel s main_counter target_ticks (suc t) in
    if ltb (get_ticks s main_counter t) target_ticks then rest else done t

unfoldable pub delay_us : (fuel : ℕ) → Hpet → Clock → (us t : ℕ) → Run ℕ
unfolding get_ticks spin
delay_us fuel s main_counter us t =
    if not s.initialized
    then done t
    else spin fuel s main_counter
        (add64 (get_ticks s main_counter t) (mul64 us (s.hpet_frequency / 1000000))) (suc t)
