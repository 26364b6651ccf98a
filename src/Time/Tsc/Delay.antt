-- ===== src/Time/Tsc/Delay.antt =====
-- How long the delay of the TSC waits.
use mio_os.Common.{
  ℕ, zero, suc, ◌+◌, ◌*◌, ◌/◌, ◌%◌, ◌^◌, ◌<◌, ◌≡◌, ◌≢◌, refl, arith, true, false, ltb, ◌==◌, sub64,
}
use mio_os.Runtime.Arithmetic.{mul_div_u64-eq}
use mio_os.Time.Monotonic.{Clock}
use mio_os.Time.Wait.{Waited, IsRising, until, keep, same_test, until-Waited, ticks_fit}
use mio_os.Time.Tsc.{Tsc, spin, delay_us}

spin-until :
    (fuel : ℕ) (clock : Clock) (start ticks t : ℕ)
    → spin fuel clock start ticks t ≡ until fuel (λ (v : ℕ). ltb (sub64 (clock v) start) ticks) t
unfolding spin
spin-until zero clock start ticks t = refl
spin-until (suc fuel) clock start ticks t = rw (spin-until fuel clock start ticks (suc t)) refl

-- For a calibrated TSC with a frequency other than 0 and below 2 ^ 64, and a counter that goes on
-- with every reading and does not wrap before the delay can end, fuel above the number of ticks
-- that `microseconds` have at this frequency, rounded down, is enough for `delay_us`: it ends at
-- the first reading behind the one it starts from at which the counter has gone on by these
-- ticks.
pub delay_us-Waited :
    (fuel : ℕ) (s : Tsc) (clock : Clock) (microseconds t : ℕ)
    → s.calibrated ≡ true
    → s.tsc_hz ≢ 0
    → s.tsc_hz < 2 ^ 64
    → IsRising clock (suc (t + microseconds * s.tsc_hz / 1000000))
    → microseconds * s.tsc_hz / 1000000 < fuel
    → Waited clock t (microseconds * s.tsc_hz / 1000000) (delay_us fuel s clock microseconds t)
unfolding delay_us
delay_us-Waited fuel s clock microseconds t on some_hz small rising enough =
    let ticks = microseconds * s.tsc_hz / 1000000 in
    let z : (s.tsc_hz == 0) ≡ false = ground arith in
    let fit = ticks_fit clock t ticks rising in
    let exact : ticks % 2 ^ 64 ≡ ticks = omega (arith, fit) in
    let q = mul_div_u64-eq microseconds s.tsc_hz 1000000 (omega arith) small in
    rw (z, on, q, exact, spin-until fuel clock (clock t) ticks (suc t))
      (until-Waited clock t ticks rising fuel (keep clock t ticks rising)
        (same_test clock t ticks rising) enough)
