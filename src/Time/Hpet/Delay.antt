-- ===== src/Time/Hpet/Delay.antt =====
-- How long the delay of the HPET waits.
use mio_os.Common.{ℕ, zero, suc, ◌+◌, ◌*◌, ◌/◌, ◌<◌, ◌≡◌, refl, arith, true, ltb, add64, mul64}
use mio_os.Time.Monotonic.{Clock}
use mio_os.Time.Wait.{Waited, IsRising, until, until-Waited, ticks_fit}
use mio_os.Time.Hpet.{Hpet, get_ticks, spin, delay_us}

spin-until :
    (fuel : ℕ) (s : Hpet) (clock : Clock) (target t : ℕ)
    → spin fuel s clock target t ≡ until fuel (λ (v : ℕ). ltb (get_ticks s clock v) target) t
unfolding spin
spin-until zero s clock target t = refl
spin-until (suc fuel) s clock target t = rw (spin-until fuel s clock target (suc t)) refl

-- For an initialized HPET and a counter that goes on with every reading and does not wrap before
-- the delay can end, fuel above `us` times the whole megahertz of the frequency is enough for
-- `delay_us`: it ends at the first reading behind the one it starts from at which the counter has
-- gone on by these ticks, which leaves out the fraction of a megahertz.
pub delay_us-Waited_truncated :
    (fuel : ℕ) (s : Hpet) (clock : Clock) (us t : ℕ)
    → s.initialized ≡ true
    → IsRising clock (suc (t + us * (s.hpet_frequency / 1000000)))
    → us * (s.hpet_frequency / 1000000) < fuel
    → Waited clock t (us * (s.hpet_frequency / 1000000)) (delay_us fuel s clock us t)
unfolding delay_us get_ticks
delay_us-Waited_truncated fuel s clock us t on rising enough =
    let ticks = us * (s.hpet_frequency / 1000000) in
    let fit = ticks_fit clock t ticks rising in
    let exact : add64 (clock t) (mul64 us (s.hpet_frequency / 1000000)) ≡ clock t + ticks =
      omega (arith, fit) in
    let s' : Hpet = record { initialized = true; hpet_frequency = s.hpet_frequency } in
    let test = λ (v : ℕ). ltb (get_ticks s' clock v) (clock t + ticks) in
    rw (on, exact, spin-until fuel s' clock (clock t + ticks) (suc t))
      (until-Waited clock t ticks rising fuel test (λ v h h'. refl) enough)
