-- ===== src/Time/Examples.antt =====
-- A date, and a kernel that changes its clock.
use mio_os.Common.{◌*◌, ◌/◌, ◌%◌, ◌^◌, ◌<◌, ◌≤◌, ◌≡◌, ◌⊎◌, refl, arith, true, add64, sub64, some}
use mio_os.Time.Rtc.{timestamp_of}
use mio_os.Time.Calendar.{seconds, timestamp_of-seconds}
use mio_os.Time.Monotonic.{KernelTime, get_monotonic_ns, initialize, get_monotonic_ns-initialize}
use mio_os.Time.Wait.{Waited}
use mio_os.Time.Tsc
use mio_os.Time.Hpet
use mio_os.Time.Tsc.Delay.{delay_us-Waited}
use mio_os.Time.Nanoseconds.{get_ns-agree}

-- The last second of February 2024.
timestamp_of-seconds_example : timestamp_of 24 2 29 23 59 59 ≡ some (seconds 54 2 29 23 59 59)
timestamp_of-seconds_example =
    timestamp_of-seconds 54 2 29 23 59 59 (omega arith) (omega arith) (omega arith) (omega arith)
      (omega arith) (omega arith) (omega arith) (omega arith)

abbrev ticking : KernelTime
ticking = record {
  timer_hz = 1000;
  get_ns_funct = some (λ t. t * 1000);
  boot_wall_ns = 0;
  boot_ns = 0;
  accumulated_monotonic_ns = 0;
}

get_monotonic_ns-initialize_example :
    get_monotonic_ns (initialize ticking 3000000 (some (λ t. t * 3)) 1 0 7 9) 20
    ≡ add64 (get_monotonic_ns ticking 7) (sub64 60 27)
get_monotonic_ns-initialize_example =
    get_monotonic_ns-initialize ticking 3000000 1 0 7 9 20 (λ t. t * 3) (omega arith) (omega arith)
      tt

-- A TSC of 3 MHz and an HPET of the usual frequency, read at every tick.
abbrev tsc : Tsc.Tsc
tsc = record { tsc_hz = 3000000; calibrated = true }

abbrev hpet : Hpet.Hpet
hpet = record { initialized = true; hpet_frequency = 14318180 }

delay_us-Waited_example : Waited (λ t. t) 5 6 (Tsc.delay_us 7 tsc (λ t. t) 2 5)
delay_us-Waited_example =
    delay_us-Waited 7 tsc (λ t. t) 2 5 refl (omega arith) (omega arith)
      (λ u. omega arith, omega arith) (omega arith)

abbrev fast : Tsc.Tsc
fast = record { tsc_hz = 14318180; calibrated = true }

-- After about 22 minutes.
get_ns-agree_example :
    (Tsc.get_ns fast (λ t. t) 19000000000 ≡ some (19000000000 * 1000000000 / 14318180 % 2 ^ 64))
    × (Hpet.get_ns hpet (λ t. t) 19000000000 * 14318180 < 2 ^ 64)
    × ((Tsc.get_ns fast (λ t. t) 19000000000 ≡ some (Hpet.get_ns hpet (λ t. t) 19000000000))
        ⊎ (2 ^ 64 ≤ 19000000000 * 1000000000))
get_ns-agree_example = get_ns-agree fast hpet (λ t. t) 19000000000 14318180 refl refl (omega arith)
