-- ===== src/Time/Nanoseconds.antt =====
-- The time that the TSC and the HPET show.
use native.Mathlib.Nat.{div-mul-le_self, div-le_self}
use mio_os.Common.{
  ℕ, ◌*◌, ◌/◌, ◌%◌, ◌^◌, ◌<◌, ◌≤◌, ◌≡◌, ◌≢◌, refl, arith, true, false, ◌==◌, some, ap, ◌⊎◌, inl,
  inr, mul64, ◌∙◌, sym,
}
use mio_os.Runtime.Arithmetic.{mul_div_u64-eq}
use mio_os.Time.Monotonic.{Clock}
use mio_os.Time.Tsc
use mio_os.Time.Hpet

tsc-exact :
    (s : Tsc.Tsc) (clock : Clock) (t : ℕ)
    → s.calibrated ≡ true
    → s.tsc_hz ≢ 0
    → Tsc.get_ns s clock t ≡ some (clock t * 1000000000 / s.tsc_hz % 2 ^ 64)
unfolding Tsc.get_ns
tsc-exact s clock t on some_hz =
    let z : (s.tsc_hz == 0) ≡ false = ground arith in
    rw (z, on) (mul_div_u64-eq (clock t) 1000000000 s.tsc_hz some_hz (omega arith))

hpet-wrapped :
    (s : Hpet.Hpet) (clock : Clock) (t : ℕ)
    → s.initialized ≡ true
    → s.hpet_frequency ≢ 0
    → Hpet.get_ns s clock t ≡ mul64 (clock t) 1000000000 / s.hpet_frequency
unfolding Hpet.get_ns Hpet.get_ticks
hpet-wrapped s clock t on some_hz =
    let z : (s.hpet_frequency == 0) ≡ false = ground arith in rw (z, on) refl

below-or-not : (x : ℕ) → (x < 2 ^ 64) ⊎ (2 ^ 64 ≤ x)
below-or-not x = ground arith

wrap_none : (x hz : ℕ) → x < 2 ^ 64 → x / hz % 2 ^ 64 ≡ x % 2 ^ 64 / hz
wrap_none x hz small =
    let a : x % 2 ^ 64 ≡ x = omega arith in
    let le : x / hz ≤ x = div-le_self x hz in
    let b : x / hz % 2 ^ 64 ≡ x / hz = omega (arith, le) in b ∙ ap (λ (y : ℕ). y / hz) (sym a)

-- For a calibrated TSC and an initialized HPET of the same frequency, other than 0, and the same
-- counter: the time of the TSC is the exact number of nanoseconds modulo 2 ^ 64; that of the
-- HPET, times the frequency, stays below 2 ^ 64 whatever the counter; and the two agree, or the
-- product of the counter and 10 ^ 9 does not fit in 64 bits.
pub get_ns-agree :
    (c : Tsc.Tsc) (h : Hpet.Hpet) (clock : Clock) (t hz : ℕ)
    → c ≡ record { tsc_hz = hz; calibrated = true }
    → h ≡ record { initialized = true; hpet_frequency = hz }
    → hz ≢ 0
    → (Tsc.get_ns c clock t ≡ some (clock t * 1000000000 / hz % 2 ^ 64))
      × (Hpet.get_ns h clock t * hz < 2 ^ 64)
      × ((Tsc.get_ns c clock t ≡ some (Hpet.get_ns h clock t)) ⊎ (2 ^ 64 ≤ clock t * 1000000000))
get_ns-agree c h clock t hz e e' some_hz =
    let c' : Tsc.Tsc = record { tsc_hz = hz; calibrated = true } in
    let h' : Hpet.Hpet = record { initialized = true; hpet_frequency = hz } in
    let x = clock t * 1000000000 in
    let exact : Tsc.get_ns c clock t ≡ some (x / hz % 2 ^ 64) =
      ap (λ (r : Tsc.Tsc). Tsc.get_ns r clock t) e ∙ tsc-exact c' clock t refl some_hz in
    let wrapped : Hpet.get_ns h clock t ≡ x % 2 ^ 64 / hz =
      ap (λ (r : Hpet.Hpet). Hpet.get_ns r clock t) e' ∙ hpet-wrapped h' clock t refl some_hz in
    let le : x % 2 ^ 64 / hz * hz ≤ x % 2 ^ 64 = div-mul-le_self (x % 2 ^ 64) hz in
    let bound : x % 2 ^ 64 / hz * hz < 2 ^ 64 = omega (arith, le) in
    (
      exact,
      rw wrapped bound,
      elim (below-or-not x) [
        | inl small ↦ inl (exact ∙ ap some (wrap_none x hz small) ∙ ap some (sym wrapped))
        | inr large ↦ inr large
      ],
    )
