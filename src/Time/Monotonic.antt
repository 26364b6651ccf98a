-- ===== src/Time/Monotonic.antt =====
-- kernel/timekeeping.cpp. A clock is a function of the moment at which it is read, and `none` is a
-- null function pointer; the signature of the source and the delays are left out.
use mio_os.Common.{
  ℕ, ◌≡◌, ◌≢◌, refl, arith, add64, sub64, mul64, ◌==◌, if◌then◌else◌, Option, none, some, false,
  ◌∙◌, ap,
}

abbrev pub Clock : Type 0
Clock = ℕ → ℕ

-- The static data of `KernelTime`, and `accumulated_monotonic_ns`.
pub record KernelTime : Type 0 where
  pub timer_hz : ℕ
  pub get_ns_funct : Option Clock
  pub boot_wall_ns : ℕ
  pub boot_ns : ℕ
  pub accumulated_monotonic_ns : ℕ

unfoldable pub get_monotonic_ns : KernelTime → ℕ → ℕ
get_monotonic_ns s t = elim s.get_ns_funct [
  | none ↦ 0
  | some clock ↦ add64 s.accumulated_monotonic_ns (sub64 (clock t) s.boot_ns)
]

unfoldable pub get_realtime_ns : KernelTime → ℕ → ℕ
unfolding get_monotonic_ns
get_realtime_ns s t = add64 s.boot_wall_ns (get_monotonic_ns s t)

-- What the old source, or the CMOS, adds at moment `t`.
unfoldable pub save_elapsed : KernelTime → ℕ → ℕ → KernelTime
save_elapsed s t timestamp = elim s.get_ns_funct [
  | some clock ↦ record s {
    accumulated_monotonic_ns = add64 s.accumulated_monotonic_ns (sub64 (clock t) s.boot_ns);
  }
  | none ↦ record s { boot_wall_ns = mul64 timestamp 1000000000 }
]

-- The old source is read at moment `t`, the new one at `t'`; `has_delay` says that the third
-- argument is no null pointer, `timestamp` is what the CMOS gives.
unfoldable pub initialize : KernelTime → ℕ → Option Clock → ℕ → ℕ → ℕ → ℕ → KernelTime
initialize s src_hz clock has_delay timestamp t t' = elim clock [
  | none ↦ s
  | some get_ns ↦
      if src_hz == 0 then s else if has_delay == 0 then s else record (save_elapsed s t timestamp) {
        timer_hz = src_hz;
        get_ns_funct = some get_ns;
        boot_ns = get_ns t';
      }
]

-- Before the first source there is no time to keep.
abbrev pub IsFresh : KernelTime → Option Clock → Type 0
IsFresh s none = s.accumulated_monotonic_ns ≡ 0
IsFresh s (some clock) = Unit {0}

module _ (s : KernelTime) (hz delay timestamp t t' u : ℕ) (clock : Clock) (some_hz : hz ≢ 0)
    (some_delay : delay ≢ 0) where
  abbrev after : KernelTime
  after = initialize s hz (some clock) delay timestamp t t'

  -- What is saved is what the clock showed.
  saved :
      (source : Option Clock)
      → s.get_ns_funct ≡ source
      → IsFresh s source
      → (save_elapsed s t timestamp).accumulated_monotonic_ns ≡ get_monotonic_ns s t
  unfolding save_elapsed get_monotonic_ns
  saved none e fresh = rw (e, save_elapsed, get_monotonic_ns) fresh
  saved (some old) e fresh = rw (e, save_elapsed, get_monotonic_ns) refl

  abbrev switched : KernelTime
  switched = record (save_elapsed s t timestamp) {
    timer_hz = hz;
    get_ns_funct = some clock;
    boot_ns = clock t';
  }

  after-eq : after ≡ switched
  unfolding initialize
  after-eq =
      let z : (hz == 0) ≡ false = ground arith in
      let z' : (delay == 0) ≡ false = ground arith in rw (z, z') refl

  started :
      get_monotonic_ns switched u
      ≡ add64 (save_elapsed s t timestamp).accumulated_monotonic_ns (sub64 (clock u) (clock t'))
  unfolding get_monotonic_ns
  started = refl

  -- If no time is kept before the first source, then after `initialize` with a frequency other than
  -- 0 and both functions, the monotonic time is the time that was shown when the old source was
  -- read, plus what the new source has counted since it was read (modulo 2 ^ 64).
  pub get_monotonic_ns-initialize :
      IsFresh s s.get_ns_funct
      → get_monotonic_ns after u ≡ add64 (get_monotonic_ns s t) (sub64 (clock u) (clock t'))
  get_monotonic_ns-initialize fresh =
      ap (λ (r : KernelTime). get_monotonic_ns r u) after-eq
      ∙ started
      ∙ ap (λ (a : ℕ). add64 a (sub64 (clock u) (clock t'))) (saved s.get_ns_funct refl fresh)
