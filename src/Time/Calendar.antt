-- ===== src/Time/Calendar.antt =====
-- The formula for the days against a count of days, and what becomes of a date in BCD.
use mio_os.Common.{
  ℕ, zero, suc, ◌+◌, ◌-◌, ◌*◌, ◌/◌, ◌%◌, ◌^◌, ◌≤◌, ◌<◌, ◌≡◌, refl, arith, ltb, ◌==◌, if◌then◌else◌,
  Bool, false, ◌&&◌, ◌||◌, some, ap, ◌∙◌,
}
use mio_os.Common.Bits.{bit_and_mask}
use mio_os.Time.Rtc.{
  bcd_to_bin, read_reg, full_year, is_leap, get_elem?, days_before_month, days_since_epoch,
  timestamp_of, get_unix_timestamp,
}

-- The days of the years from 1970 on, counted one by one.
abbrev pub year_days : ℕ → ℕ
year_days zero = 0
year_days (suc n) = year_days n + (if is_leap (1970 + n) then 366 else 365)

-- The days of a month, numbered from 1.
abbrev pub month_length : ℕ → ℕ → ℕ
month_length year m =
    if m == 2
    then if is_leap year then 29 else 28
    else if (m == 4) || ((m == 6) || ((m == 9) || (m == 11)))
    then 30
    else 31

-- The days of the first `n` months.
abbrev pub month_days : ℕ → ℕ → ℕ
month_days year zero = 0
month_days year (suc n) = month_days year n + month_length year (suc n)

year_days-eq : (n : ℕ) → n * 365 + (n + 1) / 4 + (n + 369) / 400 ≡ year_days n + (n + 69) / 100
year_days-eq zero = omega arith
year_days-eq (suc n) = ground (arith, year_days-eq n)

Before : ℕ → ℕ → Type 0
Before year m =
    (b : ℕ) × (get_elem? days_before_month m ≡ some b)
    × (month_days year m ≡ b + (if is_leap year && ltb 2 (suc m) then 1 else 0))
    × (b < 335)

Before-month : (year m : ℕ) → m < 12 → Before year m
unfolding Before
Before-month year zero h = (0, refl, ground arith, omega arith)
Before-month year (suc zero) h =
    (31, refl, ground (arith, Before-month year zero (omega arith)), omega arith)
Before-month year (suc (suc zero)) h =
    (59, refl, ground (arith, Before-month year (suc zero) (omega arith)), omega arith)
Before-month year (suc (suc (suc zero))) h =
    (90, refl, ground (arith, Before-month year (suc (suc zero)) (omega arith)), omega arith)
Before-month year (suc (suc (suc (suc zero)))) h =
    (120, refl, ground (arith, Before-month year (suc (suc (suc zero))) (omega arith)), omega arith)
Before-month year (suc (suc (suc (suc (suc zero))))) h = (
  151,
  refl,
  ground (arith, Before-month year (suc (suc (suc (suc zero)))) (omega arith)),
  omega arith,
)
Before-month year (suc (suc (suc (suc (suc (suc zero)))))) h = (
  181,
  refl,
  ground (arith, Before-month year (suc (suc (suc (suc (suc zero))))) (omega arith)),
  omega arith,
)
Before-month year (suc (suc (suc (suc (suc (suc (suc zero))))))) h = (
  212,
  refl,
  ground (arith, Before-month year (suc (suc (suc (suc (suc (suc zero)))))) (omega arith)),
  omega arith,
)
Before-month year (suc (suc (suc (suc (suc (suc (suc (suc zero)))))))) h = (
  243,
  refl,
  ground (arith, Before-month year (suc (suc (suc (suc (suc (suc (suc zero))))))) (omega arith)),
  omega arith,
)
Before-month year (suc (suc (suc (suc (suc (suc (suc (suc (suc zero))))))))) h = (
  273,
  refl,
  ground
      (arith, Before-month year (suc (suc (suc (suc (suc (suc (suc (suc zero)))))))) (omega arith)),
  omega arith,
)
Before-month year (suc (suc (suc (suc (suc (suc (suc (suc (suc (suc zero)))))))))) h = (
  304,
  refl,
  ground (
    arith,
    Before-month year (suc (suc (suc (suc (suc (suc (suc (suc (suc zero))))))))) (omega arith),
  ),
  omega arith,
)
Before-month year (suc (suc (suc (suc (suc (suc (suc (suc (suc (suc (suc zero))))))))))) h = (
  334,
  refl,
  ground (
    arith,
    Before-month year (suc (suc (suc (suc (suc (suc (suc (suc (suc (suc zero))))))))))
        (omega arith),
  ),
  omega arith,
)
Before-month year (suc (suc (suc (suc (suc (suc (suc (suc (suc (suc (suc (suc m)))))))))))) h =
    absurd (omega arith)

-- The moment in seconds, by counting.
abbrev pub seconds : ℕ → ℕ → ℕ → ℕ → ℕ → ℕ → ℕ
seconds n month day hour min sec =
    (((year_days n + month_days (1970 + n) (month - 1) + (day - 1)) * 24 + hour) * 60 + min) * 60
    + sec

year_days_bound : (n : ℕ) → year_days n ≤ n * 366
year_days_bound zero = omega arith
year_days_bound (suc n) = ground (arith, year_days_bound n)

total :
    (n b l day : ℕ)
    → n < 100
    → b < 335
    → l < 2
    → 1 ≤ day
    → day ≤ 31
    → ((1970 + n - 1970) * 365
          + (1970 + n - 1969) / 4
          - (1970 + n - 1901) / 100
          + (1970 + n - 1601) / 400
          + b
          + l
          + day
          + 4294967295)
        % 2 ^ 32
      ≡ year_days n + (b + l) + (day - 1)
total n b l day h1 h2 h3 h4 h5 = omega (
  arith,
  year_days-eq n,
  year_days_bound n,
  let e1 : 1970 + n - 1970 ≡ n = omega arith in e1,
  let e2 : 1970 + n - 1969 ≡ n + 1 = omega arith in e2,
  let e3 : 1970 + n - 1901 ≡ n + 69 = omega arith in e3,
  let e4 : 1970 + n - 1601 ≡ n + 369 = omega arith in e4,
)

one_bit : (b : Bool) → (if b then 1 else 0) < 2
one_bit b = ground arith

days-eq :
    (n month day : ℕ)
    → n < 100
    → 1 ≤ month
    → month ≤ 12
    → 1 ≤ day
    → day ≤ 31
    → days_since_epoch (1970 + n) month day
      ≡ some (year_days n + month_days (1970 + n) (month - 1) + (day - 1))
unfolding days_since_epoch Before
days-eq n month day h low high low' high' =
    let (b, at, e, small) = Before-month (1970 + n) (month - 1) (omega arith) in
    let some_month : (month == 0) ≡ false = ground arith in
    let same : suc (month - 1) ≡ month = omega arith in
    let e' : month_days (1970 + n) (month - 1)
        ≡ b + (if is_leap (1970 + n) && ltb 2 month then 1 else 0) =
      rw same at e in
    rw (some_month, at, e', days_since_epoch)
      (ap some (total n b _ day h small (one_bit (is_leap (1970 + n) && ltb 2 month)) low' high'))

full_year-eq : (n : ℕ) → n < 100 → full_year ((70 + n) % 100) ≡ 1970 + n
full_year-eq n h = ground arith

month_days_bound : (year m : ℕ) → month_days year m ≤ m * 31
month_days_bound year zero = omega arith
month_days_bound year (suc m) = ground (arith, month_days_bound year m)

-- For a date and a time of day of the years 1970 to 2069, with the year given by its last two
-- digits, the month from 1 to 12 and the day from 1 to 31, the timestamp is the number of seconds
-- that counting the years and the months day by day gives; nothing wraps.
pub timestamp_of-seconds :
    (n month day hour min sec : ℕ)
    → n < 100
    → 1 ≤ month
    → month ≤ 12
    → 1 ≤ day
    → day ≤ 31
    → hour < 24
    → min < 60
    → sec < 60
    → timestamp_of ((70 + n) % 100) month day hour min sec ≡ some (seconds n month day hour min sec)
unfolding timestamp_of
timestamp_of-seconds n month day hour min sec h m1 m2 d1 d2 hh mm ss =
    let fits : seconds n month day hour min sec % 2 ^ 32 ≡ seconds n month day hour min sec =
      omega (arith, year_days_bound n, month_days_bound (1970 + n) (month - 1)) in
    rw (full_year-eq n h, days-eq n month day h m1 m2 d1 d2, timestamp_of) (ap some fits)

-- The low digit and the high digit of a number below 100, as the clock keeps them.
abbrev pub bcd : ℕ → ℕ
bcd x = x / 10 * 16 + x % 10

-- What a second conversion makes of a number.
abbrev pub skewed : ℕ → ℕ
skewed x = x - 6 * (x / 16)

bcd_to_bin-eq : (x : ℕ) → x < 160 → bcd_to_bin x ≡ x / 16 * 10 + x % 16
unfolding bcd_to_bin
bcd_to_bin-eq x h = omega (arith, bit_and_mask 4 x)

twice : (x : ℕ) → x < 100 → bcd_to_bin (bcd_to_bin (bcd x)) ≡ skewed x
twice x h =
    let once : bcd_to_bin (bcd x) ≡ x = bcd_to_bin-eq (bcd x) (omega arith) ∙ omega arith in
    ap bcd_to_bin once ∙ bcd_to_bin-eq x (omega arith) ∙ omega arith

-- When the clock keeps six numbers below 100 in BCD, the timestamp is that of a date whose parts
-- are the numbers `x` less six times `x / 16`: each part from 16 on comes out too small.
pub get_unix_timestamp-skewed :
    (cmos : ℕ → ℕ) (year month day hour min sec : ℕ)
    → (year < 100) × (month < 100) × (day < 100) × (hour < 100) × (min < 100) × (sec < 100)
    → (cmos 0 ≡ bcd sec) × (cmos 2 ≡ bcd min) × (cmos 4 ≡ bcd hour)
    → (cmos 7 ≡ bcd day) × (cmos 8 ≡ bcd month) × (cmos 9 ≡ bcd year)
    → get_unix_timestamp cmos
      ≡ timestamp_of
          (skewed year)
          (skewed month)
          (skewed day)
          (skewed hour)
          (skewed min)
          (skewed sec)
unfolding get_unix_timestamp read_reg
get_unix_timestamp-skewed cmos year month day hour min sec (y, mo, d, h, mi, s) (c0, c2, c4)
      (c7, c8, c9) =
    rw
      (
        c0,
        c2,
        c4,
        c7,
        c8,
        c9,
        twice sec s,
        twice min mi,
        twice hour h,
        twice day d,
        twice month mo,
        twice year y,
      )
      refl
