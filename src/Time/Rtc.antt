-- ===== src/Time/Rtc.antt =====
-- kernel/arch/timers/rtc.cpp. `cmos` gives the byte that the data port has for a register.
use mio_os.Common.{
  ℕ, zero, suc, ◌+◌, ◌-◌, ◌*◌, ◌/◌, ◌%◌, u8, u32, ◌>>>◌, bit_and, ltb, ◌==◌, ◌!=◌, if◌then◌else◌,
  Bool, ◌&&◌, ◌||◌, Option, none, some, List, [], ◌∷◌,
}

unfoldable pub bcd_to_bin : ℕ → ℕ
bcd_to_bin val = u8 ((val >>> 4) * 10 + bit_and val 15)

unfoldable pub read_reg : (ℕ → ℕ) → ℕ → ℕ
read_reg cmos reg = bcd_to_bin (cmos reg)

-- The element at an index; `none` is a read outside of the array.
abbrev pub get_elem? : List ℕ → ℕ → Option ℕ
get_elem? [] i = none
get_elem? (x ∷ xs) zero = some x
get_elem? (x ∷ xs) (suc i) = get_elem? xs i

abbrev pub days_before_month : List ℕ
days_before_month = 0 ∷ 31 ∷ 59 ∷ 90 ∷ 120 ∷ 151 ∷ 181 ∷ 212 ∷ 243 ∷ 273 ∷ 304 ∷ 334 ∷ []

abbrev pub full_year : ℕ → ℕ
full_year year = if ltb year 70 then year + 2000 else year + 1900

abbrev pub is_leap : ℕ → Bool
is_leap year = (year % 4 == 0) && ((year % 100 != 0) || (year % 400 == 0))

-- The days since 1970, from the full year on; a month of 0 reads far outside of the array.
unfoldable pub days_since_epoch : ℕ → ℕ → ℕ → Option ℕ
days_since_epoch year month day =
    elim (if month == 0 then none else get_elem? days_before_month (month - 1)) [
      | none ↦ none
      | some before ↦ some (
          u32 (
            (year - 1970) * 365
            + (year - 1969) / 4
            - (year - 1901) / 100
            + (year - 1601) / 400
            + before
            + (if is_leap year && ltb 2 month then 1 else 0)
            + day
            + 4294967295))
    ]

-- The seconds; `days` is 32 bits wide, and so is the sum.
unfoldable pub timestamp_of : ℕ → ℕ → ℕ → ℕ → ℕ → ℕ → Option ℕ
timestamp_of year month day hour min sec = elim (days_since_epoch (full_year year) month day) [
  | none ↦ none
  | some days ↦ some (u32 (((days * 24 + hour) * 60 + min) * 60 + sec))
]

unfoldable pub get_unix_timestamp : (ℕ → ℕ) → Option ℕ
get_unix_timestamp cmos =
    let sec = bcd_to_bin (read_reg cmos 0) in
    let min = bcd_to_bin (read_reg cmos 2) in
    let hour = bcd_to_bin (read_reg cmos 4) in
    let day = bcd_to_bin (read_reg cmos 7) in
    let month = bcd_to_bin (read_reg cmos 8) in
    let year = bcd_to_bin (read_reg cmos 9) in timestamp_of year month day hour min sec
