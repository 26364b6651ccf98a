-- ===== src/Runtime/Arithmetic.antt =====
-- kernel/lib/math.cpp.
use native.Mathlib.Nat.{div-add-mod, mod-lt, div-lt_iff_lt-mul, mul-add-div}
use mio_os.Common.{
  ℕ, ◌+◌, ◌*◌, ◌/◌, ◌%◌, ◌^◌, ◌<◌, ◌≡◌, ◌≢◌, arith, leb, ◌==◌, if◌then◌else◌, ◌||◌, Option, none,
  some, ◌∙◌, false, ap, refl,
}

-- `mulq` gives the product in 128 bits; `divq` faults on a zero divisor and on a quotient that does
-- not fit in 64 bits.
unfoldable pub mul_div_u64_raw : ℕ → ℕ → ℕ → Option ℕ
mul_div_u64_raw a b c = if (c == 0) || leb (2 ^ 64) (a * b / c) then none else some (a * b / c)

-- `a / c` faults on a zero divisor too.
unfoldable pub mul_div_u64 : ℕ → ℕ → ℕ → Option ℕ
mul_div_u64 a b c = if c == 0 then none else elim (mul_div_u64_raw (a % c) b c) [
  | none ↦ none
  | some t ↦ some ((a / c * b + t) % 2 ^ 64)
]

split_product : (a b c : ℕ) → c ≢ 0 → a * b / c ≡ a / c * b + a % c * b / c
split_product a b c ne =
    let e : a * b ≡ c * (a / c * b) + a % c * b = grind (arith, div-add-mod a c) in
    ap (λ (t : ℕ). t / c) e ∙ mul-add-div {m = c} (omega arith) (a / c * b) (a % c * b)

rest_fits : (a b c : ℕ) → c ≢ 0 → b < 2 ^ 64 → a % c * b / c < 2 ^ 64
rest_fits a b c ne small =
    (div-lt_iff_lt-mul {k = c} {x = a % c * b} {y = 2 ^ 64} (omega arith)).1
      (grind (arith, mod-lt a {m = c} (omega arith)))

-- For a divisor other than 0 and a factor `b` below 2 ^ 64, `mul_div_u64` never faults, though
-- its `divq` could, and gives the exact quotient of the full product, modulo 2 ^ 64.
pub mul_div_u64-eq :
    (a b c : ℕ) → c ≢ 0 → b < 2 ^ 64 → mul_div_u64 a b c ≡ some (a * b / c % 2 ^ 64)
unfolding mul_div_u64 mul_div_u64_raw
mul_div_u64-eq a b c ne small =
    let fits = rest_fits a b c ne small in
    let z : (c == 0) ≡ false = ground arith in
    let ok : leb (2 ^ 64) (a % c * b / c) ≡ false = ground arith in
    rw (z, ok, split_product a b c ne) refl
