-- ===== src/Common/Bits.antt =====
-- Laws of `&`, `|` and `^` at every width, by recursion on the binary digits.
mod Step
use mathlib.Core.Logic.{◌≢◌}
use mathlib.Core.Path.{◌≡◌, refl, ap, ◌∙◌}
use mathlib.Core.WellFounded as Wf
use mathlib.Core.WellFounded.{Acc, WellFounded}
use Prim.Native.Nat.{ℕ, zero, suc, ◌+◌, ◌-◌, ◌*◌, ◌/◌, ◌%◌, ◌^◌, ◌≤◌, ◌<◌, min, max}
use Prim.Native.Nat.{bit_and, bit_or, bit_xor, differ}
use native.Mathlib.Nat.{pow-suc, one-le-pow, pow-le-pow_right, mod-eq_of_lt}
use native.Mathlib.Omega.{arith}
use Step.{bit_and_step, bit_or_step, bit_xor_step}
pub use Step.{bit_and_step, bit_or_step, bit_xor_step}

Acc-below : (k n : ℕ) → n < k → Acc ◌<◌ n
Acc-below zero n h = absurd (omega arith)
Acc-below (suc k) n h = Acc.intro n (λ m hm. Acc-below k m (omega arith))

pub lt_wf : WellFounded ◌<◌
lt_wf = record { apply = λ n. Acc-below (suc n) n (omega arith) }

-- From the half to the whole.
module _ (P : ℕ → Type 0) (base : P 0) (step : (n : ℕ) → P (suc n / 2) → P (suc n)) where
  by_cases : (n : ℕ) → ((m : ℕ) → m < n → P m) → P n
  by_cases zero ih = base
  by_cases (suc n) ih = step n (ih (suc n / 2) (omega arith))

  pub by_halves : (n : ℕ) → P n
  by_halves n = Wf.induction lt_wf n by_cases

pub bit_and-zero : (a : ℕ) → bit_and a 0 ≡ 0
bit_and-zero = by_halves (λ a. bit_and a 0 ≡ 0) refl (λ n ih. omega (arith, bit_and_step (suc n) 0))

pub bit_or-zero : (a : ℕ) → bit_or a 0 ≡ a
bit_or-zero = by_halves (λ a. bit_or a 0 ≡ a) refl (λ n ih. omega (arith, bit_or_step (suc n) 0))

differ-zero : (a : ℕ) → differ a 0 ≡ a
differ-zero zero = refl
differ-zero (suc a) = refl

pub bit_xor-zero : (a : ℕ) → bit_xor a 0 ≡ a
bit_xor-zero =
    by_halves (λ a. bit_xor a 0 ≡ a) refl
      (λ n ih. omega (arith, bit_xor_step (suc n) 0, differ-zero (suc n % 2)))

pub mul-two-pow-suc : (m w : ℕ) → m * 2 ^ suc w ≡ 2 * (m * 2 ^ w)
mul-two-pow-suc m w = rw (pow-suc 2 w) (omega arith)

bit_and_fields : (w hi lo : ℕ) → lo < 2 ^ w → bit_and (hi * 2 ^ w + lo) (2 ^ w - 1) ≡ lo
bit_and_fields zero hi lo small = rw bit_and-zero (omega arith)
bit_and_fields (suc w) hi lo small = ground (
  arith,
  bit_and_fields w hi (lo / 2) (omega arith),
  pow-suc 2 w,
  mul-two-pow-suc hi w,
  bit_and_step (hi * 2 ^ suc w + lo) (2 ^ suc w - 1),
)

-- `x & (2 ^ w - 1)` keeps the low digits.
pub bit_and_mask : (w a : ℕ) → bit_and a (2 ^ w - 1) ≡ a % 2 ^ w
bit_and_mask w a = ground (arith, one-le-pow w 2, bit_and_fields w (a / 2 ^ w) (a % 2 ^ w))

-- `(hi << w) | lo` is a sum when `lo` has at most `w` digits.
pub bit_or_fields : (w hi lo : ℕ) → lo < 2 ^ w → bit_or (hi * 2 ^ w) lo ≡ hi * 2 ^ w + lo
bit_or_fields zero hi lo small = ground (arith, bit_or-zero hi)
bit_or_fields (suc w) hi lo small = ground (
  arith,
  bit_or_fields w hi (lo / 2) (omega arith),
  mul-two-pow-suc hi w,
  bit_or_step (hi * 2 ^ suc w) lo,
)

zero_or : (a : ℕ) → bit_or 0 a ≡ a
zero_or = by_halves (λ a. bit_or 0 a ≡ a) refl (λ n ih. omega (arith, bit_or_step 0 (suc n)))

-- The same with the low digits first.
pub bit_or_low : (w hi lo : ℕ) → lo < 2 ^ w → bit_or lo (hi * 2 ^ w) ≡ hi * 2 ^ w + lo
bit_or_low zero hi lo small = ground (arith, zero_or hi)
bit_or_low (suc w) hi lo small = ground (
  arith,
  bit_or_low w hi (lo / 2) (omega arith),
  mul-two-pow-suc hi w,
  bit_or_step lo (hi * 2 ^ suc w),
)

-- A mask of `d` bits from bit `k` on.
pub bit_and_range :
    (k d q r : ℕ) → r < 2 ^ k → bit_and (q * 2 ^ k + r) ((2 ^ d - 1) * 2 ^ k) ≡ q % 2 ^ d * 2 ^ k
bit_and_range zero d q r fits = ground (arith, bit_and_mask d q)
bit_and_range (suc k) d q r fits = ground (
  arith,
  bit_and_step (q * 2 ^ suc k + r) ((2 ^ d - 1) * 2 ^ suc k),
  mul-two-pow-suc q k,
  mul-two-pow-suc (2 ^ d - 1) k,
  mul-two-pow-suc (q % 2 ^ d) k,
  pow-suc 2 k,
  bit_and_range k d q (r / 2) (omega arith),
)

-- The binary digit of `a` at place `j`.
abbrev pub bit : ℕ → ℕ → ℕ
bit a zero = a % 2
bit a (suc j) = bit (a / 2) j

pub bit-lt : (a j : ℕ) → bit a j < 2
bit-lt a zero = omega arith
bit-lt a (suc j) = bit-lt (a / 2) j

-- `a & (1 << j)` picks one digit.
pub bit_and_pow : (a j : ℕ) → bit_and a (2 ^ j) ≡ bit a j * 2 ^ j
bit_and_pow a zero = omega (arith, bit_and_mask 1 a)
bit_and_pow a (suc j) = ground (
  arith,
  bit_and_step a (2 ^ suc j),
  pow-suc 2 j,
  bit_and_pow (a / 2) j,
  mul-two-pow-suc (bit (a / 2) j) j,
)

differ-one : (x : ℕ) → x < 2 → differ x 1 ≡ 1 - x
differ-one zero h = refl
differ-one (suc zero) h = refl
differ-one (suc (suc x)) h = absurd (omega arith)

-- `a ^ 1` flips the lowest digit, in closed form.
bit_xor-one : (a : ℕ) → bit_xor a 1 ≡ a / 2 * 2 + (1 - a % 2)
bit_xor-one a =
    ground (arith, bit_xor_step a 1, bit_xor-zero (a / 2), differ-one (a % 2) (omega arith))

-- `a ^ (1 << k)` flips digit `k` of `a`, in closed form.
pub bit_xor_fields :
    (k q r : ℕ)
    → r < 2 ^ k
    → bit_xor (q * 2 ^ k + r) (2 ^ k) ≡ (q / 2 * 2 + (1 - q % 2)) * 2 ^ k + r
bit_xor_fields zero q r fits = ground (arith, bit_xor-one q)
bit_xor_fields (suc k) q r fits = ground (
  arith,
  bit_xor_step (q * 2 ^ suc k + r) (2 ^ suc k),
  differ-zero (r % 2),
  mul-two-pow-suc q k,
  mul-two-pow-suc (q / 2 * 2 + (1 - q % 2)) k,
  pow-suc 2 k,
  bit_xor_fields k q (r / 2) (omega arith),
)

half-xor_pow : (a i : ℕ) → bit_xor a (2 ^ suc i) / 2 ≡ bit_xor (a / 2) (2 ^ i)
half-xor_pow a i = ground (arith, bit_xor_step a (2 ^ suc i), differ-zero (a % 2), pow-suc 2 i)

half-xor_one : (a : ℕ) → bit_xor a 1 / 2 ≡ a / 2
half-xor_one a = omega (arith, bit_xor-one a)

-- `a ^ (1 << i)` flips the digit at place `i`,
pub bit-xor_self : (a i : ℕ) → bit (bit_xor a (2 ^ i)) i ≡ 1 - bit a i
bit-xor_self a zero = omega (arith, bit_xor-one a)
bit-xor_self a (suc i) = rw half-xor_pow (bit-xor_self (a / 2) i)

-- and no other.
pub bit-xor_ne : (a i j : ℕ) → i ≢ j → bit (bit_xor a (2 ^ i)) j ≡ bit a j
bit-xor_ne a zero zero ne = absurd (ne refl)
bit-xor_ne a zero (suc j) ne = rw half-xor_one
bit-xor_ne a (suc i) zero ne =
    ground (arith, bit_xor_step a (2 ^ suc i), differ-zero (a % 2), pow-suc 2 i)
bit-xor_ne a (suc i) (suc j) ne = rw half-xor_pow (bit-xor_ne (a / 2) i j (λ e. ne (ap suc e)))

below-mod : (a b : ℕ) → a < b → a % b ≡ a
below-mod a b h = mod-eq_of_lt h

pub pow-lt-pow : {i j : ℕ} → i < j → 2 ^ i < 2 ^ j
pow-lt-pow {i} {j} h =
    omega
      (arith, pow-le-pow_right {n = 2} (omega arith) h, pow-suc 2 i, one-le-pow i 2 (omega arith))

-- `a & ~(1 << k)` on `n` bits clears digit `k`.
pub bit_and_clear :
    (k n q r : ℕ)
    → k < n
    → r < 2 ^ k
    → q * 2 ^ k + r < 2 ^ n
    → bit_and (q * 2 ^ k + r) (2 ^ n - 1 - 2 ^ k) ≡ q / 2 * 2 * 2 ^ k + r
bit_and_clear k zero q r below fits wide = absurd (omega arith)
bit_and_clear zero (suc n) q r below fits wide = ground (
  arith,
  bit_and_step q (2 ^ suc n - 1 - 1),
  pow-suc 2 n,
  one-le-pow n 2,
  bit_and_mask n (q / 2),
  below-mod (q / 2) (2 ^ n),
)
bit_and_clear (suc k) (suc n) q r below fits wide = ground (
  arith,
  bit_and_step (q * 2 ^ suc k + r) (2 ^ suc n - 1 - 2 ^ suc k),
  mul-two-pow-suc q k,
  mul-two-pow-suc (q / 2 * 2) k,
  pow-suc 2 k,
  pow-suc 2 n,
  pow-lt-pow {i = k} {j = n} (omega arith),
  bit_and_clear k n q (r / 2) (omega arith) (omega arith),
)

pub bit-zero : (j : ℕ) → bit 0 j ≡ 0
bit-zero zero = refl
bit-zero (suc j) = bit-zero j
