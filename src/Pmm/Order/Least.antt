-- ===== src/Pmm/Order/Least.antt =====
-- `pages_to_order` gives the least order whose blocks have enough pages.
use native.Mathlib.Nat.{pow-suc}
use mio_os.Common.{
  ℕ, zero, suc, ◌+◌, ◌-◌, ◌*◌, ◌/◌, ◌^◌, ◌≤◌, ◌<◌, ◌≡◌, refl, inl, inr, arith, ltb, leb, Bool-cases,
}
use mio_os.Pmm.Order.{order_loop, pages_to_order}

-- The loop adds the number of binary digits of `count`.
record Digits (count order result : ℕ) : Type 0 where
  digits : ℕ
  result_eq : result ≡ order + digits
  upper : count < 2 ^ digits
  none : count ≡ 0 → digits ≡ 0
  lower : 0 < count → 2 ^ digits ≤ 2 * count

pow_of_zero : (d : ℕ) → d ≡ 0 → 2 ^ d ≡ 1
pow_of_zero d e = rw e

order_loop-Digits :
    (fuel count order : ℕ) → count < 2 ^ fuel → Digits count order (order_loop fuel count order)
unfolding order_loop
order_loop-Digits zero count order h = record {
  digits = 0;
  result_eq = omega arith;
  upper = h;
  none = λ _. refl;
  lower = λ p. absurd (omega arith);
}
order_loop-Digits (suc fuel) count order h = elim (Bool-cases (ltb 0 count)) [
  | inr e ↦ rw e (record {
    digits = 0;
    result_eq = omega arith;
    upper = ground arith;
    none = λ _. refl;
    lower = λ p. absurd (ground arith);
  })
  | inl e ↦
      let rest = order_loop-Digits fuel (count / 2) (order + 1) (omega (arith, pow-suc 2 fuel)) in
      let grow = pow-suc 2 rest.digits in
      rw e (record {
        digits = suc rest.digits;
        result_eq = omega (arith, rest.result_eq);
        upper = omega (arith, rest.upper, grow);
        none = λ z. absurd (ground arith);
        lower = λ p. ground (arith, rest.lower, rest.none, pow_of_zero rest.digits, grow);
      })
]

-- For a number of pages from 1 to 2 ^ 64 - 1, a block of the order of `pages_to_order` has enough
-- pages, and one of half its size has not.
pub pages_to_order_least :
    (pages : ℕ)
    → 0 < pages
    → pages < 2 ^ 64
    → (pages ≤ 2 ^ pages_to_order pages) × (2 ^ pages_to_order pages < 2 * pages)
unfolding pages_to_order
pages_to_order_least pages pos fits = elim (Bool-cases (leb pages 1)) [
  | inl e ↦ rw e (ground arith, ground arith)
  | inr e ↦
      let d = order_loop-Digits 64 (pages - 1) 0 (omega arith) in
      let r : order_loop 64 (pages - 1) 0 ≡ d.digits = omega (arith, d.result_eq) in
      rw (e, r) (omega (arith, d.upper), ground (arith, d.lower))
]
