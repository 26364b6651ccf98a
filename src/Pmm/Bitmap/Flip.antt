-- ===== src/Pmm/Bitmap/Flip.antt =====
-- A toggle flips the bit of one pair of buddies, returns it, and touches no other.
use mio_os.Common.{
  ℕ, ◌+◌, ◌-◌, ◌/◌, ◌%◌, ◌^◌, ◌≡◌, inl, inr, arith, bit_xor, ◌>>>◌, ◌==◌, ◌&&◌, if◌then◌else◌,
  Bool-cases, true, false, ◌∙◌, ap, sym,
}
use native.Mathlib.Nat.{one-le-pow}
use mio_os.Common.Bits.{bit, bit_and_pow, bit-xor_self, bit-xor_ne, bit-lt}
use mio_os.Pmm.State.{Pmm}
use mio_os.Pmm.Bitmap.{flip, toggle_buddy_bit}

-- The bit of pair `p` of an order.
abbrev pub map_bit : (ℕ → ℕ → ℕ) → ℕ → ℕ → ℕ
map_bit map o p = bit (map o (p / 8)) (p % 8)

same_number : {a b : ℕ} → (a == b) ≡ true → a ≡ b
same_number {a} {b} e = ground arith

other_byte : (p r : ℕ) → (p / 8 == r / 8) ≡ false → (p == r) ≡ false
other_byte p r e = ground arith

abbrev pick : ℕ → ℕ → (ℕ → ℕ → ℕ) → ℕ → ℕ → ℕ
pick p r map o k = if p == r then 1 - bit (map o k) (p % 8) else bit (map o k) (p % 8)

in_byte :
    (b p r : ℕ)
    → (p / 8 == r / 8) ≡ true
    → bit (bit_xor b (2 ^ (r % 8))) (p % 8) ≡ (if p == r then 1 - bit b (p % 8) else bit b (p % 8))
in_byte b p r e = elim (Bool-cases (p == r)) [
  | inl q ↦ rw (q, same_number q) (bit-xor_self b (r % 8))
  | inr q ↦ rw q (bit-xor_ne b (r % 8) (p % 8) (ground arith))
]

pub map_bit-flip :
    (map : ℕ → ℕ → ℕ) (pfn o i p : ℕ)
    → map_bit (flip map pfn o) i p
      ≡ (if (i == o) && (p == pfn >>> (o + 1)) then 1 - map_bit map o p else map_bit map i p)
unfolding flip
map_bit-flip map pfn o i p =
    let r = pfn >>> (o + 1) in
    elim (Bool-cases (i == o)) [
      | inr e ↦ rw e
      | inl e ↦
          rw (e, same_number e)
            (elim (Bool-cases (p / 8 == r / 8)) [
              | inr q ↦ rw (q, other_byte p r q)
              | inl q ↦
                  rw q (in_byte (map o (r / 8)) p r q ∙ ap (pick p r map o) (sym (same_number q)))
            ])
    ]

-- The result of `toggle_buddy_bit` is the new bit.
pub toggle-result :
    (s : Pmm) (pfn o : ℕ)
    → (toggle_buddy_bit s pfn o).0 ≡ (map_bit s.buddy_map o (pfn >>> (o + 1)) == 0)
unfolding toggle_buddy_bit flip
toggle-result s pfn o =
    let r = pfn >>> (o + 1) in
    ground (
      arith,
      bit_and_pow (bit_xor (s.buddy_map o (r / 8)) (2 ^ (r % 8))) (r % 8),
      bit-xor_self (s.buddy_map o (r / 8)) (r % 8),
      bit-lt (s.buddy_map o (r / 8)) (r % 8),
      one-le-pow (r % 8) 2,
    )
