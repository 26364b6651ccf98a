-- ===== src/Acpi/Scan.antt =====
-- What the search of rsdp.cpp finds.
use mio_os.Common.{
  ℕ, zero, suc, ◌+◌, ◌*◌, ◌%◌, ◌^◌, ◌≤◌, ◌<◌, ◌≡◌, ◌≢◌, refl, subst, ◌∙◌, arith, u8, add64, ltb,
  leb, ◌==◌, ◌!=◌, true, false, Bool-cases, Option, some, ◌⊎◌, inl, inr,
}
use mio_os.Mm.{hhdm_base}
use mio_os.Runtime.Memory.{Memory, memcmp}
use mio_os.Runtime.Move.{Compared, memcmp-Compared, alike, differ}
use mio_os.Acpi.Rsdp.{
  add_bytes, revision, length, is_valid_sdp, scan_memory_for_sdp, uacpi_kernel_get_rsdp,
}

abbrev pub IsBytes : Memory → Type 0
IsBytes m = (a : ℕ) → m a < 256

-- The sum of the bytes of a range, which does not wrap.
unfoldable pub total : Memory → ℕ → ℕ → ℕ
total m p zero = 0
total m p (suc count) = m p + total m (p + 1) count

-- A descriptor as the ACPI specification has it.
pub record IsSdp (m : Memory) (text p : ℕ) : Type 0 where
  signed : (i : ℕ) → i < 8 → m (p + i) ≡ m (text + i)
  summed : total m p 20 % 256 ≡ 0
  extended : 2 ≤ revision m p → total m p (length m p) % 256 ≡ 0

add_bytes-total :
    (m : Memory) (p i s count : ℕ)
    → s < 256
    → add_bytes m p i s count ≡ (s + total m (p + i) count) % 256
unfolding add_bytes total
add_bytes-total m p i s zero h = omega arith
add_bytes-total m p i s (suc count) h =
    let e : p + (i + 1) ≡ p + i + 1 = omega arith in
    add_bytes-total m p (i + 1) (u8 (s + m (p + i))) count (omega arith) ∙ rw e (omega arith)

-- The two tests of `is_valid_sdp` on a sum.
sum-zero : (m : Memory) (p count : ℕ) → add_bytes m p 0 0 count ≡ total m p count % 256
sum-zero m p count =
    let e : p + 0 ≡ p = omega arith in
    add_bytes-total m p 0 0 count (omega arith) ∙ rw e (omega arith)

-- `memcmp` gives 0 exactly when the signature stands there.
memcmp-signed :
    (m : Memory) (p text r : ℕ)
    → IsBytes m
    → Compared m p text 8 r
    → ((r ≡ 0) × ((i : ℕ) → i < 8 → m (p + i) ≡ m (text + i)))
      ⊎ ((r ≢ 0) × (((i : ℕ) → i < 8 → m (p + i) ≡ m (text + i)) → ⊥))
memcmp-signed m p text r bytes (alike all e) = inl (e, all)
memcmp-signed m p text r bytes (differ k below before ne e) =
    let h : m (p + k) < 256 = bytes (p + k) in
    let h' : m (text + k) < 256 = bytes (text + k) in
    inr (λ z. ne (omega arith), λ all. ne (all k below))

zero_of_test : (n : ℕ) → (n == 0) ≡ true → n ≡ 0
zero_of_test n e = ground arith

test_of_zero : (n : ℕ) → (n == 0) ≡ false → n ≡ 0 → ⊥
test_of_zero n e z = ground arith

unequal_of_test : (n : ℕ) → (n == 0) ≡ false → (n != 0) ≡ true
unequal_of_test n e = ground arith

not_below : (n : ℕ) → leb 2 n ≡ false → 2 ≤ n → ⊥
not_below n e h = ground arith

-- The rest of the test, where the signature stands.
sums-IsSdp :
    (m : Memory) (text p : ℕ)
    → ((i : ℕ) → i < 8 → m (p + i) ≡ m (text + i))
    → memcmp m p text 8 ≡ 0
    → ((is_valid_sdp m text p ≡ true) × IsSdp m text p)
      ⊎ ((is_valid_sdp m text p ≡ false) × (IsSdp m text p → ⊥))
unfolding is_valid_sdp
sums-IsSdp m text p all z =
    let first = sum-zero m p 20 in
    let whole = sum-zero m p (length m p) in
    elim (Bool-cases (total m p 20 % 256 == 0)) [
      | inr bad ↦ inr (rw (z, first, unequal_of_test _ bad) refl, λ d. test_of_zero _ bad d.summed)
      | inl good ↦ elim (Bool-cases (leb 2 (revision m p))) [
        | inr old ↦ inl (
          rw (z, first, zero_of_test _ good, old) refl,
          record {
            signed = all;
            summed = zero_of_test _ good;
            extended = λ h. absurd (not_below _ old h);
          },
        )
        | inl new ↦ elim (Bool-cases (total m p (length m p) % 256 == 0)) [
          | inl fine ↦ inl (
            rw (z, first, zero_of_test _ good, new, whole, zero_of_test _ fine) refl,
            record {
              signed = all;
              summed = zero_of_test _ good;
              extended = λ h. zero_of_test _ fine;
            },
          )
          | inr wrong ↦ inr (
            rw (z, first, zero_of_test _ good, new, whole, unequal_of_test _ wrong) refl,
            λ d. test_of_zero _ wrong (d.extended (ground arith)),
          )
        ]
      ]
    ]

-- `is_valid_sdp` decides whether a descriptor stands at a pointer.
pub is_valid_sdp-IsSdp :
    (m : Memory) (text p : ℕ)
    → IsBytes m
    → text ≢ 0
    → p ≢ 0
    → ((is_valid_sdp m text p ≡ true) × IsSdp m text p)
      ⊎ ((is_valid_sdp m text p ≡ false) × (IsSdp m text p → ⊥))
unfolding is_valid_sdp
is_valid_sdp-IsSdp m text p bytes ne ne' =
    elim (memcmp-signed m p text (memcmp m p text 8) bytes (memcmp-Compared m p text 8 ne' ne)) [
      | inl (z, all) ↦ sums-IsSdp m text p all z
      | inr (nz, unsigned) ↦ inr (ground arith, λ d. unsigned d.signed)
    ]

-- Of the addresses from `start` on in steps of 16, below `end`, the first with a descriptor, or
-- none has one.
pub data Scanned (m : Memory) (text start end : ℕ) (r : Option ℕ) : Type 0 where
  found :
      (k : ℕ)
      → start + 16 * k < end
      → IsSdp m text (start + 16 * k + hhdm_base)
      → ((j : ℕ) → j < k → IsSdp m text (start + 16 * j + hhdm_base) → ⊥)
      → r ≡ some (start + 16 * k + hhdm_base)
      → uacpi_kernel_get_rsdp (start + 16 * k + hhdm_base) ≡ some (start + 16 * k)
      → Scanned m text start end r
  nothing :
      ((j : ℕ) → start + 16 * j < end → IsSdp m text (start + 16 * j + hhdm_base) → ⊥)
      → r ≡ some 0
      → Scanned m text start end r

get_rsdp-mapped : (a : ℕ) → uacpi_kernel_get_rsdp (a + hhdm_base) ≡ some a
unfolding uacpi_kernel_get_rsdp
get_rsdp-mapped a = ground arith

Scanned-step :
    (m : Memory) (text start end : ℕ) (r : Option ℕ)
    → (IsSdp m text (start + hhdm_base) → ⊥)
    → Scanned m text (start + 16) end r
    → Scanned m text start end r
Scanned-step m text start end r none_here (found k below d before e phys) =
    let a : start + 16 + 16 * k ≡ start + 16 * suc k = omega arith in
    found (suc k) (omega arith) (rw (← a) d) before' (rw (← a) e) (rw (← a) phys)
  where
    before' : (j : ℕ) → j < suc k → IsSdp m text (start + 16 * j + hhdm_base) → ⊥
    before' zero h d' = none_here (subst (λ x. IsSdp m text (x + hhdm_base)) (omega arith) d')
    before' (suc j) h d' =
        before j (omega arith) (subst (λ x. IsSdp m text (x + hhdm_base)) (omega arith) d')
Scanned-step m text start end r none_here (nothing before e) = nothing before' e
  where
    before' : (j : ℕ) → start + 16 * j < end → IsSdp m text (start + 16 * j + hhdm_base) → ⊥
    before' zero h d' = none_here (subst (λ x. IsSdp m text (x + hhdm_base)) (omega arith) d')
    before' (suc j) h d' =
        before j (omega arith) (subst (λ x. IsSdp m text (x + hhdm_base)) (omega arith) d')

not_less : (a b : ℕ) → ltb a b ≡ false → b ≤ a
not_less a b e = ground arith

less : (a b : ℕ) → ltb a b ≡ true → a < b
less a b e = ground arith

scan-here :
    (m : Memory) (text start end rounds : ℕ)
    → IsBytes m
    → text ≢ 0
    → end ≤ 2 ^ 47
    → start < end
    → Scanned m text (start + 16) end (scan_memory_for_sdp rounds m text (start + 16) end)
    → Scanned m text start end (scan_memory_for_sdp (suc rounds) m text start end)
unfolding scan_memory_for_sdp
scan-here m text start end rounds bytes ne small below rest =
    let test : ltb start end ≡ true = ground arith in
    let next : add64 start 16 ≡ start + 16 = omega arith in
    let here : add64 start hhdm_base ≡ start + hhdm_base = omega arith in
    rw (test, here, next)
      (elim (is_valid_sdp-IsSdp m text (start + hhdm_base) bytes ne (omega arith)) [
        | inl (e, d) ↦
            let a : start + 16 * 0 ≡ start = omega arith in
            rw e (
              found 0 (omega arith) (rw a d) (λ j h. absurd (omega arith)) (rw a refl)
                (rw a (get_rsdp-mapped start)))
        | inr (e, no_sdp) ↦ rw e (Scanned-step m text start end _ no_sdp rest)
      ])

-- In a memory of bytes, for a literal whose address is not null and a range that ends at 2 ^ 47
-- or below, one round more than the range has steps of 16 is enough for the scan: it gives the
-- first address, in steps of 16 from the start and below the end, where a descriptor stands (its
-- signature, the sum of its first 20 bytes and, from revision 2 on, that of its whole length), in
-- the HHDM window, and `uacpi_kernel_get_rsdp` then gives its physical address; or it gives
-- `nullptr` and no such address has one.
pub scan_memory_for_sdp-Scanned :
    (m : Memory) (text start end rounds : ℕ)
    → IsBytes m
    → text ≢ 0
    → end ≤ 2 ^ 47
    → end ≤ start + 16 * rounds
    → Scanned m text start end (scan_memory_for_sdp (suc rounds) m text start end)
unfolding scan_memory_for_sdp
scan_memory_for_sdp-Scanned m text start end zero bytes ne small enough =
    let test : ltb start end ≡ false = ground arith in
    nothing (λ j h d. absurd (omega arith)) (rw test refl)
scan_memory_for_sdp-Scanned m text start end (suc rounds) bytes ne small enough =
    let rest =
      scan_memory_for_sdp-Scanned m text (start + 16) end rounds bytes ne small (omega arith) in
    elim (Bool-cases (ltb start end)) [
      | inr above ↦
          let past : end ≤ start = not_less start end above in
          nothing (λ j h d. absurd (omega arith)) (rw above refl)
      | inl below ↦
          scan-here m text start end (suc rounds) bytes ne small (less start end below) rest
    ]
