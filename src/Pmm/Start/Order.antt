-- ===== src/Pmm/Start/Order.antt =====
-- The order that the loop over a region settles on, and the frames that are left out.
use native.Mathlib.Nat.{one-le-pow}
use mio_os.Common.{
  ℕ, zero, suc, ◌+◌, ◌*◌, ◌/◌, ◌%◌, ◌^◌, ◌≤◌, ◌<◌, ◌≡◌, inl, inr, true, false, refl, arith, ltb,
  leb, ◌==◌, ◌&&◌, ◌||◌, Bool, Bool-cases, add64,
}
use mio_os.Mm.{page_size, align_up}
use mio_os.Pmm.State.{Pmm}
use mio_os.Pmm.Alloc.{order_bound}
use mio_os.Pmm.Start.{check_overlap_with_reserved, find_fit}

-- The page of a frame starts in the kernel and the boot information (up to frame `mbi_end`), or
-- between their end and the bump pointer (up to frame `bump_end`).
abbrev pub reserved : (kernel_start mbi_end highest bump_end f : ℕ) → Bool
reserved kernel_start mbi_end highest bump_end f =
    (leb kernel_start (f * 4096) && ltb f mbi_end) || (leb highest (f * 4096) && ltb f bump_end)

-- A block of order `order` at frame `q` may be released: it is one page, or it is aligned and
-- ends within the region, and none of its frames is reserved.
pub record IsFit (kernel_start mbi_end highest bump_end q e order : ℕ) : Type 0 where
  pub low : order < 11
  pub within : q + 2 ^ order ≤ e
  pub index : ℕ
  pub multiple : q ≡ index * 2 ^ order
  pub spared :
      (f : ℕ) → q ≤ f → f < q + 2 ^ order → reserved kernel_start mbi_end highest bump_end f ≡ false

-- A block whose test for an overlap fails.
spared_of_test :
    (kernel_start highest bump_end mbi_end q n : ℕ)
    → ((ltb (q * 4096) (mbi_end * 4096) && ltb kernel_start (q * 4096 + 4096 * n)) ≡ false)
    → ((ltb (q * 4096) (bump_end * 4096) && ltb highest (q * 4096 + 4096 * n)) ≡ false)
    → (f : ℕ) → q ≤ f
    → f < q + n
    → reserved kernel_start mbi_end highest bump_end f ≡ false
spared_of_test kernel_start highest bump_end mbi_end q n t t' f above below = ground arith

multiple_of_test : (q n : ℕ) → 0 < n → (q * 4096) % (4096 * n) ≡ 0 → q ≡ (q * 4096) / (4096 * n) * n
multiple_of_test q n pos z = grind arith

module _ (kernel_start : ℕ) (s : Pmm) (mbi_end bump_end q e : ℕ)
    (mbi : align_up s.highest_reserved_phys page_size ≡ mbi_end * 4096)
    (bump : s.bump_ptr_phys ≡ bump_end * 4096) (inside : q < e) (small : e ≤ 2 ^ 35)
    (open_page : reserved kernel_start mbi_end s.highest_reserved_phys bump_end q ≡ false) where
  abbrev Fit : ℕ → Type 0
  Fit order = IsFit kernel_start mbi_end s.highest_reserved_phys bump_end q e order

  Fit-zero : Fit 0
  Fit-zero = record {
    low = omega arith;
    within = omega arith;
    index = q;
    multiple = omega arith;
    spared = λ f above below. let same : f ≡ q = omega arith in rw same open_page;
  }

  -- The three tests on a block of `n` pages.
  Fit-test :
      (order n : ℕ)
      → n ≡ 2 ^ order
      → n ≤ 1024
      → 0 < n
      → order < 11
      → (leb (add64 (q * 4096) (4096 * n)) (e * 4096) && ((q * 4096) % (4096 * n) == 0)) ≡ true
      → check_overlap_with_reserved kernel_start s (q * 4096) (4096 * n) ≡ false
      → Fit order
  unfolding check_overlap_with_reserved
  Fit-test order n pow bound pos low t free =
      let wrap : add64 (q * 4096) (4096 * n) ≡ q * 4096 + 4096 * n = omega arith in
      let over : (ltb (q * 4096) (mbi_end * 4096) && ltb kernel_start (q * 4096 + 4096 * n))
          ≡ false =
        ground (arith, mbi, free) in
      let over' : (ltb (q * 4096) (bump_end * 4096)
            && ltb s.highest_reserved_phys (q * 4096 + 4096 * n))
          ≡ false =
        ground (arith, bump, free) in
      let ends : q * 4096 + 4096 * n ≤ e * 4096 = ground (arith, wrap) in
      let rest : (q * 4096) % (4096 * n) ≡ 0 = ground (arith) in
      record {
        low = low;
        within = omega (arith, ends, pow);
        index = (q * 4096) / (4096 * n);
        multiple = rw (← pow) (multiple_of_test q n pos rest);
        spared =
            rw (← pow)
              (spared_of_test kernel_start s.highest_reserved_phys bump_end mbi_end q n over over');
      }

  -- The loop over the orders ends with one that fits.
  pub find_fit-IsFit :
      (order : ℕ) → order < 11 → Fit (find_fit kernel_start s (q * 4096) (e * 4096) order)
  unfolding find_fit
  find_fit-IsFit zero low = Fit-zero
  find_fit-IsFit (suc order) low =
      let lower = find_fit-IsFit order (omega arith) in
      let n = 2 ^ suc order in
      elim (Bool-cases
        (leb (add64 (q * 4096) (4096 * n)) (e * 4096) && ((q * 4096) % (4096 * n) == 0))) [
          | inr t ↦ rw t lower
          | inl t ↦
              elim (Bool-cases (check_overlap_with_reserved kernel_start s (q * 4096) (4096 * n))) [
                | inl hit ↦ rw (t, hit) lower
                | inr free ↦
                    rw (t, free)
                      (Fit-test (suc order) n refl (order_bound (suc order) low)
                        (one-le-pow (suc order) 2 (omega arith)) low t free)
              ]
        ]
