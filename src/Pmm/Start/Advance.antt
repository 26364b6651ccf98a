-- ===== src/Pmm/Start/Advance.antt =====
-- One round of the loop over a region.
use native.Mathlib.Nat.{one-le-pow}
use mio_os.Common.{
  ℕ, zero, suc, ◌+◌, ◌-◌, ◌*◌, ◌/◌, ◌^◌, ◌≤◌, ◌<◌, ◌≡◌, ◌≢◌, ◌⊎◌, inl, inr, true, false, refl,
  arith, ltb, ◌∙◌, leb, ◌==◌, ◌&&◌, ◌||◌, not, Bool, Bool-cases, if◌then◌else◌, add64, bit_and,
  bit_xor, not64,
}
use mio_os.Mm.{page_size, align_up, buddy_max_order}
use mio_os.Pmm.State.{Pmm, frame_ptr}
use mio_os.Pmm.FreeList.{list_add, list_remove}
use mio_os.Pmm.Bitmap.{toggle_buddy_bit}
use mio_os.Pmm.Lists.{Lists}
use mio_os.Pmm.Frame.{in_block}
use mio_os.Pmm.Buddy.{merge, account_free, free_pages_order}
use mio_os.Pmm.Invariant.{cover}
use mio_os.Pmm.Cover.{Wf}
use mio_os.Pmm.Alloc.{order_bound}
use mio_os.Pmm.Free.{free_pages_order-Released}
use mio_os.Pmm.Start.{advance}
use mio_os.Pmm.Start.Order.{reserved, IsFit, find_fit-IsFit}

-- What a release leaves alone.
pub record Kept (s s' : Pmm) : Type 0 where
  pub highest : s'.highest_reserved_phys ≡ s.highest_reserved_phys
  pub bump : s'.bump_ptr_phys ≡ s.bump_ptr_phys
  pub total : s'.total_memory ≡ s.total_memory

pub Kept-refl : (s : Pmm) → Kept s s
Kept-refl s = record { highest = refl; bump = refl; total = refl }

pub Kept-trans : {s t u : Pmm} → Kept s t → Kept t u → Kept s u
Kept-trans k k' = record {
  highest = k'.highest ∙ k.highest;
  bump = k'.bump ∙ k.bump;
  total = k'.total ∙ k.total;
}

merge-Kept : (left : ℕ) (s : Pmm) (pfn order : ℕ) → Kept s (merge left s pfn order)
unfolding merge list_add list_remove toggle_buddy_bit
merge-Kept zero s pfn order = record { highest = refl; bump = refl; total = refl }
merge-Kept (suc left) s pfn order = elim (Bool-cases (toggle_buddy_bit s pfn order).0) [
  | inl e ↦ rw e (record { highest = refl; bump = refl; total = refl })
  | inr e ↦
      let s1 = (toggle_buddy_bit s pfn order).1 in
      let s2 = list_remove s1 (frame_ptr (bit_xor pfn (2 ^ order))) order in
      let one : Kept s s2 = record { highest = refl; bump = refl; total = refl } in
      let rest = merge-Kept left s2 (bit_and pfn (not64 (2 ^ order))) (order + 1) in
      rw e (Kept-trans one rest)
]

free_pages_order-Kept : (s : Pmm) (p order : ℕ) → Kept s (free_pages_order s p order)
unfolding free_pages_order account_free
free_pages_order-Kept s p order = elim (Bool-cases ((p == 0) || ltb buddy_max_order order)) [
  | inl e ↦ rw e (Kept-refl s)
  | inr e ↦
      let k = merge-Kept (buddy_max_order - order) s (p / 4096) order in
      rw e (record { highest = k.highest; bump = k.bump; total = k.total })
]

-- A frame that is handed to the buddy allocator if a usable region holds it.
abbrev pub open_frame : (kernel_start mbi_end highest bump_end f : ℕ) → Bool
open_frame kernel_start mbi_end highest bump_end f =
    not (f == 0) && not (reserved kernel_start mbi_end highest bump_end f)

module _ (kernel_start mbi_end highest bump_end : ℕ) where
  abbrev is_open : ℕ → Bool
  is_open = open_frame kernel_start mbi_end highest bump_end

  -- From frame `q` on to the next frame of the loop, the open frames below `e` are free.
  pub record Advanced (s : Pmm) (l : Lists) (q e : ℕ) (r : Pmm × ℕ) : Type 0 where
    pub next : ℕ
    pub address : r.1 ≡ next * 4096
    pub onward : q < next
    pub kept : Kept s r.0
    pub after : Lists
    pub wf : Wf r.0 after
    pub frames :
        (f : ℕ)
        → cover after f ≡ (
            if (leb q f && ltb f next)
              && (ltb f e && open_frame kernel_start mbi_end highest bump_end f)
            then 1
            else cover l f)

  -- The range from `q` to `next` is skipped.
  skipped :
      (s : Pmm) (l : Lists) (q next e p : ℕ)
      → Wf s l
      → p ≡ next * 4096
      → q < next
      → ((f : ℕ) → q ≤ f → f < next → is_open f ≡ false)
      → Advanced s l q e (s, p)
  skipped s l q next e p w at lt shut = record {
    next = next;
    address = at;
    onward = lt;
    kept = Kept-refl s;
    after = l;
    wf = w;
    frames = λ f. same f (Bool-cases (leb q f && ltb f next));
  }
    where
      same :
          (f : ℕ)
          → ((leb q f && ltb f next) ≡ true) ⊎ ((leb q f && ltb f next) ≡ false)
          → cover l f ≡ (if (leb q f && ltb f next) && (ltb f e && is_open f) then 1 else cover l f)
      same f (inr out) = rw out refl
      same f (inl held) = let closed = shut f (ground arith) (ground arith) in ground arith

  -- A block that fits is released.
  released :
      (s : Pmm) (l : Lists) (q e order : ℕ)
      → Wf s l
      → q ≢ 0
      → e ≤ 2 ^ 35
      → ((f : ℕ) → q ≤ f → f < e → cover l f ≡ 0)
      → IsFit kernel_start mbi_end highest bump_end q e order
      → Advanced s l q e
          (free_pages_order s (q * 4096) order, add64 (q * 4096) (page_size * 2 ^ order))
  released s l q e order w ne small vacant fit =
      let pos = one-le-pow order 2 (omega arith) in
      let bound = order_bound order fit.low in
      let back =
        free_pages_order-Released q order fit.low ne w
          (record { index = fit.index; multiple = fit.multiple; below = omega (arith, fit.within) })
          (λ f. single f (Bool-cases (leb q f && ltb f (q + 2 ^ order)))) in
      record {
        next = q + 2 ^ order;
        address = omega (arith, fit.within);
        onward = omega arith;
        kept = free_pages_order-Kept s (q * 4096) order;
        after = back.after;
        wf = back.wf;
        frames = λ f. back.frames f ∙ counted f (Bool-cases (leb q f && ltb f (q + 2 ^ order)));
      }
    where
      single :
          (f : ℕ)
          → ((leb q f && ltb f (q + 2 ^ order)) ≡ true)
            ⊎ ((leb q f && ltb f (q + 2 ^ order)) ≡ false)
          → cover l f + in_block order q f ≤ 1
      single f (inl held) =
          let z : cover l f ≡ 0 = vacant f (ground arith) (ground (arith, fit.within)) in
          rw (held, z) (omega arith)
      single f (inr out) = rw out (omega (arith, w.once f))

      counted :
          (f : ℕ)
          → ((leb q f && ltb f (q + 2 ^ order)) ≡ true)
            ⊎ ((leb q f && ltb f (q + 2 ^ order)) ≡ false)
          → cover l f + in_block order q f ≡ (
              if (leb q f && ltb f (q + 2 ^ order)) && (ltb f e && is_open f) then 1 else cover l f)
      counted f (inr out) = rw out (omega arith)
      counted f (inl held) =
          let z : cover l f ≡ 0 = vacant f (ground arith) (ground (arith, fit.within)) in
          let free = fit.spared f (ground arith) (ground arith) in
          let below : ltb f e ≡ true = ground (arith, fit.within) in
          let real : (f == 0) ≡ false = ground arith in rw (held, z, below, real, free) refl

module _ (kernel_start mbi_end bump_end : ℕ) (s : Pmm) (l : Lists) (q e : ℕ) where
  -- One round of the loop, whichever of its tests holds.
  pub advance-Advanced :
      Wf s l
      → align_up s.highest_reserved_phys page_size ≡ mbi_end * 4096
      → s.bump_ptr_phys ≡ bump_end * 4096
      → q < e
      → e ≤ 2 ^ 35
      → ((f : ℕ) → q ≤ f → f < e → cover l f ≡ 0)
      → Advanced kernel_start mbi_end s.highest_reserved_phys bump_end s l q e
          (advance kernel_start (mbi_end * 4096) s (q * 4096) (e * 4096))
  unfolding advance
  advance-Advanced w mbi bump inside small vacant =
      let skip = skipped kernel_start mbi_end s.highest_reserved_phys bump_end s l q in
      elim (Bool-cases (q * 4096 == 0)) [
        | inl zero_page ↦
            let next : add64 (q * 4096) page_size ≡ (q + 1) * 4096 = omega arith in
            rw (zero_page, next)
              (skip (q + 1) e _ w refl (omega arith) (λ f above below. ground arith))
        | inr real ↦
            elim (Bool-cases (leb kernel_start (q * 4096) && ltb (q * 4096) (mbi_end * 4096))) [
              | inl in_kernel ↦
                  rw (real, in_kernel)
                    (skip mbi_end e _ w refl (ground arith) (λ f above below. ground arith))
              | inr clear ↦
                  elim (Bool-cases
                    (leb s.highest_reserved_phys (q * 4096) && ltb (q * 4096) s.bump_ptr_phys)) [
                      | inl in_bump ↦
                          rw (real, clear, in_bump)
                            (skip bump_end e s.bump_ptr_phys w bump (ground (arith, bump))
                              (λ f above below. ground (arith, bump)))
                      | inr spare ↦
                          let open_page : reserved kernel_start mbi_end s.highest_reserved_phys
                                bump_end q
                              ≡ false =
                            ground (arith, bump) in
                          rw (real, clear, spare)
                            (released kernel_start mbi_end s.highest_reserved_phys bump_end s l q e
                              _ w (λ z. ground arith) small vacant
                              (find_fit-IsFit kernel_start s mbi_end bump_end q e mbi bump inside
                                small open_page 10 (omega arith)))
                    ]
            ]
      ]
