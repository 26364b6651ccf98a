-- ===== src/Pmm/Region/Below.antt =====
-- `alloc_page_below_1mib`: the first free page of those from 8 to 255.
use mio_os.Common.{
  ℕ, zero, suc, ◌+◌, ◌*◌, ◌≤◌, ◌<◌, ◌≡◌, refl, ◌⊎◌, inl, inr, true, arith, ◌==◌, Bool-cases, ap,
  if◌then◌else◌,
}
use mio_os.Pmm.State.{Pmm}
use mio_os.Pmm.Lists.{Lists}
use mio_os.Pmm.Invariant.{cover}
use mio_os.Pmm.Cover.{Wf}
use mio_os.Pmm.Region.{below_loop, alloc_page_below_1mib}
use mio_os.Pmm.Region.Walk.{Enough}
use mio_os.Pmm.Region.Take.{Taken, allocate_specific_page-Taken}

-- The first free frame from `q` on was taken.
pub record Lowest (l : Lists) (q end ptr : ℕ) (s' : Pmm) : Type 0 where
  pub pfn : ℕ
  pub from : q ≤ pfn
  pub below : pfn < end
  pub pointer : ptr ≡ pfn * 4096
  pub skipped : (f : ℕ) → q ≤ f → f < pfn → cover l f ≡ 0
  pub taken : Taken l pfn s'

-- None of the frames is free, and nothing changed.
abbrev pub NoneBelow : Pmm → Lists → ℕ → ℕ → ℕ × Pmm → Type 0
NoneBelow s l q end r = (r ≡ (0, s)) × ((f : ℕ) → q ≤ f → f < end → cover l f ≡ 0)

below_loop-Lowest :
    (left fuel : ℕ) {s : Pmm} {l : Lists} (q : ℕ)
    → q + left ≤ 256
    → Enough fuel l
    → Wf s l
    → Lowest l q (q + left) (below_loop left fuel s q).0 (below_loop left fuel s q).1
      ⊎ NoneBelow s l q (q + left) (below_loop left fuel s q)
unfolding below_loop
below_loop-Lowest zero fuel q h enough w = inr (refl, λ f a b. absurd (omega arith))
below_loop-Lowest (suc left) fuel {s} {l} q h enough w =
    elim (allocate_specific_page-Taken fuel q enough w) [
      | inl (e, t) ↦ rw e (
          inl (record {
            pfn = q;
            from = omega arith;
            below = omega arith;
            pointer = omega arith;
            skipped = λ f a b. absurd (omega arith);
            taken = t;
          }))
      | inr (e, z) ↦
          let bound : q + suc left ≡ q + 1 + left = omega arith in
          rw (e, bound)
            (elim (below_loop-Lowest left fuel q' (omega arith) enough w) [
              | inl r ↦ inl (record {
                pfn = r.pfn;
                from = omega (arith, r.from);
                below = r.below;
                pointer = r.pointer;
                skipped = λ f a b. first z f a (λ a'. r.skipped f a' b);
                taken = r.taken;
              })
              | inr r ↦ inr (r.0, λ f a b. first z f a (λ a'. r.1 f a' b))
            ])
    ]
  where
    q' : ℕ
    q' = q + 1

    first : cover l q ≡ 0 → (f : ℕ) → q ≤ f → (q' ≤ f → cover l f ≡ 0) → cover l f ≡ 0
    first z f a later = elim (Bool-cases (f == q)) [
      | inl e ↦ let e' : f ≡ q = ground arith in rw e' z
      | inr e ↦ later (ground arith)
    ]

started :
    (fuel : ℕ) (s : Pmm)
    → s.initialized_buddy ≡ true
    → alloc_page_below_1mib fuel s ≡ below_loop 248 fuel s 8
unfolding alloc_page_below_1mib
started fuel s h = ap (λ b. if b then below_loop 248 fuel s 8 else (0, s)) h

-- With the buddy allocator running, the invariant and fuel for the longest list,
-- `alloc_page_below_1mib` either takes the lowest free frame from 8 to 255 and returns its
-- address, or none of them is free and it returns 0 and changes nothing.
pub alloc_page_below_1mib-Lowest :
    (fuel : ℕ) {s : Pmm} {l : Lists}
    → s.initialized_buddy ≡ true
    → Enough fuel l
    → Wf s l
    → Lowest l 8 256 (alloc_page_below_1mib fuel s).0 (alloc_page_below_1mib fuel s).1
      ⊎ NoneBelow s l 8 256 (alloc_page_below_1mib fuel s)
alloc_page_below_1mib-Lowest fuel {s} running enough w =
    let all : 8 + 248 ≡ 256 = omega arith in
    rw (started fuel s running) (rw all at (below_loop-Lowest 248 fuel 8 (omega arith) enough w))
