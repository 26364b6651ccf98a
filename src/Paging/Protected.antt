-- ===== src/Paging/Protected.antt =====
-- `protect_page`, followed by `translate`.
use mio_os.Common.{
  ℕ, ◌≡◌, ◌≢◌, refl, ap, inl, inr, arith, ◌==◌, Bool, true, false, ◌&&◌, Option, none, some,
  Bool-cases,
}
use mio_os.Mm.{is_page_aligned}
use mio_os.Paging.Address.{VirtualAddressFields, decompose}
use mio_os.Paging.Entry.{physical_address, is_present, is_huge, make_page, physical_address-IsPage}
use mio_os.Paging.Map.{
  Backend, Cpuid, PagingError, store, drop_nx, flush_tlb_page, protect_page, translate,
}
use mio_os.Paging.Tables.{PageSource, Tables}
use mio_os.Paging.Mapped.{drop_nx_address}
use mio_os.Paging.Unmapped.{level3, level2, level1}

module _ {A : Type 0} (source : PageSource A) (s : Backend A) (level : ℕ → ℕ)
    (w : Tables source s level) (virt : ℕ) where
  abbrev va : VirtualAddressFields
  va = decompose virt

  abbrev t4 : ℕ
  t4 = s.kernel_pml4_phys

  abbrev t3 : ℕ
  t3 = physical_address (s.table t4 va.pml4_index)

  abbrev t2 : ℕ
  t2 = physical_address (s.table t3 va.pdpt_index)

  abbrev t1 : ℕ
  t1 = physical_address (s.table t2 va.pd_index)

  module _ (small3 : is_huge (s.table t3 va.pdpt_index) ≡ false)
      (small2 : is_huge (s.table t2 va.pd_index) ≡ false) (flags : ℕ) (cpu : Cpuid) where
    abbrev after : Backend A
    after =
        flush_tlb_page
          (store s t1 va.pt_index
            (drop_nx cpu (make_page (physical_address (s.table t1 va.pt_index)) flags)))
          virt

    kept : (p j : ℕ) → level p ≢ level t1 → after.table p j ≡ s.table p j
    unfolding flush_tlb_page store
    kept p j ne = let e : (p == t1) ≡ false = apart p (λ q. ne (ap level q)) in rw e refl
      where
        apart : (p : ℕ) → p ≢ t1 → (p == t1) ≡ false
        apart p h = ground arith

    leaf :
        after.table t1 va.pt_index
        ≡ drop_nx cpu (make_page (physical_address (s.table t1 va.pt_index)) flags)
    unfolding flush_tlb_page store
    leaf =
        let a : (t1 == t1) ≡ true = ground arith in
        let b : (va.pt_index == va.pt_index) ≡ true = ground arith in rw (a, b) refl

    root_kept : after.kernel_pml4_phys ≡ t4
    unfolding flush_tlb_page store
    root_kept = refl

    unmoved :
        is_present (s.table t4 va.pml4_index) ≡ true
        → is_present (s.table t3 va.pdpt_index) ≡ true
        → is_present (s.table t2 va.pd_index) ≡ true
        → is_present (s.table t1 va.pt_index) ≡ true
        → translate after virt ≡ translate s virt
    unfolding translate
    unmoved p4 p3 p2 p1 =
        let l3 = level3 source s level w virt p4 in
        let l2 = level2 source s level w virt p4 p3 small3 in
        let l1 = level1 source s level w virt p4 p3 small3 p2 small2 in
        let e4 = kept t4 va.pml4_index (λ q. omega (arith, q, l1, w.root)) in
        let e3 = kept t3 va.pdpt_index (λ q. omega (arith, q, l1, l3)) in
        let e2 = kept t2 va.pd_index (λ q. omega (arith, q, l1, l2)) in
        let good =
          drop_nx_address source cpu (physical_address (s.table t1 va.pt_index)) flags
            (physical_address-IsPage (s.table t1 va.pt_index)) in
        rw (root_kept, e4, p4, e3, p3, small3, e2, p2, small2, leaf, good.0, good.1, p1) refl

  -- What the result of `protect_page` means; it panics only without a CPU.
  abbrev pub Protection : Option (PagingError × Backend A) → Type 0
  Protection none = s.cpu ≡ none
  Protection (some r) =
      (r.0 ≡ PagingError.success → translate r.1 virt ≡ translate s virt)
      × (r.0 ≢ PagingError.success → r.1 ≡ s)

  unchanged : (e : PagingError) → e ≢ PagingError.success → Protection (some (e, s))
  unchanged e ne = ((λ q. absurd (ne q)), (λ q. refl))

  all_of :
      (a b c d : Bool)
      → (a && (b && (c && d))) ≡ true
      → (a ≡ true) × (b ≡ true) × (c ≡ true) × (d ≡ true)
  all_of a b c d h = ground arith

  abbrev all : Bool
  all =
      is_present (s.table t4 va.pml4_index)
      && (is_present (s.table t3 va.pdpt_index)
          && (is_present (s.table t2 va.pd_index) && is_present (s.table t1 va.pt_index)))

  -- On a tree of page tables, if neither the PDPT entry nor the PD entry on the way to an address
  -- is a huge page, `protect_page` of the address panics only without a CPU; after a success
  -- `translate` of the address gives what it gave before, and after an error nothing has changed.
  pub protect_page-translate :
      (flags : ℕ)
      → is_huge (s.table t3 va.pdpt_index) ≡ false
      → is_huge (s.table t2 va.pd_index) ≡ false
      → Protection (protect_page s virt flags)
  unfolding protect_page
  protect_page-translate flags small3 small2 = elim (Bool-cases (is_page_aligned virt)) [
    | inr e ↦ rw e (unchanged PagingError.invalid_alignment (λ q. absurd cc))
    | inl e ↦ elim (Bool-cases all) [
      | inr f ↦ rw (e, f) (unchanged PagingError.not_mapped (λ q. absurd cc))
      | inl f ↦
          let (p4, p3, p2, p1) = all_of _ _ _ _ f in
          rw (e, f) (on_cpu s.cpu refl (λ cpu. unmoved small3 small2 flags cpu p4 p3 p2 p1))
    ]
  ]
    where
      on_cpu :
          (o : Option Cpuid)
          → s.cpu ≡ o
          → ((cpu : Cpuid) → translate (after small3 small2 flags cpu) virt ≡ translate s virt)
          → Protection (elim o [
            | none ↦ none
            | some cpu ↦ some (PagingError.success, after small3 small2 flags cpu)
          ])
      on_cpu none e h = e
      on_cpu (some cpu) e h = ((λ q. h cpu), (λ q. absurd (q refl)))
