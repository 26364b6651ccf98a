-- ===== src/Paging/Unmapped.antt =====
-- `unmap_page`, followed by `translate`.
use mio_os.Common.{
  ℕ, ◌≡◌, ◌≢◌, refl, ap, ◌∙◌, inl, inr, arith, ◌==◌, true, false, Option, none, some, Bool-cases,
}
use mio_os.Mm.{is_page_aligned}
use mio_os.Paging.Address.{VirtualAddressFields, decompose, decompose_fields}
use mio_os.Paging.Entry.{physical_address, is_present, is_huge, make_empty}
use mio_os.Paging.Map.{
  Backend, PagingError, store, flush_tlb_page, find_mapped, unmap_page, translate,
}
use mio_os.Paging.Tables.{PageSource, Tables}

module _ {A : Type 0} (source : PageSource A) (s : Backend A) (level : ℕ → ℕ)
    (w : Tables source s level) (virt : ℕ) where
  abbrev va : VirtualAddressFields
  va = decompose virt

  abbrev t4 : ℕ
  t4 = s.kernel_pml4_phys

  abbrev t3 : ℕ
  t3 = physical_address (s.table t4 va.pml4_index)

  abbrev t2 : ℕ
  t2 = physical_address (s.table t3 va.pdpt_index)

  abbrev t1 : ℕ
  t1 = physical_address (s.table t2 va.pd_index)

  module _ (p4 : is_present (s.table t4 va.pml4_index) ≡ true) where
    pub level3 : level t3 ≡ 3
    level3 =
        w.child 3 t4 va.pml4_index w.root (omega arith) (rw decompose_fields (omega arith)) p4
          (ground arith)

    module _ (p3 : is_present (s.table t3 va.pdpt_index) ≡ true)
        (h3 : is_huge (s.table t3 va.pdpt_index) ≡ false) where
      pub level2 : level t2 ≡ 2
      level2 =
          w.child 2 t3 va.pdpt_index level3 (omega arith) (rw decompose_fields (omega arith)) p3
            (rw h3 refl)

      pub level1 :
          is_present (s.table t2 va.pd_index) ≡ true
          → is_huge (s.table t2 va.pd_index) ≡ false
          → level t1 ≡ 1
      level1 p2 h2 =
          w.child 1 t2 va.pd_index level2 (omega arith) (rw decompose_fields (omega arith)) p2
            (rw h2 refl)

  -- The state with an entry emptied.
  abbrev emptied : ℕ → ℕ → Backend A
  emptied t i = flush_tlb_page (store s t i make_empty) virt

  kept : (t i p j : ℕ) → level p ≢ level t → (emptied t i).table p j ≡ s.table p j
  unfolding flush_tlb_page store
  kept t i p j ne = let e : (p == t) ≡ false = apart p t (λ q. ne (ap level q)) in rw e refl
    where
      apart : (p t : ℕ) → p ≢ t → (p == t) ≡ false
      apart p t h = ground arith

  gone : (t i : ℕ) → is_present ((emptied t i).table t i) ≡ false
  unfolding flush_tlb_page store
  gone t i =
      let a : (t == t) ≡ true = ground arith in
      let b : (i == i) ≡ true = ground arith in rw (a, b) refl

  root_kept : (t i : ℕ) → (emptied t i).kernel_pml4_phys ≡ t4
  unfolding flush_tlb_page store
  root_kept t i = refl

  empty-pdpt :
      is_present (s.table t4 va.pml4_index) ≡ true → translate (emptied t3 va.pdpt_index) virt ≡ 0
  unfolding translate
  empty-pdpt p4 =
      let l3 = level3 p4 in
      let e4 = kept t3 va.pdpt_index t4 va.pml4_index (λ q. omega (arith, q, l3, w.root)) in
      rw (root_kept t3 va.pdpt_index, e4, p4, gone t3 va.pdpt_index) refl

  empty-pd :
      is_present (s.table t4 va.pml4_index) ≡ true
      → is_present (s.table t3 va.pdpt_index) ≡ true
      → is_huge (s.table t3 va.pdpt_index) ≡ false
      → translate (emptied t2 va.pd_index) virt ≡ 0
  unfolding translate
  empty-pd p4 p3 h3 =
      let l3 = level3 p4 in
      let l2 = level2 p4 p3 h3 in
      let e4 = kept t2 va.pd_index t4 va.pml4_index (λ q. omega (arith, q, l2, w.root)) in
      let e3 = kept t2 va.pd_index t3 va.pdpt_index (λ q. omega (arith, q, l2, l3)) in
      rw (root_kept t2 va.pd_index, e4, p4, e3, p3, h3, gone t2 va.pd_index) refl

  empty-pt :
      is_present (s.table t4 va.pml4_index) ≡ true
      → is_present (s.table t3 va.pdpt_index) ≡ true
      → is_huge (s.table t3 va.pdpt_index) ≡ false
      → is_present (s.table t2 va.pd_index) ≡ true
      → is_huge (s.table t2 va.pd_index) ≡ false
      → translate (emptied t1 va.pt_index) virt ≡ 0
  unfolding translate
  empty-pt p4 p3 h3 p2 h2 =
      let l3 = level3 p4 in
      let l2 = level2 p4 p3 h3 in
      let l1 = level1 p4 p3 h3 p2 h2 in
      let e4 = kept t1 va.pt_index t4 va.pml4_index (λ q. omega (arith, q, l1, w.root)) in
      let e3 = kept t1 va.pt_index t3 va.pdpt_index (λ q. omega (arith, q, l1, l3)) in
      let e2 = kept t1 va.pt_index t2 va.pd_index (λ q. omega (arith, q, l1, l2)) in
      rw (root_kept t1 va.pt_index, e4, p4, e3, p3, h3, e2, p2, h2, gone t1 va.pt_index) refl

  -- An emptied entry leads nowhere, so the tables stay a tree.
  empty-Tables : (t i : ℕ) → Tables source (emptied t i) level
  unfolding flush_tlb_page store
  empty-Tables t i = record {
    root = w.root;
    child = λ k p j up pos lt here b. elim (Bool-cases (p == t)) [
      | inr e ↦ rw e (w.child k p j up pos lt (rw e at here) (rw e at b))
      | inl e ↦ elim (Bool-cases (j == i)) [
        | inl q ↦ absurd (ground arith)
        | inr q ↦
            let p_eq : p ≡ t = ground arith in
            let same : (emptied t i).table p j ≡ s.table t j = rw (e, q) refl in
            ap (λ x. level (physical_address x)) same
            ∙ w.child k t j (rw p_eq at up) pos lt (rw same at here) (rw same at b)
      ]
    ];
    spare = w.spare;
  }

  -- Where `find_mapped` finds an entry, emptying it unmaps the address; else there is no mapping.
  abbrev Located : Option (ℕ × ℕ) → Type 0
  Located none = translate s virt ≡ 0
  Located (some (t, i)) = translate (emptied t i) virt ≡ 0

  find_mapped-Located : Located (find_mapped s va)
  unfolding find_mapped translate
  find_mapped-Located = elim (Bool-cases (is_present (s.table t4 va.pml4_index))) [
    | inr p4 ↦ rw p4 (rw p4 refl)
    | inl p4 ↦ elim (Bool-cases (is_present (s.table t3 va.pdpt_index))) [
      | inr p3 ↦ rw (p4, p3) (rw (p4, p3) refl)
      | inl p3 ↦ elim (Bool-cases (is_huge (s.table t3 va.pdpt_index))) [
        | inl h3 ↦ rw (p4, p3, h3) (empty-pdpt p4)
        | inr h3 ↦ elim (Bool-cases (is_present (s.table t2 va.pd_index))) [
          | inr p2 ↦ rw (p4, p3, h3, p2) (rw (p4, p3, h3, p2) refl)
          | inl p2 ↦ elim (Bool-cases (is_huge (s.table t2 va.pd_index))) [
            | inl h2 ↦ rw (p4, p3, h3, p2, h2) (empty-pd p4 p3 h3)
            | inr h2 ↦ elim (Bool-cases (is_present (s.table t1 va.pt_index))) [
              | inr p1 ↦ rw (p4, p3, h3, p2, h2, p1) (rw (p4, p3, h3, p2, h2, p1) refl)
              | inl p1 ↦ rw (p4, p3, h3, p2, h2, p1) (empty-pt p4 p3 h3 p2 h2)
            ]
          ]
        ]
      ]
    ]
  ]

  -- On a tree of page tables, `unmap_page` keeps the tree; after a success `translate` of the
  -- address gives 0, whether the leaf was a 4 KiB, 2 MiB or 1 GiB page, and when it answers that
  -- the page is not mapped, nothing has changed and `translate` of the address gave 0 already.
  pub unmap_page-translate :
      Tables source (unmap_page s virt).1 level
      × ((unmap_page s virt).0 ≡ PagingError.success → translate (unmap_page s virt).1 virt ≡ 0)
      × ((unmap_page s virt).0 ≡ PagingError.not_mapped
          → ((unmap_page s virt).1 ≡ s) × (translate s virt ≡ 0))
  unfolding unmap_page
  unmap_page-translate = elim (Bool-cases (is_page_aligned virt)) [
    | inr e ↦ rw e (w, (λ q. absurd cc), (λ q. absurd cc))
    | inl e ↦ rw e (by_entry (find_mapped s va) find_mapped-Located)
  ]
    where
      result : Option (ℕ × ℕ) → PagingError × Backend A
      result o = elim o [
        | none ↦ (PagingError.not_mapped, s)
        | some (t, i) ↦ (PagingError.success, flush_tlb_page (store s t i make_empty) virt)
      ]

      by_entry :
          (o : Option (ℕ × ℕ))
          → Located o
          → Tables source (result o).1 level
            × ((result o).0 ≡ PagingError.success → translate (result o).1 virt ≡ 0)
            × ((result o).0 ≡ PagingError.not_mapped → ((result o).1 ≡ s) × (translate s virt ≡ 0))
      by_entry none h = (w, (λ q. absurd cc), (λ q. (refl, h)))
      by_entry (some (t, i)) h = (empty-Tables t i, (λ q. h), (λ q. absurd cc))
