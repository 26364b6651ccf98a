-- ===== src/Paging/Way.antt =====
-- The way from the PML4 down to a page table, and what a store into that table leaves of it.
use mio_os.Common.{
  ℕ, ◌<◌, ◌≡◌, ◌≢◌, refl, ap, ◌∙◌, arith, ◌==◌, ◌!=◌, Bool, true, false, ◌&&◌, bit_or,
}
use mio_os.Paging.Address.{VirtualAddressFields, decompose}
use mio_os.Paging.Entry.{PageTableEntry, physical_address, is_present, is_huge}
use mio_os.Paging.Map.{Backend, store, translate}
use mio_os.Paging.Tables.{PageSource, Tables, Descended}

module _ {A : Type 0} (source : PageSource A) where
  -- The way down to the page table `t1` for the fields `va`.
  pub record Walked (s : Backend A) (level : ℕ → ℕ) (va : VirtualAddressFields) (t3 t2 t1 : ℕ)
      : Type 0 where
    pub tables : Tables source s level
    pub level3 : level t3 ≡ 3
    pub level2 : level t2 ≡ 2
    pub level1 : level t1 ≡ 1
    pub present4 : is_present (s.table s.kernel_pml4_phys va.pml4_index) ≡ true
    pub leads4 : physical_address (s.table s.kernel_pml4_phys va.pml4_index) ≡ t3
    pub present3 : is_present (s.table t3 va.pdpt_index) ≡ true
    pub branch3 : is_huge (s.table t3 va.pdpt_index) ≡ false
    pub leads3 : physical_address (s.table t3 va.pdpt_index) ≡ t2
    pub present2 : is_present (s.table t2 va.pd_index) ≡ true
    pub branch2 : is_huge (s.table t2 va.pd_index) ≡ false
    pub leads2 : physical_address (s.table t2 va.pd_index) ≡ t1

  no_leaf : (b : Bool) (k : ℕ) → (b && (k != 3)) ≡ false → k < 3 → b ≡ false
  no_leaf b k h lt = ground arith

  apart : (level : ℕ → ℕ) (p q : ℕ) → level p ≢ level q → p ≢ q
  apart level p q ne e = ne (ap level e)

  module _ {s1 s2 s3 : Backend A} {level1 : ℕ → ℕ} (va : VirtualAddressFields) {t3 t2 t1 : ℕ}
      (root : level1 s1.kernel_pml4_phys ≡ 4) (at3 : level1 t3 ≡ 3)
      (present4 : is_present (s1.table s1.kernel_pml4_phys va.pml4_index) ≡ true)
      (leads4 : physical_address (s1.table s1.kernel_pml4_phys va.pml4_index) ≡ t3)
      (d3 : Descended source s1 level1 t3 va.pdpt_index 2 t2 s2)
      (d2 : Descended source s2 d3.level' t2 va.pd_index 1 t1 s3) where
    root2 : d3.level' s1.kernel_pml4_phys ≡ 4
    root2 = d3.levels s1.kernel_pml4_phys (λ z. omega (arith, root, z)) ∙ root

    at3' : d3.level' t3 ≡ 3
    at3' = d3.levels t3 (λ z. omega (arith, at3, z)) ∙ at3

    same_root : s3.kernel_pml4_phys ≡ s1.kernel_pml4_phys
    same_root = d2.same_root ∙ d3.same_root

    entry4 : (j : ℕ) → s3.table s3.kernel_pml4_phys j ≡ s1.table s1.kernel_pml4_phys j
    entry4 j =
        let p = s1.kernel_pml4_phys in
        let far3 = apart level1 p t3 (λ e. omega (arith, e, root, at3)) in
        let far2 = apart d3.level' p t2 (λ e. omega (arith, e, root2, d3.at_child)) in
        ap (λ r. s3.table r j) same_root
        ∙ d2.others p (λ z. omega (arith, root2, z)) far2 j
        ∙ d3.others p (λ z. omega (arith, root, z)) far3 j

    entry3 : (j : ℕ) → s3.table t3 j ≡ s2.table t3 j
    entry3 j =
        d2.others t3 (λ z. omega (arith, at3', z))
          (apart d3.level' t3 t2 (λ e. omega (arith, e, at3', d3.at_child))) j

    pub Walked-down : Walked s3 d2.level' va t3 t2 t1
    Walked-down = record {
      tables = d2.tables;
      level3 = d2.levels t3 (λ z. omega (arith, at3', z)) ∙ at3';
      level2 = d2.levels t2 (λ z. omega (arith, d3.at_child, z)) ∙ d3.at_child;
      level1 = d2.at_child;
      present4 = rw (entry4 va.pml4_index) present4;
      leads4 = rw (entry4 va.pml4_index) leads4;
      present3 = rw (entry3 va.pdpt_index) d3.present;
      branch3 = rw (entry3 va.pdpt_index) (no_leaf _ 2 d3.branch (omega arith));
      leads3 = rw (entry3 va.pdpt_index) d3.leads;
      present2 = d2.present;
      branch2 = no_leaf _ 1 d2.branch (omega arith);
      leads2 = d2.leads;
    }

  -- `translate` along such a way.
  pub translate-Walked :
      {s : Backend A} {level : ℕ → ℕ} {t3 t2 t1 : ℕ} (virt : ℕ)
      → Walked s level (decompose virt) t3 t2 t1
      → is_present (s.table t1 (decompose virt).pt_index) ≡ true
      → translate s virt
        ≡ bit_or
            (physical_address (s.table t1 (decompose virt).pt_index))
            (decompose virt).page_offset
  unfolding translate
  translate-Walked virt w p =
      rw (w.present4, w.leads4, w.present3, w.branch3, w.leads3, w.present2, w.branch2, w.leads2, p)
        refl

  store_other :
      (s : Backend A) (t i : ℕ) (e : PageTableEntry) (p j : ℕ)
      → p ≢ t
      → (store s t i e).table p j ≡ s.table p j
  unfolding store
  store_other s t i e p j ne = let q : (p == t) ≡ false = ground (arith, ne) in rw q refl

  pub store_self : (s : Backend A) (t i : ℕ) (e : PageTableEntry) → (store s t i e).table t i ≡ e
  unfolding store
  store_self s t i e =
      let q : (t == t) ≡ true = ground arith in
      let r : (i == i) ≡ true = ground arith in rw (q, r) refl

  store_root :
      (s : Backend A) (t i : ℕ) (e : PageTableEntry)
      → (store s t i e).kernel_pml4_phys ≡ s.kernel_pml4_phys
  unfolding store
  store_root s t i e = refl

  store_pages : (s : Backend A) (t i : ℕ) (e : PageTableEntry) → (store s t i e).pages ≡ s.pages
  unfolding store
  store_pages s t i e = refl

  -- A table of the lowest level leads to no other.
  pub Tables-store :
      {s : Backend A} {level : ℕ → ℕ} (t i : ℕ) (e : PageTableEntry)
      → level t ≡ 1
      → Tables source s level
      → Tables source (store s t i e) level
  Tables-store {s} {level} t i e at w = record {
    root = ap level (store_root s t i e) ∙ w.root;
    child = λ k p j up pos lt here b.
        let same = store_other s t i e p j (apart level p t (λ q. omega (arith, q, up, at, pos))) in
        ap (λ x. level (physical_address x)) same
        ∙ w.child k p j up pos lt (rw same at here) (rw same at b);
    spare = λ p o. w.spare p (rw (store_pages s t i e) at o);
  }

  pub Walked-store :
      {s : Backend A} {level : ℕ → ℕ} {va : VirtualAddressFields} {t3 t2 t1 : ℕ} (i : ℕ)
      (e : PageTableEntry)
      → Walked s level va t3 t2 t1
      → Walked (store s t1 i e) level va t3 t2 t1
  Walked-store {s} {level} {va} {t3} {t2} {t1} i e w =
      let keep =
        λ (p j : ℕ) (ne : level p ≢ level t1). store_other s t1 i e p j (apart level p t1 ne) in
      let r = s.kernel_pml4_phys in
      let e4 =
        ap (λ r'. (store s t1 i e).table r' va.pml4_index) (store_root s t1 i e)
        ∙ keep r va.pml4_index (λ q. omega (arith, q, w.tables.root, w.level1)) in
      let e3 = keep t3 va.pdpt_index (λ q. omega (arith, q, w.level3, w.level1)) in
      let e2 = keep t2 va.pd_index (λ q. omega (arith, q, w.level2, w.level1)) in
      record {
        tables = Tables-store t1 i e w.level1 w.tables;
        level3 = w.level3;
        level2 = w.level2;
        level1 = w.level1;
        present4 = rw e4 w.present4;
        leads4 = rw e4 w.leads4;
        present3 = rw e3 w.present3;
        branch3 = rw e3 w.branch3;
        leads3 = rw e3 w.leads3;
        present2 = rw e2 w.present2;
        branch2 = rw e2 w.branch2;
        leads2 = rw e2 w.leads2;
      }

  pub Walked-offset :
      {s : Backend A} {level : ℕ → ℕ} {va : VirtualAddressFields} {t3 t2 t1 : ℕ} (offset : ℕ)
      → Walked s level va t3 t2 t1
      → Walked s level (record va { page_offset = offset }) t3 t2 t1
  Walked-offset offset w = record {
    tables = w.tables;
    level3 = w.level3;
    level2 = w.level2;
    level1 = w.level1;
    present4 = w.present4;
    leads4 = w.leads4;
    present3 = w.present3;
    branch3 = w.branch3;
    leads3 = w.leads3;
    present2 = w.present2;
    branch2 = w.branch2;
    leads2 = w.leads2;
  }
