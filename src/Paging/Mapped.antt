-- ===== src/Paging/Mapped.antt =====
-- `map_page` of a 4 KiB page, followed by `translate`.
use mio_os.Common.{
  ℕ, ◌+◌, ◌*◌, ◌/◌, ◌%◌, ◌^◌, ◌<◌, ◌≡◌, ◌≢◌, refl, sym, ◌∙◌, inl, inr, arith, ◌==◌, if◌then◌else◌,
  Bool, true, false, ◌&&◌, Option, none, some, Bool-cases, bit_or,
}
use mio_os.Common.Bits.{bit_and_mask, bit_or_fields}
use mio_os.Mm.{is_page_aligned}
use mio_os.Paging.Flags as PageFlags
use mio_os.Paging.Flags.{has_flag}
use mio_os.Paging.Address.{VirtualAddressFields, decompose, decompose_fields}
use mio_os.Paging.Entry.{
  physical_address, is_present, is_huge, make_page, IsPage, make_page_lem, make_page_nx,
}
use mio_os.Paging.Map.{
  Backend, Cpuid, PagingError, store, drop_nx, get_or_create_subtable, map_pt, map_pd, map_pdpt,
  map_page, translate,
}
use mio_os.Paging.Tables.{PageSource, Tables, Descended, Subtable, get_or_create-Subtable}
use mio_os.Paging.Way.{
  Walked, Walked-down, translate-Walked, store_self, Tables-store, Walked-store, Walked-offset,
}

module _ {A : Type 0} (source : PageSource A) where
  -- The tables are a tree again; after a success every address of the page is translated.
  pub record Outcome (virt phys : ℕ) (r : PagingError × Backend A) : Type 0 where
    pub level : ℕ → ℕ
    pub tables : Tables source r.1 level
    pub mapped :
        r.0 ≡ PagingError.success
        → (offset : ℕ) → offset < 4096
        → translate r.1 (virt + offset) ≡ phys + offset

  refused :
      {virt phys : ℕ} {s : Backend A} {level : ℕ → ℕ} (e : PagingError)
      → e ≢ PagingError.success
      → Tables source s level
      → Outcome virt phys (e, s)
  refused {level} e ne w = record { level = level; tables = w; mapped = λ q. absurd (ne q) }

  -- The addresses of a page differ in the offset alone.
  in_page :
      (virt offset : ℕ)
      → virt % 4096 ≡ 0
      → offset < 4096
      → decompose (virt + offset) ≡ record (decompose virt) { page_offset = offset }
  in_page virt offset h lt =
      let a : (virt + offset) / 2 ^ 39 ≡ virt / 2 ^ 39 = omega arith in
      let b : (virt + offset) / 2 ^ 30 ≡ virt / 2 ^ 30 = omega arith in
      let c : (virt + offset) / 2 ^ 21 ≡ virt / 2 ^ 21 = omega arith in
      let d : (virt + offset) / 2 ^ 12 ≡ virt / 2 ^ 12 = omega arith in
      let o : (virt + offset) % 4096 ≡ offset = omega arith in
      rw (decompose_fields (virt + offset), decompose_fields virt, a, b, c, d, o) refl

  pub drop_nx_address :
      (cpu : Cpuid) (phys flags : ℕ)
      → IsPage phys
      → (is_present (drop_nx cpu (make_page phys flags)) ≡ true)
        × (physical_address (drop_nx cpu (make_page phys flags)) ≡ phys)
  unfolding drop_nx
  drop_nx_address cpu phys flags h = elim (Bool-cases cpu.has_nx) [
    | inl e ↦ simp e (make_page_lem phys flags h)
    | inr e ↦ simp e ((make_page_lem phys flags h).0, make_page_nx phys flags h)
  ]

  module _ (cpu : Cpuid) (virt phys flags : ℕ) (page : IsPage phys) (aligned : virt % 4096 ≡ 0)
      (not_1g : has_flag flags PageFlags.huge_1g ≡ false)
      (not_2m : has_flag flags PageFlags.huge_2m ≡ false) where
    offset_or : (offset : ℕ) → offset < 4096 → bit_or phys offset ≡ phys + offset
    offset_or offset lt =
        let e : phys ≡ phys / 4096 * 2 ^ 12 = omega (arith, page.aligned) in
        rw e (bit_or_fields 12 (phys / 4096) offset lt)

    map_pt-Outcome :
        {s : Backend A} {level : ℕ → ℕ} {t3 t2 t1 : ℕ}
        → Walked source s level (decompose virt) t3 t2 t1
        → Outcome virt phys (map_pt source.alloc cpu s t1 (decompose virt) phys flags)
    unfolding map_pt
    map_pt-Outcome {s} {level} {t3} {t2} {t1} w =
        let i = (decompose virt).pt_index in
        let e = drop_nx cpu (make_page phys flags) in
        let good = drop_nx_address cpu phys flags page in
        elim (Bool-cases (is_present (s.table t1 i))) [
          | inl full ↦ rw full (refused PagingError.already_mapped (λ q. absurd cc) w.tables)
          | inr empty ↦ rw empty (record {
            level = level;
            tables = Tables-store source t1 i e w.level1 w.tables;
            mapped = λ q offset lt.
                let va' = in_page virt offset aligned lt in
                let w' : Walked source (store s t1 i e) level (decompose (virt + offset)) t3 t2 t1 =
                  rw va' (Walked-offset source offset (Walked-store source i e w)) in
                let here : (store s t1 i e).table t1 (decompose (virt + offset)).pt_index ≡ e =
                  rw va' (store_self source s t1 i e) in
                let last : (decompose (virt + offset)).page_offset ≡ offset = rw va' refl in
                translate-Walked source (virt + offset) w' (rw here good.0)
                ∙ rw (here, last, good.1) (offset_or offset lt);
          })
        ]

    map_pd-Outcome :
        {s1 s2 : Backend A} {level1 : ℕ → ℕ} {t3 t2 : ℕ}
        → level1 s1.kernel_pml4_phys ≡ 4
        → level1 t3 ≡ 3
        → is_present (s1.table s1.kernel_pml4_phys (decompose virt).pml4_index) ≡ true
        → physical_address (s1.table s1.kernel_pml4_phys (decompose virt).pml4_index) ≡ t3
        → Descended source s1 level1 t3 (decompose virt).pdpt_index 2 t2 s2
        → Outcome virt phys (map_pd source.alloc cpu s2 t2 (decompose virt) phys flags)
    unfolding map_pd
    map_pd-Outcome {s1} {s2} {level1} {t3} {t2} root at3 p4 l4 d3 =
        let va = decompose virt in
        let e = s2.table t2 va.pd_index in
        elim (Bool-cases (is_present e && is_huge e)) [
          | inl leaf ↦ rw leaf (refused PagingError.already_mapped (λ q. absurd cc) d3.tables)
          | inr free ↦
              rw (free, not_2m)
                (last (get_or_create_subtable source.alloc s2 t2 va.pd_index user) (
                  get_or_create-Subtable source s2 d3.level' t2 va.pd_index 1 user d3.tables
                    d3.at_child (omega arith) index (ground arith)))
        ]
      where
        user : Bool
        user = has_flag flags PageFlags.user

        index : (decompose virt).pd_index < 512
        index = rw decompose_fields (omega arith)

        last :
            (r : Option ℕ × Backend A)
            → Subtable source s2 d3.level' t2 (decompose virt).pd_index 1 r
            → Outcome virt phys (elim r.0 [
              | none ↦ (PagingError.out_of_memory, r.1)
              | some t ↦ map_pt source.alloc cpu r.1 t (decompose virt) phys flags
            ])
        last (none, s3) h = refused PagingError.out_of_memory (λ q. absurd cc) h
        last (some t1, s3) h =
            map_pt-Outcome (Walked-down source (decompose virt) root at3 p4 l4 d3 h)

    map_pdpt-Outcome :
        {s s1 : Backend A} {level : ℕ → ℕ} {t4 t3 : ℕ}
        → s1.kernel_pml4_phys ≡ t4
        → (d4 : Descended source s level t4 (decompose virt).pml4_index 3 t3 s1)
        → (is_present (s1.table t3 (decompose virt).pdpt_index)
            && is_huge (s1.table t3 (decompose virt).pdpt_index))
          ≡ false
        → Outcome virt phys (map_pdpt source.alloc cpu s1 t3 (decompose virt) phys flags)
    unfolding map_pdpt
    map_pdpt-Outcome {s} {s1} {level} {t4} {t3} same d4 free =
        let va = decompose virt in
        rw not_1g (
          next (get_or_create_subtable source.alloc s1 t3 va.pdpt_index user) (
            get_or_create-Subtable source s1 d4.level' t3 va.pdpt_index 2 user d4.tables d4.at_child
              (omega arith) index (ground arith)))
      where
        user : Bool
        user = has_flag flags PageFlags.user

        index : (decompose virt).pdpt_index < 512
        index = rw decompose_fields (omega arith)

        next :
            (r : Option ℕ × Backend A)
            → Subtable source s1 d4.level' t3 (decompose virt).pdpt_index 2 r
            → Outcome virt phys (elim r.0 [
              | none ↦ (PagingError.out_of_memory, r.1)
              | some t ↦ map_pd source.alloc cpu r.1 t (decompose virt) phys flags
            ])
        next (none, s2) h = refused PagingError.out_of_memory (λ q. absurd cc) h
        next (some t2, s2) h =
            map_pd-Outcome d4.tables.root d4.at_child (rw same d4.present) (rw same d4.leads) h

  -- What a result of `map_page` means; it panics only without a CPU.
  abbrev pub Result : Backend A → ℕ → ℕ → Option (PagingError × Backend A) → Type 0
  Result s virt phys none = s.cpu ≡ none
  Result s virt phys (some r) = Outcome virt phys r

  aligned_iff : (v : ℕ) → is_page_aligned v ≡ true → v % 4096 ≡ 0
  unfolding is_page_aligned
  aligned_iff v h = let e : (v % 2 ^ 12 == 0) ≡ true = rw (bit_and_mask 12 v) at h in ground arith

  module _ (s : Backend A) (virt phys flags : ℕ) (below : phys < 2 ^ 52)
      (not_1g : has_flag flags PageFlags.huge_1g ≡ false)
      (not_2m : has_flag flags PageFlags.huge_2m ≡ false) where
    fields : VirtualAddressFields
    fields = decompose virt

    on_cpu :
        {s1 : Backend A} {level : ℕ → ℕ} {t3 : ℕ} (cpu : Option Cpuid)
        → virt % 4096 ≡ 0
        → phys % 4096 ≡ 0
        → s1.cpu ≡ s.cpu
        → s1.cpu ≡ cpu
        → s1.kernel_pml4_phys ≡ s.kernel_pml4_phys
        → Descended source s level s.kernel_pml4_phys fields.pml4_index 3 t3 s1
        → (is_present (s1.table t3 fields.pdpt_index) && is_huge (s1.table t3 fields.pdpt_index))
          ≡ false
        → Result s virt phys (elim cpu [
          | none ↦ none
          | some c ↦ some (map_pdpt source.alloc c s1 t3 fields phys flags)
        ])
    unfolding fields
    on_cpu none v p same e root d free = sym same ∙ e
    on_cpu (some c) v p same e root d free =
        map_pdpt-Outcome c virt phys flags (record { aligned = p; below = below }) v not_1g not_2m
          root d free

    from_pml4 :
        (level : ℕ → ℕ)
        → virt % 4096 ≡ 0
        → phys % 4096 ≡ 0
        → (r : Option ℕ × Backend A)
        → Subtable source s level s.kernel_pml4_phys fields.pml4_index 3 r
        → Result s virt phys (elim r.0 [
          | none ↦ some (PagingError.out_of_memory, r.1)
          | some t ↦
              if is_present (r.1.table t fields.pdpt_index)
                && is_huge (r.1.table t fields.pdpt_index)
              then some (PagingError.already_mapped, r.1)
              else elim r.1.cpu [
                | none ↦ none
                | some cpu ↦ some (map_pdpt source.alloc cpu r.1 t fields phys flags)
              ]
        ])
    from_pml4 level v p (none, s1) h = refused PagingError.out_of_memory (λ q. absurd cc) h
    from_pml4 level v p (some t, s1) d =
        elim (Bool-cases
          (is_present (s1.table t fields.pdpt_index) && is_huge (s1.table t fields.pdpt_index))) [
            | inl leaf ↦ rw leaf (refused PagingError.already_mapped (λ q. absurd cc) d.tables)
            | inr free ↦ rw free (on_cpu s1.cpu v p d.same_cpu refl d.same_root d free)
          ]

    -- For a source of pages that gives out each page once and a tree of page tables that uses none of
    -- them, `map_page` of a 4 KiB page (no huge flag) at a physical address below 2 ^ 52 panics only
    -- without a CPU; otherwise the tables are a tree again, on every error too, and after a success
    -- `translate` takes every address of the page to the same offset from the physical address.
    pub map_page-translate :
        (level : ℕ → ℕ)
        → Tables source s level
        → Result s virt phys (map_page source.alloc s virt phys flags)
    unfolding map_page fields
    map_page-translate level w =
        let user = has_flag flags PageFlags.user in
        let va = decompose virt in
        elim (Bool-cases (is_page_aligned virt)) [
          | inr e ↦ rw e (refused PagingError.invalid_alignment (λ q. absurd cc) w)
          | inl e ↦ elim (Bool-cases (is_page_aligned phys)) [
            | inr e' ↦ rw (e, e') (refused PagingError.invalid_alignment (λ q. absurd cc) w)
            | inl e' ↦
                rw (e, e')
                  (from_pml4 level (aligned_iff virt e) (aligned_iff phys e')
                    (get_or_create_subtable source.alloc s s.kernel_pml4_phys va.pml4_index user)
                    (get_or_create-Subtable source s level s.kernel_pml4_phys va.pml4_index 3 user w
                      w.root (omega arith) index (ground arith)))
          ]
        ]
      where
        index : (decompose virt).pml4_index < 512
        index = rw decompose_fields (omega arith)
