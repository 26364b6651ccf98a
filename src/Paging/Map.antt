-- ===== src/Paging/Map.antt =====
-- `PagingBackend` of kernel/mm/paging.cpp over a memory of page tables. A pointer to a table is its
-- physical address: `phys_to_virt` adds `HHDM_BASE` to it, and no table lies at 2 ^ 47, where that
-- gives the null pointer. `PMM::alloc_pages()` is the parameter `alloc`, which threads the
-- allocator's state.
use mio_os.Common.{
  ℕ, bit_and, bit_or, ◌-◌, ◌==◌, if◌then◌else◌, Bool, not, ◌&&◌, ◌||◌, Option, none, some, List,
  ◌∷◌, ltb,
}
use mio_os.Mm.{is_page_aligned, page_size_1g, page_size_2m}
use mio_os.Pmm.State.{update}
use mio_os.Paging.Flags as PageFlags
use mio_os.Paging.Flags.{has_flag}
use mio_os.Paging.Address.{VirtualAddressFields, decompose}
use mio_os.Paging.Entry.{
  PageTableEntry, physical_address, make_empty, is_present, is_huge, make_table, make_page,
  make_huge_2m, make_huge_1g,
}

pub data PagingError : Type 0 where
  success : PagingError
  out_of_memory : PagingError
  already_mapped : PagingError
  not_mapped : PagingError
  invalid_alignment : PagingError
  invalid_context : PagingError
  invalid_address : PagingError
  hardware_fault : PagingError

-- What the code reads of `cpu::CPU::get()->cpuid_cache`.
pub record Cpuid : Type 0 where
  pub has_nx : Bool
  pub has_pdpe1gb : Bool

pub record Backend (A : Type 0) : Type 0 where
  -- the entry at a table's physical address and an index
  pub table : ℕ → ℕ → PageTableEntry
  pub kernel_pml4_phys : ℕ
  -- `none` when `CPU::get()` is null
  pub cpu : Option Cpuid
  -- the state of the physical memory manager
  pub pages : A
  -- the addresses given to `invlpg`, the last first
  pub flushed : List ℕ

unfoldable pub store : {A : Type 0} → Backend A → ℕ → ℕ → PageTableEntry → Backend A
store s t i e = record s { table = update s.table t (update (s.table t) i e) }

-- `PageTable::clear`
unfoldable pub clear : (ℕ → PageTableEntry) → ℕ → PageTableEntry
clear entries i = if ltb i 512 then make_empty else entries i

-- `if (!has_nx) bits.no_execute = 0`
unfoldable pub drop_nx : Cpuid → PageTableEntry → PageTableEntry
drop_nx cpu e = if cpu.has_nx then e else record e { no_execute = 0 }

unfoldable pub flush_tlb_page : {A : Type 0} → Backend A → ℕ → Backend A
flush_tlb_page s virt = record s { flushed = virt ∷ s.flushed }

module _ {A : Type 0} (alloc : A → ℕ × A) where
  unfoldable pub alloc_page_table : Backend A → ℕ × Backend A
  unfolding clear
  alloc_page_table s =
      let (pa, pages) = alloc s.pages in
      let s' = record s { pages = pages } in
      if pa == 0
      then (0, s')
      else (pa, record s' { table = update s.table pa (clear (s.table pa)) })

  unfoldable pub get_or_create_subtable : Backend A → ℕ → ℕ → Bool → Option ℕ × Backend A
  unfolding alloc_page_table store
  get_or_create_subtable s t i user =
      let (child_phys, s') = alloc_page_table s in
      if is_present (s.table t i)
      then (some (physical_address (s.table t i)), s)
      else if child_phys == 0
      then (none, s')
      else (some child_phys, store s' t i (make_table child_phys user))

  -- Level 1.
  unfoldable pub map_pt :
      Cpuid → Backend A → ℕ → VirtualAddressFields → ℕ → ℕ → PagingError × Backend A
  unfolding store drop_nx
  map_pt cpu s pt va phys flags =
      if is_present (s.table pt va.pt_index)
      then (PagingError.already_mapped, s)
      else (PagingError.success, store s pt va.pt_index (drop_nx cpu (make_page phys flags)))

  -- Level 2.
  unfoldable pub map_pd :
      Cpuid → Backend A → ℕ → VirtualAddressFields → ℕ → ℕ → PagingError × Backend A
  unfolding get_or_create_subtable map_pt
  map_pd cpu s pd va phys flags =
      let pd_entry = s.table pd va.pd_index in
      if is_present pd_entry && is_huge pd_entry
      then (PagingError.already_mapped, s)
      else if has_flag flags PageFlags.huge_2m
      then (if is_present pd_entry then (PagingError.already_mapped, s) else (
        PagingError.success,
        store s pd va.pd_index (drop_nx cpu (make_huge_2m phys flags)),
      ))
      else (let (pt, s') =
            get_or_create_subtable s pd va.pd_index (has_flag flags PageFlags.user) in
          elim pt [
            | none ↦ (PagingError.out_of_memory, s')
            | some t ↦ map_pt cpu s' t va phys flags
          ])

  -- Level 3, once the CPU is known.
  unfoldable pub map_pdpt :
      Cpuid → Backend A → ℕ → VirtualAddressFields → ℕ → ℕ → PagingError × Backend A
  unfolding get_or_create_subtable map_pd
  map_pdpt cpu s pdpt va phys flags =
      let pdpt_entry = s.table pdpt va.pdpt_index in
      if has_flag flags PageFlags.huge_1g
      then (if not cpu.has_pdpe1gb
          then (PagingError.hardware_fault, s)
          else if is_present pdpt_entry
          then (PagingError.already_mapped, s)
          else (
            PagingError.success,
            store s pdpt va.pdpt_index (drop_nx cpu (make_huge_1g phys flags)),
          ))
      else (let (pd, s') =
            get_or_create_subtable s pdpt va.pdpt_index (has_flag flags PageFlags.user) in
          elim pd [
            | none ↦ (PagingError.out_of_memory, s')
            | some t ↦ map_pd cpu s' t va phys flags
          ])

  -- `none` is the panic on a null CPU.
  unfoldable pub map_page : Backend A → ℕ → ℕ → ℕ → Option (PagingError × Backend A)
  unfolding get_or_create_subtable map_pdpt
  map_page s virt phys flags =
      let va = decompose virt in
      let (pdpt, s') =
        get_or_create_subtable s s.kernel_pml4_phys va.pml4_index (has_flag flags PageFlags.user) in
      if not (is_page_aligned virt) || not (is_page_aligned phys)
      then some (PagingError.invalid_alignment, s)
      else elim pdpt [
        | none ↦ some (PagingError.out_of_memory, s')
        | some t ↦
            if is_present (s'.table t va.pdpt_index) && is_huge (s'.table t va.pdpt_index)
            then some (PagingError.already_mapped, s')
            else elim s'.cpu [ none ↦ none | some cpu ↦ some (map_pdpt cpu s' t va phys flags) ]
      ]

-- The levels below the PML4 of `unmap_page`: the table and the index of the entry to empty, if it
-- is mapped.
unfoldable pub find_mapped : {A : Type 0} → Backend A → VirtualAddressFields → Option (ℕ × ℕ)
find_mapped s va =
    let pml4e = s.table s.kernel_pml4_phys va.pml4_index in
    let pdpt = physical_address pml4e in
    let pdpte = s.table pdpt va.pdpt_index in
    let pd = physical_address pdpte in
    let pde = s.table pd va.pd_index in
    let pt = physical_address pde in
    if not (is_present pml4e)
    then none
    else if not (is_present pdpte)
    then none
    else if is_huge pdpte
    then some (pdpt, va.pdpt_index)
    else if not (is_present pde)
    then none
    else if is_huge pde
    then some (pd, va.pd_index)
    else if not (is_present (s.table pt va.pt_index))
    then none
    else some (pt, va.pt_index)

unfoldable pub unmap_page : {A : Type 0} → Backend A → ℕ → PagingError × Backend A
unfolding find_mapped store flush_tlb_page
unmap_page s virt =
    if not (is_page_aligned virt)
    then (PagingError.invalid_alignment, s)
    else elim (find_mapped s (decompose virt)) [
      | none ↦ (PagingError.not_mapped, s)
      | some (t, i) ↦ (PagingError.success, flush_tlb_page (store s t i make_empty) virt)
    ]

-- `protect_page` looks at no huge bit on its way down. `none` is the panic on a null CPU.
unfoldable pub protect_page : {A : Type 0} → Backend A → ℕ → ℕ → Option (PagingError × Backend A)
unfolding store flush_tlb_page drop_nx
protect_page s virt new_flags =
    let va = decompose virt in
    let e4 = s.table s.kernel_pml4_phys va.pml4_index in
    let e3 = s.table (physical_address e4) va.pdpt_index in
    let e2 = s.table (physical_address e3) va.pd_index in
    let pt = physical_address e2 in
    let pte = s.table pt va.pt_index in
    if not (is_page_aligned virt)
    then some (PagingError.invalid_alignment, s)
    else if not (is_present e4 && (is_present e3 && (is_present e2 && is_present pte)))
    then some (PagingError.not_mapped, s)
    else elim s.cpu [
      | none ↦ none
      | some cpu ↦ some (
        PagingError.success,
        flush_tlb_page
            (store s pt va.pt_index (drop_nx cpu (make_page (physical_address pte) new_flags)))
            virt,
      )
    ]

unfoldable pub translate : {A : Type 0} → Backend A → ℕ → ℕ
translate s virt =
    let va = decompose virt in
    let e4 = s.table s.kernel_pml4_phys va.pml4_index in
    let e3 = s.table (physical_address e4) va.pdpt_index in
    let e2 = s.table (physical_address e3) va.pd_index in
    let e1 = s.table (physical_address e2) va.pt_index in
    if not (is_present e4)
    then 0
    else if not (is_present e3)
    then 0
    else if is_huge e3
    then bit_or (physical_address e3) (bit_and virt (page_size_1g - 1))
    else if not (is_present e2)
    then 0
    else if is_huge e2
    then bit_or (physical_address e2) (bit_and virt (page_size_2m - 1))
    else if not (is_present e1)
    then 0
    else bit_or (physical_address e1) va.page_offset
