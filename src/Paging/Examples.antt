-- ===== src/Paging/Examples.antt =====
-- Paging over the allocator of Pmm.Examples, and runs of `map_page`.
use mio_os.Common.{
  ◌*◌, ◌<◌, suc, ℕ, ◌+◌, ◌/◌, ◌≡◌, refl, inl, inr, Bool-cases, arith, false, Option, none, some, [],
  ◌==◌, if◌then◌else◌,
}
use mio_os.Mm.{is_page_aligned}
use mio_os.Pmm.Examples.{start, one_block, start-Wf, start_cover}
use mio_os.Pmm.Invariant.{cover}
use mio_os.Paging.Flags as PageFlags
use mio_os.Paging.Flags.{has_flag}
use mio_os.Paging.Address.{decompose}
use mio_os.Paging.Entry.{is_huge, make_empty, make_table, make_page, physical_address}
use mio_os.Paging.Map.{Backend, PagingError, map_page, unmap_page, protect_page, translate}
use mio_os.Paging.Tables.{Tables}
use mio_os.Paging.Mapped.{Result, map_page-translate}
use mio_os.Paging.Unmapped.{unmap_page-translate}
use mio_os.Paging.Protected.{Protection, protect_page-translate}
use mio_os.Paging.Buddy.{Allocator, buddy_source, owned_free}

-- An empty PML4 at 0x1000, and a CPU without no-execute.
abbrev booted : Backend Allocator
booted = record {
  table = λ t i. make_empty;
  kernel_pml4_phys = 0x1000;
  cpu = some (record { has_nx = false; has_pdpe1gb = false });
  pages = (start, one_block, start-Wf);
  flushed = [];
}

abbrev level : ℕ → ℕ
level p = if p == 0x1000 then 4 else 0

not_root : (p : ℕ) → cover one_block (p / 4096) ≡ 1 → level p ≡ 0
not_root p free = elim (Bool-cases (p == 0x1000)) [
  | inr e ↦ rw e refl
  | inl e ↦
      let frame : p / 4096 ≡ 1 = ground arith in
      let free' : cover one_block 1 ≡ 1 = rw frame at free in
      absurd (ground (arith, free', start_cover 1))
]

booted-Tables : Tables buddy_source booted level
booted-Tables = record {
  root = refl;
  child = λ k t i up pos lt here b. absurd cc;
  spare = λ p o. not_root p (owned_free booted.pages p o);
}

low : has_flag 3 PageFlags.huge_1g ≡ false
unfolding has_flag
low = refl

small : has_flag 3 PageFlags.huge_2m ≡ false
unfolding has_flag
small = refl

map_page-translate_example :
    Result buddy_source booted 0xffffc00000123000 0xabc000
      (map_page buddy_source.alloc booted 0xffffc00000123000 0xabc000 3)
map_page-translate_example =
    map_page-translate buddy_source booted 0xffffc00000123000 0xabc000 3 (omega arith) low small
      level booted-Tables

-- The same run over a source that counts pages up.
abbrev counting : Backend ℕ
counting = record {
  table = λ t i. make_empty;
  kernel_pml4_phys = 0x1000;
  cpu = some (record { has_nx = false; has_pdpe1gb = false });
  pages = 0x2000;
  flushed = [];
}

abbrev mapped : Option (PagingError × Backend ℕ)
mapped = map_page (λ n. (n, n + 0x1000)) counting 0xffffc00000123000 0xabc000 3

reached : Option (PagingError × Backend ℕ) → ℕ
reached none = 0
reached (some (e, s)) = translate s 0xffffc00000123456

run : reached mapped ≡ 0xabc456
unfolding reached map_page translate is_page_aligned decompose has_flag make_table physical_address
    make_page
run = refl

-- Four tables in a row, each of whose entries leads to the next, and a page behind the last.
abbrev ready : Backend Allocator
ready = record booted {
  table = λ t i.
      if t == 0x1000
      then make_table 0x2000 false
      else if t == 0x2000
      then make_table 0x3000 false
      else if t == 0x3000
      then make_table 0x4000 false
      else if t == 0x4000
      then make_page 0xabc000 3
      else make_empty;
}

abbrev ready_level : ℕ → ℕ
ready_level p =
    if p == 0x1000
    then 4
    else if p == 0x2000
    then 3
    else if p == 0x3000
    then 2
    else if p == 0x4000
    then 1
    else 0

ready_child :
    (k t i : ℕ)
    → ready_level t ≡ suc k
    → 0 < k
    → ready_level (physical_address (ready.table t i)) ≡ k
unfolding physical_address make_table
ready_child k t i up pos = elim (Bool-cases (t == 0x1000)) [
  | inl a ↦ rw a (omega (arith, rw a at up))
  | inr a ↦ elim (Bool-cases (t == 0x2000)) [
    | inl b ↦ rw (a, b) (omega (arith, rw (a, b) at up))
    | inr b ↦ elim (Bool-cases (t == 0x3000)) [
      | inl c ↦ rw (a, b, c) (omega (arith, rw (a, b, c) at up))
      | inr c ↦ absurd (ground (arith, rw (a, b, c) at up))
    ]
  ]
]

unused : (p n : ℕ) → n < 48 → cover one_block (p / 4096) ≡ 1 → (p == n * 4096) ≡ false
unused p n h free = elim (Bool-cases (p == n * 4096)) [
  | inr e ↦ e
  | inl e ↦
      let frame : p / 4096 ≡ n = ground arith in
      let free' : cover one_block n ≡ 1 = rw frame at free in
      absurd (ground (arith, free', start_cover n))
]

ready_spare : (p : ℕ) → cover one_block (p / 4096) ≡ 1 → ready_level p ≡ 0
ready_spare p free =
    rw
      (
        unused p 1 (omega arith) free,
        unused p 2 (omega arith) free,
        unused p 3 (omega arith) free,
        unused p 4 (omega arith) free,
      )
      refl

ready-Tables : Tables buddy_source ready ready_level
ready-Tables = record {
  root = refl;
  child = λ k t i up pos lt here b. ready_child k t i up pos;
  spare = λ p o. ready_spare p (owned_free ready.pages p o);
}

unmap_page-translate_example :
    Tables buddy_source (unmap_page ready 0x5000).1 ready_level
    × ((unmap_page ready 0x5000).0 ≡ PagingError.success
        → translate (unmap_page ready 0x5000).1 0x5000 ≡ 0)
    × ((unmap_page ready 0x5000).0 ≡ PagingError.not_mapped
        → ((unmap_page ready 0x5000).1 ≡ ready) × (translate ready 0x5000 ≡ 0))
unmap_page-translate_example =
    unmap_page-translate buddy_source ready ready_level ready-Tables 0x5000

no_leaf3 :
    is_huge (
      ready.table
        (physical_address (ready.table 0x1000 (decompose 0x5000).pml4_index))
        (decompose 0x5000).pdpt_index)
    ≡ false
unfolding physical_address make_table
no_leaf3 = refl

no_leaf2 :
    is_huge (
      ready.table
        (physical_address (
          ready.table
            (physical_address (ready.table 0x1000 (decompose 0x5000).pml4_index))
            (decompose 0x5000).pdpt_index))
        (decompose 0x5000).pd_index)
    ≡ false
unfolding physical_address make_table
no_leaf2 = refl

protect_page-translate_example :
    Protection buddy_source ready ready_level ready-Tables 0x5000 (protect_page ready 0x5000 1)
protect_page-translate_example =
    protect_page-translate buddy_source ready ready_level ready-Tables 0x5000 1 no_leaf3 no_leaf2

-- The page is mapped before.
reached_page : translate ready 0x5123 ≡ 0xabc123
unfolding translate physical_address make_table make_page decompose
reached_page = refl
