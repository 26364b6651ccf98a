-- ===== src/Slub/Kmalloc.antt =====
-- `get_kmalloc_cache`, `kmalloc`, `kfree`, `initialize_slub` and the constructor of `KmemCache`.
-- `core_id` is the `cpu_id` of the current CPU.
use mio_os.Common.{
  ℕ, zero, suc, ◌+◌, ◌-◌, ◌/◌, add64, sub64, not64, mul64, bit_and, ltb, leb, ◌==◌, if◌then◌else◌,
  Bool, false, ◌||◌, ◌&&◌, Option, none, some, List, [], ◌∷◌,
}
use mio_os.Mm.{hhdm_base, page_size}
use mio_os.Pmm.State.{update}
use mio_os.Slub.State.{PageOps, Slub, slab_magic}
use mio_os.Slub.Cache.{rounded_size, alloc, free}

abbrev pub large_magic : ℕ
large_magic = 0xDEADBEEF

-- `64 - __builtin_clzll(n)` for `n` other than 0, with fuel for the bits.
unfoldable pub bit_length : ℕ → ℕ → ℕ
bit_length zero n = 0
bit_length (suc fuel) n = let rest = bit_length fuel (n / 2) in if n == 0 then 0 else suc rest

-- The caches of an AP, if there are any at its index.
abbrev pub nth : List (ℕ → ℕ) → ℕ → Option (ℕ → ℕ)
nth [] i = none
nth (c ∷ cs) zero = some c
nth (c ∷ cs) (suc i) = nth cs i

-- The index of the cache for `size`; `none` for a size that no cache has.
unfoldable pub cache_index : ℕ → Option ℕ
cache_index size =
    let bits = bit_length 64 (size - 1) in
    if leb size 16 then some 0 else if leb 4 bits && ltb (bits - 4) 8 then some (bits - 4) else none

unfoldable pub pages_for : ℕ → ℕ
pages_for size = add64 (add64 size 4095 / page_size) 1

-- The loop over the eight caches.
unfoldable pub among : ℕ → (ℕ → ℕ) → ℕ → Bool
among zero caches c = false
among (suc i) caches c = (c == caches i) || among i caches c

unfoldable pub among_aps : List (ℕ → ℕ) → ℕ → Bool
unfolding among
among_aps [] c = false
among_aps (caches ∷ rest) c = among 8 caches c || among_aps rest c

module _ {A : Type 0} where
  unfoldable pub current_caches : Slub A → ℕ → Option (ℕ → ℕ)
  current_caches s core_id =
      if core_id == 0 then some s.bsp_caches else nth s.ap_caches (core_id - 1)

  unfoldable pub get_kmalloc_cache : Slub A → ℕ → ℕ → ℕ
  get_kmalloc_cache s core_id size = elim (current_caches s core_id) [
    | none ↦ 0
    | some caches ↦ elim (cache_index size) [ none ↦ 0 | some i ↦ caches i ]
  ]

  -- `new (this) KmemCache(name, size)`
  unfoldable pub new_cache : Slub A → ℕ → ℕ → Slub A
  new_cache s this size = record s {
    obj_size = update s.obj_size this (rounded_size size);
    partial_list = update s.partial_list this 0;
  }

  -- `for (i = 0; i < 8; i++)` from `i` on: `pool` is the memory of the caches, `bytes` the size of one.
  unfoldable pub init_caches : ℕ → Slub A → ℕ → ℕ → ℕ → ℕ → Slub A
  unfolding new_cache
  init_caches zero s i target_size pool bytes = s
  init_caches (suc left) s i target_size pool bytes =
      let cache = add64 pool (mul64 i bytes) in
      let s' = new_cache s cache target_size in
      init_caches left (record s' { bsp_caches = update s'.bsp_caches i cache }) (i + 1)
        (mul64 target_size 2) pool bytes

  unfoldable pub initialize_slub : Slub A → ℕ → ℕ → Slub A
  unfolding init_caches
  initialize_slub s pool bytes = init_caches 8 s 0 16 pool bytes

module _ {A : Type 0} (ops : PageOps A) where
  -- The part of `kmalloc` that goes to the PMM.
  unfoldable pub alloc_large : Slub A → ℕ → ℕ × Slub A
  alloc_large s size =
      let needed = pages_for size in
      let got = ops.alloc_pages s.pages needed in
      let virt_addr = add64 got.0 hhdm_base in
      let s' : Slub A = record s { pages = got.1 } in
      if got.0 == 0 then (0, s') else (
        add64 virt_addr page_size,
        record s' {
          header =
              update s'.header virt_addr (record (s'.header virt_addr) { magic = large_magic });
          meta_pages = update s'.meta_pages virt_addr needed;
        },
      )

  unfoldable pub kmalloc : Slub A → ℕ → ℕ → ℕ × Slub A
  kmalloc s core_id size =
      let cache = get_kmalloc_cache s core_id size in
      if size == 0 then (0, s) else if cache == 0 then alloc_large s size else alloc ops s cache

  -- `none` is the panic.
  unfoldable pub free_large : Slub A → ℕ → Option (Slub A)
  free_large s page_base =
      let meta_page = sub64 page_base page_size in
      if (s.header meta_page).magic == large_magic
      then some (record s {
        pages = ops.free_pages s.pages (sub64 meta_page hhdm_base) (s.meta_pages meta_page);
      })
      else none

  unfoldable pub kfree : Slub A → ℕ → Option (Slub A)
  kfree s ptr =
      let page_base = bit_and ptr (not64 4095) in
      let h = s.header page_base in
      let is_slub_page =
        ((h.magic == slab_magic)
          && (among 8 s.bsp_caches h.cache || among_aps s.ap_caches h.cache)) in
      if ptr == 0
      then some s
      else if is_slub_page
      then free ops s h.cache ptr
      else free_large s page_base
