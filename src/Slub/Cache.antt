-- ===== src/Slub/Cache.antt =====
-- `KmemCache`: its constructor, `format_new_slab`, `alloc` and `free`. `this` is the address of the
-- cache.
use mio_os.Common.{
  ℕ, zero, suc, ◌+◌, ◌-◌, ◌/◌, ◌%◌, ◌^◌, u32, add64, sub64, ltb, ◌==◌, ◌!=◌, if◌then◌else◌, ◌||◌,
  Option, none, some, u64,
}
use mio_os.Mm.{hhdm_base, page_size, align_up, align_down}
use mio_os.Pmm.State.{update}
use mio_os.Pmm.FreeList.{set_prev, link_nodes, unlink_nodes}
use mio_os.Slub.State.{PageOps, Slub, slab_magic, header_size}

-- The size that the constructor settles on.
unfoldable pub rounded_size : ℕ → ℕ
rounded_size size =
    let least = if ltb size 8 then 8 else size in
    if least % 8 != 0 then u64 (least + (8 - least % 8)) else least

-- The loop that chains the objects, and the end of the chain.
unfoldable pub chain_objects : ℕ → (ℕ → ℕ) → ℕ → ℕ → ℕ → ℕ
chain_objects zero fp current size = update fp current 0
chain_objects (suc left) fp current size =
    chain_objects left (update fp current (add64 current size)) (add64 current size) size

unfoldable pub first_object : ℕ → ℕ → ℕ
first_object size page = align_up (add64 page header_size) (if ltb size 64 then size else 64)

unfoldable pub capacity : ℕ → ℕ → ℕ
capacity size page = u32 (sub64 page_size (sub64 (first_object size page) page) / size)

module _ {A : Type 0} (ops : PageOps A) where
  unfoldable pub format_new_slab : Slub A → ℕ → ℕ → Slub A
  format_new_slab s this page =
      let size = s.obj_size this in
      let first = first_object size page in
      let max = capacity size page in
      record s {
        header = update s.header page (record {
          magic = slab_magic;
          cache = this;
          freelist = first;
          inuse = 0;
          max_objs = max;
        });
        links = update s.links page (record { next = 0; prev = 0 });
        free_pointer = chain_objects ((max + 2 ^ 32 - 1) % 2 ^ 32) s.free_pointer first size;
      }

  -- `header->next_slab = partial_list; …; partial_list = header`, as `alloc` and `free` have it.
  unfoldable pub push_partial : Slub A → ℕ → ℕ → Slub A
  push_partial s this slab = record s {
    links = link_nodes s.links (s.partial_list this) slab;
    partial_list = update s.partial_list this slab;
  }

  -- The slab at the head of the list leaves it.
  unfoldable pub drop_full : Slub A → ℕ → ℕ → Slub A
  drop_full s this slab =
      let next = (s.links slab).next in
      let links' = if next != 0 then set_prev s.links next 0 else s.links in
      record s {
        links = update links' slab (record { next = 0; prev = 0 });
        partial_list = update s.partial_list this next;
      }

  -- `alloc` from the slab that it has settled on.
  unfoldable pub pop_object : Slub A → ℕ → ℕ → ℕ × Slub A
  unfolding drop_full
  pop_object s this slab =
      let h = s.header slab in
      let object = h.freelist in
      let rest = s.free_pointer object in
      let s' : Slub A = record s {
        header = update s.header slab (record h { freelist = rest; inuse = u32 (h.inuse + 1) });
      } in
      (object, if rest == 0 then drop_full s' this slab else s')

  unfoldable pub alloc : Slub A → ℕ → ℕ × Slub A
  unfolding pop_object format_new_slab push_partial
  alloc s this =
      let slab = s.partial_list this in
      let got = ops.alloc_pages s.pages 1 in
      let page = add64 (got.0) hhdm_base in
      let s' : Slub A = record s { pages = got.1 } in
      if slab == 0
      then if got.0 == 0
        then (0, s')
        else pop_object (push_partial (format_new_slab s' this page) this page) this page
      else pop_object s this slab

  -- The page goes back to the PMM.
  unfoldable pub drop_empty : Slub A → ℕ → ℕ → Slub A
  drop_empty s this slab = record s {
    links = unlink_nodes s.links slab;
    partial_list =
        if (s.links slab).prev != 0
        then s.partial_list
        else update s.partial_list this (s.links slab).next;
    pages = ops.free_pages s.pages (sub64 slab hhdm_base) 1;
  }

  -- `none` is the panic.
  unfoldable pub free : Slub A → ℕ → ℕ → Option (Slub A)
  unfolding push_partial drop_empty
  free s this object =
      let slab = align_down object page_size in
      let h = s.header slab in
      let inuse' = (h.inuse + 2 ^ 32 - 1) % 2 ^ 32 in
      let s1 : Slub A = record s {
        free_pointer = update s.free_pointer object h.freelist;
        header = update s.header slab (record h { freelist = object; inuse = inuse' });
      } in
      let s2 =
        if inuse' == (h.max_objs + 2 ^ 32 - 1) % 2 ^ 32 then push_partial s1 this slab else s1 in
      let s3 = if inuse' == 0 then drop_empty s2 this slab else s2 in
      if object == 0
      then some s
      else if (h.magic != slab_magic) || (h.cache != this)
      then none
      else some s3
