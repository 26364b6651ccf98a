-- ===== src/Slub/Global.antt =====
-- `kfree` finds the cache of an object, and undoes a large `kmalloc`.
use mio_os.Common.{
  ℕ, zero, suc, ◌+◌, ◌-◌, ◌*◌, ◌/◌, ◌%◌, ◌^◌, ◌≤◌, ◌<◌, ◌≡◌, ◌≢◌, refl, arith, bit_and, not64, ◌==◌,
  true, false, some, Bool-cases, inl, inr, ◌∙◌,
}
use mio_os.Common.Seq.{◌∈◌}
use mio_os.Mm.{hhdm_base, align_down}
use mio_os.Mm.Align.{align_down-page}
use mio_os.Pmm.State.{update}
use mio_os.Slub.State.{Slub, PageOps, slab_magic}
use mio_os.Slub.Cache.{free}
use mio_os.Slub.Layout.{slab_objects, slab_objects-range}
use mio_os.Slub.Invariant.{View, owned, live, IsCache}
use mio_os.Slub.Free.{Freed, free-Freed}
use mio_os.Slub.Kmalloc.{
  large_magic, among, get_kmalloc_cache, pages_for, alloc_large, kmalloc, free_large, kfree,
}

among-own : (n k : ℕ) (caches : ℕ → ℕ) → k < n → among n caches (caches k) ≡ true
unfolding among
among-own zero k caches h = absurd (omega arith)
among-own (suc n) k caches h = elim (Bool-cases (k == n)) [
  | inl e ↦ let e' : k ≡ n = ground arith in rw e' (ground arith)
  | inr ne ↦ ground (arith, among-own n k caches)
]

page_mask_lem : (a : ℕ) → a < 2 ^ 64 → bit_and a (not64 4095) ≡ a / 4096 * 4096
page_mask_lem a h = unfold align_down in (align_down-page a h)

kfree-free :
    {A : Type 0} (ops : PageOps A) (s : Slub A) (k i a : ℕ) (v : View)
    → k < 8
    → IsCache s (s.bsp_caches k) i v
    → live i v a ≡ true
    → kfree ops s a ≡ free ops s (s.bsp_caches k) a
unfolding kfree
kfree-free ops s k i a v h w used =
    let mine : owned v (a / 4096 * 4096) ≡ true = ground arith in
    let is_obj : a ∈ slab_objects i (a / 4096 * 4096) = ground arith in
    let slab = w.slab (a / 4096 * 4096) mine in
    let r = slab_objects-range i (a / 4096 * 4096) a w.small is_obj in
    let base = page_mask_lem a (omega (arith, r, slab.page.below)) in
    let some_object : (a == 0) ≡ false = ground (arith, r) in
    let magic : ((s.header (a / 4096 * 4096)).magic == slab_magic) ≡ true =
      ground (arith, slab.magic) in
    rw (base, some_object, magic, slab.cache, among-own 8 k s.bsp_caches h) refl

-- `kfree` of an object in use of a well-formed cache that is one of the eight of the BSP finds
-- that cache, and has the result of its `free`.
pub kfree-Freed :
    {A : Type 0} (ops : PageOps A) (s : Slub A) (k i a : ℕ) (v : View)
    → k < 8
    → IsCache s (s.bsp_caches k) i v
    → live i v a ≡ true
    → (s' : Slub A) × (kfree ops s a ≡ some s') × Freed ops s (s.bsp_caches k) i v a s'
kfree-Freed ops s k i a v h w used =
    let (s', e, freed) = free-Freed ops s (s.bsp_caches k) i a v w used in
    (s', kfree-free ops s k i a v h w used ∙ e, freed)

module _ {A : Type 0} (ops : PageOps A) (s : Slub A) (core_id size phys : ℕ) (some_size : size ≢ 0)
    (fits : size + 8192 < 2 ^ 64) (no_cache : get_kmalloc_cache s core_id size ≡ 0)
    (given : (ops.alloc_pages s.pages (pages_for size)).0 ≡ phys) (found : phys ≢ 0)
    (aligned : phys % 4096 ≡ 0) (in_window : phys + 8192 < 2 ^ 47) where
  abbrev virt : ℕ
  virt = phys + hhdm_base

  -- The state in which the two words of the first page are written.
  abbrev marked : Slub A
  marked = record s {
    pages = (ops.alloc_pages s.pages (pages_for size)).1;
    header = update s.header virt (record (s.header virt) { magic = large_magic });
    meta_pages = update s.meta_pages virt (pages_for size);
  }

  kmalloc-eq : kmalloc ops s core_id size ≡ (virt + 4096, marked)
  unfolding kmalloc alloc_large
  kmalloc-eq =
      let z : (size == 0) ≡ false = ground arith in
      let z' : (phys == 0) ≡ false = ground arith in
      let at : (phys + hhdm_base) % 2 ^ 64 ≡ virt = omega arith in
      let at' : (virt + 4096) % 2 ^ 64 ≡ virt + 4096 = omega arith in
      rw (z, no_cache, given, z', at, at') refl

  kfree-large :
      (s.header (virt + 4096)).magic ≢ slab_magic
      → kfree ops marked (virt + 4096) ≡ free_large ops marked (virt + 4096)
  unfolding kfree
  kfree-large no_slab =
      let base : bit_and (virt + 4096) (not64 4095) ≡ virt + 4096 =
        page_mask_lem (virt + 4096) (omega arith) ∙ omega arith in
      let some_object : (virt + 4096 == 0) ≡ false = ground arith in
      let other : (virt + 4096 == virt) ≡ false = ground arith in
      let magic : ((s.header (virt + 4096)).magic == slab_magic) ≡ false = ground arith in
      rw (base, some_object, other, magic) refl

  free_large-eq :
      free_large ops marked (virt + 4096)
      ≡ some (record marked { pages = ops.free_pages marked.pages phys (pages_for size) })
  unfolding free_large
  free_large-eq =
      let meta : (virt + 4096 + 2 ^ 64 - 4096) % 2 ^ 64 ≡ virt = omega arith in
      let back : (virt + 2 ^ 64 - hhdm_base) % 2 ^ 64 ≡ phys = omega arith in
      let same : (virt == virt) ≡ true = ground arith in rw (meta, back, same) refl

  enough : size + 4096 ≤ pages_for size * 4096
  unfolding pages_for
  enough = omega arith

  -- For a size without a cache, when the PMM gives a page of its window, `kmalloc` gives the
  -- address of the second page, the pages hold the size and one page more, and if the second page
  -- does not look like a slab, `kfree` of the address returns exactly these pages to the PMM.
  pub kfree-kmalloc_large :
      (s.header (virt + 4096)).magic ≢ slab_magic
      → ((kmalloc ops s core_id size).0 ≡ virt + 4096)
        × (kfree ops (kmalloc ops s core_id size).1 (kmalloc ops s core_id size).0
            ≡ some (record (kmalloc ops s core_id size).1 {
              pages =
                  ops.free_pages (ops.alloc_pages s.pages (pages_for size)).1 phys (pages_for size);
            }))
        × (size + 4096 ≤ pages_for size * 4096)
  kfree-kmalloc_large no_slab = rw kmalloc-eq (refl, kfree-large no_slab ∙ free_large-eq, enough)
