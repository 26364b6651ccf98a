-- ===== src/Slub/Examples.antt =====
-- A cache of 2048-byte objects with one slab, whose only object is in use, and a PMM that counts up.
use mio_os.Common.{ℕ, ◌+◌, ◌*◌, ◌≡◌, refl, arith, true, none, some, [], ◌∷◌}
use mio_os.Slub.State.{Slub, PageOps, slab_magic}
use mio_os.Slub.Cache.{alloc, free}
use mio_os.Slub.Invariant.{View, owned, IsSlab, IsCache}
use mio_os.Slub.Alloc.{Allocated, alloc-Allocated}
use mio_os.Slub.Free.{Freed, free-Freed, free-other_cache}
use mio_os.Slub.Kmalloc.{kfree, current_caches, initialize_slub}
use mio_os.Slub.Start.{no_slabs, place, initialize_slub-IsCache}
use mio_os.Slub.Global.{kfree-Freed}

abbrev counting : PageOps ℕ
counting = record { alloc_pages = λ a n. (a, a + n * 4096); free_pages = λ a p n. a }

abbrev slab_page : ℕ
slab_page = 0xFFFF800000005000

abbrev held : Slub ℕ
held = record {
  header =
      λ p. record { magic = slab_magic; cache = 0x1000; freelist = 0; inuse = 1; max_objs = 1 };
  links = λ p. record { next = 0; prev = 0 };
  free_pointer = λ a. 0;
  obj_size = λ c. 2048;
  partial_list = λ c. 0;
  bsp_caches = λ i. 0x1000;
  ap_caches = [];
  meta_pages = λ p. 0;
  pages = 0x6000;
}

abbrev view : View
view = record { partial = []; full = slab_page ∷ []; free = λ p. [] }

held-IsSlab : (p : ℕ) → owned view p ≡ true → IsSlab held 0x1000 7 p []
held-IsSlab p m =
    let e : p ≡ slab_page = ground arith in
    rw e (record {
      page = record { aligned = omega arith; positive = omega arith; below = omega arith };
      magic = refl;
      cache = refl;
      chain = refl;
      distinct = tt;
      inside = λ a h. absurd (cc);
      count = refl;
      max = refl;
    })

held-IsCache : IsCache held 0x1000 7 view
held-IsCache = record {
  small = omega arith;
  size = refl;
  chain = refl;
  distinct = tt;
  slab = held-IsSlab;
  some_free = λ p m. absurd (cc);
  none_free = λ p m. refl;
}

alloc-Allocated_example : Allocated counting held 0x1000 7 view (alloc counting held 0x1000)
alloc-Allocated_example =
    alloc-Allocated counting held 0x1000 7 view held-IsCache
      (λ ne. (record { aligned = omega arith; positive = omega arith; below = omega arith }, refl))

free-Freed_example :
    (s' : Slub ℕ) × (free counting held 0x1000 0xFFFF800000005040 ≡ some s')
    × Freed counting held 0x1000 7 view 0xFFFF800000005040 s'
free-Freed_example = free-Freed counting held 0x1000 7 0xFFFF800000005040 view held-IsCache refl

free-other_cache_example : free counting held 0x2000 0xFFFF800000005040 ≡ none
free-other_cache_example =
    free-other_cache counting held 0x2000 0x1000 7 0xFFFF800000005040 view held-IsCache refl
      (omega arith)

kfree-Freed_example :
    (s' : Slub ℕ) × (kfree counting held 0xFFFF800000005040 ≡ some s')
    × Freed counting held 0x1000 7 view 0xFFFF800000005040 s'
kfree-Freed_example =
    kfree-Freed counting held 7 7 0xFFFF800000005040 view (omega arith) held-IsCache refl

here : current_caches held 0 ≡ some held.bsp_caches
unfolding current_caches
here = refl

-- A state in which the next page is no slab.
abbrev blank : Slub ℕ
blank = record held {
  header = λ p. record { magic = 0; cache = 0; freelist = 0; inuse = 0; max_objs = 0 };
}

initialize_slub-IsCache_example :
    ((initialize_slub blank 0x100000 40).bsp_caches 3 ≡ place 0x100000 40 3)
    × IsCache (initialize_slub blank 0x100000 40) (place 0x100000 40 3) 3 no_slabs
initialize_slub-IsCache_example =
    initialize_slub-IsCache 0x100000 40 (omega arith) (omega arith) blank 3 (omega arith)
