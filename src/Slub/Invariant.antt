-- ===== src/Slub/Invariant.antt =====
-- A well-formed cache of `kmalloc`, and the set of objects that it has given out.
use mio_os.Common.{ℕ, ◌+◌, ◌*◌, ◌/◌, ◌%◌, ◌^◌, ◌<◌, ◌≡◌, ◌≢◌, Bool, true, not, ◌&&◌, ◌||◌, List, []}
use mio_os.Common.Seq.{has, ◌∈◌, IsDistinct, length}
use mio_os.Pmm.FreeList.Chain.{Chain}
use mio_os.Slub.State.{Slub, slab_magic}
use mio_os.Slub.Layout.{Links, Links-frame, class, room, slab_objects}

-- The slabs with free objects in the order of the list, those without, and the free objects of
-- each in the order of its list.
pub record View : Type 0 where
  pub partial : List ℕ
  pub full : List ℕ
  pub free : ℕ → List ℕ

abbrev pub owned : View → ℕ → Bool
owned v q = has q v.partial || has q v.full

-- The object at `x` is in use.
abbrev pub live : ℕ → View → ℕ → Bool
live i v x =
    let q = x / 4096 * 4096 in owned v q && (has x (slab_objects i q) && not (has x (v.free q)))

pub record IsPageAddress (p : ℕ) : Type 0 where
  pub aligned : p % 4096 ≡ 0
  pub positive : p ≢ 0
  pub below : p + 4096 < 2 ^ 64

module _ {A : Type 0} (s : Slub A) (this i : ℕ) where
  pub record IsSlab (p : ℕ) (objs : List ℕ) : Type 0 where
    pub page : IsPageAddress p
    pub magic : (s.header p).magic ≡ slab_magic
    pub cache : (s.header p).cache ≡ this
    pub chain : Links s.free_pointer (s.header p).freelist objs
    pub distinct : IsDistinct objs
    pub inside : (a : ℕ) → a ∈ objs → a ∈ slab_objects i p
    pub count : (s.header p).inuse + length objs ≡ room i
    pub max : (s.header p).max_objs ≡ room i

  pub record IsCache (v : View) : Type 0 where
    pub small : i < 8
    pub size : s.obj_size this ≡ class i
    pub chain : Chain s.links 0 (s.partial_list this) v.partial
    pub distinct : IsDistinct v.partial
    pub slab : (p : ℕ) → owned v p ≡ true → IsSlab p (v.free p)
    pub some_free : (p : ℕ) → p ∈ v.partial → v.free p ≢ []
    pub none_free : (p : ℕ) → p ∈ v.full → v.free p ≡ []

-- A slab survives writes elsewhere.
pub IsSlab-frame :
    {A : Type 0} (s s' : Slub A) (this i p : ℕ) (objs : List ℕ)
    → s'.header p ≡ s.header p
    → ((a : ℕ) → a ∈ objs → s'.free_pointer a ≡ s.free_pointer a)
    → IsSlab s this i p objs
    → IsSlab s' this i p objs
IsSlab-frame s s' this i p objs same same' w = record {
  page = w.page;
  magic = rw same w.magic;
  cache = rw same w.cache;
  chain = rw same (Links-frame s.free_pointer s'.free_pointer _ objs same' w.chain);
  distinct = w.distinct;
  inside = w.inside;
  count = rw same w.count;
  max = rw same w.max;
}
