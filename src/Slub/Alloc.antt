-- ===== src/Slub/Alloc.antt =====
-- `KmemCache::alloc` gives out an object that is not in use, or finds no page.
use mio_os.Common.{
  ℕ, ◌≡◌, ◌≢◌, refl, arith, ◌==◌, if◌then◌else◌, Bool, true, false, add64, List, [], ◌∷◌,
  Bool-cases, inl, inr, ap, ◌∙◌, sym, subst,
}
use mio_os.Common.Seq.{has, ◌∉◌}
use mio_os.Mm.{hhdm_base}
use mio_os.Pmm.State.{update}
use mio_os.Slub.State.{Slub, PageOps}
use mio_os.Slub.Cache.{alloc, pop_object, push_partial, format_new_slab}
use mio_os.Slub.Layout.{slab_objects, slab_objects-range}
use mio_os.Slub.Invariant.{View, owned, live, IsPageAddress, IsCache, IsSlab-frame}
use mio_os.Slub.Pop.{popped, popped-IsCache, live-popped}
use mio_os.Slub.Format.{pushed-IsCache, live-grown}

-- What SLUB relies on: a page that the PMM gives out is a page of the HHDM, and no slab yet.
abbrev pub GivesFresh : {A : Type 0} → PageOps A → A → View → Type 0
GivesFresh ops a v =
    (ops.alloc_pages a 1).0 ≢ 0
    → IsPageAddress (add64 (ops.alloc_pages a 1).0 hhdm_base)
      × (owned v (add64 (ops.alloc_pages a 1).0 hhdm_base) ≡ false)

-- `r` is the answer of `alloc` in state `s`.
pub data Allocated {A : Type 0} (ops : PageOps A) (s : Slub A) (this i : ℕ) (v : View)
    (r : ℕ × Slub A) : Type 0 where
  refused :
      v.partial ≡ []
      → (ops.alloc_pages s.pages 1).0 ≡ 0
      → r.0 ≡ 0
      → IsCache r.1 this i v
      → Allocated ops s this i v r
  served :
      (v' : View)
      → r.0 ≢ 0
      → live i v r.0 ≡ false
      → IsCache r.1 this i v'
      → ((x : ℕ) → live i v' x ≡ (if x == r.0 then true else live i v x))
      → Allocated ops s this i v r

uncons : (l : List ℕ) → l ≢ [] → (a : ℕ) × (xs : List ℕ) × (l ≡ a ∷ xs)
uncons [] ne = absurd (ne refl)
uncons (a ∷ xs) ne = (a, xs, refl)

module _ {A : Type 0} (ops : PageOps A) (this i : ℕ) where
  -- `t` joins the objects in use.
  abbrev Gained : View → View → ℕ → Type 0
  Gained v v' t =
      (t ≢ 0)
      × (live i v t ≡ false)
      × ((x : ℕ) → live i v' x ≡ (if x == t then true else live i v x))

  Gained-same :
      (v v0 v' : View) (t : ℕ)
      → ((x : ℕ) → live i v x ≡ live i v0 x)
      → Gained v v' t
      → Gained v0 v' t
  Gained-same v v0 v' t same (ne, spare, now) = (
    ne,
    sym (same t) ∙ spare,
    λ x. now x ∙ ap (λ (b : Bool). if x == t then true else b) (same x),
  )

  abbrev Taken : Slub A → ℕ → View → Type 0
  Taken s p v =
      (v' : View) × IsCache (pop_object ops s this p).1 this i v'
      × Gained v v' (pop_object ops s this p).0

  object-ne :
      (s : Slub A) (p a : ℕ) (v : View) (xs : List ℕ)
      → IsCache s this i v
      → owned v p ≡ true
      → v.free p ≡ a ∷ xs
      → a ≢ 0
  object-ne s p a v xs w mine first =
      let slab = w.slab p mine in
      let m = slab.inside a (rw first (ground arith)) in
      let r = slab_objects-range i p a w.small m in omega arith

  head-Taken_at :
      (s : Slub A) (p : ℕ) (ps full : List ℕ) (free : ℕ → List ℕ) (a : ℕ) (xs : List ℕ)
      → IsCache s this i (record { partial = p ∷ ps; full = full; free = free })
      → free p ≡ a ∷ xs
      → Taken s p (record { partial = p ∷ ps; full = full; free = free })
  head-Taken_at s p ps full free a xs w first =
      let out : p ∉ full = elim (Bool-cases (has p full)) [
        | inl m ↦ absurd (w.some_free p (ground arith) (w.none_free p m))
        | inr o ↦ o
      ] in
      let done = popped-IsCache ops s this i p a ps full free out xs w first in
      let seen = live-popped s this i p a ps full free xs w first in
      (
        popped p ps full free xs,
        done.1,
        subst
            (λ (t : ℕ).
              Gained (record { partial = p ∷ ps; full = full; free = free })
                (popped p ps full free xs) t)
            (sym done.0) (object-ne s p a _ xs w (ground arith) first, seen.0, seen.1),
      )

  -- From the head of the list.
  head-Taken :
      (s : Slub A) (p : ℕ) (ps full : List ℕ) (free : ℕ → List ℕ)
      → IsCache s this i (record { partial = p ∷ ps; full = full; free = free })
      → Taken s p (record { partial = p ∷ ps; full = full; free = free })
  head-Taken s p ps full free w =
      let l = uncons (free p) (w.some_free p (ground arith)) in
      head-Taken_at s p ps full free l.0 l.1 w l.2

  with_pages-IsCache :
      (s : Slub A) (a : A) (v : View)
      → IsCache s this i v
      → IsCache (record s { pages = a }) this i v
  with_pages-IsCache s a v w = record {
    small = w.small;
    size = w.size;
    chain = w.chain;
    distinct = w.distinct;
    slab = λ p mine.
        IsSlab-frame s (record s { pages = a }) this i p _ refl (λ b m. refl) (w.slab p mine);
    some_free = w.some_free;
    none_free = w.none_free;
  }

  alloc-head :
      (s : Slub A) (p : ℕ)
      → s.partial_list this ≡ p
      → p ≢ 0
      → alloc ops s this ≡ pop_object ops s this p
  unfolding alloc
  alloc-head s p e ne = let z : (p == 0) ≡ false = ground arith in rw (e, z) refl

  module _ (s : Slub A) (full : List ℕ) (free : ℕ → List ℕ)
      (w : IsCache s this i (record { partial = []; full = full; free = free }))
      (law : GivesFresh ops s.pages (record { partial = []; full = full; free = free })) where
    abbrev page : ℕ
    page = add64 (ops.alloc_pages s.pages 1).0 hhdm_base

    abbrev stocked : Slub A
    stocked = record s { pages = (ops.alloc_pages s.pages 1).1 }

    w' : IsCache stocked this i (record { partial = []; full = full; free = free })
    w' = with_pages-IsCache s _ _ w

    alloc-none : (ops.alloc_pages s.pages 1).0 ≡ 0 → alloc ops s this ≡ (0, stocked)
    unfolding alloc
    alloc-none e =
        let z : (s.partial_list this == 0) ≡ true = ground (arith, w.chain) in
        let z' : ((ops.alloc_pages s.pages 1).0 == 0) ≡ true = ground arith in rw (z, z') refl

    alloc-fresh :
        (ops.alloc_pages s.pages 1).0 ≢ 0
        → alloc ops s this
          ≡ pop_object ops
              (push_partial ops (format_new_slab ops stocked this page) this page)
              this
              page
    unfolding alloc
    alloc-fresh ne =
        let z : (s.partial_list this == 0) ≡ true = ground (arith, w.chain) in
        let z' : ((ops.alloc_pages s.pages 1).0 == 0) ≡ false = ground arith in rw (z, z') refl

    out : (ops.alloc_pages s.pages 1).0 ≢ 0 → page ∉ full
    out ne = let l = (law ne).1 in ground arith

    fresh-Taken :
        (ops.alloc_pages s.pages 1).0 ≢ 0
        → Taken (push_partial ops (format_new_slab ops stocked this page) this page) page (record {
          partial = page ∷ [];
          full = full;
          free = update free page (slab_objects i page);
        })
    fresh-Taken ne =
        head-Taken _ page [] full (update free page (slab_objects i page))
          (pushed-IsCache ops stocked this i page full free w' (law ne).0 (out ne))

    same_live :
        (ops.alloc_pages s.pages 1).0 ≢ 0
        → (x : ℕ)
        → live i
            (record {
              partial = page ∷ [];
              full = full;
              free = update free page (slab_objects i page);
            })
            x
          ≡ live i (record { partial = []; full = full; free = free }) x
    same_live ne x = live-grown ops stocked this i page full free w' (law ne).0 (out ne) x

    empty-Allocated :
        Allocated ops s this i
          (record { partial = []; full = full; free = free })
          (alloc ops s this)
    empty-Allocated = elim (Bool-cases ((ops.alloc_pages s.pages 1).0 == 0)) [
      | inl e ↦
          let z : (ops.alloc_pages s.pages 1).0 ≡ 0 = ground arith in
          rw (alloc-none z) (refused refl z refl w')
      | inr e ↦
          let ne : (ops.alloc_pages s.pages 1).0 ≢ 0 = ground arith in
          let (v', cache, gained) = fresh-Taken ne in
          let (some_object, spare, now) =
            Gained-same
              (record {
                partial = page ∷ [];
                full = full;
                free = update free page (slab_objects i page);
              })
              (record { partial = []; full = full; free = free }) v' _ (same_live ne) gained in
          rw (alloc-fresh ne) (served v' some_object spare cache now)
    ]

  alloc-Allocated_cases :
      (s : Slub A) (partial full : List ℕ) (free : ℕ → List ℕ)
      → IsCache s this i (record { partial = partial; full = full; free = free })
      → GivesFresh ops s.pages (record { partial = partial; full = full; free = free })
      → Allocated ops s this i
          (record { partial = partial; full = full; free = free })
          (alloc ops s this)
  alloc-Allocated_cases s [] full free w law = empty-Allocated s full free w law
  alloc-Allocated_cases s (p ∷ ps) full free w law =
      let (v', cache, (some_object, spare, gained)) = head-Taken s p ps full free w in
      let (head, positive, before, rest) = w.chain in
      rw (alloc-head s p head positive) (served v' some_object spare cache gained)

-- On a well-formed cache of one of the eight sizes, if a page that the PMM gives out is a page of
-- the HHDM and no slab yet, `alloc` either gives 0, when the list of partial slabs is empty and
-- the PMM has no page, and the cache is well-formed with the same objects in use; or gives an
-- object other than 0 that was not in use, and the cache is well-formed with exactly this object
-- added to those in use.
pub alloc-Allocated :
    {A : Type 0} (ops : PageOps A) (s : Slub A) (this i : ℕ) (v : View)
    → IsCache s this i v
    → GivesFresh ops s.pages v
    → Allocated ops s this i v (alloc ops s this)
alloc-Allocated ops s this i v w law =
    alloc-Allocated_cases ops this i s v.partial v.full v.free w law
