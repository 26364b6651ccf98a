-- ===== src/Slub/Pop.antt =====
-- What `pop_object` does to the cache.
use mio_os.Common.{
  ℕ, ◌+◌, ◌*◌, ◌/◌, ◌≡◌, ◌≢◌, refl, arith, ◌==◌, ◌!=◌, if◌then◌else◌, true, false, not, ◌&&◌, List,
  [], ◌∷◌, Bool-cases, inl, inr, subst, u32, ==_iff,
}
use mio_os.Common.Seq.{has, ◌∈◌, ◌∉◌, IsDistinct}
use mio_os.Pmm.State.{BuddyFreeNode, update}
use mio_os.Pmm.FreeList.{set_prev}
use mio_os.Pmm.FreeList.Chain.{Chain, Chain-relink}
use mio_os.Slub.State.{Slub, PageOps}
use mio_os.Slub.Cache.{drop_full, pop_object}
use mio_os.Slub.Layout.{room_fits, slab_objects, slab_objects-range}
use mio_os.Slub.Invariant.{View, owned, live, IsSlab, IsCache, IsSlab-frame}

-- The view after the first free object of slab `p`, the head of `p ∷ ps`, is taken: `xs` are left.
abbrev pub popped : ℕ → List ℕ → List ℕ → (ℕ → List ℕ) → List ℕ → View
popped p ps full free [] = record { partial = ps; full = p ∷ full; free = update free p [] }
popped p ps full free (x ∷ xs) = record {
  partial = p ∷ ps;
  full = full;
  free = update free p (x ∷ xs);
}

module _ {A : Type 0} (ops : PageOps A) (s : Slub A) (this i p a : ℕ) (ps full xs : List ℕ)
    (free : ℕ → List ℕ)
    (w : IsCache s this i (record { partial = p ∷ ps; full = full; free = free }))
    (first : free p ≡ a ∷ xs) (out : p ∉ full) where
  head-IsSlab : IsSlab s this i p (a ∷ xs)
  head-IsSlab = subst (λ (l : List ℕ). IsSlab s this i p l) first (w.slab p (ground arith))

  -- The state in which the object is off the list of its slab.
  abbrev s1 : Slub A
  s1 = record s {
    header =
        update s.header p (record (s.header p) {
          freelist = s.free_pointer a;
          inuse = u32 ((s.header p).inuse + 1);
        });
  }

  object_first : (s.header p).freelist ≡ a
  object_first = head-IsSlab.chain.0

  s1-IsSlab : IsSlab s1 this i p xs
  s1-IsSlab =
      let h = head-IsSlab in
      let fits = room_fits i w.small in
      let here : s1.header p ≡ record (s.header p) {
        freelist = s.free_pointer a;
        inuse = u32 ((s.header p).inuse + 1);
      } =
        ground arith in
      record {
        page = h.page;
        magic = rw here h.magic;
        cache = rw here h.cache;
        chain = rw here h.chain.2;
        distinct = h.distinct.1;
        inside = λ b m. h.inside b (ground arith);
        count = rw here (omega (arith, h.count, fits));
        max = rw here h.max;
      }

  s1-other :
      (q : ℕ)
      → q ≢ p
      → owned (record { partial = p ∷ ps; full = full; free = free }) q ≡ true
      → IsSlab s1 this i q (free q)
  s1-other q ne mine =
      IsSlab-frame s s1 this i q (free q) (ground arith) (λ b m. refl) (w.slab q mine)

  popped-IsSlab :
      (s' : Slub A)
      → ((q : ℕ) → s'.header q ≡ s1.header q)
      → ((b : ℕ) → s'.free_pointer b ≡ s.free_pointer b)
      → (q : ℕ) → owned (record { partial = p ∷ ps; full = full; free = free }) q ≡ true
      → IsSlab s' this i q (update free p xs q)
  popped-IsSlab s' same same' q mine = elim (Bool-cases (q == p)) [
    | inl e ↦
        let e' : p ≡ q = ground arith in
        rw e (
          subst (λ (t : ℕ). IsSlab s' this i t xs) e'
            (IsSlab-frame s1 s' this i p xs (same p) (λ b m. same' b) s1-IsSlab))
    | inr e ↦ rw e (
        IsSlab-frame s1 s' this i q (free q) (same q) (λ b m. same' b)
          (s1-other q (ground arith) mine))
  ]

  pop_object-eq :
      pop_object ops s this p ≡ (a, if s.free_pointer a == 0 then drop_full ops s1 this p else s1)
  unfolding pop_object
  pop_object-eq = rw object_first refl

-- The tail of the list, once its head is unlinked.
unlinked :
    (n : ℕ → BuddyFreeNode) (head p : ℕ) (ps : List ℕ)
    → IsDistinct (p ∷ ps)
    → Chain n 0 head (p ∷ ps)
    → Chain
        (update
          (if (n p).next != 0 then set_prev n (n p).next 0 else n)
          p
          (record { next = 0; prev = 0 }))
        0
        (n p).next
        ps
unlinked n head p [] d c = c.3
unlinked n head p (x ∷ ps) d c =
    let apart : (n p).next ≢ p = ground arith in
    let some_next : ((n p).next != 0) ≡ true = ground arith in
    Chain-relink n _ p 0 (n p).next (x ∷ ps) (λ b m ne. ground arith) (λ ne. ground arith)
      (λ ne. ground arith) d.1 c.3

module _ {A : Type 0} (ops : PageOps A) (s : Slub A) (this i p a : ℕ) (ps full : List ℕ)
    (free : ℕ → List ℕ) (out : p ∉ full) where
  pub popped-IsCache :
      (xs : List ℕ)
      → IsCache s this i (record { partial = p ∷ ps; full = full; free = free })
      → free p ≡ a ∷ xs
      → ((pop_object ops s this p).0 ≡ a)
        × IsCache (pop_object ops s this p).1 this i (popped p ps full free xs)
  unfolding drop_full
  popped-IsCache [] w first =
      let e : (s.free_pointer a == 0) ≡ true =
        ground (arith, (head-IsSlab ops s this i p a ps full [] free w first out).chain) in
      rw (pop_object-eq ops s this i p a ps full [] free w first out, e)
        (
          refl,
          record {
            small = w.small;
            size = w.size;
            chain =
                let here : update s.partial_list this (s.links p).next this ≡ (s.links p).next =
                  ground arith in
                rw here (unlinked s.links (s.partial_list this) p ps w.distinct w.chain);
            distinct = w.distinct.1;
            slab = λ q mine.
                popped-IsSlab ops s this i p a ps full [] free w first out _ (λ r. refl) (λ b. refl)
                  q (ground arith);
            some_free = λ q m. ground (arith, w.some_free q, w.distinct);
            none_free = λ q m. ground (arith, w.none_free q);
          },
        )
  popped-IsCache (x ∷ xs) w first =
      let e : (s.free_pointer a == 0) ≡ false =
        ground (arith, (head-IsSlab ops s this i p a ps full (x ∷ xs) free w first out).chain) in
      rw (pop_object-eq ops s this i p a ps full (x ∷ xs) free w first out, e)
        (
          refl,
          record {
            small = w.small;
            size = w.size;
            chain = w.chain;
            distinct = w.distinct;
            slab = λ q mine.
                popped-IsSlab ops s this i p a ps full (x ∷ xs) free w first out _ (λ r. refl)
                  (λ b. refl) q mine;
            some_free = λ q m. ground (arith, w.some_free q);
            none_free = λ q m. ground (arith, w.none_free q);
          },
        )

owned-popped :
    (p : ℕ) (ps full : List ℕ) (free : ℕ → List ℕ) (xs : List ℕ) (q : ℕ)
    → owned (popped p ps full free xs) q
      ≡ owned (record { partial = p ∷ ps; full = full; free = free }) q
owned-popped p ps full free [] q = ground arith
owned-popped p ps full free (x ∷ xs) q = refl

free-popped :
    (p : ℕ) (ps full : List ℕ) (free : ℕ → List ℕ) (xs : List ℕ) (q : ℕ)
    → (popped p ps full free xs).free q ≡ update free p xs q
free-popped p ps full free [] q = refl
free-popped p ps full free (x ∷ xs) q = refl

-- The object taken was not in use, and is the one that is in use now.
pub live-popped :
    {A : Type 0} (s : Slub A) (this i p a : ℕ) (ps full : List ℕ) (free : ℕ → List ℕ) (xs : List ℕ)
    → IsCache s this i (record { partial = p ∷ ps; full = full; free = free })
    → free p ≡ a ∷ xs
    → (live i (record { partial = p ∷ ps; full = full; free = free }) a ≡ false)
      × ((x : ℕ)
          → live i (popped p ps full free xs) x ≡ (
              if x == a
              then true
              else live i (record { partial = p ∷ ps; full = full; free = free }) x))
live-popped s this i p a ps full free xs w first =
    let slab = subst (λ (l : List ℕ). IsSlab s this i p l) first (w.slab p (ground arith)) in
    let is_obj : a ∈ slab_objects i p = slab.inside a (ground arith) in
    let range = slab_objects-range i p a w.small is_obj in
    let fits = room_fits i w.small in
    let home : a / 4096 * 4096 ≡ p = omega (arith, slab.page.aligned) in
    let fresh : a ∉ xs = slab.distinct.0 in
    (
      rw (home, first) (ground arith),
      λ x.
          rw (owned-popped p ps full free xs, free-popped p ps full free xs)
            (by_page x is_obj home fresh),
    )
  where
    by_page :
        (x : ℕ)
        → a ∈ slab_objects i p
        → a / 4096 * 4096 ≡ p
        → a ∉ xs
        → (owned (record { partial = p ∷ ps; full = full; free = free }) (x / 4096 * 4096)
            && (has x (slab_objects i (x / 4096 * 4096))
                && not (has x (update free p xs (x / 4096 * 4096)))))
          ≡ (if x == a
              then true
              else live i (record { partial = p ∷ ps; full = full; free = free }) x)
    by_page x is_obj home fresh = elim (Bool-cases (x / 4096 * 4096 == p)) [
      | inl e ↦
          let e' : x / 4096 * 4096 ≡ p = (==_iff _ p).0 e in
          rw (e', first) (ground (arith, is_obj, fresh))
      | inr e ↦ ground (arith, home)
    ]
