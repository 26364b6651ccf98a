-- ===== src/Slub/Format.antt =====
-- A fresh page becomes a slab of the cache.
use mio_os.Common.{
  ℕ, zero, suc, ◌⊎◌, ◌+◌, ◌-◌, ◌*◌, ◌/◌, ◌%◌, ◌^◌, ◌<◌, ◌≡◌, ◌≢◌, refl, arith, ◌==◌, true, false,
  List, [], ◌∷◌, Bool-cases, inl, inr, ap, subst, ==_iff, ◌∙◌,
}
use mio_os.Common.Seq.{◌∈◌, ◌∉◌}
use mio_os.Pmm.State.{update}
use mio_os.Pmm.FreeList.Chain.{link-Chain}
use mio_os.Slub.State.{Slub, PageOps, slab_magic}
use mio_os.Slub.Cache.{format_new_slab, push_partial, first_object, capacity, chain_objects}
use mio_os.Slub.Layout.{
  class, offset, room, room_fits, slab_objects, objects, objects-IsDistinct, length-objects,
  chain_objects-Links, chain_objects-frame, slab_objects-apart, first-eq, capacity-eq,
}
use mio_os.Slub.Invariant.{View, owned, live, IsPageAddress, IsSlab, IsCache, IsSlab-frame}

objects-ne : (left current size : ℕ) → objects left current size ≢ []
objects-ne zero current size = λ e. cc
objects-ne (suc left) current size = λ e. cc

module _ {A : Type 0} (ops : PageOps A) (s : Slub A) (this i p : ℕ) (full : List ℕ)
    (free : ℕ → List ℕ) (w : IsCache s this i (record { partial = []; full = full; free = free }))
    (page : IsPageAddress p) (fresh : p ∉ full) where
  abbrev formatted : Slub A
  formatted = format_new_slab ops s this p

  abbrev max : ℕ
  max = capacity (s.obj_size this) p

  first_lem : first_object (s.obj_size this) p ≡ p + offset i
  first_lem = ap (λ (t : ℕ). first_object t p) w.size ∙ first-eq p page.aligned page.below i w.small

  max_lem : max ≡ room i
  max_lem = ap (λ (t : ℕ). capacity t p) w.size ∙ capacity-eq p page.aligned page.below i w.small

  rounds_lem : (max + 2 ^ 32 - 1) % 2 ^ 32 ≡ room i - 1
  rounds_lem = let f = room_fits i w.small in omega (arith, max_lem)

  end_fits : p + offset i + (room i - 1) * class i < 2 ^ 64
  end_fits = let f = room_fits i w.small in let b = page.below in omega arith

  pointers_lem :
      formatted.free_pointer ≡ chain_objects (room i - 1) s.free_pointer (p + offset i) (class i)
  unfolding format_new_slab
  pointers_lem = rw (rounds_lem, first_lem, w.size) refl

  header_lem : formatted.header p ≡ record {
    magic = slab_magic;
    cache = this;
    freelist = p + offset i;
    inuse = 0;
    max_objs = room i;
  }
  unfolding format_new_slab
  header_lem = rw (first_lem, max_lem) (ground arith)

  pub formatted-IsSlab : IsSlab formatted this i p (slab_objects i p)
  formatted-IsSlab =
      let f = room_fits i w.small in
      record {
        page = page;
        magic = rw header_lem refl;
        cache = rw header_lem refl;
        chain =
            rw (header_lem, pointers_lem)
              (chain_objects-Links (room i - 1) s.free_pointer (p + offset i) (class i)
                (omega arith) (omega arith) end_fits);
        distinct = objects-IsDistinct (room i - 1) (p + offset i) (class i) (omega arith);
        inside = λ a m. m;
        count = rw header_lem (omega (arith, length-objects (room i - 1) (p + offset i) (class i)));
        max = rw header_lem refl;
      }

  other-IsSlab : (q : ℕ) → q ≢ p → q ∈ full → IsSlab formatted this i q (free q)
  other-IsSlab q ne mine =
      let slab = w.slab q (ground arith) in
      IsSlab-frame s formatted this i q (free q) (header_frame q ne)
        (λ b m. rw pointers_lem (
          let f = room_fits i w.small in
          chain_objects-frame (room i - 1) s.free_pointer (p + offset i) (class i) b (omega arith)
            end_fits
            (slab_objects-apart i p q b w.small page.aligned slab.page.aligned ne
              (slab.inside b m))))
        slab
    where
      header_frame : (q : ℕ) → q ≢ p → formatted.header q ≡ s.header q
      header_frame q ne = unfold format_new_slab in (ground arith)

  -- The view with the new slab, all of whose objects are free.
  abbrev pub grown : View
  grown = record { partial = p ∷ []; full = full; free = update free p (slab_objects i p) }

  abbrev pub pushed : Slub A
  pushed = push_partial ops formatted this p

  grown-IsSlab :
      (q : ℕ)
      → owned grown q ≡ true
      → ((q == p) ≡ true) ⊎ ((q == p) ≡ false)
      → IsSlab pushed this i q (grown.free q)
  unfolding push_partial
  grown-IsSlab q mine (inl e) =
      let e' : p ≡ q = ground arith in
      rw e (
        subst (λ (t : ℕ). IsSlab pushed this i t (slab_objects i p)) e'
          (IsSlab-frame formatted pushed this i p (slab_objects i p) refl (λ b m. refl)
            formatted-IsSlab))
  grown-IsSlab q mine (inr e) = rw e (
      IsSlab-frame formatted pushed this i q (free q) refl (λ b m. refl)
        (other-IsSlab q (ground arith) (ground arith)))

  pub pushed-IsCache : IsCache pushed this i grown
  unfolding push_partial format_new_slab
  pushed-IsCache = record {
    small = w.small;
    size = w.size;
    chain =
        let head : update s.partial_list this p this ≡ p = ground arith in
        rw head (
          link-Chain (update s.links p (record { next = 0; prev = 0 })) (s.partial_list this) p []
            page.positive refl tt w.chain);
    distinct = (refl, tt);
    slab = λ q mine. grown-IsSlab q mine (Bool-cases (q == p));
    some_free = λ q m none_left. ground (arith, objects-ne (room i - 1) (p + offset i) (class i));
    none_free = λ q m. ground (arith, w.none_free q);
  }

  pub live-grown :
      (x : ℕ) → live i grown x ≡ live i (record { partial = []; full = full; free = free }) x
  live-grown x = elim (Bool-cases (x / 4096 * 4096 == p)) [
    | inl e ↦ let e' : x / 4096 * 4096 ≡ p = (==_iff _ p).0 e in rw e' (ground arith)
    | inr e ↦ ground arith
  ]
