-- ===== src/Slub/Free.antt =====
-- `KmemCache::free` takes back an object in use, and returns an empty slab to the PMM.
use mio_os.Common.{
  ℕ, ◌+◌, ◌-◌, ◌*◌, ◌/◌, ◌%◌, ◌^◌, ◌≡◌, ◌≢◌, ◌⊎◌, refl, arith, ◌==◌, ◌!=◌, if◌then◌else◌, true,
  false, not, ◌&&◌, ◌||◌, some, none, sub64, ◌∷◌, Bool-cases, inl, inr, ap, ==_iff, ◌∙◌,
}
use mio_os.Common.Seq.{
  has, ◌∈◌, ◌∉◌, length, erase, IsDistinct-erase, not-mem-erase_self, has-erase_ne,
}
use mio_os.Mm.{hhdm_base, align_down}
use mio_os.Mm.Align.{align_down-page}
use mio_os.Pmm.State.{update}
use mio_os.Pmm.FreeList.Chain.{Chain, Chain-ne-zero}
use mio_os.Pmm.FreeList.Unlink.{unlink-Chain, unlink-head}
use mio_os.Pmm.Lists.{mem_of_erase}
use mio_os.Slub.State.{Slub, PageOps, slab_magic}
use mio_os.Slub.Cache.{free, drop_empty}
use mio_os.Slub.Layout.{room, slab_objects, slab_objects-range, class}
use mio_os.Slub.Invariant.{View, owned, live, IsSlab, IsCache, IsSlab-frame}
use mio_os.Slub.Push.{
  returned, length-lt_room, s2, s2-IsCache, less_one, live-returned, s2-pages, listed-v2, owned-v2,
}

-- The view without slab `q`, which is in the list.
abbrev pub dropped : View → ℕ → View
dropped v q = record { partial = erase q v.partial; full = v.full; free = v.free }

module _ {A : Type 0} (ops : PageOps A) (s : Slub A) (this i q : ℕ) (v : View)
    (w : IsCache s this i v) (listed : q ∈ v.partial) (empty : length (v.free q) ≡ room i) where
  out_full : q ∉ v.full
  out_full = elim (Bool-cases (has q v.full)) [
    | inl m ↦ absurd (w.some_free q listed (w.none_free q m))
    | inr o ↦ o
  ]

  drop-Chain :
      Chain
        (drop_empty ops s this q).links
        0
        ((drop_empty ops s this q).partial_list this)
        (erase q v.partial)
  unfolding drop_empty
  drop-Chain =
      let head = unlink-head s.links (s.partial_list this) q v.partial listed w.chain in
      let zero_out : 0 ∉ v.partial = elim (Bool-cases (has 0 v.partial)) [
        | inl m ↦ absurd (Chain-ne-zero s.links 0 (s.partial_list this) 0 v.partial w.chain m refl)
        | inr o ↦ o
      ] in
      let chain =
        unlink-Chain s.links 0 (s.partial_list this) q v.partial listed zero_out w.distinct
          w.chain in
      let where_to : (if (s.links q).prev != 0
              then s.partial_list
              else update s.partial_list this (s.links q).next)
            this
          ≡ (if (s.links q).prev != 0 then s.partial_list this else (s.links q).next) =
        ground arith in
      rw (where_to, head) chain

  owned-dropped : (r : ℕ) → owned (dropped v q) r ≡ true → owned v r ≡ true
  owned-dropped r m = elim (Bool-cases (has r (erase q v.partial))) [
    | inl h ↦ (let h' = mem_of_erase r q v.partial h in ground arith)
    | inr h ↦ ground arith
  ]

  pub dropped-IsCache : IsCache (drop_empty ops s this q) this i (dropped v q)
  dropped-IsCache = record {
    small = w.small;
    size = kept;
    chain = drop-Chain;
    distinct = IsDistinct-erase q v.partial w.distinct;
    slab = λ r m. kept_slab r (w.slab r (owned-dropped r m));
    some_free = λ r m. w.some_free r (mem_of_erase r q v.partial m);
    none_free = w.none_free;
  }
    where
      kept : (drop_empty ops s this q).obj_size this ≡ class i
      kept = unfold drop_empty in w.size

      kept_slab :
          (r : ℕ)
          → IsSlab s this i r (v.free r)
          → IsSlab (drop_empty ops s this q) this i r (v.free r)
      kept_slab r slab =
          unfold drop_empty in (IsSlab-frame s _ this i r (v.free r) refl (λ b m. refl) slab)

  -- Every object of the slab is free, so it has none in use.
  pub live-dropped : (x : ℕ) → live i (dropped v q) x ≡ live i v x
  live-dropped x = elim (Bool-cases (x / 4096 * 4096 == q)) [
    | inl e ↦
        let e' : x / 4096 * 4096 ≡ q = (==_iff _ q).0 e in
        rw (e', not-mem-erase_self q v.partial w.distinct, out_full, listed) (none_in_use x)
    | inr e ↦ rw (same_owned (x / 4096 * 4096) (ground arith)) refl
  ]
    where
      none_in_use : (x : ℕ) → false ≡ (has x (slab_objects i q) && not (has x (v.free q)))
      none_in_use x = elim (Bool-cases (has x (slab_objects i q))) [
        | inr out ↦ rw out refl
        | inl m ↦ elim (Bool-cases (has x (v.free q))) [
          | inl spare ↦ rw (m, spare) refl
          | inr used ↦ absurd (
              omega (
                arith,
                empty,
                length-lt_room s this i q x (v.free q) w.small (w.slab q (ground arith)) m used,
              ))
        ]
      ]

      same_owned : (r : ℕ) → r ≢ q → owned (dropped v q) r ≡ owned v r
      same_owned r ne = rw (has-erase_ne r q v.partial ne) refl

-- What `free` of `a` leaves: the object is no longer in use, all others are as they were, and the
-- PMM has got back the page of the slab if that has no object in use.
pub record Freed {A : Type 0} (ops : PageOps A) (s : Slub A) (this i : ℕ) (v : View) (a : ℕ)
    (s' : Slub A) : Type 0 where
  pub after : View
  pub cache : IsCache s' this i after
  pub unused : (x : ℕ) → live i after x ≡ (if x == a then false else live i v x)
  pub page :
      ((s'.pages ≡ s.pages) × (owned after (a / 4096 * 4096) ≡ true))
      ⊎ ((s'.pages ≡ ops.free_pages s.pages (sub64 (a / 4096 * 4096) hhdm_base) 1)
          × (owned after (a / 4096 * 4096) ≡ false))

module _ {A : Type 0} (ops : PageOps A) (s : Slub A) (this i a : ℕ) (v : View)
    (w : IsCache s this i v) (mine : owned v (a / 4096 * 4096) ≡ true)
    (is_obj : a ∈ slab_objects i (a / 4096 * 4096)) (used : a ∉ v.free (a / 4096 * 4096)) where
  abbrev q : ℕ
  q = a / 4096 * 4096

  abbrev t : Slub A
  t = s2 ops s this i q a v w mine is_obj used

  abbrev count : ℕ
  count = ((s.header q).inuse + 2 ^ 32 - 1) % 2 ^ 32

  free-eq : free ops s this a ≡ some (if count == 0 then drop_empty ops t this q else t)
  unfolding free
  free-eq =
      let slab = w.slab q mine in
      let r = slab_objects-range i q a w.small is_obj in
      let down : align_down a 4096 ≡ q = align_down-page a (omega (arith, r, slab.page.below)) in
      let some_object : (a == 0) ≡ false = ground (arith, r) in
      let right_cache : (((s.header q).magic != slab_magic) || ((s.header q).cache != this))
          ≡ false =
        ground (arith, slab.magic, slab.cache) in
      rw (down, some_object, right_cache) refl

  listed : q ∈ (returned v q a).partial
  listed = listed-v2 ops s this i q a v w mine is_obj used

  s2-w : IsCache t this i (returned v q a)
  s2-w = s2-IsCache ops s this i q a v w mine is_obj used

  free_self : (returned v q a).free q ≡ a ∷ v.free q
  free_self = ground arith

  empty_slab : count ≡ 0 → length ((returned v q a).free q) ≡ room i
  empty_slab e =
      ap length free_self ∙ omega (arith, e, less_one ops s this i q a v w mine is_obj used)

  back : (drop_empty ops t this q).pages ≡ ops.free_pages s.pages (sub64 q hhdm_base) 1
  unfolding drop_empty
  back =
      ap (λ (p : A). ops.free_pages p (sub64 q hhdm_base) 1)
        (s2-pages ops s this i q a v w mine is_obj used)

  busy-Freed : count ≢ 0 → Freed ops s this i v a t
  busy-Freed ne = record {
    after = returned v q a;
    cache = s2-IsCache ops s this i q a v w mine is_obj used;
    unused = live-returned ops s this i q a v w mine is_obj used;
    page = inl (
      s2-pages ops s this i q a v w mine is_obj used,
      owned-v2 ops s this i q a v w mine is_obj used q ∙ mine,
    );
  }

  empty-Freed : count ≡ 0 → Freed ops s this i v a (drop_empty ops t this q)
  empty-Freed e = record {
    after = dropped (returned v q a) q;
    cache = dropped-IsCache ops t this i q (returned v q a) s2-w listed (empty_slab e);
    unused = λ x.
        live-dropped ops t this i q (returned v q a) s2-w listed (empty_slab e) x
        ∙ live-returned ops s this i q a v w mine is_obj used x;
    page = inr (back, gone);
  }
    where
      gone : owned (dropped (returned v q a) q) q ≡ false
      gone =
          rw
            (
              not-mem-erase_self q (returned v q a).partial s2-w.distinct,
              out_full ops t this i q (returned v q a) s2-w listed (empty_slab e),
            )
            refl

-- On a well-formed cache, `free` of an object in use succeeds and leaves the cache well-formed
-- with exactly this object taken from those in use; the slab stays with the cache and the PMM is
-- not called, or the cache gives up the slab and its page goes back to the PMM.
pub free-Freed :
    {A : Type 0} (ops : PageOps A) (s : Slub A) (this i a : ℕ) (v : View)
    → IsCache s this i v
    → live i v a ≡ true
    → (s' : Slub A) × (free ops s this a ≡ some s') × Freed ops s this i v a s'
free-Freed ops s this i a v w used =
    let mine : owned v (a / 4096 * 4096) ≡ true = ground arith in
    let is_obj : a ∈ slab_objects i (a / 4096 * 4096) = ground arith in
    let out : a ∉ v.free (a / 4096 * 4096) = ground arith in
    let e = free-eq ops s this i a v w mine is_obj out in
    elim (Bool-cases (count ops s this i a v w mine is_obj out == 0)) [
      | inl z ↦ (_, e ∙ rw z refl, empty-Freed ops s this i a v w mine is_obj out (ground arith))
      | inr z ↦ (_, e ∙ rw z refl, busy-Freed ops s this i a v w mine is_obj out (ground arith))
    ]

-- An object in use of a well-formed cache, freed to any other cache, makes `free` panic.
pub free-other_cache :
    {A : Type 0} (ops : PageOps A) (s : Slub A) (this that i a : ℕ) (v : View)
    → IsCache s that i v
    → live i v a ≡ true
    → this ≢ that
    → free ops s this a ≡ none
unfolding free
free-other_cache ops s this that i a v w used ne =
    let mine : owned v (a / 4096 * 4096) ≡ true = ground arith in
    let is_obj : a ∈ slab_objects i (a / 4096 * 4096) = ground arith in
    let slab = w.slab (a / 4096 * 4096) mine in
    let r = slab_objects-range i (a / 4096 * 4096) a w.small is_obj in
    let down : align_down a 4096 ≡ a / 4096 * 4096 =
      align_down-page a (omega (arith, r, slab.page.below)) in
    let some_object : (a == 0) ≡ false = ground (arith, r) in
    let wrong : (((s.header (a / 4096 * 4096)).magic != slab_magic)
          || ((s.header (a / 4096 * 4096)).cache != this))
        ≡ true =
      ground (arith, slab.cache) in
    rw (down, some_object, wrong) refl
