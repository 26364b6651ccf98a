-- ===== src/Slub/Push.antt =====
-- `free` up to the push on the list of partial slabs: the object joins the free ones of its slab.
use mio_os.Common.{
  ℕ, suc, ◌+◌, ◌-◌, ◌*◌, ◌/◌, ◌%◌, ◌^◌, ◌≤◌, ◌<◌, ◌≡◌, ◌≢◌, refl, arith, ◌==◌, if◌then◌else◌, true,
  false, ◌||◌, List, [], ◌∷◌, Bool-cases, inl, inr, ap, subst, ==_iff,
}
use mio_os.Common.Seq.{has, ◌∈◌, ◌∉◌, length, without, has-without, length-le_of_distinct}
use mio_os.Pmm.State.{update}
use mio_os.Pmm.FreeList.Chain.{link-Chain}
use mio_os.Slub.State.{Slub, SlabHeader, PageOps}
use mio_os.Slub.Cache.{push_partial}
use mio_os.Slub.Layout.{
  Links-frame, class, offset, room, room_fits, slab_objects, slab_objects-range, slab_objects-apart,
  length-objects,
}
use mio_os.Slub.Invariant.{View, owned, live, IsPageAddress, IsSlab, IsCache, IsSlab-frame}

-- The view once `a` of slab `q` is free again, and the slab in the list.
abbrev pub returned : View → ℕ → ℕ → View
returned v q a = record {
  partial = if has q v.partial then v.partial else q ∷ v.partial;
  full = without q v.full;
  free = update v.free q (a ∷ v.free q);
}

-- Fewer free objects than room, when one is in use.
pub length-lt_room :
    {A : Type 0} (s : Slub A) (this i q a : ℕ) (objs : List ℕ)
    → i < 8
    → IsSlab s this i q objs
    → a ∈ slab_objects i q
    → a ∉ objs
    → length objs < room i
length-lt_room s this i q a objs small slab m out =
    let f = room_fits i small in
    omega (
      arith,
      f,
      length-objects (room i - 1) (q + offset i) (class i),
      length-le_of_distinct (a ∷ objs) (slab_objects i q) (out, slab.distinct)
          (λ b mb. among b mb (slab.inside b)),
    )
  where
    among : (b : ℕ) → b ∈ a ∷ objs → (b ∈ objs → b ∈ slab_objects i q) → b ∈ slab_objects i q
    among b mb inside = elim (Bool-cases (a == b)) [
      | inl e ↦ subst (λ (t : ℕ). t ∈ slab_objects i q) ((==_iff a b).0 e) m
      | inr e ↦ inside (ground arith)
    ]

tests_differ : {m n : ℕ} → m ≢ n → (m == n) ≡ false
tests_differ {m} {n} ne = ground arith

tests_agree : {m n : ℕ} → m ≡ n → (m == n) ≡ true
tests_agree {m} {n} e = ground arith

length-pos : (l : List ℕ) → l ≢ [] → 0 < length l
length-pos [] ne = absurd (ne refl)
length-pos (x ∷ l) ne = omega arith

module _ {A : Type 0} (ops : PageOps A) (s : Slub A) (this i q a : ℕ) (v : View)
    (w : IsCache s this i v) (mine : owned v q ≡ true) (is_obj : a ∈ slab_objects i q)
    (used : a ∉ v.free q) where
  slab : IsSlab s this i q (v.free q)
  slab = w.slab q mine

  -- The state after the three stores to the object and the header.
  abbrev pub s1 : Slub A
  s1 = record s {
    free_pointer = update s.free_pointer a (s.header q).freelist;
    header =
        update s.header q (record (s.header q) {
          freelist = a;
          inuse = ((s.header q).inuse + 2 ^ 32 - 1) % 2 ^ 32;
        });
  }

  range : (q + 48 ≤ a) × (a + class i ≤ q + 4096)
  range = slab_objects-range i q a w.small is_obj

  pub less_one : ((s.header q).inuse + 2 ^ 32 - 1) % 2 ^ 32 + suc (length (v.free q)) ≡ room i
  less_one =
      let f = room_fits i w.small in
      omega (arith, f, slab.count, length-lt_room s this i q a (v.free q) w.small slab is_obj used)

  s1-IsSlab : IsSlab s1 this i q (a ∷ v.free q)
  s1-IsSlab =
      let here : s1.header q ≡ record (s.header q) {
        freelist = a;
        inuse = ((s.header q).inuse + 2 ^ 32 - 1) % 2 ^ 32;
      } =
        ground arith in
      let word : s1.free_pointer a ≡ (s.header q).freelist = ground arith in
      record {
        page = slab.page;
        magic = rw here slab.magic;
        cache = rw here slab.cache;
        chain = rw here (
          refl,
          omega (arith, range),
          rw word (
              Links-frame s.free_pointer s1.free_pointer (s.header q).freelist (v.free q)
                (λ b m. other b m used) slab.chain),
        );
        distinct = (used, slab.distinct);
        inside = λ b m. among b m (slab.inside b);
        count = rw here less_one;
        max = rw here slab.max;
      }
    where
      other : (b : ℕ) → b ∈ v.free q → a ∉ v.free q → s1.free_pointer b ≡ s.free_pointer b
      other b m out = elim (Bool-cases (b == a)) [
        | inl e ↦ let m' = subst (λ (t : ℕ). t ∈ v.free q) ((==_iff b a).0 e) m in absurd (cc)
        | inr e ↦ rw e refl
      ]

      among :
          (b : ℕ) → b ∈ a ∷ v.free q → (b ∈ v.free q → b ∈ slab_objects i q) → b ∈ slab_objects i q
      among b m inside = elim (Bool-cases (a == b)) [
        | inl e ↦ subst (λ (t : ℕ). t ∈ slab_objects i q) ((==_iff a b).0 e) is_obj
        | inr e ↦ inside (ground arith)
      ]

  s1-other : (r : ℕ) → r ≢ q → owned v r ≡ true → IsSlab s1 this i r (v.free r)
  s1-other r ne mine_r =
      let there = w.slab r mine_r in
      IsSlab-frame s s1 this i r (v.free r) (ground arith)
        (λ b m. apart b (there.inside b m) there.page) there
    where
      apart :
          (b : ℕ) → b ∈ slab_objects i r → IsPageAddress r → s1.free_pointer b ≡ s.free_pointer b
      apart b m page = elim (Bool-cases (b == a)) [
        | inl e ↦
            let m' = subst (λ (t : ℕ). t ∈ slab_objects i r) ((==_iff b a).0 e) m in
            let out = slab_objects-apart i q r a w.small slab.page.aligned page.aligned ne m' in
            absurd (cc)
        | inr e ↦ rw e refl
      ]

  -- `if (header->inuse == header->max_objs - 1)`
  abbrev pub s2 : Slub A
  s2 =
      if ((s.header q).inuse + 2 ^ 32 - 1) % 2 ^ 32 == ((s.header q).max_objs + 2 ^ 32 - 1) % 2 ^ 32
      then push_partial ops s1 this q
      else s1

  abbrev v2 : View
  v2 = returned v q a

  pub owned-v2 : (r : ℕ) → owned v2 r ≡ owned v r
  owned-v2 r = elim (Bool-cases (has q v.partial)) [
    | inl e ↦ rw (e, has-without r q v.full) (same r e mine)
    | inr e ↦ rw (e, has-without r q v.full) (other r e mine)
  ]
    where
      same :
          (r : ℕ)
          → has q v.partial ≡ true
          → owned v q ≡ true
          → (has r v.partial || (if r == q then false else has r v.full)) ≡ owned v r
      same r e m = elim (Bool-cases (r == q)) [
        | inl e' ↦
            let e2 : q ≡ r = ground arith in
            let m' = subst (λ (t : ℕ). has t v.partial ≡ true) e2 e in rw (e', m') refl
        | inr e' ↦ rw e' refl
      ]

      other :
          (r : ℕ)
          → has q v.partial ≡ false
          → owned v q ≡ true
          → (has r (q ∷ v.partial) || (if r == q then false else has r v.full)) ≡ owned v r
      other r e m = elim (Bool-cases (r == q)) [
        | inl e' ↦
            let e2 : q ≡ r = ground arith in
            let m' = subst (λ (t : ℕ). owned v t ≡ true) e2 m in ground (arith, m')
        | inr e' ↦ ground arith
      ]

  s2-IsSlab :
      (t : Slub A)
      → t.header ≡ s1.header
      → t.free_pointer ≡ s1.free_pointer
      → (r : ℕ) → owned v2 r ≡ true
      → IsSlab t this i r (v2.free r)
  s2-IsSlab t same same' r m = elim (Bool-cases (r == q)) [
    | inl e ↦
        let e' : q ≡ r = ground arith in
        rw e (
          subst (λ (t' : ℕ). IsSlab t this i t' (a ∷ v.free q)) e'
            (IsSlab-frame s1 t this i q (a ∷ v.free q) (ap (λ (f : ℕ → SlabHeader). f q) same)
              (λ b mb. ap (λ (f : ℕ → ℕ). f b) same') s1-IsSlab))
    | inr e ↦ rw e (
        IsSlab-frame s1 t this i r (v.free r) (ap (λ (f : ℕ → SlabHeader). f r) same)
          (λ b mb. ap (λ (f : ℕ → ℕ). f b) same') (s1-other r (ground arith) (rw (← owned-v2 r) m)))
  ]

  v2-some : (r : ℕ) → r ∈ v2.partial → v2.free r ≢ []
  v2-some r m = elim (Bool-cases (r == q)) [
    | inl e ↦ rw e (λ c. cc)
    | inr e ↦ rw e (
        w.some_free r (elim (Bool-cases (has q v.partial)) [
          | inl h ↦ rw h at m
          | inr h ↦ (let m' : r ∈ q ∷ v.partial = rw h at m in ground arith)
        ]))
  ]

  v2-none : (r : ℕ) → r ∈ v2.full → v2.free r ≡ []
  v2-none r m =
      let m' : (if r == q then false else has r v.full) ≡ true = rw (← has-without r q v.full) m in
      elim (Bool-cases (r == q)) [
        | inl e ↦ (let c : false ≡ true = rw e at m' in absurd (cc))
        | inr e ↦ rw e (w.none_free r (rw e at m'))
      ]

  pub s2-IsCache : IsCache s2 this i v2
  unfolding push_partial
  s2-IsCache = elim (Bool-cases (has q v.partial)) [
    | inl e ↦
        let some_left = w.some_free q e in
        let stay : (((s.header q).inuse + 2 ^ 32 - 1) % 2 ^ 32
              == ((s.header q).max_objs + 2 ^ 32 - 1) % 2 ^ 32)
            ≡ false =
          tests_differ (
            omega
              (arith, less_one, slab.max, length-pos (v.free q) some_left, room_fits i w.small)) in
        rw (stay) (record {
          small = w.small;
          size = w.size;
          chain = rw e w.chain;
          distinct = rw e w.distinct;
          slab = s2-IsSlab s1 refl refl;
          some_free = v2-some;
          none_free = v2-none;
        })
    | inr e ↦
        let none_left = w.none_free q (ground arith) in
        let push : (((s.header q).inuse + 2 ^ 32 - 1) % 2 ^ 32
              == ((s.header q).max_objs + 2 ^ 32 - 1) % 2 ^ 32)
            ≡ true =
          tests_agree
            (omega (arith, less_one, slab.max, ap length none_left, room_fits i w.small)) in
        rw (push) (record {
          small = w.small;
          size = w.size;
          chain =
              let head : update s.partial_list this q this ≡ q = ground arith in
              rw (head, e)
                (link-Chain s.links (s.partial_list this) q v.partial slab.page.positive e
                  w.distinct w.chain);
          distinct = rw e (e, w.distinct);
          slab = s2-IsSlab (push_partial ops s1 this q) refl refl;
          some_free = v2-some;
          none_free = v2-none;
        })
  ]

  pub s2-pages : s2.pages ≡ s.pages
  unfolding push_partial
  s2-pages =
      elim (Bool-cases (
        ((s.header q).inuse + 2 ^ 32 - 1) % 2 ^ 32
        == ((s.header q).max_objs + 2 ^ 32 - 1) % 2 ^ 32)) [ inl e ↦ rw e refl | inr e ↦ rw e refl ]

  pub listed-v2 : q ∈ v2.partial
  listed-v2 = elim (Bool-cases (has q v.partial)) [ inl e ↦ rw e e | inr e ↦ rw e (ground arith) ]

  -- The object is no longer in use, and nothing else has changed.
  pub live-returned : (x : ℕ) → live i v2 x ≡ (if x == a then false else live i v x)
  live-returned x =
      let home : a / 4096 * 4096 ≡ q =
        omega (arith, range, slab.page.aligned, room_fits i w.small) in
      let e = owned-v2 (x / 4096 * 4096) in
      rw e (elim (Bool-cases (x / 4096 * 4096 == q)) [
        | inl e ↦ let e' : x / 4096 * 4096 ≡ q = (==_iff _ q).0 e in rw e' (ground arith)
        | inr e ↦ ground (arith, home)
      ])
