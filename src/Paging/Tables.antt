-- ===== src/Paging/Tables.antt =====
-- The tree of page tables: each table has a level, and an entry that is no leaf leads to a table of
-- the next level down.
use mio_os.Common.{
  ℕ, suc, ◌<◌, ◌≡◌, ◌≢◌, refl, sym, ap, ◌∙◌, inl, inr, arith, ◌==◌, ◌!=◌, if◌then◌else◌, Bool, true,
  false, ◌&&◌, Option, none, some, Bool-cases, ltb,
}
use mathlib.Core.Bool.{true≢false}
use mio_os.Pmm.State.{update}
use mio_os.Paging.Entry.{
  PageTableEntry, physical_address, is_present, is_huge, make_table, IsPage, make_table_lem,
}
use mio_os.Paging.Map.{Backend, store, clear, alloc_page_table, get_or_create_subtable}

-- What paging needs of `PMM::alloc_pages()`: `Owns a p` says that the page at `p` may still be
-- given out in state `a`.
pub record PageSource (A : Type 0) : Type 1 where
  pub alloc : A → ℕ × A
  pub Owns : A → ℕ → Type 0
  pub gives : (a : A) → (alloc a).0 ≢ 0 → Owns a (alloc a).0 × IsPage (alloc a).0
  pub keeps : (a : A) (p : ℕ) → Owns (alloc a).1 p → Owns a p × (p ≢ (alloc a).0)

module _ {A : Type 0} (source : PageSource A) where
  pub record Tables (s : Backend A) (level : ℕ → ℕ) : Type 0 where
    pub root : level s.kernel_pml4_phys ≡ 4
    pub child :
        (k t i : ℕ)
        → level t ≡ suc k
        → 0 < k
        → i < 512
        → is_present (s.table t i) ≡ true
        → (is_huge (s.table t i) && (k != 3)) ≡ false
        → level (physical_address (s.table t i)) ≡ k
    pub spare : (p : ℕ) → source.Owns s.pages p → level p ≡ 0

  -- The walk went from index `i` of table `t` to table `c` of level `k`, perhaps a new one.
  pub record Descended (s : Backend A) (level : ℕ → ℕ) (t i k c : ℕ) (s' : Backend A) : Type 0 where
    pub level' : ℕ → ℕ
    pub tables : Tables s' level'
    pub at_child : level' c ≡ k
    pub present : is_present (s'.table t i) ≡ true
    pub branch : (is_huge (s'.table t i) && (k != 3)) ≡ false
    pub leads : physical_address (s'.table t i) ≡ c
    pub levels : (p : ℕ) → level p ≢ 0 → level' p ≡ level p
    pub others : (p : ℕ) → level p ≢ 0 → p ≢ t → (j : ℕ) → s'.table p j ≡ s.table p j
    pub same_root : s'.kernel_pml4_phys ≡ s.kernel_pml4_phys
    pub same_cpu : s'.cpu ≡ s.cpu

  -- What the result of `get_or_create_subtable` means.
  abbrev pub Subtable : Backend A → (ℕ → ℕ) → ℕ → ℕ → ℕ → Option ℕ × Backend A → Type 0
  Subtable s level t i k (none, s') = Tables s' level
  Subtable s level t i k (some c, s') = Descended s level t i k c s'

  -- A page that the source owned becomes a table of level `k`, entered at index `i` of `t`.
  module _ (s : Backend A) (level : ℕ → ℕ) (t i k : ℕ) (user : Bool) (w : Tables s level)
      (at : level t ≡ suc k) (pos : 0 < k) (some_page : (source.alloc s.pages).0 ≢ 0) where
    abbrev c : ℕ
    c = (source.alloc s.pages).0

    abbrev fresh : ℕ → PageTableEntry
    fresh = clear (s.table c)

    abbrev grown : Backend A
    grown =
        store (record s { pages = (source.alloc s.pages).1; table = update s.table c fresh }) t i
          (make_table c user)

    abbrev level_new : ℕ → ℕ
    level_new = update level c k

    vacant : level c ≡ 0
    vacant = w.spare c (source.gives s.pages some_page).0

    other_level : (p : ℕ) → level p ≢ 0 → (p == c) ≡ false
    other_level p ne = elim (Bool-cases (p == c)) [
      | inl e ↦ let e' : p ≡ c = ground arith in absurd (ne (rw e' vacant))
      | inr e ↦ e
    ]

    parent_other : (t == c) ≡ false
    parent_other = other_level t (λ z. omega (arith, at, z))

    IsNew : ℕ → ℕ → Type 0
    IsNew p j = ((p == t) && (j == i)) ≡ true

    entry :
        (p j : ℕ)
        → grown.table p j ≡ (
            if (p == t) && (j == i)
            then make_table c user
            else if p == c
            then fresh j
            else s.table p j)
    unfolding store
    entry p j = elim (Bool-cases (p == t)) [
      | inr e ↦ elim (Bool-cases (p == c)) [ inl q ↦ rw (e, q) refl | inr q ↦ rw (e, q) refl ]
      | inl e ↦
          let e' : p ≡ t = ground arith in
          let e'' : (t == t) ≡ true = rw e' at e in
          rw (e', e'', parent_other)
            (elim (Bool-cases (j == i)) [ inl q ↦ rw q refl | inr q ↦ rw q refl ])
    ]

    old : (p : ℕ) → level p ≢ 0 → level_new p ≡ level p
    old p ne = rw (other_level p ne) refl

    self : (x : ℕ) → (x == x) ≡ true
    self x = ground arith

    at_c : level_new c ≡ k
    at_c = rw (self c) refl

    cleared : (j : ℕ) → j < 512 → is_present (fresh j) ≡ false
    unfolding clear
    cleared j h = let e : ltb j 512 ≡ true = ground arith in rw e refl

    given : IsPage c
    given = (source.gives s.pages some_page).1

    new_child :
        (k' t' i' : ℕ)
        → level_new t' ≡ suc k'
        → 0 < k'
        → i' < 512
        → is_present (grown.table t' i') ≡ true
        → (is_huge (grown.table t' i') && (k' != 3)) ≡ false
        → level_new (physical_address (grown.table t' i')) ≡ k'
    new_child k' t' i' at' pos' lt' p b = elim (Bool-cases (t' == c)) [
      | inl e ↦
          let q : (t' == t) ≡ false = ground (arith, parent_other) in
          let same : grown.table t' i' ≡ fresh i' = rw (entry t' i', q, e) refl in
          let gone : is_present (grown.table t' i') ≡ false = rw same (cleared i' lt') in
          absurd (true≢false (sym p ∙ gone))
      | inr e ↦
          let at'' : level t' ≡ suc k' = rw e at at' in
          elim (Bool-cases ((t' == t) && (i' == i))) [
            | inl q ↦
                let t_eq : t' ≡ t = ground arith in
                let k_eq : k' ≡ k = omega (arith, at'', at, ap level t_eq) in
                let new : grown.table t' i' ≡ make_table c user = rw (entry t' i', q) refl in
                rw (new, (make_table_lem c user given).2) (at_c ∙ sym k_eq)
            | inr q ↦
                let same : grown.table t' i' ≡ s.table t' i' = rw (entry t' i', q, e) refl in
                let down = w.child k' t' i' at'' pos' lt' (rw same at p) (rw same at b) in
                rw same (old _ (λ z. omega (arith, down, z)) ∙ down)
          ]
    ]

    unowned : (p : ℕ) → source.Owns (source.alloc s.pages).1 p → level_new p ≡ 0
    unowned p o =
        let (before, ne) = source.keeps s.pages p o in
        let e : (p == c) ≡ false = ground (arith, ne) in rw e (w.spare p before)

    pages_after : grown.pages ≡ (source.alloc s.pages).1
    unfolding store
    pages_after = refl

    root_after : grown.kernel_pml4_phys ≡ s.kernel_pml4_phys
    unfolding store
    root_after = refl

    cpu_after : grown.cpu ≡ s.cpu
    unfolding store
    cpu_after = refl

    new-Tables : Tables grown level_new
    new-Tables = record {
      root =
          ap level_new root_after ∙ old s.kernel_pml4_phys (λ z. omega (arith, w.root, z)) ∙ w.root;
      child = new_child;
      spare = λ p o. unowned p (rw pages_after at o);
    }

    new-Descended : Descended s level t i k c grown
    new-Descended =
        let here : grown.table t i ≡ make_table c user = rw (entry t i, self t, self i) refl in
        let lem = make_table_lem c user given in
        record {
          level' = level_new;
          tables = new-Tables;
          at_child = at_c;
          present = rw here lem.0;
          branch = rw (here, lem.1) refl;
          leads = rw here lem.2;
          levels = old;
          others = λ p n d j.
              let q : (p == t) ≡ false = ground (arith, d) in
              rw (entry p j, q, other_level p n) refl;
          same_root = root_after;
          same_cpu = cpu_after;
        }

  no_page :
      (s : Backend A)
      → ((source.alloc s.pages).0 == 0) ≡ true
      → alloc_page_table source.alloc s ≡ (0, record s { pages = (source.alloc s.pages).1 })
  unfolding alloc_page_table
  no_page s z = rw z refl

  one_page :
      (s : Backend A)
      → ((source.alloc s.pages).0 == 0) ≡ false
      → alloc_page_table source.alloc s ≡ (
        (source.alloc s.pages).0,
        record s {
          pages = (source.alloc s.pages).1;
          table =
              update s.table (source.alloc s.pages).0 (clear (s.table (source.alloc s.pages).0));
        },
      )
  unfolding alloc_page_table
  one_page s z = rw z refl

  pub get_or_create-Subtable :
      (s : Backend A) (level : ℕ → ℕ) (t i k : ℕ) (user : Bool)
      → Tables s level
      → level t ≡ suc k
      → 0 < k
      → i < 512
      → (is_present (s.table t i) && (is_huge (s.table t i) && (k != 3))) ≡ false
      → Subtable s level t i k (get_or_create_subtable source.alloc s t i user)
  unfolding get_or_create_subtable
  get_or_create-Subtable s level t i k user w at pos lt free =
      elim (Bool-cases (is_present (s.table t i))) [
        | inl e ↦
            let b : (is_huge (s.table t i) && (k != 3)) ≡ false = rw e at free in
            rw e (record {
              level' = level;
              tables = w;
              at_child = w.child k t i at pos lt e b;
              present = e;
              branch = b;
              leads = refl;
              levels = λ p n. refl;
              others = λ p n d j. refl;
              same_root = refl;
              same_cpu = refl;
            })
        | inr e ↦ rw e (elim (Bool-cases ((source.alloc s.pages).0 == 0)) [
          | inl z ↦ rw (no_page s z) (record {
            root = w.root;
            child = w.child;
            spare = λ p o. w.spare p (source.keeps s.pages p o).0;
          })
          | inr z ↦
              let some_page : (source.alloc s.pages).0 ≢ 0 = ground arith in
              rw (one_page s z, z) (new-Descended s level t i k user w at pos some_page)
        ])
      ]
