-- ===== src/Slub/Start.antt =====
-- `initialize_slub` leaves eight empty caches.
use mio_os.Common.{
  ℕ, zero, suc, ◌+◌, ◌*◌, ◌%◌, ◌^◌, ◌≤◌, ◌<◌, ◌≡◌, refl, arith, ◌==◌, [], Bool-cases, inl, inr,
  subst, sym,
}
use mio_os.Pmm.State.{update}
use mio_os.Slub.State.{Slub}
use mio_os.Slub.Cache.{rounded_size}
use mio_os.Slub.Layout.{class}
use mio_os.Slub.Kmalloc.{new_cache, init_caches, initialize_slub}
use mio_os.Slub.Invariant.{View, IsCache}

abbrev pub no_slabs : View
no_slabs = record { partial = []; full = []; free = λ p. [] }

rounded-class : (i : ℕ) → i < 8 → rounded_size (class i) ≡ class i
unfolding rounded_size
rounded-class zero h = refl
rounded-class (suc zero) h = refl
rounded-class (suc (suc zero)) h = refl
rounded-class (suc (suc (suc zero))) h = refl
rounded-class (suc (suc (suc (suc zero)))) h = refl
rounded-class (suc (suc (suc (suc (suc zero))))) h = refl
rounded-class (suc (suc (suc (suc (suc (suc zero)))))) h = refl
rounded-class (suc (suc (suc (suc (suc (suc (suc zero))))))) h = refl
rounded-class (suc (suc (suc (suc (suc (suc (suc (suc i)))))))) h = absurd (omega arith)

double-class : (i : ℕ) → i < 8 → class i * 2 % 2 ^ 64 ≡ class (i + 1)
double-class zero h = refl
double-class (suc zero) h = refl
double-class (suc (suc zero)) h = refl
double-class (suc (suc (suc zero))) h = refl
double-class (suc (suc (suc (suc zero)))) h = refl
double-class (suc (suc (suc (suc (suc zero))))) h = refl
double-class (suc (suc (suc (suc (suc (suc zero)))))) h = refl
double-class (suc (suc (suc (suc (suc (suc (suc zero))))))) h = refl
double-class (suc (suc (suc (suc (suc (suc (suc (suc i)))))))) h = absurd (omega arith)

-- The address of cache `i`.
abbrev pub place : ℕ → ℕ → ℕ → ℕ
place pool bytes i = pool + i * bytes

place-lt : (pool bytes i j : ℕ) → 0 < bytes → j < i → place pool bytes j < place pool bytes i
place-lt pool bytes i j pos h = grind arith

place-add64 :
    (pool bytes i : ℕ)
    → i < 8
    → pool + 8 * bytes < 2 ^ 64
    → (pool + i * bytes % 2 ^ 64) % 2 ^ 64 ≡ pool + i * bytes
place-add64 pool bytes i h fits = let le : i * bytes ≤ 8 * bytes = grind arith in omega arith

module _ {A : Type 0} (pool bytes : ℕ) (some_bytes : 0 < bytes)
    (fits : pool + 8 * bytes < 2 ^ 64) where
  -- One round of the loop.
  abbrev round : Slub A → ℕ → Slub A
  round s i = record s {
    obj_size = update s.obj_size (place pool bytes i) (class i);
    partial_list = update s.partial_list (place pool bytes i) 0;
    bsp_caches = update s.bsp_caches i (place pool bytes i);
  }

  init-suc :
      (left : ℕ) (s : Slub A) (i : ℕ)
      → i < 8
      → init_caches (suc left) s i (class i) pool bytes
        ≡ init_caches left (round s i) (i + 1) (class (i + 1)) pool bytes
  unfolding init_caches new_cache
  init-suc left s i h =
      rw (place-add64 pool bytes i h fits, rounded-class i h, double-class i h) refl

  init-zero : (s : Slub A) (i size : ℕ) → init_caches 0 s i size pool bytes ≡ s
  unfolding init_caches
  init-zero s i size = refl

  -- The caches below `i` are settled.
  abbrev Settled : Slub A → ℕ → Type 0
  Settled s i =
      (j : ℕ)
      → j < i
      → (s.bsp_caches j ≡ place pool bytes j)
        × (s.obj_size (place pool bytes j) ≡ class j)
        × (s.partial_list (place pool bytes j) ≡ 0)

  round-Settled : (s : Slub A) (i : ℕ) → Settled s i → Settled (round s i) (i + 1)
  round-Settled s i before j lt = elim (Bool-cases (j == i)) [
    | inl e ↦ let e' : j ≡ i = ground arith in rw e' (ground arith, ground arith, ground arith)
    | inr ne ↦
        let old = before j (ground arith) in
        let apart = place-lt pool bytes i j some_bytes (ground arith) in
        (ground arith, ground arith, ground arith)
  ]

  init-Settled :
      (left : ℕ) (s : Slub A) (i : ℕ)
      → i + left ≡ 8
      → Settled s i
      → Settled (init_caches left s i (class i) pool bytes) 8
  init-Settled zero s i e before = λ j lt. rw (init-zero s i (class i)) (before j (omega arith))
  init-Settled (suc left) s i e before =
      subst (λ (t : Slub A). Settled t 8) (sym (init-suc left s i (omega arith)))
        (init-Settled left (round s i) (i + 1) (omega arith) (round-Settled s i before))

  -- If the memory of the caches does not reach the end of the address space, `initialize_slub` sets
  -- each of the eight entries to the address of its cache, and each cache is well-formed, of the
  -- size of its index and without slabs.
  pub initialize_slub-IsCache :
      (s : Slub A) (i : ℕ)
      → i < 8
      → ((initialize_slub s pool bytes).bsp_caches i ≡ place pool bytes i)
        × IsCache (initialize_slub s pool bytes) (place pool bytes i) i no_slabs
  unfolding initialize_slub
  initialize_slub-IsCache s i h =
      let (at, size, empty) = init-Settled 8 s 0 (omega arith) (λ j lt. absurd (omega arith)) i h in
      (
        at,
        record {
          small = h;
          size = size;
          chain = empty;
          distinct = tt;
          slab = λ p m. absurd (cc);
          some_free = λ p m. absurd (cc);
          none_free = λ p m. refl;
        },
      )
