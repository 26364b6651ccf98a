-- ===== src/Slub/Sizes.antt =====
-- Which cache `get_kmalloc_cache` chooses.
use native.Mathlib.Nat.{pow-suc, pow-le-pow_right}
use mio_os.Common.{
  ℕ, zero, suc, ◌-◌, ◌/◌, ◌^◌, ◌≤◌, ◌<◌, ◌≡◌, ◌≢◌, ◌⊎◌, refl, arith, ltb, leb, ◌==◌, true, false,
  none, some, Bool-cases, inl, inr, ◌∙◌, ap, sym,
}
use mio_os.Slub.State.{Slub}
use mio_os.Slub.Layout.{class}
use mio_os.Slub.Kmalloc.{bit_length, cache_index, current_caches, get_kmalloc_cache}

bit_length-above : (f n : ℕ) → n < 2 ^ f → n < 2 ^ bit_length f n
unfolding bit_length
bit_length-above zero n h = h
bit_length-above (suc f) n h = elim (Bool-cases (n == 0)) [
  | inl e ↦ rw e (ground arith)
  | inr e ↦
      let ih = bit_length-above f (n / 2) (omega (arith, pow-suc 2 f)) in
      rw e (omega (arith, ih, pow-suc 2 (bit_length f (n / 2))))
]

bit_length-zero : (f : ℕ) → bit_length f 0 ≡ 0
unfolding bit_length
bit_length-zero zero = refl
bit_length-zero (suc f) = refl

doubled : (b n : ℕ) → 1 ≤ b → 2 ^ (b - 1) ≤ n / 2 → 2 ^ (suc b - 1) ≤ n
doubled zero n h below = absurd (omega arith)
doubled (suc b) n h below =
    let e : suc (suc b) - 1 ≡ suc b = omega arith in
    let e' : suc b - 1 ≡ b = omega arith in
    rw e (omega (arith, pow-suc 2 b, let l : 2 ^ b ≤ n / 2 = rw e' at below in l))

bit_length-below :
    (f n : ℕ) → n ≢ 0 → n < 2 ^ f → (1 ≤ bit_length f n) × (2 ^ (bit_length f n - 1) ≤ n)
unfolding bit_length
bit_length-below zero n ne h = absurd (omega arith)
bit_length-below (suc f) n ne h =
    let e : (n == 0) ≡ false = ground arith in
    rw e (
      omega arith,
      elim (Bool-cases (n / 2 == 0)) [
        | inl z ↦
            let none_left : n / 2 ≡ 0 = ground arith in
            let b : bit_length f (n / 2) ≡ 0 =
              ap (λ (t : ℕ). bit_length f t) none_left ∙ bit_length-zero f in
            rw b (omega arith)
        | inr nz ↦
            let ih = bit_length-below f (n / 2) (ground arith) (omega (arith, pow-suc 2 f)) in
            doubled (bit_length f (n / 2)) n ih.0 ih.1
      ],
    )

sixteenfold : (j : ℕ) → 2 ^ suc (suc (suc (suc j))) ≡ class j
sixteenfold j =
    omega (
      arith,
      pow-suc 2 j,
      pow-suc 2 (suc j),
      pow-suc 2 (suc (suc j)),
      pow-suc 2 (suc (suc (suc j))),
    )

-- Between powers of two the exponents are ordered.
pow-lt-exponent : (a b : ℕ) → 2 ^ a < 2 ^ b → a < b
pow-lt-exponent a b h = elim (Bool-cases (ltb a b)) [
  | inl e ↦ ground arith
  | inr e ↦
      let le : b ≤ a = ground arith in
      let p : 2 ^ b ≤ 2 ^ a = pow-le-pow_right {n = 2} (omega arith) le in absurd (omega arith)
]

-- For a size above 16: the bits of `size - 1`.
module _ (size : ℕ) (more : 16 < size) (small : size < 2 ^ 64) where
  abbrev bits : ℕ
  bits = bit_length 64 (size - 1)

  above : size - 1 < 2 ^ bits
  above = bit_length-above 64 (size - 1) (omega arith)

  below : (1 ≤ bits) × (2 ^ (bits - 1) ≤ size - 1)
  below = bit_length-below 64 (size - 1) (omega arith) (omega arith)

  five : 5 ≤ bits
  five = omega (arith, pow-lt-exponent 4 bits (omega (arith, above)))

  fits : size ≤ class (bits - 4)
  fits =
      let e : suc (suc (suc (suc (bits - 4)))) ≡ bits = omega (arith, five) in
      let top : 2 ^ bits ≡ class (bits - 4) =
        ap (λ (t : ℕ). 2 ^ t) (sym e) ∙ sixteenfold (bits - 4) in
      omega (arith, above, top)

  least : (j : ℕ) → size ≤ class j → bits - 4 ≤ j
  least j h = omega (
    arith,
    below,
    pow-lt-exponent (bits - 1) (suc (suc (suc (suc j)))) (omega (arith, below, sixteenfold j)),
  )

  -- The largest cache has 2048 bytes.
  in_range : size ≤ 2048 → bits - 4 < 8
  in_range h = omega (arith, least 7 (omega arith))

  out_of_range : 2048 < size → 8 ≤ bits - 4
  out_of_range h = elim (Bool-cases (ltb (bits - 4) 8)) [
    | inr e ↦ ground arith
    | inl e ↦
        let lt : bits - 4 < 8 = ground arith in
        let le : bits - 4 ≤ 7 = omega arith in
        let p : 2 ^ (bits - 4) ≤ 2 ^ 7 = pow-le-pow_right {n = 2} (omega arith) le in
        absurd (omega (arith, fits, p))
  ]

-- What the choice of a cache for `size` among `caches` means.
abbrev pub Chosen : (ℕ → ℕ) → ℕ → ℕ → Type 0
Chosen caches size cache =
    ((size ≤ 2048)
      × ((i : ℕ) × (cache ≡ caches i)
          × (i < 8)
          × (size ≤ class i)
          × ((j : ℕ) → size ≤ class j → i ≤ j)))
    ⊎ ((2048 < size) × (cache ≡ 0))

index-cases :
    (size : ℕ)
    → size < 2 ^ 64
    → ((i : ℕ) × (cache_index size ≡ some i)
        × (i < 8)
        × (size ≤ 2048)
        × (size ≤ class i)
        × ((j : ℕ) → size ≤ class j → i ≤ j))
      ⊎ ((2048 < size) × (cache_index size ≡ none))
unfolding cache_index
index-cases size small = elim (Bool-cases (leb size 16)) [
  | inl e ↦ inl (0, rw e refl, omega arith, ground arith, ground arith, λ j h. omega arith)
  | inr e ↦
      let more : 16 < size = ground arith in
      let b5 = five size more small in
      let t1 : leb 4 (bits size more small) ≡ true = ground arith in
      elim (Bool-cases (ltb (bits size more small - 4) 8)) [
        | inl r ↦ inl (
          bits size more small - 4,
          rw (e, t1, r) refl,
          ground arith,
          (elim (Bool-cases (leb size 2048)) [
            | inl le ↦ ground arith
            | inr gt ↦ absurd (ground (arith, out_of_range size more small))
          ]),
          fits size more small,
          least size more small,
        )
        | inr r ↦ inr (
          (elim (Bool-cases (leb size 2048)) [
            | inl le ↦ absurd (ground (arith, in_range size more small))
            | inr gt ↦ ground arith
          ]),
          rw (e, t1, r) refl,
        )
      ]
]

-- For a CPU that has its caches and a size below 2 ^ 64, `get_kmalloc_cache` gives the smallest
-- of the eight caches that is large enough when the size is at most 2048, and `nullptr` exactly
-- when it is larger.
pub get_kmalloc_cache-Chosen :
    {A : Type 0} (s : Slub A) (core_id size : ℕ) (caches : ℕ → ℕ)
    → size < 2 ^ 64
    → current_caches s core_id ≡ some caches
    → Chosen caches size (get_kmalloc_cache s core_id size)
unfolding get_kmalloc_cache
get_kmalloc_cache-Chosen s core_id size caches small e = elim (index-cases size small) [
  | inl (i, at, lt, le, holds, best) ↦
      rw (e, at, get_kmalloc_cache) (inl (le, (i, refl, lt, holds, best)))
  | inr (gt, out) ↦ rw (e, out, get_kmalloc_cache) (inr (gt, refl))
]
