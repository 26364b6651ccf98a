-- ===== src/Common/Seq.antt =====
-- Sequences of numbers: membership, distinctness, removal of the first occurrence.
use mathlib.Core.Path.{◌≡◌, refl}
use mathlib.Core.Bool.{Bool, true, false, ◌||◌}
use mathlib.Core.List.{List, [], ◌∷◌}
use Prim.Native.Nat.{ℕ, suc, ◌≤◌}
use native.Mathlib.Omega.{arith}
use mio_os.Common.Tests.{◌==◌, if◌then◌else◌, Bool-cases}
use mathlib.Core.Logic.{◌≢◌, inl, inr}

abbrev pub has : ℕ → List ℕ → Bool
has a [] = false
has a (x ∷ xs) = (x == a) || has a xs

infix 40 ◌∈◌ ◌∉◌
abbrev pub ◌∈◌ : ℕ → List ℕ → Type 0
a ∈ xs = has a xs ≡ true

abbrev pub ◌∉◌ : ℕ → List ℕ → Type 0
a ∉ xs = has a xs ≡ false

abbrev pub IsDistinct : List ℕ → Type 0
IsDistinct [] = Unit {0}
IsDistinct (x ∷ xs) = (x ∉ xs) × IsDistinct xs

abbrev pub length {ℓ} : {A : Type ℓ} → List A → ℕ
length [] = 0
length (x ∷ xs) = suc (length xs)

abbrev pub erase : ℕ → List ℕ → List ℕ
erase b [] = []
erase b (x ∷ xs) = if x == b then xs else x ∷ erase b xs

pub not-mem-erase : (a b : ℕ) (xs : List ℕ) → a ∉ xs → a ∉ erase b xs
not-mem-erase a b [] out = refl
not-mem-erase a b (x ∷ xs) out = ground (arith, not-mem-erase a b xs)

abbrev pub without : ℕ → List ℕ → List ℕ
without b [] = []
without b (x ∷ xs) = if x == b then without b xs else x ∷ without b xs

pub has-without :
    (a b : ℕ) (xs : List ℕ) → has a (without b xs) ≡ (if a == b then false else has a xs)
has-without a b [] = ground arith
has-without a b (x ∷ xs) = ground (arith, has-without a b xs)

pub mem-erase_ne : (a b : ℕ) (xs : List ℕ) → a ≢ b → a ∈ xs → a ∈ erase b xs
mem-erase_ne a b [] ne m = m
mem-erase_ne a b (x ∷ xs) ne m = ground (arith, mem-erase_ne a b xs)

length-erase : (b : ℕ) (xs : List ℕ) → b ∈ xs → suc (length (erase b xs)) ≡ length xs
length-erase b [] m = cc
length-erase b (x ∷ xs) m = ground (arith, length-erase b xs)

pub not-mem-erase_self : (b : ℕ) (xs : List ℕ) → IsDistinct xs → b ∉ erase b xs
not-mem-erase_self b [] d = refl
not-mem-erase_self b (x ∷ xs) d = ground (arith, not-mem-erase_self b xs)

pub IsDistinct-erase : (b : ℕ) (xs : List ℕ) → IsDistinct xs → IsDistinct (erase b xs)
IsDistinct-erase b [] d = tt
IsDistinct-erase b (x ∷ xs) d = elim (Bool-cases (x == b)) [
  | inl e ↦ rw e d.1
  | inr e ↦ rw e (not-mem-erase x b xs d.0, IsDistinct-erase b xs d.1)
]

-- No more places than elements.
pub length-le_of_distinct :
    (xs ys : List ℕ) → IsDistinct xs → ((a : ℕ) → a ∈ xs → a ∈ ys) → length xs ≤ length ys
length-le_of_distinct [] ys d inside = omega arith
length-le_of_distinct (x ∷ xs) ys d inside =
    let here : x ∈ ys = inside x (ground arith) in
    let rest =
      length-le_of_distinct xs (erase x ys) d.1
        (λ a m. mem-erase_ne a x ys (λ e. absurd_mem a x xs e m d.0) (inside a (ground arith))) in
    omega (arith, rest, length-erase x ys here)
  where
    absurd_mem : (a x : ℕ) (xs : List ℕ) → a ≡ x → a ∈ xs → x ∉ xs → ⊥
    absurd_mem a x xs e m out = let m' : x ∈ xs = rw e at m in cc

pub has-erase_ne : (a b : ℕ) (xs : List ℕ) → a ≢ b → has a (erase b xs) ≡ has a xs
has-erase_ne a b [] ne = refl
has-erase_ne a b (x ∷ xs) ne = ground (arith, has-erase_ne a b xs)
