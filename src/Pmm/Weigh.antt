-- ===== src/Pmm/Weigh.antt =====
-- Sums over the blocks of the free lists of the orders below `k`, and what a change of one list
-- does to them.
use mio_os.Common.{
  ℕ, zero, suc, ◌+◌, ◌≤◌, ◌<◌, ◌≡◌, refl, inl, inr, List, [], ◌∷◌, arith, ◌==◌, Bool-cases,
}
use mio_os.Common.Seq.{◌∈◌, erase, length}
use mio_os.Pmm.State.{update}
use mio_os.Pmm.Lists.{Lists}

abbrev pub sum : (ℕ → ℕ) → List ℕ → ℕ
sum w [] = 0
sum w (x ∷ xs) = w x + sum w xs

unfoldable pub weigh : (ℕ → ℕ → ℕ) → ℕ → Lists → ℕ
weigh w zero l = 0
weigh w (suc k) l = weigh w k l + sum (w k) (l k)

pub sum-erase : (w : ℕ → ℕ) (b : ℕ) (xs : List ℕ) → b ∈ xs → sum w xs ≡ w b + sum w (erase b xs)
sum-erase w b [] m = cc
sum-erase w b (x ∷ xs) m = ground (arith, sum-erase w b xs)

weigh-above :
    (w : ℕ → ℕ → ℕ) (k o : ℕ) (l : Lists) (xs : List ℕ)
    → k ≤ o
    → weigh w k (update l o xs) ≡ weigh w k l
unfolding weigh
weigh-above w zero o l xs h = refl
weigh-above w (suc k) o l xs h = elim (Bool-cases (k == o)) [
  | inl e ↦ absurd (ground arith)
  | inr e ↦ rw e (omega (arith, weigh-above w k o l xs (omega arith)))
]

-- A new list in place of that of order `o`.
pub weigh-update :
    (w : ℕ → ℕ → ℕ) (k o : ℕ) (l : Lists) (xs : List ℕ)
    → o < k
    → weigh w k (update l o xs) + sum (w o) (l o) ≡ weigh w k l + sum (w o) xs
unfolding weigh
weigh-update w zero o l xs h = absurd (omega arith)
weigh-update w (suc k) o l xs h = elim (Bool-cases (k == o)) [
  | inl e ↦
      let q : k ≡ o = ground arith in
      rw (e, q) (omega (arith, weigh-above w o o l xs (omega arith)))
  | inr e ↦ rw e (omega (arith, weigh-update w k o l xs (ground arith)))
]

mem-le-sum : (w : ℕ → ℕ) (a : ℕ) (xs : List ℕ) → a ∈ xs → w a ≤ sum w xs
mem-le-sum w a [] m = cc
mem-le-sum w a (x ∷ xs) m = ground (arith, mem-le-sum w a xs)

-- A member weighs no more than all.
pub mem-le-weigh : (w : ℕ → ℕ → ℕ) (k o a : ℕ) (l : Lists) → o < k → a ∈ l o → w o a ≤ weigh w k l
unfolding weigh
mem-le-weigh w zero o a l h m = absurd (omega arith)
mem-le-weigh w (suc k) o a l h m = elim (Bool-cases (k == o)) [
  | inl e ↦ let q : k ≡ o = ground arith in rw q (omega (arith, mem-le-sum (w o) a (l o) m))
  | inr e ↦ omega (arith, mem-le-weigh w k o a l (ground arith) m)
]

pub weigh-zero :
    (w : ℕ → ℕ → ℕ) (k : ℕ) (l : Lists) → ((i : ℕ) → i < k → sum (w i) (l i) ≡ 0) → weigh w k l ≡ 0
unfolding weigh
weigh-zero w zero l h = refl
weigh-zero w (suc k) l h =
    omega (arith, weigh-zero w k l (λ i p. h i (omega arith)), h k (omega arith))

sum-le-weigh : (w : ℕ → ℕ → ℕ) (k o : ℕ) (l : Lists) → o < k → sum (w o) (l o) ≤ weigh w k l
unfolding weigh
sum-le-weigh w zero o l h = absurd (omega arith)
sum-le-weigh w (suc k) o l h = elim (Bool-cases (k == o)) [
  | inl e ↦ let q : k ≡ o = ground arith in rw q (omega arith)
  | inr e ↦ omega (arith, sum-le-weigh w k o l (ground arith))
]

length-le-sum : (m : ℕ) (xs : List ℕ) → 0 < m → length xs ≤ sum (λ _. m) xs
length-le-sum m [] h = omega arith
length-le-sum m (x ∷ xs) h = omega (arith, length-le-sum m xs h)

-- No list is longer than its blocks are large.
pub length-le-weigh :
    (w : ℕ → ℕ) (k o : ℕ) (l : Lists) → o < k → 0 < w o → length (l o) ≤ weigh (λ i _. w i) k l
length-le-weigh w k o l h pos =
    omega (arith, sum-le-weigh (λ i _. w i) k o l h, length-le-sum (w o) (l o) pos)
