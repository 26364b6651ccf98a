-- ===== src/Pmm/FreeList/Chain.antt =====
-- The sequence of blocks that a list holds, and what `link_nodes` and `unlink_nodes` do to it.
use mio_os.Common.{ℕ, ◌≡◌, refl, ◌≢◌, ◌⊎◌, inl, inr, List, [], ◌∷◌, arith, ◌==◌, Bool-cases}
use mio_os.Common.Seq.{◌∈◌, ◌∉◌, IsDistinct}
use mio_os.Pmm.State.{BuddyFreeNode}
use mio_os.Pmm.FreeList.{link_nodes}

-- From `p`, whose predecessor is `prev`, the `next` pointers lead through `xs` to `nullptr`.
abbrev pub Chain : (ℕ → BuddyFreeNode) → ℕ → ℕ → List ℕ → Type 0
Chain node prev p [] = p ≡ 0
Chain node prev p (a ∷ xs) =
    (p ≡ a) × (a ≢ 0) × ((node a).prev ≡ prev) × Chain node a (node a).next xs

pub Chain-ne-zero :
    (n : ℕ → BuddyFreeNode) (prev p a : ℕ) (xs : List ℕ) → Chain n prev p xs → a ∈ xs → a ≢ 0
Chain-ne-zero n prev p a [] c m = cc
Chain-ne-zero n prev p a (x ∷ xs) c m = elim (Bool-cases (x == a)) [
  | inl e ↦ ground arith
  | inr e ↦ Chain-ne-zero n x (n x).next a xs c.3 (ground arith)
]

-- A chain survives writes elsewhere.
pub Chain-frame :
    (n n' : ℕ → BuddyFreeNode) (prev p : ℕ) (xs : List ℕ)
    → ((a : ℕ) → a ∈ xs → n' a ≡ n a)
    → Chain n prev p xs
    → Chain n' prev p xs
Chain-frame n n' prev p [] same c = c
Chain-frame n n' prev p (x ∷ xs) same c =
    let here : n' x ≡ n x = same x (ground arith) in
    let rest : Chain n' x (n x).next xs =
      Chain-frame n n' x (n x).next xs (λ a m. same a (ground arith)) c.3 in
    (c.0, c.1, rw here c.2, rw here rest)

-- The neighbours of a member are members, or the ends.
pub next-mem :
    (n : ℕ → BuddyFreeNode) (prev p b : ℕ) (xs : List ℕ)
    → Chain n prev p xs
    → b ∈ xs
    → ((n b).next ≡ 0) ⊎ ((n b).next ∈ xs)
next-mem n prev p b [] c m = cc
next-mem n prev p b (x ∷ []) c m = ground arith
next-mem n prev p b (x ∷ y ∷ xs) c m = elim (Bool-cases (x == b)) [
  | inl e ↦ ground arith
  | inr e ↦ ground (arith, next-mem n x (n x).next b (y ∷ xs) c.3)
]

pub prev-mem :
    (n : ℕ → BuddyFreeNode) (prev p b : ℕ) (xs : List ℕ)
    → Chain n prev p xs
    → b ∈ xs
    → ((p ≡ b) × ((n b).prev ≡ prev)) ⊎ ((n b).prev ∈ xs)
prev-mem n prev p b [] c m = cc
prev-mem n prev p b (x ∷ xs) c m = elim (Bool-cases (x == b)) [
  | inl e ↦ ground arith
  | inr e ↦ ground (arith, prev-mem n x (n x).next b xs c.3)
]

-- The first node gets another predecessor.
pub Chain-relink :
    (n n' : ℕ → BuddyFreeNode) (prev prev' p : ℕ) (xs : List ℕ)
    → ((a : ℕ) → a ∈ xs → a ≢ p → n' a ≡ n a)
    → (p ≢ 0 → (n' p).next ≡ (n p).next)
    → (p ≢ 0 → (n' p).prev ≡ prev')
    → IsDistinct xs
    → Chain n prev p xs
    → Chain n' prev' p xs
Chain-relink n n' prev prev' p [] same keep new d c = c
Chain-relink n n' prev prev' p (x ∷ xs) same keep new d c =
    let e : p ≡ x = c.0 in
    let e1 : (n' x).next ≡ (n x).next = rw (← e) (keep (rw e c.1)) in
    let e2 : (n' x).prev ≡ prev' = rw (← e) (new (rw e c.1)) in
    let rest : Chain n' x (n x).next xs =
      Chain-frame n n' x (n x).next xs (λ a m. same a (ground arith) (ground arith)) c.3 in
    (c.0, c.1, e2, rw e1 rest)

pub link-Chain :
    (n : ℕ → BuddyFreeNode) (head block : ℕ) (xs : List ℕ)
    → block ≢ 0
    → block ∉ xs
    → IsDistinct xs
    → Chain n 0 head xs
    → Chain (link_nodes n head block) 0 block (block ∷ xs)
unfolding link_nodes
link-Chain n head block [] ne out d c = ground arith
link-Chain n head block (x ∷ xs) ne out d c =
    let h : head ≢ 0 = rw c.0 c.1 in
    (
      refl,
      ne,
      ground arith,
      let e : (link_nodes n head block block).next ≡ head = ground arith in
          rw e (
            Chain-relink n (link_nodes n head block) 0 block head (x ∷ xs)
              (λ a m a_ne. ground arith) (λ _. ground arith) (λ _. ground arith) d c),
    )

-- `link_nodes` writes to `block` and to the head only.
pub link-frame :
    (n : ℕ → BuddyFreeNode) (head block a : ℕ) (xs : List ℕ)
    → a ≢ block
    → a ∉ xs
    → Chain n 0 head xs
    → link_nodes n head block a ≡ n a
unfolding link_nodes
link-frame n head block a [] ne out c = ground arith
link-frame n head block a (x ∷ xs) ne out c = ground arith
