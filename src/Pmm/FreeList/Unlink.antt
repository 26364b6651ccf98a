-- ===== src/Pmm/FreeList/Unlink.antt =====
-- What `unlink_nodes` does to the sequence of blocks that a list holds.
use mio_os.Common.{
  ℕ, ◌≡◌, refl, ◌≢◌, inl, inr, List, [], ◌∷◌, arith, ◌==◌, ◌!=◌, if◌then◌else◌, Bool-cases, ◌&&◌,
  sym,
}
use mio_os.Common.Seq.{◌∈◌, ◌∉◌, IsDistinct, erase}
use mio_os.Pmm.State.{BuddyFreeNode}
use mio_os.Pmm.FreeList.{unlink_nodes}
use mio_os.Pmm.FreeList.Chain.{Chain, Chain-ne-zero, Chain-relink, next-mem, prev-mem}

-- Where a list goes on once `b` is out of it.
abbrev pub start : (ℕ → BuddyFreeNode) → ℕ → ℕ → ℕ
start n b p = if p == b then (n b).next else p

-- `unlink_nodes` writes to the two neighbours only.
unlink_elsewhere :
    (n : ℕ → BuddyFreeNode) (b a : ℕ)
    → a ≢ (n b).prev
    → a ≢ (n b).next
    → b ≢ (n b).prev
    → unlink_nodes n b a ≡ n a
unfolding unlink_nodes
unlink_elsewhere n b a p q r = ground arith

mem-ne : (a b : ℕ) (xs : List ℕ) → a ∉ xs → b ∈ xs → a ≢ b
mem-ne a b xs p q e = let p' : b ∉ xs = rw e at p in cc

-- The block at the front.
unlink_first :
    (n : ℕ → BuddyFreeNode) (prev b : ℕ) (xs : List ℕ)
    → prev ∉ b ∷ xs
    → IsDistinct (b ∷ xs)
    → Chain n prev b (b ∷ xs)
    → Chain (unlink_nodes n b) prev (n b).next xs
unfolding unlink_nodes
unlink_first n prev b [] out d c = c.3
unlink_first n prev b (x ∷ xs) out d c =
    Chain-relink n (unlink_nodes n b) b prev (n b).next (x ∷ xs)
      (λ a m ne.
        unlink_elsewhere n b a (rw c.2 (λ e. mem-ne prev a (x ∷ xs) (ground arith) m (cc))) ne
          (ground arith))
      (λ ne. ground arith) (λ ne. ground arith) d.1 c.3

-- At a node other than `b`: what the two stores leave there.
unlink_other :
    (n : ℕ → BuddyFreeNode) (x b : ℕ)
    → x ≢ b
    → (n b).prev ≢ b
    → ((unlink_nodes n b x).next
        ≡ (if ((n b).prev != 0) && ((n b).prev == x) then (n b).next else (n x).next))
      × ((unlink_nodes n b x).prev
          ≡ (if ((n b).next != 0) && ((n b).next == x) then (n b).prev else (n x).prev))
unfolding unlink_nodes
unlink_other n x b ne ne' = elim (Bool-cases ((n b).prev != 0)) [
  | inl e ↦ rw e (ground arith, ground arith)
  | inr e ↦ rw e (ground arith, ground arith)
]

-- The predecessor of the head.
head-prev :
    (n : ℕ → BuddyFreeNode) (prev p : ℕ) (xs : List ℕ)
    → p ≢ 0
    → Chain n prev p xs
    → (n p).prev ≡ prev
head-prev n prev p [] ne c = absurd (ne c)
head-prev n prev p (x ∷ xs) ne c = ground arith

-- No block is its own predecessor.
prev-ne :
    (n : ℕ → BuddyFreeNode) (prev p b : ℕ) (xs : List ℕ)
    → b ∈ xs
    → prev ≢ b
    → IsDistinct xs
    → Chain n prev p xs
    → (n b).prev ≢ b
prev-ne n prev p b [] m ne d c = cc
prev-ne n prev p b (x ∷ xs) m ne d c = elim (Bool-cases (x == b)) [
  | inl e ↦ ground arith
  | inr e ↦ prev-ne n x (n x).next b xs (ground arith) (ground arith) d.1 c.3
]

unlink_later :
    (n : ℕ → BuddyFreeNode) (prev x b : ℕ) (xs : List ℕ)
    → x ≢ b
    → b ∈ xs
    → IsDistinct (x ∷ xs)
    → Chain n prev x (x ∷ xs)
    → ((unlink_nodes n b x).prev ≡ prev) × ((unlink_nodes n b x).next ≡ start n b (n x).next)
unlink_later n prev x b xs ne m d c = ground (
  arith,
  unlink_other n x b ne (prev-ne n x (n x).next b xs m ne d.1 c.3),
  next-mem n x (n x).next b xs c.3 m,
  prev-mem n x (n x).next b xs c.3 m,
  head-prev n x (n x).next xs,
  Chain-ne-zero n x (n x).next b xs c.3 m,
)

pub unlink-Chain :
    (n : ℕ → BuddyFreeNode) (prev p b : ℕ) (xs : List ℕ)
    → b ∈ xs
    → prev ∉ xs
    → IsDistinct xs
    → Chain n prev p xs
    → Chain (unlink_nodes n b) prev (start n b p) (erase b xs)
unlink-Chain n prev p b [] m out d c = cc
unlink-Chain n prev p b (x ∷ xs) m out d c = elim (Bool-cases (x == b)) [
  | inl e ↦
      let e' : x ≡ b = ground arith in
      let p' : p ≡ b = ground arith in
      let stop : start n b p ≡ (n b).next = ground arith in
      rw (e, stop)
        (unlink_first n prev b xs (rw e' at out) (rw e' at d)
          (refl, rw e' at c.1, rw e' at c.2, rw e' at c.3))
  | inr e ↦
      let m' : b ∈ xs = ground arith in
      let here = unlink_later n prev x b xs (ground arith) m' d (refl, c.1, c.2, c.3) in
      let rest = unlink-Chain n x (n x).next b xs m' d.0 d.1 c.3 in
      rw e (ground arith, c.1, here.0, rw here.1 rest)
]

pub unlink-head :
    (n : ℕ → BuddyFreeNode) (p b : ℕ) (xs : List ℕ)
    → b ∈ xs
    → Chain n 0 p xs
    → (if (n b).prev != 0 then p else (n b).next) ≡ start n b p
unlink-head n p b xs m c = ground (
  arith,
  prev-mem n 0 p b xs c m,
  head-prev n 0 p xs,
  Chain-ne-zero n 0 p (n b).prev xs c,
  Chain-ne-zero n 0 p b xs c m,
)

pub unlink-frame :
    (n : ℕ → BuddyFreeNode) (p b a : ℕ) (xs : List ℕ)
    → b ∈ xs
    → a ∉ xs
    → a ≢ 0
    → IsDistinct xs
    → Chain n 0 p xs
    → unlink_nodes n b a ≡ n a
unlink-frame n p b a xs m out ne d c =
    unlink_elsewhere n b a (ground (arith, prev-mem n 0 p b xs c m))
      (ground (arith, next-mem n 0 p b xs c m))
      (λ e. prev-ne n 0 p b xs m (λ z. Chain-ne-zero n 0 p b xs c m (sym z)) d c (sym e))
