-- ===== src/Slub/Layout.antt =====
-- Where `format_new_slab` puts the objects of the eight sizes of `kmalloc`.
use native.Mathlib.Nat.{mod-eq_of_lt}
use mio_os.Common.{
  ℕ, zero, suc, ◌+◌, ◌-◌, ◌*◌, ◌/◌, ◌%◌, ◌^◌, ◌≤◌, ◌<◌, ◌≡◌, ◌≢◌, refl, arith, ◌==◌, if◌then◌else◌,
  List, [], ◌∷◌, bit_and, ap, ◌∙◌, add64, subst, sym, Bool-cases, inl, inr,
}
use mio_os.Common.Seq.{has, ◌∈◌, ◌∉◌, IsDistinct, length}
use mio_os.Common.Bits.{bit_and_range}
use mio_os.Pmm.State.{update}
use mio_os.Mm.{align_up}
use mio_os.Slub.Cache.{chain_objects, first_object, capacity}

-- The sizes are `class i` for `i < 8`: the objects start at `offset i` in the page, and it has room
-- for `room i` of them.
abbrev pub class : ℕ → ℕ
class i = 16 * 2 ^ i

abbrev pub offset : ℕ → ℕ
offset i = if i == 0 then 48 else 64

abbrev pub room : ℕ → ℕ
room i = (4096 - offset i) / class i

cut :
    (k q r v : ℕ)
    → v ≡ q * 2 ^ k + r
    → r < 2 ^ k
    → q < 2 ^ (64 - k)
    → bit_and v ((2 ^ (64 - k) - 1) * 2 ^ k) ≡ q * 2 ^ k
cut k q r v e low high =
    ap (λ (t : ℕ). bit_and t ((2 ^ (64 - k) - 1) * 2 ^ k)) e
    ∙ bit_and_range k (64 - k) q r low
    ∙ ap (λ (t : ℕ). t * 2 ^ k) (mod-eq_of_lt high)

-- The first object, by the alignment.
module _ (page : ℕ) (aligned : page % 4096 ≡ 0) (small : page + 4096 < 2 ^ 64) where
  at_16 : align_up (add64 page 48) 16 ≡ page + 48
  unfolding align_up
  at_16 =
      let e : ((page + 48) % 2 ^ 64 + 15) % 2 ^ 64 ≡ page + 63 = omega arith in
      rw e (
        cut 4 (page / 16 + 3) 15 (page + 63) (omega arith) (omega arith) (omega arith)
        ∙ omega arith)

  at_32 : align_up (add64 page 48) 32 ≡ page + 64
  unfolding align_up
  at_32 =
      let e : ((page + 48) % 2 ^ 64 + 31) % 2 ^ 64 ≡ page + 79 = omega arith in
      rw e (
        cut 5 (page / 32 + 2) 15 (page + 79) (omega arith) (omega arith) (omega arith)
        ∙ omega arith)

  at_64 : align_up (add64 page 48) 64 ≡ page + 64
  unfolding align_up
  at_64 =
      let e : ((page + 48) % 2 ^ 64 + 63) % 2 ^ 64 ≡ page + 111 = omega arith in
      rw e (
        cut 6 (page / 64 + 1) 47 (page + 111) (omega arith) (omega arith) (omega arith)
        ∙ omega arith)

  pub first-eq : (i : ℕ) → i < 8 → first_object (class i) page ≡ page + offset i
  unfolding first_object
  first-eq zero h = at_16
  first-eq (suc zero) h = at_32
  first-eq (suc (suc zero)) h = at_64
  first-eq (suc (suc (suc zero))) h = at_64
  first-eq (suc (suc (suc (suc zero)))) h = at_64
  first-eq (suc (suc (suc (suc (suc zero))))) h = at_64
  first-eq (suc (suc (suc (suc (suc (suc zero)))))) h = at_64
  first-eq (suc (suc (suc (suc (suc (suc (suc zero))))))) h = at_64
  first-eq (suc (suc (suc (suc (suc (suc (suc (suc i)))))))) h = absurd (omega arith)

  pub capacity-eq : (i : ℕ) → i < 8 → capacity (class i) page ≡ room i
  unfolding capacity
  capacity-eq i h = rw (first-eq i h) (by_class i h)
    where
      by_class :
          (i : ℕ)
          → i < 8
          → (4096 + 2 ^ 64 - (page + offset i + 2 ^ 64 - page) % 2 ^ 64) % 2 ^ 64 / class i % 2 ^ 32
            ≡ room i
      by_class zero h = omega arith
      by_class (suc zero) h = omega arith
      by_class (suc (suc zero)) h = omega arith
      by_class (suc (suc (suc zero))) h = omega arith
      by_class (suc (suc (suc (suc zero)))) h = omega arith
      by_class (suc (suc (suc (suc (suc zero))))) h = omega arith
      by_class (suc (suc (suc (suc (suc (suc zero)))))) h = omega arith
      by_class (suc (suc (suc (suc (suc (suc (suc zero))))))) h = omega arith
      by_class (suc (suc (suc (suc (suc (suc (suc (suc i)))))))) h = absurd (omega arith)

-- The objects from `current` on, one more than `left`.
abbrev pub objects : ℕ → ℕ → ℕ → List ℕ
objects zero current size = current ∷ []
objects (suc left) current size = current ∷ objects left (current + size) size

-- From `p` the words at the starts of the objects lead through `xs` to `nullptr`.
abbrev pub Links : (ℕ → ℕ) → ℕ → List ℕ → Type 0
Links fp p [] = p ≡ 0
Links fp p (a ∷ xs) = (p ≡ a) × (a ≢ 0) × Links fp (fp a) xs

pub Links-frame :
    (fp fp' : ℕ → ℕ) (p : ℕ) (xs : List ℕ)
    → ((a : ℕ) → a ∈ xs → fp' a ≡ fp a)
    → Links fp p xs
    → Links fp' p xs
Links-frame fp fp' p [] same c = c
Links-frame fp fp' p (x ∷ xs) same c =
    let here : fp' x ≡ fp x = same x (ground arith) in
    let rest : Links fp' (fp x) xs =
      Links-frame fp fp' (fp x) xs (λ a m. same a (ground arith)) c.2 in
    (c.0, c.1, rw here rest)

chain_objects-below :
    (left : ℕ) (fp : ℕ → ℕ) (current size a : ℕ)
    → a < current
    → current + left * size < 2 ^ 64
    → chain_objects left fp current size a ≡ fp a
unfolding chain_objects
chain_objects-below zero fp current size a h small = ground arith
chain_objects-below (suc left) fp current size a h small =
    let e : (current + size) % 2 ^ 64 ≡ current + size = grind arith in
    rw e (
      chain_objects-below left (update fp current (current + size)) (current + size) size a
        (omega arith) (grind arith)
      ∙ ground arith)

chain_objects-suc :
    (left : ℕ) (fp : ℕ → ℕ) (current size : ℕ)
    → (current + size) % 2 ^ 64 ≡ current + size
    → chain_objects (suc left) fp current size
      ≡ chain_objects left (update fp current (current + size)) (current + size) size
unfolding chain_objects
chain_objects-suc left fp current size e = rw e refl

chain_objects-zero :
    (fp : ℕ → ℕ) (current size : ℕ) → chain_objects 0 fp current size ≡ update fp current 0
unfolding chain_objects
chain_objects-zero fp current size = refl

pub chain_objects-Links :
    (left : ℕ) (fp : ℕ → ℕ) (current size : ℕ)
    → 0 < current
    → 0 < size
    → current + left * size < 2 ^ 64
    → Links (chain_objects left fp current size) current (objects left current size)
chain_objects-Links zero fp current size pos some_size small =
    rw (chain_objects-zero fp current size) (ground arith)
chain_objects-Links (suc left) fp current size pos some_size small =
    let e : (current + size) % 2 ^ 64 ≡ current + size = grind arith in
    let fp' = update fp current (current + size) in
    let here : fp' current ≡ current + size = ground arith in
    let below =
      chain_objects-below left fp' (current + size) size current (omega arith) (grind arith)
      ∙ here in
    let rest =
      chain_objects-Links left fp' (current + size) size (omega arith) some_size (grind arith) in
    subst (λ (f : ℕ → ℕ). Links f current (objects (suc left) current size))
      (sym (chain_objects-suc left fp current size e)) (refl, omega arith, rw below rest)

objects-above : (left current size a : ℕ) → 0 < size → a < current → a ∉ objects left current size
objects-above zero current size a pos h = ground arith
objects-above (suc left) current size a pos h =
    ground (arith, objects-above left (current + size) size a pos)

pub objects-IsDistinct : (left current size : ℕ) → 0 < size → IsDistinct (objects left current size)
objects-IsDistinct zero current size pos = (refl, tt)
objects-IsDistinct (suc left) current size pos = (
  objects-above left (current + size) size current pos (omega arith),
  objects-IsDistinct left (current + size) size pos,
)

pub length-objects : (left current size : ℕ) → length (objects left current size) ≡ suc left
length-objects zero current size = refl
length-objects (suc left) current size = ap suc (length-objects left (current + size) size)

objects-range :
    (left current size a : ℕ)
    → a ∈ objects left current size
    → (current ≤ a) × (a ≤ current + left * size)
objects-range zero current size a m = (ground arith, ground arith)
objects-range (suc left) current size a m = elim (Bool-cases (current == a)) [
  | inl e ↦ (ground arith, grind arith)
  | inr e ↦
      let r = objects-range left (current + size) size a (ground arith) in
      (omega (arith, r.0), grind (arith, r.1))
]

-- The objects of a slab of class `i` at `page`.
abbrev pub slab_objects : ℕ → ℕ → List ℕ
slab_objects i page = objects (room i - 1) (page + offset i) (class i)

pub room_fits :
    (i : ℕ)
    → i < 8
    → (0 < room i)
      × (room i < 2 ^ 32)
      × (offset i + (room i - 1) * class i + class i ≤ 4096)
      × (15 < class i)
room_fits zero h = omega arith
room_fits (suc zero) h = omega arith
room_fits (suc (suc zero)) h = omega arith
room_fits (suc (suc (suc zero))) h = omega arith
room_fits (suc (suc (suc (suc zero)))) h = omega arith
room_fits (suc (suc (suc (suc (suc zero))))) h = omega arith
room_fits (suc (suc (suc (suc (suc (suc zero)))))) h = omega arith
room_fits (suc (suc (suc (suc (suc (suc (suc zero))))))) h = omega arith
room_fits (suc (suc (suc (suc (suc (suc (suc (suc i)))))))) h = absurd (omega arith)

-- They lie within the page, behind the header.
pub slab_objects-range :
    (i page a : ℕ) → i < 8 → a ∈ slab_objects i page → (page + 48 ≤ a) × (a + class i ≤ page + 4096)
slab_objects-range i page a h m =
    let r = objects-range (room i - 1) (page + offset i) (class i) a m in
    let f = room_fits i h in let least : 48 ≤ offset i = ground arith in (omega arith, omega arith)

-- Only the objects are written.
pub chain_objects-frame :
    (left : ℕ) (fp : ℕ → ℕ) (current size a : ℕ)
    → 0 < size
    → current + left * size < 2 ^ 64
    → a ∉ objects left current size
    → chain_objects left fp current size a ≡ fp a
chain_objects-frame zero fp current size a pos small out =
    rw (chain_objects-zero fp current size) (ground arith)
chain_objects-frame (suc left) fp current size a pos small out =
    let e : (current + size) % 2 ^ 64 ≡ current + size = grind arith in
    let rest =
      chain_objects-frame left (update fp current (current + size)) (current + size) size a pos
        (grind arith) (ground arith) in
    rw (chain_objects-suc left fp current size e, rest) (ground arith)

-- Pages do not share objects.
pub slab_objects-apart :
    (i p q a : ℕ)
    → i < 8
    → p % 4096 ≡ 0
    → q % 4096 ≡ 0
    → q ≢ p
    → a ∈ slab_objects i q
    → a ∉ slab_objects i p
slab_objects-apart i p q a h aligned aligned' ne m = elim (Bool-cases (has a (slab_objects i p))) [
  | inl m' ↦
      let r = slab_objects-range i p a h m' in
      let r' = slab_objects-range i q a h m in let f = room_fits i h in absurd (ne (omega arith))
  | inr out ↦ out
]
