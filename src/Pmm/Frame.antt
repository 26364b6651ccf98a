-- ===== src/Pmm/Frame.antt =====
-- The arithmetic of frame numbers: blocks, buddies and their addresses.
use native.Mathlib.Nat.{pow-suc, one-le-pow, div-div-eq-div-mul, mul-div_cancel, add_comm}
use native.Mathlib.Numerals.{add-one}
use mio_os.Common.{
  ℕ, suc, ◌+◌, ◌-◌, ◌*◌, ◌/◌, ◌%◌, ◌^◌, ◌≤◌, ◌<◌, ◌≡◌, ◌≢◌, ◌∙◌, sym, ap, arith, ◌⊎◌, inl, inr,
  Bool-cases, ◌==◌, bit_xor, bit_and, not64, ltb, leb, if◌then◌else◌, ◌&&◌, ◌>>>◌,
}
use mio_os.Common.Bits.{bit_xor_fields, bit_and_clear, mul-two-pow-suc}
use mio_os.Pmm.State.{frame_ptr, ptr_frame}

-- Physical memory has fewer than 2 ^ 35 frames: 2 ^ 47 bytes, the size of the HHDM window.
abbrev pub frame_limit : ℕ
frame_limit = 2 ^ 35

pub ptr_frame-frame_ptr : (pfn : ℕ) → pfn < frame_limit → ptr_frame (frame_ptr pfn) ≡ pfn
unfolding ptr_frame frame_ptr
ptr_frame-frame_ptr pfn h = omega arith

pub frame_ptr-ne-zero : (pfn : ℕ) → pfn < frame_limit → frame_ptr pfn ≢ 0
unfolding frame_ptr
frame_ptr-ne-zero pfn h = omega arith

-- 1 for a frame of the block of order `o` at `pfn`, else 0.
abbrev pub in_block : ℕ → ℕ → ℕ → ℕ
in_block o pfn f = if leb pfn f && ltb f (pfn + 2 ^ o) then 1 else 0

-- `pfn` is the first frame of a block of order `o`, as a multiple of its size.
pub record IsAligned (o pfn : ℕ) : Type 0 where
  pub index : ℕ
  pub multiple : pfn ≡ index * 2 ^ o
  pub below : pfn + 2 ^ o ≤ frame_limit

double_pow : (m c : ℕ) → m * 2 ^ suc c ≡ 2 * m * 2 ^ c
double_pow m c = omega (arith, mul-two-pow-suc m c)

-- The lower half of an aligned block.
pub IsAligned-half : (c pfn : ℕ) → IsAligned (suc c) pfn → IsAligned c pfn
IsAligned-half c pfn a = record {
  index = 2 * a.index;
  multiple = a.multiple ∙ double_pow a.index c;
  below = omega (arith, a.below, pow-suc 2 c);
}

-- The upper half is at the buddy of the lower.
pub buddy_half : (c pfn : ℕ) → IsAligned (suc c) pfn → bit_xor pfn (2 ^ c) ≡ pfn + 2 ^ c
buddy_half c pfn a =
    ground (arith, bit_xor_fields c (2 * a.index) 0, one-le-pow c 2, double_pow a.index c)

pub IsAligned-buddy_half : (c pfn : ℕ) → IsAligned (suc c) pfn → IsAligned c (pfn + 2 ^ c)
IsAligned-buddy_half c pfn a = record {
  index = 2 * a.index + 1;
  multiple = omega (arith, double_pow a.index c);
  below = omega (arith, a.below, pow-suc 2 c);
}

pub in_block-suc :
    (c pfn f : ℕ) → in_block (suc c) pfn f ≡ in_block c pfn f + in_block c (pfn + 2 ^ c) f
in_block-suc c pfn f = ground (arith, pow-suc 2 c)

-- Each block has its first frame.
pub in_block_self : (o pfn : ℕ) → in_block o pfn pfn ≡ 1
in_block_self o pfn = ground (arith, one-le-pow o 2)

pub pair_index : (o q : ℕ) → (q * 2 ^ o) / 2 ^ (o + 1) ≡ q / 2
pair_index o q =
    rw (add-one, pow-suc)
      (sym (div-div-eq-div-mul (q * 2 ^ o) (2 ^ o) 2)
        ∙ ap (λ (t : ℕ). t / 2) (mul-div_cancel q (one-le-pow o 2 (omega arith))))

-- The buddy of a block and the base of the two, by the block's index.
pub buddy_of : (o q : ℕ) → bit_xor (q * 2 ^ o) (2 ^ o) ≡ (q / 2 * 2 + (1 - q % 2)) * 2 ^ o
buddy_of o q = ground (arith, bit_xor_fields o q 0, one-le-pow o 2)

pub base_of :
    (o q : ℕ)
    → o < 64
    → q * 2 ^ o < 2 ^ 64
    → bit_and (q * 2 ^ o) (not64 (2 ^ o)) ≡ q / 2 * 2 * 2 ^ o
base_of o q h wide = ground (arith, bit_and_clear o 64 q 0, one-le-pow o 2)

-- Both halves of a block are in one pair.
pub same_pair : (c pfn : ℕ) → IsAligned (suc c) pfn → pfn >>> (c + 1) ≡ (pfn + 2 ^ c) >>> (c + 1)
unfolding IsAligned-half IsAligned-buddy_half
same_pair c pfn a =
    let pair = λ (t : ℕ). t / 2 ^ (c + 1) in
    let low = ap pair (IsAligned-half c pfn a).multiple ∙ pair_index c (2 * a.index) in
    let high = ap pair (IsAligned-buddy_half c pfn a).multiple ∙ pair_index c (2 * a.index + 1) in
    low ∙ halves ∙ sym high
  where
    halves : 2 * a.index / 2 ≡ (2 * a.index + 1) / 2
    halves = omega arith

-- The other block of a pair is the buddy.
pub buddy_unique :
    (o pfn pfn' : ℕ)
    → IsAligned o pfn
    → IsAligned o pfn'
    → pfn' >>> (o + 1) ≡ pfn >>> (o + 1)
    → pfn' ≢ pfn
    → bit_xor pfn (2 ^ o) ≡ pfn'
buddy_unique o pfn pfn' a a' same ne =
    let pair = λ (t : ℕ). t / 2 ^ (o + 1) in
    let low = ap pair a.multiple ∙ pair_index o a.index in
    let high = ap pair a'.multiple ∙ pair_index o a'.index in
    let half = sym high ∙ same ∙ low in
    let index : a'.index ≡ a.index / 2 * 2 + (1 - a.index % 2) = ground (arith, half) in
    ap (λ (t : ℕ). bit_xor t (2 ^ o)) a.multiple
    ∙ buddy_of o a.index
    ∙ ap (λ (t : ℕ). t * 2 ^ o) (sym index)
    ∙ sym a'.multiple

pub buddy_pair : (o pfn : ℕ) → IsAligned o pfn → bit_xor pfn (2 ^ o) >>> (o + 1) ≡ pfn >>> (o + 1)
buddy_pair o pfn a =
    let pair = λ (t : ℕ). t / 2 ^ (o + 1) in
    let q = a.index in
    let low = ap pair a.multiple ∙ pair_index o q in
    let half : (q / 2 * 2 + (1 - q % 2)) / 2 ≡ q / 2 = omega arith in
    ap (λ (t : ℕ). bit_xor t (2 ^ o) / 2 ^ (o + 1)) a.multiple
    ∙ ap pair (buddy_of o q)
    ∙ pair_index o (q / 2 * 2 + (1 - q % 2))
    ∙ half
    ∙ sym low

-- The buddies in order of address, `low` the base of the pair.
record Halves (o pfn low : ℕ) : Type 0 where
  place :
      ((pfn ≡ low) × (bit_xor pfn (2 ^ o) ≡ low + 2 ^ o))
      ⊎ ((pfn ≡ low + 2 ^ o) × (bit_xor pfn (2 ^ o) ≡ low))

Halves-at : (o q : ℕ) → Halves o (q * 2 ^ o) (q / 2 * 2 * 2 ^ o)
Halves-at o q = elim (Bool-cases (q % 2 == 0)) [
  | inl e ↦
      let even : q ≡ q / 2 * 2 = ground arith in
      let buddy : q / 2 * 2 + (1 - q % 2) ≡ q / 2 * 2 + 1 = ground arith in
      record { place = inl (scale even, buddy_of o q ∙ scale buddy ∙ omega arith) }
  | inr e ↦
      let odd : q ≡ q / 2 * 2 + 1 = ground arith in
      let buddy : q / 2 * 2 + (1 - q % 2) ≡ q / 2 * 2 = ground arith in
      record { place = inr (scale odd ∙ omega arith, buddy_of o q ∙ scale buddy) }
]
  where
    scale : {a b : ℕ} → a ≡ b → a * 2 ^ o ≡ b * 2 ^ o
    scale e = ap (λ (t : ℕ). t * 2 ^ o) e

double_pow_add : (m o : ℕ) → m * 2 * 2 ^ o ≡ m * 2 ^ (o + 1)
double_pow_add m o = rw (add-one, pow-suc) (omega arith)

pub pow_next : (o : ℕ) → 2 ^ (o + 1) ≡ 2 * 2 ^ o
pow_next o = rw (add-one, pow-suc) (omega arith)

in_block_halves :
    (o low f : ℕ) → in_block (o + 1) low f ≡ in_block o low f + in_block o (low + 2 ^ o) f
in_block_halves o low f = rw add-one (in_block-suc o low f)

-- Two free buddies make the block of the next order at their base.
pub record Joined (o pfn base : ℕ) : Type 0 where
  pub aligned : IsAligned (o + 1) base
  pub frames :
      (f : ℕ) → in_block (o + 1) base f ≡ in_block o pfn f + in_block o (bit_xor pfn (2 ^ o)) f

pub buddies-Joined :
    (o pfn : ℕ)
    → o < 11
    → IsAligned o pfn
    → IsAligned o (bit_xor pfn (2 ^ o))
    → Joined o pfn (bit_and pfn (not64 (2 ^ o)))
buddies-Joined o pfn lt a b =
    let q = a.index in
    let low = q / 2 * 2 * 2 ^ o in
    let h : Halves o pfn low = rw a.multiple (Halves-at o q) in
    let base : bit_and pfn (not64 (2 ^ o)) ≡ low =
      rw a.multiple (base_of o q (omega arith) (omega (arith, a.below, a.multiple))) in
    rw base (record {
      aligned = record {
        index = q / 2;
        multiple = double_pow_add (q / 2) o;
        below = ground (arith, h.place, a.below, b.below, pow_next o);
      };
      frames = λ f. elim h.place [
        | inl e ↦ rw e.1 (
            in_block_halves o low f
            ∙ ap (λ (t : ℕ). in_block o t f + in_block o (low + 2 ^ o) f) (sym e.0))
        | inr e ↦ rw e.1 (
            in_block_halves o low f
            ∙ add_comm (in_block o low f) (in_block o (low + 2 ^ o) f)
            ∙ ap (λ (t : ℕ). in_block o t f + in_block o low f) (sym e.0))
      ];
    })
