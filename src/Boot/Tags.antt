-- ===== src/Boot/Tags.antt =====
-- What the walk over the tags finds.
use mio_os.Common.{
  ℕ, zero, suc, ◌+◌, ◌*◌, ◌/◌, ◌%◌, ◌^◌, ◌<◌, ◌≡◌, ◌≢◌, inl, inr, refl, arith, ◌∙◌, ap, u32,
  bit_and, leb, ◌==◌, if◌then◌else◌, some, Bool-cases, false, List, [], ◌∷◌,
}
use mio_os.Common.Bits.{bit_and_range}
use mio_os.Common.Seq.{length}
use mio_os.Runtime.Memory.{Memory}
use mio_os.Boot.Multiboot.{load32, tag_stride, find_from, find_tag}

-- The stride rounds up to eight bytes.
tag_stride-eq : (size : ℕ) → size + 7 < 2 ^ 32 → tag_stride size ≡ (size + 7) / 8 * 8
unfolding tag_stride
tag_stride-eq size h =
    let v = size + 7 in
    let cut = bit_and_range 3 29 (v / 8) (v % 8) (omega arith) in
    let e : v ≡ v / 8 * 2 ^ 3 + v % 8 = omega arith in
    let w : u32 v ≡ v = omega arith in
    rw w (ap (λ (t : ℕ). bit_and t 4294967288) e ∙ cut ∙ omega arith)

pub record Tag : Type 0 where
  pub kind : ℕ
  pub size : ℕ

abbrev pub behind : ℕ → Tag → ℕ
behind p t = p + (t.size + 7) / 8 * 8

-- From `p` on stand these tags, each at a multiple of eight bytes from `p`, none of them the end
-- tag, before an end tag below `limit`.
abbrev pub TagsAt : Memory → ℕ → ℕ → List Tag → Type 0
TagsAt m limit p [] = load32 m p ≡ 0
TagsAt m limit p (t ∷ ts) =
    (load32 m p ≡ t.kind)
    × (load32 m (p + 4) ≡ t.size)
    × (t.kind ≢ 0)
    × (t.size + 7 < 2 ^ 32)
    × (behind p t < limit)
    × TagsAt m limit (behind p t) ts

-- The address of the first tag of a kind, or 0.
abbrev pub first_of : ℕ → ℕ → List Tag → ℕ
first_of kind p [] = 0
first_of kind p (t ∷ ts) = if t.kind == kind then p else first_of kind (behind p t) ts

find_from-first :
    (fuel : ℕ) (m : Memory) (info kind p : ℕ) (ts : List Tag)
    → length ts < fuel
    → TagsAt m (info + load32 m info) p ts
    → find_from fuel m info kind p ≡ some (first_of kind p ts)
unfolding find_from
find_from-first zero m info kind p ts h at = absurd (omega arith)
find_from-first (suc fuel) m info kind p [] h at = rw at refl
find_from-first (suc fuel) m info kind p (t ∷ ts) h (k, z, ne, small, below, rest) =
    let ih = find_from-first fuel m info kind (behind p t) ts (omega arith) rest in
    let step = tag_stride-eq t.size small in
    let real : (t.kind == 0) ≡ false = ground arith in
    let inside : leb (info + load32 m info) (behind p t) ≡ false = ground arith in
    rw (k, z, step, real, inside)
      (elim (Bool-cases (t.kind == kind)) [ inl e ↦ rw e refl | inr e ↦ rw e ih ])

-- For boot information that holds a sequence of tags, each at the next multiple of eight bytes
-- and none of them at or behind its total size, and then an end tag, fuel above the number of
-- tags is enough for `find_tag`: it gives the first tag of the kind, or `nullptr` if there is
-- none.
pub find_tag-first :
    (fuel : ℕ) (m : Memory) (info kind : ℕ) (ts : List Tag)
    → length ts < fuel
    → TagsAt m (info + load32 m info) (info + 8) ts
    → find_tag fuel m info kind ≡ some (first_of kind (info + 8) ts)
unfolding find_tag
find_tag-first fuel m info kind ts h at = find_from-first fuel m info kind (info + 8) ts h at
