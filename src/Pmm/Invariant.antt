-- ===== src/Pmm/Invariant.antt =====
-- The invariant that ties the free lists to the XOR bitmaps, and its two steps: a block enters or
-- leaves the list of its order while the bit of its pair is toggled.
use mio_os.Common.{
  ℕ, ◌+◌, ◌%◌, ◌^◌, ◌≤◌, ◌<◌, ◌≡◌, inl, inr, List, ◌∷◌, arith, ◌==◌, ◌>>>◌, if◌then◌else◌,
  Bool-cases,
}
use native.Mathlib.Nat.{one-le-pow}
use mio_os.Common.Seq.{has, ◌∈◌, ◌∉◌, erase}
use mio_os.Pmm.State.{Pmm, frame_ptr, ptr_frame, update}
use mio_os.Pmm.FreeList.{list_add, list_remove}
use mio_os.Pmm.Bitmap.{flip, toggle_buddy_bit}
use mio_os.Pmm.Bitmap.Flip.{map_bit, map_bit-flip}
use mio_os.Pmm.Lists.{Lists, Rep, Rep-add, Rep-remove, mem_of_erase}
use mio_os.Pmm.Weigh.{sum, weigh, sum-erase, mem-le-weigh}
use mio_os.Pmm.Frame.{
  IsAligned, frame_limit, in_block, in_block_self, ptr_frame-frame_ptr, frame_ptr-ne-zero,
}

-- How many free blocks hold frame `f`.
abbrev pub cover : Lists → ℕ → ℕ
cover l f = weigh (λ o a. in_block o (ptr_frame a) f) 11 l

-- How many frames the free blocks have together.
abbrev pub pages : Lists → ℕ
pages l = weigh (λ o a. 2 ^ o) 11 l

abbrev pub pair_is : ℕ → ℕ → ℕ → ℕ
pair_is o p a = if ptr_frame a >>> (o + 1) == p then 1 else 0

pub record IsBlock (o a : ℕ) : Type 0 where
  pub aligned : IsAligned o (ptr_frame a)
  pub address : a ≡ frame_ptr (ptr_frame a)

-- The blocks of each list are aligned to their size, and below the largest order a bit says
-- whether an odd number of the two buddies is on the list.
pub record Core (s : Pmm) (l : Lists) : Type 0 where
  pub rep : Rep s l
  pub blocks : (o a : ℕ) → o < 11 → a ∈ l o → IsBlock o a
  pub parity : (o p : ℕ) → o < 10 → map_bit s.buddy_map o p ≡ sum (pair_is o p) (l o) % 2

pub aligned-lt : {o pfn : ℕ} → IsAligned o pfn → pfn < frame_limit
aligned-lt {o} a = omega (arith, a.below, one-le-pow o 2 (omega arith))

pub IsBlock-of_aligned : {o pfn : ℕ} → IsAligned o pfn → IsBlock o (frame_ptr pfn)
IsBlock-of_aligned {o} {pfn} a =
    let e = ptr_frame-frame_ptr pfn (aligned-lt a) in record { aligned = rw e a; address = rw e }

-- A frame that no free block holds starts none.
pub fresh_of_cover :
    (l : Lists) (pfn : ℕ)
    → pfn < frame_limit
    → cover l pfn ≡ 0
    → (i : ℕ) → i < 11
    → frame_ptr pfn ∉ l i
fresh_of_cover l pfn h z i i_lt = elim (Bool-cases (has (frame_ptr pfn) (l i))) [
  | inr e ↦ e
  | inl e ↦
      let m = mem-le-weigh (λ o a. in_block o (ptr_frame a) pfn) 11 i (frame_ptr pfn) l i_lt e in
      let m' : in_block i pfn pfn ≤ cover l pfn = rw (ptr_frame-frame_ptr pfn h) at m in
      absurd (omega (arith, m', z, in_block_self i pfn))
]

Rep-toggle : (s : Pmm) (l : Lists) (q o : ℕ) → Rep s l → Rep (toggle_buddy_bit s q o).1 l
unfolding toggle_buddy_bit
Rep-toggle s l q o r = record { chain = r.chain; distinct = r.distinct; apart = r.apart }

abbrev Parity : (ℕ → ℕ → ℕ) → Lists → Type 0
Parity map l = (i p : ℕ) → i < 10 → map_bit map i p ≡ sum (pair_is i p) (l i) % 2

-- One block more or less in a pair, and its bit flipped.
Parity-flip :
    (s : Pmm) (l : Lists) (o q : ℕ) (ys : List ℕ)
    → ((p : ℕ)
        → (sum (pair_is o p) ys + sum (pair_is o p) (l o) + (if q >>> (o + 1) == p then 1 else 0))
            % 2
          ≡ 0)
    → Parity s.buddy_map l
    → Parity (flip s.buddy_map q o) (update l o ys)
Parity-flip s l o q ys change old i p i_lt =
    rw (map_bit-flip s.buddy_map q o i p) (elim (Bool-cases (i == o)) [
      | inl e ↦
          let i_eq : i ≡ o = ground arith in
          rw (e, i_eq) (ground (arith, change p, old o p (rw i_eq at i_lt)))
      | inr e ↦ rw e (old i p i_lt)
    ])

module _ {s : Pmm} {l : Lists} (c : Core s l) (o : ℕ) (o_lt : o < 11) where
  module _ {pfn : ℕ} (a : IsAligned o pfn) (fresh : (i : ℕ) → i < 11 → frame_ptr pfn ∉ l i) where
    add_blocks : (i b : ℕ) → i < 11 → b ∈ update l o (frame_ptr pfn ∷ l o) i → IsBlock i b
    add_blocks i b i_lt m = elim (Bool-cases (i == o)) [
      | inl e ↦
          let i_eq : i ≡ o = ground arith in
          let m' : b ∈ frame_ptr pfn ∷ l o = rw e at m in
          elim (Bool-cases (frame_ptr pfn == b)) [
            | inl q ↦
                let b_eq : frame_ptr pfn ≡ b = ground arith in
                rw (i_eq, ← b_eq) (IsBlock-of_aligned a)
            | inr q ↦ rw i_eq (c.blocks o b o_lt (ground arith))
          ]
      | inr e ↦ c.blocks i b i_lt (rw e at m)
    ]

    add-Rep : Rep (list_add s (frame_ptr pfn) o) (update l o (frame_ptr pfn ∷ l o))
    add-Rep = Rep-add c.rep o o_lt (frame_ptr pfn) (frame_ptr-ne-zero pfn (aligned-lt a)) fresh

    -- The push of `list_add` with a toggle for the pair.
    pub Core-add :
        (q : ℕ)
        → q >>> (o + 1) ≡ pfn >>> (o + 1)
        → Core
            (toggle_buddy_bit (list_add s (frame_ptr pfn) o) q o).1
            (update l o (frame_ptr pfn ∷ l o))
    unfolding toggle_buddy_bit list_add
    Core-add q same = record {
      rep = Rep-toggle _ _ q o add-Rep;
      blocks = add_blocks;
      parity =
          Parity-flip s l o q (frame_ptr pfn ∷ l o)
            (λ p. ground (arith, ptr_frame-frame_ptr pfn (aligned-lt a))) c.parity;
    }

    -- The push at the largest order, whose bits are not read.
    pub Core-add_last :
        o ≡ 10 → Core (list_add s (frame_ptr pfn) o) (update l o (frame_ptr pfn ∷ l o))
    unfolding list_add
    Core-add_last e = record {
      rep = add-Rep;
      blocks = add_blocks;
      parity = λ i p i_lt. elim (Bool-cases (i == o)) [
        | inl e' ↦ absurd (ground arith)
        | inr e' ↦ rw e' (c.parity i p i_lt)
      ];
    }

  erased_mem : (b i x : ℕ) → x ∈ update l o (erase b (l o)) i → x ∈ l i
  erased_mem b i x h = elim (Bool-cases (i == o)) [
    | inl e ↦ ground (arith, mem_of_erase x b (l o))
    | inr e ↦ ground arith
  ]

  -- The removal of `list_remove` with a toggle for the pair.
  pub Core-remove :
      (b q : ℕ)
      → b ∈ l o
      → q >>> (o + 1) ≡ ptr_frame b >>> (o + 1)
      → Core (toggle_buddy_bit (list_remove s b o) q o).1 (update l o (erase b (l o)))
  unfolding toggle_buddy_bit list_remove
  Core-remove b q m same = record {
    rep = Rep-toggle _ _ q o (Rep-remove c.rep o o_lt b m);
    blocks = λ i x i_lt h. c.blocks i x i_lt (erased_mem b i x h);
    parity =
        Parity-flip s l o q (erase b (l o)) (λ p. ground (arith, sum-erase (pair_is o p) b (l o) m))
          c.parity;
  }

-- The statistics play no part in it.
pub Core-statistics :
    {s : Pmm} {l : Lists} (used free : ℕ)
    → Core s l
    → Core (record s { used_memory = used; free_memory = free }) l
Core-statistics used free c = record {
  rep = record { chain = c.rep.chain; distinct = c.rep.distinct; apart = c.rep.apart };
  blocks = c.blocks;
  parity = c.parity;
}
