-- ===== src/Pmm/Alloc.antt =====
-- `alloc_pages` over the buddy allocator: the block that it hands out, and what is left.
use native.Mathlib.Nat.{pow-suc, pow-le-pow_right}
use mio_os.Common.{
  ℕ, zero, suc, ◌+◌, ◌-◌, ◌*◌, ◌^◌, ◌≤◌, ◌<◌, ◌≡◌, ◌≢◌, refl, sym, ◌∙◌, ◌⊎◌, inl, inr, List, [],
  ◌∷◌, arith, ltb, ◌==◌, Bool-cases, false,
}
use mio_os.Common.Seq.{◌∈◌}
use mio_os.Pmm.State.{BuddyFreeNode, Pmm, frame_ptr, ptr_frame}
use mio_os.Pmm.FreeList.{list_add, list_remove}
use mio_os.Pmm.FreeList.Chain.{Chain}
use mio_os.Pmm.Bitmap.{toggle_buddy_bit}
use mio_os.Pmm.Lists.{Lists}
use mio_os.Pmm.Buddy.{split, take_block, find_order, alloc_buddy, account_alloc}
use mio_os.Pmm.Order.{pages_to_order}
use mio_os.Pmm.Frame.{
  IsAligned, IsAligned-half, IsAligned-buddy_half, buddy_half, in_block, in_block-suc,
  in_block_self, same_pair,
}
use mio_os.Pmm.Invariant.{
  cover, pages, Core, Core-statistics, Core-add, Core-remove, aligned-lt, fresh_of_cover,
}
use mio_os.Pmm.Cover.{Wf, cover-cons, pages-cons, cover-erase, pages-erase}

-- The statistics of two states agree.
pub record SameMemory (s s' : Pmm) : Type 0 where
  pub free_kept : s'.free_memory ≡ s.free_memory
  pub used_kept : s'.used_memory ≡ s.used_memory
  pub total_kept : s'.total_memory ≡ s.total_memory

pub add_memory : (s : Pmm) (b q o : ℕ) → SameMemory s (toggle_buddy_bit (list_add s b o) q o).1
unfolding toggle_buddy_bit list_add
add_memory s b q o = record { free_kept = refl; used_kept = refl; total_kept = refl }

pub remove_memory :
    (s : Pmm) (b q o : ℕ) → SameMemory s (toggle_buddy_bit (list_remove s b o) q o).1
unfolding toggle_buddy_bit list_remove
remove_memory s b q o = record { free_kept = refl; used_kept = refl; total_kept = refl }

pub SameMemory-trans : {s t u : Pmm} → SameMemory s t → SameMemory t u → SameMemory s u
SameMemory-trans p q = record {
  free_kept = q.free_kept ∙ p.free_kept;
  used_kept = q.used_kept ∙ p.used_kept;
  total_kept = q.total_kept ∙ p.total_kept;
}

-- A block of order `current` at `pfn` has become one of order `order`, and the rest is free.
record Split (s : Pmm) (l : Lists) (pfn order current : ℕ) (s' : Pmm) : Type 0 where
  after : Lists
  core : Core s' after
  aligned : IsAligned order pfn
  frames : (f : ℕ) → cover after f + in_block order pfn f ≡ cover l f + in_block current pfn f
  count : pages after + 2 ^ order ≡ pages l + 2 ^ current
  memory : SameMemory s s'

Split-done :
    {s : Pmm} {l : Lists} (pfn order current : ℕ)
    → order ≡ current
    → Core s l
    → IsAligned current pfn
    → Split s l pfn order current s
Split-done {l} pfn order current e c a = rw e (record {
  after = l;
  core = c;
  aligned = a;
  frames = λ f. refl;
  count = refl;
  memory = record { free_kept = refl; used_kept = refl; total_kept = refl };
})

split-Split :
    (current : ℕ) {s : Pmm} {l : Lists} (pfn order : ℕ)
    → order ≤ current
    → current < 11
    → Core s l
    → IsAligned current pfn
    → ((f : ℕ) → cover l f + in_block current pfn f ≤ 1)
    → Split s l pfn order current (split s pfn order current)
unfolding split
split-Split zero pfn order le lt c a free = Split-done pfn order 0 (omega arith) c a
split-Split (suc current) {s} {l} pfn order le lt c a free =
    elim (Bool-cases (ltb order (suc current))) [
      | inr e ↦ rw e (Split-done pfn order (suc current) (ground arith) c a)
      | inl e ↦
          let high = IsAligned-buddy_half current pfn a in
          let lt' : current < 11 = omega arith in
          let vacant : cover l (pfn + 2 ^ current) ≡ 0 = ground (
            arith,
            free (pfn + 2 ^ current),
            in_block-suc current pfn (pfn + 2 ^ current),
            in_block_self current (pfn + 2 ^ current),
          ) in
          let core =
            Core-add c current lt' high
              (fresh_of_cover l (pfn + 2 ^ current) (aligned-lt high) vacant) pfn
              (same_pair current pfn a) in
          let rest =
            split-Split current pfn order (ground arith) lt' core (IsAligned-half current pfn a)
              (λ f.
                omega
                  (arith, free f, cover-cons l current lt' high f, in_block-suc current pfn f)) in
          rw (e, buddy_half current pfn a)
            (record {
              after = rest.after;
              core = rest.core;
              aligned = rest.aligned;
              frames = λ f. omega (
                arith,
                rest.frames f,
                cover-cons l current lt' high f,
                in_block-suc current pfn f,
              );
              count = omega (
                arith,
                rest.count,
                pages-cons l current lt' (frame_ptr (pfn + 2 ^ current)),
                pow-suc 2 current,
              );
              memory =
                  SameMemory-trans (add_memory s (frame_ptr (pfn + 2 ^ current)) pfn current)
                    rest.memory;
            })
    ]

Chain-nil : (n : ℕ → BuddyFreeNode) (prev : ℕ) (xs : List ℕ) → Chain n prev 0 xs → xs ≡ []
Chain-nil n prev [] c = refl
Chain-nil n prev (x ∷ xs) c = absurd (c.1 (sym c.0))

head-mem : (n : ℕ → BuddyFreeNode) (prev p : ℕ) (xs : List ℕ) → p ≢ 0 → Chain n prev p xs → p ∈ xs
head-mem n prev p [] ne c = absurd (ne c)
head-mem n prev p (x ∷ xs) ne c = ground arith

-- Where the search for a non-empty list ends.
record Found (s : Pmm) (order r : ℕ) : Type 0 where
  above : order ≤ r
  within : r ≤ 11
  present : r < 11 → s.free_lists r ≢ 0
  skipped : (i : ℕ) → order ≤ i → i < r → s.free_lists i ≡ 0

find_order-Found :
    (left : ℕ) (s : Pmm) (order : ℕ) → order + left ≡ 11 → Found s order (find_order left s order)
unfolding find_order
find_order-Found zero s order e = record {
  above = omega arith;
  within = omega arith;
  present = λ lt. absurd (omega arith);
  skipped = λ i p q. absurd (omega arith);
}
find_order-Found (suc left) s order e = elim (Bool-cases (s.free_lists order == 0)) [
  | inr h ↦ rw h (record {
    above = omega arith;
    within = omega arith;
    present = λ lt. ground arith;
    skipped = λ i p q. absurd (omega arith);
  })
  | inl h ↦
      let rest = find_order-Found left s (order + 1) (omega arith) in
      rw h (record {
        above = omega (arith, rest.above);
        within = rest.within;
        present = rest.present;
        skipped = λ i p q. elim (Bool-cases (i == order)) [
          | inl z ↦ let i_eq : i ≡ order = ground arith in rw i_eq (ground arith)
          | inr z ↦ rest.skipped i (ground arith) q
        ];
      })
]

-- `alloc_pages` gave out an aligned block of order `order`, and exactly its frames are no longer
-- free.
pub record Served (l : Lists) (order ptr : ℕ) (s' : Pmm) : Type 0 where
  pub after : Lists
  pub wf : Wf s' after
  pub pfn : ℕ
  pub pointer : ptr ≡ pfn * 4096
  pub aligned : IsAligned order pfn
  pub frames : (f : ℕ) → cover l f ≡ cover after f + in_block order pfn f
  pub count : pages l ≡ pages after + 2 ^ order
  pub fits : order < 11

pub order_bound : (o : ℕ) → o < 11 → 2 ^ o ≤ 1024
order_bound o h = pow-le-pow_right {n = 2} (omega arith) {i = o} {j = 10} (omega arith)

take_block-Served :
    {s : Pmm} {l : Lists} (order current : ℕ)
    → order ≤ current
    → current < 11
    → s.free_lists current ≢ 0
    → Wf s l
    → Served l order (take_block s order current).0 (take_block s order current).1
unfolding take_block account_alloc
take_block-Served {s} {l} order current le lt ne w =
    let block = s.free_lists current in
    let m : block ∈ l current =
      head-mem s.node 0 block (l current) ne (w.core.rep.chain current lt) in
    let is = w.core.blocks current block lt m in
    let pfn = ptr_frame block in
    let core = Core-remove w.core current lt block pfn m refl in
    let rest =
      split-Split current pfn order le lt core is.aligned
        (λ f. omega (arith, w.once f, cover-erase l current lt block m f)) in
    let memory = SameMemory-trans (remove_memory s block pfn current) rest.memory in
    let count : pages l ≡ pages rest.after + 2 ^ order =
      omega (arith, rest.count, pages-erase l current lt block m) in
    record {
      after = rest.after;
      wf = record {
        core = Core-statistics _ _ rest.core;
        once = λ f. omega (arith, w.once f, rest.frames f, cover-erase l current lt block m f);
        free = rw (memory.free_kept, w.free) (omega (arith, count, order_bound order));
        total = omega (
          arith,
          w.total,
          memory.free_kept,
          memory.used_kept,
          memory.total_kept,
          order_bound order,
        );
      };
      pfn = pfn;
      pointer = omega (arith, is.aligned.below);
      aligned = rest.aligned;
      frames = λ f. omega (arith, rest.frames f, cover-erase l current lt block m f);
      count = count;
      fits = omega arith;
    }

-- The request is refused and nothing changes.
abbrev pub Refused : Pmm → ℕ → Pmm → Type 0
Refused s ptr s' = (ptr ≡ 0) × (s' ≡ s)

not_above : (r : ℕ) → ltb 10 r ≡ false → r < 11
not_above r e = ground arith

-- Under the invariant of the buddy allocator, `alloc_pages` of any number of pages either gives
-- out a block of the order of `pages_to_order`, aligned to its size, keeps the invariant, and
-- takes exactly the frames of that block out of the free ones, or it returns 0, changes nothing,
-- and every list from that order up is empty.
pub alloc_buddy-Served :
    {s : Pmm} {l : Lists} (num : ℕ)
    → Wf s l
    → (Served l (pages_to_order num) (alloc_buddy s num).0 (alloc_buddy s num).1)
      ⊎ (Refused s (alloc_buddy s num).0 (alloc_buddy s num).1
          × ((i : ℕ) → pages_to_order num ≤ i → i < 11 → l i ≡ []))
unfolding alloc_buddy
alloc_buddy-Served {s} {l} num w =
    let order = pages_to_order num in
    elim (Bool-cases (ltb 10 order)) [
      | inl big ↦ rw big (inr ((refl, refl), λ i p q. absurd (ground arith)))
      | inr small ↦
          let found = find_order-Found (11 - order) s order (ground arith) in
          rw small (elim (Bool-cases (ltb 10 (find_order (11 - order) s order))) [
            | inl end ↦ rw end (
                inr (
                  (refl, refl),
                  λ i p q.
                      Chain-nil s.node 0 (l i)
                        (rw (found.skipped i p (ground arith)) at (w.core.rep.chain i q)),
                ))
            | inr at ↦ rw at (
                inl (
                  let lt = not_above (find_order (11 - order) s order) at in
                  take_block-Served order (find_order (11 - order) s order) found.above lt
                    (found.present lt) w))
          ])
    ]
