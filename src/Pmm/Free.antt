-- ===== src/Pmm/Free.antt =====
-- `free_pages`: merging a block with its free buddies.
pub mod Inside
use mio_os.Common.{
  ℕ, zero, suc, ◌+◌, ◌-◌, ◌*◌, ◌/◌, ◌%◌, ◌^◌, ◌≤◌, ◌<◌, ◌≡◌, ◌≢◌, refl, sym, inl, inr, List, [],
  ◌∷◌, arith, ltb, ◌==◌, ◌>>>◌, bit_xor, bit_and, not64, Bool-cases, false, ◌||◌,
}
use mio_os.Common.Bits.{bit-lt}
use mio_os.Common.Seq.{◌∈◌, erase}
use mio_os.Pmm.State.{Pmm, frame_ptr, ptr_frame, update}
use mio_os.Pmm.FreeList.{list_add, list_remove}
use mio_os.Pmm.Bitmap.{toggle_buddy_bit}
use mio_os.Pmm.Bitmap.Flip.{map_bit, toggle-result}
use mio_os.Pmm.Lists.{Lists}
use mio_os.Pmm.Weigh.{sum, mem-le-weigh}
use mio_os.Pmm.Buddy.{merge, free_pages_order, account_free}
use mio_os.Pmm.Frame.{
  IsAligned, in_block, in_block_self, buddy_unique, buddy_pair, buddies-Joined, pow_next,
  ptr_frame-frame_ptr,
}
use mio_os.Pmm.Invariant.{
  cover, pages, pair_is, Core, Core-statistics, Core-add, Core-add_last, Core-remove, aligned-lt,
  fresh_of_cover,
}
use mio_os.Pmm.Cover.{Wf, cover-cons, pages-cons, cover-erase, pages-erase}
use mio_os.Pmm.Alloc.{SameMemory, SameMemory-trans, add_memory, remove_memory, order_bound}

-- A pair with a block on the list.
pair_member :
    (o p : ℕ) (xs : List ℕ)
    → 0 < sum (pair_is o p) xs
    → (a : ℕ) × (a ∈ xs) × (ptr_frame a >>> (o + 1) ≡ p)
pair_member o p [] h = absurd (omega arith)
pair_member o p (x ∷ xs) h = elim (Bool-cases (ptr_frame x >>> (o + 1) == p)) [
  | inl e ↦ (x, ground arith, ground arith)
  | inr e ↦ let (a, m, q) = pair_member o p xs (ground arith) in (a, ground arith, q)
]

-- If the bit of a block's pair is set and the block is not free, its buddy is on the list.
buddy-mem :
    {s : Pmm} {l : Lists} (o pfn : ℕ)
    → o < 10
    → Core s l
    → IsAligned o pfn
    → cover l pfn ≡ 0
    → map_bit s.buddy_map o (pfn >>> (o + 1)) ≡ 1
    → (frame_ptr (bit_xor pfn (2 ^ o)) ∈ l o) × IsAligned o (bit_xor pfn (2 ^ o))
buddy-mem {s} {l} o pfn lt c a vacant set =
    let (b, m, same) =
      pair_member o (pfn >>> (o + 1)) (l o) (omega (arith, c.parity o (pfn >>> (o + 1)) lt)) in
    let is = c.blocks o b (omega arith) m in
    let other : ptr_frame b ≢ pfn = λ e.
      let held = mem-le-weigh (λ i x. in_block i (ptr_frame x) pfn) 11 o b l (omega arith) m in
      let held' : in_block o pfn pfn ≤ cover l pfn = rw e at held in
      absurd (omega (arith, held', vacant, in_block_self o pfn)) in
    let e = buddy_unique o pfn (ptr_frame b) a is.aligned same other in
    rw e (rw (← is.address) m, is.aligned)

-- A toggle commutes with the operations on the lists.
add_toggle :
    (s : Pmm) (b q o : ℕ)
    → list_add (toggle_buddy_bit s q o).1 b o ≡ (toggle_buddy_bit (list_add s b o) q o).1
unfolding list_add toggle_buddy_bit
add_toggle s b q o = refl

remove_toggle :
    (s : Pmm) (b q o : ℕ)
    → list_remove (toggle_buddy_bit s q o).1 b o ≡ (toggle_buddy_bit (list_remove s b o) q o).1
unfolding list_remove toggle_buddy_bit
remove_toggle s b q o = refl

-- The block of order `o` at `pfn` has become free.
record Merged (s : Pmm) (l : Lists) (pfn o : ℕ) (s' : Pmm) : Type 0 where
  after : Lists
  core : Core s' after
  frames : (f : ℕ) → cover after f ≡ cover l f + in_block o pfn f
  count : pages after ≡ pages l + 2 ^ o
  memory : SameMemory s s'

last_memory : (s : Pmm) (b o : ℕ) → SameMemory s (list_add s b o)
unfolding list_add
last_memory s b o = record { free_kept = refl; used_kept = refl; total_kept = refl }

module _ {s : Pmm} {l : Lists} (o pfn : ℕ) (lt : o < 11) (c : Core s l) (a : IsAligned o pfn)
    (free : (f : ℕ) → cover l f + in_block o pfn f ≤ 1) where
  vacant : cover l pfn ≡ 0
  vacant = omega (arith, free pfn, in_block_self o pfn)

  -- The block goes onto its own list.
  Merged-add : Merged s l pfn o (list_add (toggle_buddy_bit s pfn o).1 (frame_ptr pfn) o)
  Merged-add = rw add_toggle (record {
    after = update l o (frame_ptr pfn ∷ l o);
    core = Core-add c o lt a (fresh_of_cover l pfn (aligned-lt a) vacant) pfn refl;
    frames = cover-cons l o lt a;
    count = pages-cons l o lt (frame_ptr pfn);
    memory = add_memory s (frame_ptr pfn) pfn o;
  })

  Merged-last : o ≡ 10 → Merged s l pfn o (list_add s (frame_ptr pfn) o)
  Merged-last e = record {
    after = update l o (frame_ptr pfn ∷ l o);
    core = Core-add_last c o lt a (fresh_of_cover l pfn (aligned-lt a) vacant) e;
    frames = cover-cons l o lt a;
    count = pages-cons l o lt (frame_ptr pfn);
    memory = last_memory s (frame_ptr pfn) o;
  }

merge-Merged :
    (left : ℕ) {s : Pmm} {l : Lists} (pfn o : ℕ)
    → o + left ≡ 10
    → Core s l
    → IsAligned o pfn
    → ((f : ℕ) → cover l f + in_block o pfn f ≤ 1)
    → Merged s l pfn o (merge left s pfn o)
unfolding merge
merge-Merged zero pfn o e c a free = Merged-last o pfn (omega arith) c a free (omega arith)
merge-Merged (suc left) {s} {l} pfn o e c a free = elim (Bool-cases (toggle_buddy_bit s pfn o).0) [
  | inl one ↦ rw one (Merged-add o pfn (omega arith) c a free)
  | inr none ↦
      let p = pfn >>> (o + 1) in
      let set : map_bit s.buddy_map o p ≡ 1 =
        ground (arith, toggle-result s pfn o, bit-lt (s.buddy_map o (p / 8)) (p % 8)) in
      let buddy = bit_xor pfn (2 ^ o) in
      let (m, b) = buddy-mem o pfn (omega arith) c a (vacant o pfn (omega arith) c a free) set in
      let lt : o < 11 = omega arith in
      let ptr = ptr_frame-frame_ptr buddy (aligned-lt b) in
      let core = Core-remove c o lt (frame_ptr buddy) pfn m (rw ptr (sym (buddy_pair o pfn a))) in
      let join = buddies-Joined o pfn lt a b in
      let l' = update l o (erase (frame_ptr buddy) (l o)) in
      let gone : (f : ℕ) → cover l f ≡ cover l' f + in_block o buddy f =
        λ f. rw ptr at (cover-erase l o lt (frame_ptr buddy) m f) in
      let rest =
        merge-Merged left (bit_and pfn (not64 (2 ^ o))) (o + 1) (omega arith) core join.aligned
          (λ f. omega (arith, free f, gone f, join.frames f)) in
      rw (none, remove_toggle)
        (record {
          after = rest.after;
          core = rest.core;
          frames = λ f. omega (arith, rest.frames f, gone f, join.frames f);
          count = omega (arith, rest.count, pages-erase l o lt (frame_ptr buddy) m, pow_next o);
          memory = SameMemory-trans (remove_memory s (frame_ptr buddy) pfn o) rest.memory;
        })
]

-- The frames of a block of order `o` at `pfn` are free again, and those that were stay so.
pub record Released (l : Lists) (o pfn : ℕ) (s' : Pmm) : Type 0 where
  pub after : Lists
  pub wf : Wf s' after
  pub frames : (f : ℕ) → cover after f ≡ cover l f + in_block o pfn f
  pub count : pages after ≡ pages l + 2 ^ o

-- Under the invariant, `free_pages_order` of an aligned block of an order up to 10, not at frame
-- 0, none of whose frames is free, keeps the invariant, makes exactly the frames of the block
-- free, and leaves every other frame as it was.
pub free_pages_order-Released :
    {s : Pmm} {l : Lists} (pfn o : ℕ)
    → o < 11
    → pfn ≢ 0
    → Wf s l
    → IsAligned o pfn
    → ((f : ℕ) → cover l f + in_block o pfn f ≤ 1)
    → Released l o pfn (free_pages_order s (pfn * 4096) o)
unfolding free_pages_order account_free
free_pages_order-Released {s} {l} pfn o lt ne w a free =
    let go : ((pfn * 4096 == 0) || ltb 10 o) ≡ false = ground arith in
    let frame : (pfn * 4096) >>> 12 ≡ pfn = omega arith in
    let done = merge-Merged (10 - o) pfn o (omega arith) w.core a free in
    rw (go, frame)
      (record {
        after = done.after;
        wf = record {
          core = Core-statistics _ _ done.core;
          once = λ f. omega (arith, done.frames f, free f);
          free = rw (done.memory.free_kept, w.free) (omega (arith, done.count, order_bound o));
          total = omega (
            arith,
            w.total,
            done.memory.free_kept,
            done.memory.used_kept,
            done.memory.total_kept,
            order_bound o,
          );
        };
        frames = done.frames;
        count = done.count;
      })
