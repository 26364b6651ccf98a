-- ===== src/Pmm/Region/Take.antt =====
-- `allocate_specific_page`: the page leaves the free blocks and the rest of its block stays.
use native.Mathlib.Nat.{pow-suc, one-le-pow}
use mio_os.Common.{
  ℕ, zero, suc, ◌+◌, ◌^◌, ◌≤◌, ◌<◌, ◌≡◌, refl, sym, ◌⊎◌, inl, inr, Bool, true, false, Option, none,
  some, arith, ltb, leb, ◌&&◌, Bool-cases, ◌>>>◌,
}
use mio_os.Pmm.State.{Pmm, frame_ptr, ptr_frame}
use mio_os.Pmm.FreeList.{list_add}
use mio_os.Pmm.Bitmap.{toggle_buddy_bit}
use mio_os.Pmm.Lists.{Lists}
use mio_os.Pmm.Frame.{
  IsAligned, IsAligned-half, IsAligned-buddy_half, buddy_half, in_block, in_block-suc,
  in_block_self, same_pair,
}
use mio_os.Pmm.Invariant.{
  cover, pages, Core, Core-statistics, Core-add, Core-remove, aligned-lt, fresh_of_cover,
}
use mio_os.Pmm.Cover.{Wf, cover-cons, pages-cons, cover-erase, pages-erase}
use mio_os.Pmm.Alloc.{SameMemory, SameMemory-trans, add_memory, remove_memory}
use mio_os.Pmm.Region.{carve, take_page, scan, allocate_specific_page}
use mio_os.Pmm.Region.Walk.{Enough, Hit, Searched, scan-Searched}

-- Of a block of order `current` at `pfn` only the target page is not free.
record Carved (s : Pmm) (l : Lists) (pfn target current : ℕ) (s' : Pmm) : Type 0 where
  after : Lists
  core : Core s' after
  frames : (f : ℕ) → cover after f + in_block 0 target f ≡ cover l f + in_block current pfn f
  count : pages after + 1 ≡ pages l + 2 ^ current
  memory : SameMemory s s'

-- The half at `given` is put on its list, the half at `kept` stays to be carved.
record Halved (l : Lists) (pfn given kept current : ℕ) : Type 0 where
  given_aligned : IsAligned current given
  kept_aligned : IsAligned current kept
  pair : kept >>> (current + 1) ≡ given >>> (current + 1)
  frames :
      (f : ℕ) → in_block (suc current) pfn f ≡ in_block current given f + in_block current kept f

-- A round, given that the rest of the loop does its part.
carve_step :
    (current : ℕ) {s : Pmm} {l : Lists} (pfn target given kept : ℕ)
    → ((s' : Pmm) (l' : Lists)
        → Core s' l'
        → ((f : ℕ) → cover l' f + in_block current kept f ≤ 1)
        → Carved s' l' kept target current (carve s' kept target current))
    → suc current < 11
    → Core s l
    → Halved l pfn given kept current
    → ((f : ℕ) → cover l f + in_block (suc current) pfn f ≤ 1)
    → Carved s l pfn target (suc current) (
        carve
          (toggle_buddy_bit (list_add s (frame_ptr given) current) kept current).1
          kept
          target
          current)
carve_step current {s} {l} pfn target given kept later lt c h free =
    let lt' : current < 11 = omega arith in
    let vacant : cover l given ≡ 0 =
      omega (arith, free given, h.frames given, in_block_self current given) in
    let core =
      Core-add c current lt' h.given_aligned
        (fresh_of_cover l given (aligned-lt h.given_aligned) vacant) kept h.pair in
    let rest =
      later _ _ core
        (λ f. omega (arith, free f, cover-cons l current lt' h.given_aligned f, h.frames f)) in
    record {
      after = rest.after;
      core = rest.core;
      frames =
          λ f. omega (arith, rest.frames f, cover-cons l current lt' h.given_aligned f, h.frames f);
      count =
          omega (arith, rest.count, pages-cons l current lt' (frame_ptr given), pow-suc 2 current);
      memory = SameMemory-trans (add_memory s (frame_ptr given) kept current) rest.memory;
    }

carve-Carved :
    (current : ℕ) {s : Pmm} {l : Lists} (pfn target : ℕ)
    → current < 11
    → Core s l
    → IsAligned current pfn
    → in_block current pfn target ≡ 1
    → ((f : ℕ) → cover l f + in_block current pfn f ≤ 1)
    → Carved s l pfn target current (carve s pfn target current)
unfolding carve
carve-Carved zero {s} {l} pfn target lt c a inside free = record {
  after = l;
  core = c;
  frames = λ f. ground (arith, one-le-pow 0 2);
  count = refl;
  memory = record { free_kept = refl; used_kept = refl; total_kept = refl };
}
carve-Carved (suc current) {s} {l} pfn target lt c a inside free =
    let buddy = pfn + 2 ^ current in
    let low = IsAligned-half current pfn a in
    let high = IsAligned-buddy_half current pfn a in
    let lt' : current < 11 = omega arith in
    let frames = in_block-suc current pfn in
    rw (buddy_half current pfn a)
      (elim (Bool-cases (leb buddy target && ltb target (buddy + 2 ^ current))) [
        | inl e ↦
            let here : in_block current buddy target ≡ 1 = ground arith in
            rw e (
              carve_step current pfn target pfn buddy
                (λ s' l' c' free'. carve-Carved current buddy target lt' c' high here free') lt c
                (record {
                  given_aligned = low;
                  kept_aligned = high;
                  pair = sym (same_pair current pfn a);
                  frames = frames;
                })
                free)
        | inr e ↦
            let here : in_block current pfn target ≡ 1 = ground (arith, frames target) in
            rw e (
              carve_step current pfn target buddy pfn
                (λ s' l' c' free'. carve-Carved current pfn target lt' c' low here free') lt c
                (record {
                  given_aligned = high;
                  kept_aligned = low;
                  pair = same_pair current pfn a;
                  frames = λ f. omega (arith, frames f);
                })
                free)
      ])

-- `allocate_specific_page` took exactly the frame `target` out of the free blocks.
pub record Taken (l : Lists) (target : ℕ) (s' : Pmm) : Type 0 where
  pub after : Lists
  pub wf : Wf s' after
  pub frames : (f : ℕ) → cover l f ≡ cover after f + in_block 0 target f
  pub count : pages l ≡ pages after + 1

take_page-Taken :
    {s : Pmm} {l : Lists} (target : ℕ) (found : ℕ × ℕ)
    → Wf s l
    → Hit l target found
    → Taken l target (take_page s target found.0 found.1)
unfolding take_page
take_page-Taken {s} {l} target found w h =
    let (order, curr) = found in
    let is = w.core.blocks order curr h.within h.member in
    let pfn = ptr_frame curr in
    let core = Core-remove w.core order h.within curr pfn h.member refl in
    let gone = cover-erase l order h.within curr h.member in
    let rest =
      carve-Carved order pfn target h.within core is.aligned h.holds
        (λ f. omega (arith, w.once f, gone f)) in
    let memory = SameMemory-trans (remove_memory s curr pfn order) rest.memory in
    let count : pages l ≡ pages rest.after + 1 =
      omega (arith, rest.count, pages-erase l order h.within curr h.member) in
    record {
      after = rest.after;
      wf = record {
        core = Core-statistics _ _ rest.core;
        once = λ f. omega (arith, w.once f, rest.frames f, gone f);
        free = rw (memory.free_kept, w.free) (omega (arith, count));
        total = omega (arith, w.total, memory.free_kept, memory.used_kept, memory.total_kept);
      };
      frames = λ f. omega (arith, rest.frames f, gone f);
      count = count;
    }

-- Under the invariant and with fuel for the longest list, either `allocate_specific_page`
-- succeeds, keeps the invariant and takes exactly the target frame out of the free ones, or it
-- fails, no free block holds the frame, and nothing changes.
pub allocate_specific_page-Taken :
    (fuel : ℕ) {s : Pmm} {l : Lists} (target_pfn : ℕ)
    → Enough fuel l
    → Wf s l
    → (((allocate_specific_page fuel s target_pfn).0 ≡ true)
        × Taken l target_pfn (allocate_specific_page fuel s target_pfn).1)
      ⊎ ((allocate_specific_page fuel s target_pfn ≡ (false, s)) × (cover l target_pfn ≡ 0))
unfolding allocate_specific_page
allocate_specific_page-Taken fuel {s} {l} target_pfn enough w =
    outcome (scan 11 fuel s target_pfn 0) (scan-Searched fuel target_pfn enough w)
  where
    answer : Option (ℕ × ℕ) → Bool × Pmm
    answer r = elim r [
      | none ↦ (false, s)
      | some (order, curr) ↦ (true, take_page s target_pfn order curr)
    ]

    outcome :
        (r : Option (ℕ × ℕ))
        → Searched l target_pfn r
        → (((answer r).0 ≡ true) × Taken l target_pfn (answer r).1)
          ⊎ ((answer r ≡ (false, s)) × (cover l target_pfn ≡ 0))
    outcome none h = inr (refl, h)
    outcome (some found) h = inl (refl, take_page-Taken target_pfn found w h)
