-- ===== src/Pmm/Region/Mark.antt =====
-- `mark_region_used`, `mark_region_free` and `alloc_page_below_1mib`, over whole ranges of frames.
use native.Mathlib.Nat.{one-le-pow}
use mio_os.Common.{
  ℕ, zero, suc, ◌+◌, ◌-◌, ◌*◌, ◌/◌, ◌^◌, ◌≤◌, ◌<◌, ◌≡◌, ◌≢◌, ◌⊎◌, inl, inr, true, false, arith, ltb,
  leb, ◌==◌, ◌&&◌, Bool-cases, if◌then◌else◌, ◌>>>◌, add64,
}
use mio_os.Mm.Align.{align_down-page, align_up-page}
use mio_os.Pmm.State.{Pmm}
use mio_os.Pmm.Lists.{Lists}
use mio_os.Pmm.Weigh.{length-le-weigh}
use mio_os.Pmm.Order.{pages_to_order}
use mio_os.Pmm.Buddy.{free_pages}
use mio_os.Pmm.Frame.{IsAligned, frame_limit, in_block}
use mio_os.Pmm.Invariant.{cover, pages}
use mio_os.Pmm.Cover.{Wf}
use mio_os.Pmm.Free.{free_pages_order-Released}
use mio_os.Pmm.Region.{
  allocate_specific_page, is_page_free, free_loop, used_loop, mark_region_free, mark_region_used,
}
use mio_os.Pmm.Region.Walk.{Enough, is_page_free_iff}
use mio_os.Pmm.Region.Take.{allocate_specific_page-Taken}

pub Enough-of_pages : (fuel : ℕ) (l : Lists) → pages l < fuel → Enough fuel l
Enough-of_pages fuel l h o o_lt =
    omega (arith, length-le-weigh (λ i. 2 ^ i) 11 o l o_lt (one-le-pow o 2 (omega arith)))

-- The allocator is well formed and frame `f` is in `want f` free blocks.
pub record Marked (want : ℕ → ℕ) (s' : Pmm) : Type 0 where
  pub after : Lists
  pub wf : Wf s' after
  pub frames : (f : ℕ) → cover after f ≡ want f

-- The frames from `q` to below `end` count `v`, the others as before.
abbrev pub ranged : ℕ → ℕ → ℕ → Lists → ℕ → ℕ
ranged v q end l f = if leb q f && ltb f end then v else cover l f

-- One page is taken, if it was free.
record One (v : ℕ) (l : Lists) (q : ℕ) (s' : Pmm) : Type 0 where
  after : Lists
  wf : Wf s' after
  frames : (f : ℕ) → cover after f ≡ (if f == q then v else cover l f)
  count : pages after ≤ pages l + v

take-One :
    (fuel : ℕ) {s : Pmm} {l : Lists} (q : ℕ)
    → pages l < fuel
    → Wf s l
    → One 0 l q (allocate_specific_page fuel s q).1
take-One fuel {s} {l} q enough w =
    elim (allocate_specific_page-Taken fuel q (Enough-of_pages fuel l enough) w) [
      | inl (e, t) ↦ record {
        after = t.after;
        wf = t.wf;
        frames = λ f. ground (arith, t.frames f, w.once f, one-le-pow 0 2);
        count = omega (arith, t.count);
      }
      | inr (e, z) ↦ rw e (record {
        after = l;
        wf = w;
        frames = λ f. unheld f (Bool-cases (f == q)) z;
        count = omega arith;
      })
    ]
  where
    unheld :
        (f : ℕ)
        → ((f == q) ≡ true) ⊎ ((f == q) ≡ false)
        → cover l q ≡ 0
        → cover l f ≡ (if f == q then 0 else cover l f)
    unheld f (inl e) z = let e' : f ≡ q = ground arith in rw (e, e') z
    unheld f (inr e) z = rw e

used_loop-Marked :
    (rounds fuel : ℕ) {s : Pmm} {l : Lists} (q : ℕ)
    → (q + rounds) * 4096 < 2 ^ 64
    → pages l < fuel
    → Wf s l
    → Marked (ranged 0 q (q + rounds) l) (used_loop rounds fuel s (q * 4096) ((q + rounds) * 4096))
unfolding used_loop
used_loop-Marked zero fuel q h enough w = record { after = _; wf = w; frames = λ f. ground arith }
used_loop-Marked (suc rounds) fuel {s} {l} q h enough w =
    let one = take-One fuel q enough w in
    let rest =
      used_loop-Marked rounds fuel (q + 1) (omega arith) (omega (arith, one.count)) one.wf in
    let frame : (q * 4096) >>> 12 ≡ q = omega arith in
    let next : add64 (q * 4096) 4096 ≡ (q + 1) * 4096 = omega arith in
    let bound : q + suc rounds ≡ q + 1 + rounds = omega arith in
    let more : ltb (q * 4096) ((q + 1 + rounds) * 4096) ≡ true = ground arith in
    rw (bound, more, frame, next)
      (record {
        after = rest.after;
        wf = rest.wf;
        frames = λ f. ground (arith, rest.frames f, one.frames f);
      })

-- One page is freed, if it was not free.
give-One :
    (fuel : ℕ) {s : Pmm} {l : Lists} (q : ℕ)
    → q ≢ 0
    → q < frame_limit
    → pages l < fuel
    → Wf s l
    → One 1 l q (if is_page_free fuel s q then s else free_pages s (q * 4096) 1)
unfolding free_pages pages_to_order
give-One fuel {s} {l} q ne below enough w =
    rw (is_page_free_iff fuel q (Enough-of_pages fuel l enough) w)
      (elim (Bool-cases (cover l q == 1)) [
        | inl e ↦ rw e (record {
          after = l;
          wf = w;
          frames = λ f. held f (Bool-cases (f == q)) (ground arith);
          count = omega arith;
        })
        | inr e ↦
            let vacant : cover l q ≡ 0 = ground (arith, w.once q) in
            let aligned : IsAligned 0 q = record {
              index = q;
              multiple = omega arith;
              below = omega arith;
            } in
            let back =
              free_pages_order-Released q 0 (omega arith) ne w aligned
                (λ f. single f (Bool-cases (f == q)) vacant (w.once f)) in
            rw e (record {
              after = back.after;
              wf = back.wf;
              frames = λ f. new f (Bool-cases (f == q)) vacant (back.frames f);
              count = omega (arith, back.count);
            })
      ])
  where
    held :
        (f : ℕ)
        → ((f == q) ≡ true) ⊎ ((f == q) ≡ false)
        → cover l q ≡ 1
        → cover l f ≡ (if f == q then 1 else cover l f)
    held f (inl e) z = let e' : f ≡ q = ground arith in rw (e, e') z
    held f (inr e) z = rw e

    single :
        (f : ℕ)
        → ((f == q) ≡ true) ⊎ ((f == q) ≡ false)
        → cover l q ≡ 0
        → cover l f ≤ 1
        → cover l f + in_block 0 q f ≤ 1
    single f (inl e) z once =
        let e' : f ≡ q = ground arith in rw (e', z) (ground (arith, one-le-pow 0 2))
    single f (inr e) z once = ground (arith, one-le-pow 0 2)

    new :
        (f : ℕ)
        → ((f == q) ≡ true) ⊎ ((f == q) ≡ false)
        → cover l q ≡ 0
        → {c : ℕ} → c ≡ cover l f + in_block 0 q f
        → c ≡ (if f == q then 1 else cover l f)
    new f (inl e) z {c} k =
        let e' : f ≡ q = ground arith in
        let k' : c ≡ cover l q + in_block 0 q q = rw e' at k in
        rw (e, k', z) (ground (arith, one-le-pow 0 2))
    new f (inr e) z k = ground (arith, one-le-pow 0 2)

free_loop-Marked :
    (rounds fuel : ℕ) {s : Pmm} {l : Lists} (q : ℕ)
    → q ≢ 0
    → q + rounds ≤ frame_limit
    → pages l + rounds < fuel
    → Wf s l
    → Marked (ranged 1 q (q + rounds) l) (free_loop rounds fuel s (q * 4096) ((q + rounds) * 4096))
unfolding free_loop
free_loop-Marked zero fuel q ne h enough w = record {
  after = _;
  wf = w;
  frames = λ f. ground arith;
}
free_loop-Marked (suc rounds) fuel {s} {l} q ne h enough w =
    let one = give-One fuel q ne (omega arith) (omega arith) w in
    let rest =
      free_loop-Marked rounds fuel (q + 1) (λ z. omega arith) (omega arith)
        (omega (arith, one.count)) one.wf in
    let frame : (q * 4096) >>> 12 ≡ q = omega arith in
    let next : add64 (q * 4096) 4096 ≡ (q + 1) * 4096 = omega arith in
    let bound : q + suc rounds ≡ q + 1 + rounds = omega arith in
    let more : ltb (q * 4096) ((q + 1 + rounds) * 4096) ≡ true = ground arith in
    rw (bound, more, frame, next)
      (record {
        after = rest.after;
        wf = rest.wf;
        frames = λ f. ground (arith, rest.frames f, one.frames f);
      })

-- `mark_region_used` of a region that ends with its last page below 2 ^ 64, with the buddy
-- allocator running, the invariant and fuel for all free pages, keeps the invariant; afterwards
-- no page that the region touches is free, and every other page is free exactly if it was.
pub mark_region_used-Marked :
    (fuel : ℕ) {s : Pmm} {l : Lists} (base length : ℕ)
    → s.initialized_buddy ≡ true
    → base + length + 4095 < 2 ^ 64
    → pages l < fuel
    → Wf s l
    → Marked
        (ranged 0 (base / 4096) ((base + length + 4095) / 4096) l)
        (mark_region_used fuel s base length)
unfolding mark_region_used
mark_region_used-Marked fuel {s} {l} base length running h enough w =
    let q = base / 4096 in
    let end = (base + length + 4095) / 4096 in
    let rounds = (end * 4096 - q * 4096) / 4096 in
    let whole : end ≡ q + rounds = omega arith in
    let wrap : add64 base length ≡ base + length = omega arith in
    rw (wrap, align_down-page base (omega arith), align_up-page (base + length) h)
      (simp running
        (rw (← whole) at (used_loop-Marked rounds fuel q (omega (arith, whole)) enough w)))

-- `mark_region_free` of a region of at least 4095 bytes above address 0 and below 2 ^ 47, with
-- the buddy allocator running, the invariant and fuel for the free pages and the region, keeps
-- the invariant; afterwards every page that lies wholly in the region is free, once, and every
-- other page is free exactly if it was.
pub mark_region_free-Marked :
    (fuel : ℕ) {s : Pmm} {l : Lists} (base length : ℕ)
    → s.initialized_buddy ≡ true
    → 0 < base
    → 4095 ≤ length
    → base + length < 2 ^ 47
    → pages l + length < fuel
    → Wf s l
    → Marked
        (ranged 1 ((base + 4095) / 4096) ((base + length) / 4096) l)
        (mark_region_free fuel s base length)
unfolding mark_region_free
mark_region_free-Marked fuel {s} {l} base length running pos long h enough w =
    let q = (base + 4095) / 4096 in
    let end = (base + length) / 4096 in
    let rounds = (end * 4096 - q * 4096) / 4096 in
    let whole : end ≡ q + rounds = omega arith in
    let wrap : add64 base length ≡ base + length = omega arith in
    rw (wrap, align_up-page base (omega arith), align_down-page (base + length) (omega arith))
      (simp running (
        rw (← whole) at (
          free_loop-Marked rounds fuel q (λ z. omega arith) (omega (arith, whole))
            (omega (arith, whole)) w)))
