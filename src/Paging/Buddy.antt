-- ===== src/Paging/Buddy.antt =====
-- `PMM::alloc_pages()` as the page source of paging, once the buddy allocator runs.
use mio_os.Common.{ℕ, ◌/◌, ◌%◌, ◌≤◌, ◌<◌, ◌≡◌, ◌≢◌, ◌∙◌, inl, inr, ◌⊎◌, arith, []}
use mio_os.Pmm.State.{Pmm}
use mio_os.Pmm.Lists.{Lists}
use mio_os.Pmm.Order.{pages_to_order}
use mio_os.Pmm.Buddy.{alloc_buddy}
use mio_os.Pmm.Frame.{in_block_self}
use mio_os.Pmm.Invariant.{cover, aligned-lt}
use mio_os.Pmm.Cover.{Wf}
use mio_os.Pmm.Alloc.{Served, Refused, alloc_buddy-Served}
use mio_os.Paging.Entry.{IsPage}
use mio_os.Paging.Tables.{PageSource}

-- A well-formed allocator with the sequences of its lists.
abbrev pub Allocator : Type 0
Allocator = (s : Pmm) × (l : Lists) × Wf s l

abbrev OwnsFrame : Allocator → ℕ → Type 0
OwnsFrame a p = (p ≢ 0) × (p % 4096 ≡ 0) × (cover a.1 (p / 4096) ≡ 1)

abbrev Answer : Allocator → Type 0
Answer a =
    (Served a.1 (pages_to_order 1) (alloc_buddy a.0 1).0 (alloc_buddy a.0 1).1)
    ⊎ (Refused a.0 (alloc_buddy a.0 1).0 (alloc_buddy a.0 1).1
        × ((i : ℕ) → pages_to_order 1 ≤ i → i < 11 → a.1 i ≡ []))

after : (a : Allocator) → Answer a → ℕ × Allocator
after a (inl served) = ((alloc_buddy a.0 1).0, ((alloc_buddy a.0 1).1, served.after, served.wf))
after a (inr refused) = ((alloc_buddy a.0 1).0, a)

after-gives :
    (a : Allocator) (r : Answer a)
    → (after a r).0 ≢ 0
    → OwnsFrame a (after a r).0 × IsPage (after a r).0
unfolding after
after-gives a (inl served) ne =
    let order = pages_to_order 1 in
    let frame : (alloc_buddy a.0 1).0 / 4096 ≡ served.pfn = omega (arith, served.pointer) in
    let held = served.frames served.pfn in
    (
      (
        ne,
        omega (arith, served.pointer),
        rw frame (omega (arith, held, in_block_self order served.pfn, a.2.once served.pfn)),
      ),
      record {
        aligned = omega (arith, served.pointer);
        below = omega (arith, served.pointer, aligned-lt served.aligned);
      },
    )
after-gives a (inr refused) ne = absurd (ne refused.0.0)

after-keeps :
    (a : Allocator) (r : Answer a) (p : ℕ)
    → OwnsFrame (after a r).1 p
    → OwnsFrame a p × (p ≢ (after a r).0)
unfolding after
after-keeps a (inl served) p (ne, whole, free) = (
  (ne, whole, omega (arith, free, served.frames (p / 4096), a.2.once (p / 4096))),
  λ e.
      let frame : p / 4096 ≡ served.pfn = omega (arith, e, served.pointer) in
      let free' : cover served.after served.pfn ≡ 1 = rw frame at free in
      absurd (
        omega (
          arith,
          free',
          served.frames served.pfn,
          in_block_self (pages_to_order 1) served.pfn,
          a.2.once served.pfn,
        )),
)
after-keeps a (inr refused) p o = (o, λ e. o.0 (e ∙ refused.0.0))

pub buddy_source : PageSource Allocator
unfolding after
buddy_source = record {
  alloc = λ a. after a (alloc_buddy-Served 1 a.2);
  Owns = OwnsFrame;
  gives = λ a ne. after-gives a (alloc_buddy-Served 1 a.2) ne;
  keeps = λ a p o. after-keeps a (alloc_buddy-Served 1 a.2) p o;
}

-- A page that may be given out is free.
pub owned_free : (a : Allocator) (p : ℕ) → buddy_source.Owns a p → cover a.1 (p / 4096) ≡ 1
unfolding buddy_source
owned_free a p o = o.2
