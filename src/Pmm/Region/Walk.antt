-- ===== src/Pmm/Region/Walk.antt =====
-- `is_page_free` and the search of `allocate_specific_page`.
use mio_os.Common.{
  ℕ, zero, suc, ◌+◌, ◌≤◌, ◌<◌, ◌≡◌, ◌≢◌, refl, ◌⊎◌, inl, inr, true, false, Option, none, some, List,
  [], ◌∷◌, arith, ◌==◌, Bool-cases,
}
use mio_os.Common.Seq.{◌∈◌, length}
use mio_os.Pmm.State.{BuddyFreeNode, Pmm, ptr_frame}
use mio_os.Pmm.FreeList.Chain.{Chain}
use mio_os.Pmm.Lists.{Lists}
use mio_os.Pmm.Weigh.{sum, weigh-zero, mem-le-weigh}
use mio_os.Pmm.Frame.{in_block}
use mio_os.Pmm.Invariant.{cover}
use mio_os.Pmm.Cover.{Wf}
use mio_os.Pmm.Region.{walk, scan, is_page_free}

-- A walk ends at a block with the frame, or no block of the list has it.
abbrev Walked : ℕ → ℕ → List ℕ → ℕ → Type 0
Walked o f xs r =
    ((r ≢ 0) × (r ∈ xs) × (in_block o (ptr_frame r) f ≡ 1))
    ⊎ ((r ≡ 0) × (sum (λ a. in_block o (ptr_frame a) f) xs ≡ 0))

walk-Walked :
    (fuel : ℕ) (node : ℕ → BuddyFreeNode) (o f prev p : ℕ) (xs : List ℕ)
    → Chain node prev p xs
    → length xs < fuel
    → Walked o f xs (walk fuel node o f p)
unfolding walk
walk-Walked zero node o f prev p xs c h = absurd (omega arith)
walk-Walked (suc fuel) node o f prev p [] c h = ground arith
walk-Walked (suc fuel) node o f prev p (x ∷ xs) c h =
    let tail : Chain node p (node p).next xs = rw c.0 c.3 in
    let rest = walk-Walked fuel node o f p (node p).next xs tail (omega arith) in
    ground (arith, rest, c.0, c.1)

-- The first order from `order` on whose list has a block with the frame, or none has.
pub record Hit (l : Lists) (f : ℕ) (found : ℕ × ℕ) : Type 0 where
  pub within : found.0 < 11
  pub member : found.1 ∈ l found.0
  pub holds : in_block found.0 (ptr_frame found.1) f ≡ 1

abbrev Scanned : Lists → ℕ → ℕ → Option (ℕ × ℕ) → Type 0
Scanned l f order none =
    (i : ℕ) → order ≤ i → i < 11 → sum (λ a. in_block i (ptr_frame a) f) (l i) ≡ 0
Scanned l f order (some found) = Hit l f found

-- The fuel exceeds the length of every list.
abbrev pub Enough : ℕ → Lists → Type 0
Enough fuel l = (o : ℕ) → o < 11 → length (l o) < fuel

scan-Scanned :
    (left fuel : ℕ) {s : Pmm} {l : Lists} (f order : ℕ)
    → order + left ≡ 11
    → Enough fuel l
    → Wf s l
    → Scanned l f order (scan left fuel s f order)
unfolding scan
scan-Scanned zero fuel f order e enough w = λ i p q. absurd (omega arith)
scan-Scanned (suc left) fuel {s} {l} f order e enough w =
    let lt : order < 11 = omega arith in
    let curr = walk fuel s.node order f (s.free_lists order) in
    let here =
      walk-Walked fuel s.node order f 0 (s.free_lists order) (l order) (w.core.rep.chain order lt)
        (enough order lt) in
    elim here [
      | inl h ↦
          let ne : (curr == 0) ≡ false = ground (arith, h.0) in
          rw ne (record { within = lt; member = h.1; holds = h.2 })
      | inr h ↦
          let rest = scan-Scanned left fuel f (order + 1) (omega arith) enough w in
          rw h.0 (skip l f order h.1 (scan left fuel s f (order + 1)) rest)
    ]
  where
    skip :
        (l : Lists) (f order : ℕ)
        → sum (λ a. in_block order (ptr_frame a) f) (l order) ≡ 0
        → (r : Option (ℕ × ℕ)) → Scanned l f (order + 1) r
        → Scanned l f order r
    skip l f order z none rest = λ i p q. elim (Bool-cases (i == order)) [
      | inl e ↦ let i_eq : i ≡ order = ground arith in rw i_eq z
      | inr e ↦ rest i (ground arith) q
    ]
    skip l f order z (some found) rest = rest

abbrev pub Searched : Lists → ℕ → Option (ℕ × ℕ) → Type 0
Searched l f none = cover l f ≡ 0
Searched l f (some found) = Hit l f found

pub scan-Searched :
    (fuel : ℕ) {s : Pmm} {l : Lists} (f : ℕ)
    → Enough fuel l
    → Wf s l
    → Searched l f (scan 11 fuel s f 0)
scan-Searched fuel {s} {l} f enough w =
    whole (scan 11 fuel s f 0) (scan-Scanned 11 fuel f 0 refl enough w)
  where
    whole : (r : Option (ℕ × ℕ)) → Scanned l f 0 r → Searched l f r
    whole none h = weigh-zero (λ o a. in_block o (ptr_frame a) f) 11 l (λ i p. h i (omega arith) p)
    whole (some found) h = h

-- Under the invariant and with fuel for the longest list, `is_page_free` says whether some free
-- block holds the frame.
pub is_page_free_iff :
    (fuel : ℕ) {s : Pmm} {l : Lists} (target_pfn : ℕ)
    → Enough fuel l
    → Wf s l
    → is_page_free fuel s target_pfn ≡ (cover l target_pfn == 1)
unfolding is_page_free
is_page_free_iff fuel {s} {l} target_pfn enough w =
    answer (scan 11 fuel s target_pfn 0) (scan-Searched fuel target_pfn enough w)
  where
    answer :
        (r : Option (ℕ × ℕ))
        → Searched l target_pfn r
        → (elim r [ none ↦ false | some _ ↦ true ]) ≡ (cover l target_pfn == 1)
    answer none h = ground arith
    answer (some found) h =
        let held =
          mem-le-weigh (λ o a. in_block o (ptr_frame a) target_pfn) 11 found.0 found.1 l h.within
            h.member in
        ground (arith, held, h.holds, w.once target_pfn)
