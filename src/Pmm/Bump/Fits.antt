-- ===== src/Pmm/Bump/Fits.antt =====
-- The search of the bump allocator ends, and what it settles on has room.
use mio_os.Common.{
  ℕ, suc, ◌+◌, ◌^◌, ◌≤◌, ◌<◌, ◌≡◌, ◌≢◌, refl, ◌⊎◌, inl, inr, arith, add64, mul64, ltb, leb, ◌==◌,
  if◌then◌else◌, Bool, true, false, not, ◌||◌, Option, none, some, List, [], ◌∷◌, Bool-cases, ap,
  ◌∙◌,
}
use mio_os.Mm.{page_size, early_boot_map_limit, align_up}
use mio_os.Mm.Align.{align_up-page}
use mio_os.Pmm.State.{Pmm, MemoryEntry}
use mio_os.Pmm.Bump.{
  visit_entry, visit_entries, checked, find_bump_alloc_region, Run, search_loop, bump,
  alloc_pages_bump,
}

-- There is room for `size` bytes at the pointer.
abbrev pub Fits : ℕ → Pmm → Type 0
Fits size s = (s.bump_ptr_phys ≢ 0) × (add64 s.bump_ptr_phys size ≤ s.bump_region_end_phys)

-- Every region starts below 2 ^ 62.
abbrev pub IsLow : List MemoryEntry → Type 0
IsLow [] = Unit {0}
IsLow (ent ∷ ents) = (ent.addr < 2 ^ 62) × IsLow ents

abbrev Visited : ℕ → Pmm → Bool × Pmm → Type 0
Visited size s r = (r ≡ (false, s)) ⊎ ((s' : Pmm) × (r ≡ (true, s')) × Fits size s')

visit_entry-Visited :
    (size : ℕ) (s : Pmm) (ent : MemoryEntry)
    → s.bump_watermark < 2 ^ 62
    → ent.addr < 2 ^ 62
    → Visited size s (visit_entry size (false, s) ent)
unfolding visit_entry
visit_entry-Visited size s ent low low' =
    let entry_end = add64 ent.addr ent.len in
    let from = if ltb s.bump_watermark ent.addr then ent.addr else s.bump_watermark in
    let start = align_up from page_size in
    elim (Bool-cases (not ent.is_usable || (ent.addr == 0))) [
      | inl a ↦ inl (rw a refl)
      | inr a ↦ elim (Bool-cases (leb entry_end s.bump_watermark)) [
        | inl b ↦ inl (rw (a, b) refl)
        | inr b ↦ elim (Bool-cases (ltb early_boot_map_limit (add64 start size))) [
          | inl c ↦ inl (rw (a, b, c) refl)
          | inr c ↦ elim (Bool-cases (leb (add64 start size) entry_end)) [
            | inr d ↦ inl (rw (a, b, c, d) refl)
            | inl d ↦ inr (
              record s {
                bump_ptr_phys = start;
                bump_region_end_phys =
                    if ltb early_boot_map_limit entry_end then early_boot_map_limit else entry_end;
              },
              rw (a, b, c, d) refl,
              (nonzero ent.is_usable a, end_fits start entry_end c d),
            )
          ]
        ]
      ]
    ]
  where
    nonzero :
        (usable : Bool)
        → (not usable || (ent.addr == 0)) ≡ false
        → align_up (if ltb s.bump_watermark ent.addr then ent.addr else s.bump_watermark) page_size
          ≢ 0
    nonzero usable a =
        let from = if ltb s.bump_watermark ent.addr then ent.addr else s.bump_watermark in
        let small : from + 4095 < 2 ^ 64 = ground arith in
        let pos : 0 < from = ground arith in
        rw (align_up-page from small) (λ z. omega (arith, z, pos))

    end_fits :
        (start entry_end : ℕ)
        → ltb early_boot_map_limit (add64 start size) ≡ false
        → leb (add64 start size) entry_end ≡ true
        → add64 start size
          ≤ (if ltb early_boot_map_limit entry_end then early_boot_map_limit else entry_end)
    end_fits start entry_end c d = ground arith

settled :
    (size : ℕ) (s : Pmm) (ents : List MemoryEntry) → visit_entries size (true, s) ents ≡ (true, s)
unfolding visit_entries visit_entry
settled size s [] = refl
settled size s (ent ∷ ents) = settled size s ents

visit_entries-Visited :
    (size : ℕ) (s : Pmm) (ents : List MemoryEntry)
    → s.bump_watermark < 2 ^ 62
    → IsLow ents
    → Visited size s (visit_entries size (false, s) ents)
unfolding visit_entries
visit_entries-Visited size s [] low lows = inl refl
visit_entries-Visited size s (ent ∷ ents) low lows =
    let go = λ (st : Bool × Pmm). visit_entries size st ents in
    elim (visit_entry-Visited size s ent low lows.0) [
      | inl e ↦ elim (visit_entries-Visited size s ents low lows.1) [
        | inl q ↦ inl (ap go e ∙ q)
        | inr (s', q, f) ↦ inr (s', ap go e ∙ q, f)
      ]
      | inr (s', e, f) ↦ inr (s', ap go e ∙ settled size s' ents, f)
    ]

-- A search that the kernel survives has found room.
abbrev Searched : ℕ → Option Pmm → Type 0
Searched size none = Unit {0}
Searched size (some s') = Fits size s'

abbrev pub IsLowMap : Option (List MemoryEntry) → Type 0
IsLowMap none = Unit {0}
IsLowMap (some ents) = IsLow ents

find-Searched :
    (size : ℕ) (s : Pmm)
    → s.bump_watermark < 2 ^ 62
    → IsLowMap s.mmap
    → Searched size (find_bump_alloc_region s size)
unfolding find_bump_alloc_region
find-Searched size s low lows = over s.mmap lows
  where
    over :
        (o : Option (List MemoryEntry))
        → IsLowMap o
        → Searched size
            (elim o [ none ↦ none | some ents ↦ checked (visit_entries size (false, s) ents) ])
    over none h = tt
    over (some ents) h = elim (visit_entries-Visited size s ents low h) [
      | inl e ↦ rw e tt
      | inr (s', e, f) ↦ rw e f
    ]

-- The loop ended, with room for the request, or the kernel panicked.
abbrev Ended : ℕ → Run Pmm → Type 0
Ended size (Run.done s) = Fits size s
Ended size Run.panicked = Unit {0}
Ended size Run.running = ⊥

has_room : (fuel size : ℕ) (s : Pmm) → Fits size s → search_loop (suc fuel) s size ≡ Run.done s
unfolding search_loop
has_room fuel size s f =
    let room : ((s.bump_ptr_phys == 0) || ltb s.bump_region_end_phys (add64 s.bump_ptr_phys size))
        ≡ false =
      ground (arith, f.0, f.1) in
    rw room refl

search_loop-Ended :
    (fuel size : ℕ) (s : Pmm)
    → s.bump_watermark < 2 ^ 62
    → IsLowMap s.mmap
    → Ended size (search_loop (suc (suc fuel)) s size)
unfolding search_loop
search_loop-Ended fuel size s low lows =
    let test = (s.bump_ptr_phys == 0) || ltb s.bump_region_end_phys (add64 s.bump_ptr_phys size) in
    elim (Bool-cases test) [
      | inr e ↦ rw e (ground arith)
      | inl e ↦ rw e (next (find_bump_alloc_region s size) (find-Searched size s low lows))
    ]
  where
    next :
        (o : Option Pmm)
        → Searched size o
        → Ended size (elim o [ none ↦ Run.panicked | some s' ↦ search_loop (suc fuel) s' size ])
    next none h = tt
    next (some s') h = rw (has_room fuel size s' h) h

-- What `alloc_pages_bump` answers.
abbrev pub Bumped : ℕ → Run (ℕ × Pmm) → Type 0
Bumped size (Run.done (p, s)) =
    (p ≢ 0) × (add64 p size ≤ s.bump_region_end_phys) × (s.bump_ptr_phys ≡ add64 p size)
Bumped size Run.panicked = Unit {0}
Bumped size Run.running = ⊥

bump-Bumped : (size : ℕ) (r : Run Pmm) → Ended size r → Bumped size (bump size r)
unfolding bump
bump-Bumped size (Run.done s) f = (f.0, f.1, refl)
bump-Bumped size Run.panicked f = tt
bump-Bumped size Run.running f = f

-- Before the buddy allocator runs, if the watermark and the starts of all regions lie below 2 ^
-- 62, any fuel from 2 on is enough for `alloc_pages_bump`: it panics, or it gives out an address
-- other than 0 from which the request ends within the region, and moves the pointer behind it
-- (sums wrap at 2 ^ 64).
pub alloc_pages_bump-Bumped :
    (fuel : ℕ) (s : Pmm) (num : ℕ)
    → s.initialized_buddy ≡ false
    → s.bump_watermark < 2 ^ 62
    → IsLowMap s.mmap
    → Bumped (mul64 num page_size) (alloc_pages_bump (suc (suc fuel)) s num)
unfolding alloc_pages_bump
alloc_pages_bump-Bumped fuel s num early low lows =
    let size = mul64 num page_size in
    simp early (
      bump-Bumped size (search_loop (suc (suc fuel)) s size)
        (search_loop-Ended fuel size s low lows))
