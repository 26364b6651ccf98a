-- ===== src/Pmm/Bump/Restart.antt =====
-- Where the bump allocator looks once its region is used up.
use mio_os.Common.{
  ℕ, suc, ◌≡◌, refl, ap, ◌∙◌, sym, ◌⊎◌, inl, inr, add64, mul64, ltb, leb, ◌==◌, if◌then◌else◌, Bool,
  true, false, not, ◌||◌, Option, none, some, List, [], ◌∷◌, Bool-cases, ◌<◌, zero, arith,
}
use mio_os.Mm.{page_size, early_boot_map_limit, align_up}
use mio_os.Pmm.State.{Pmm, MemoryEntry}
use mio_os.Pmm.Bump.{
  visit_entry, visit_entries, checked, find_bump_alloc_region, Run, search_loop, bump,
  alloc_pages_bump,
}

-- A state that has given out nothing yet.
abbrev pub rewound : Pmm → Pmm
rewound s = record s { bump_ptr_phys = 0; bump_region_end_phys = 0 }

found_stays :
    (size : ℕ) (s : Pmm) (ents : List MemoryEntry) → visit_entries size (true, s) ents ≡ (true, s)
unfolding visit_entries
found_stays size s [] = refl
found_stays size s (ent ∷ ents) = found_stays size s ents

-- A visit finds the same region in both states or leaves both alone.
abbrev Alike : ℕ → Pmm → MemoryEntry → Type 0
Alike size s ent =
    ((visit_entry size (false, rewound s) ent ≡ (false, rewound s))
      × (visit_entry size (false, s) ent ≡ (false, s)))
    ⊎ ((s' : Pmm) × (visit_entry size (false, rewound s) ent ≡ (true, s'))
        × (visit_entry size (false, s) ent ≡ (true, s')))

visit_entry-Alike : (size : ℕ) (s : Pmm) (ent : MemoryEntry) → Alike size s ent
unfolding visit_entry
visit_entry-Alike size s ent =
    let entry_end = add64 ent.addr ent.len in
    let start =
      align_up (if ltb s.bump_watermark ent.addr then ent.addr else s.bump_watermark) page_size in
    elim (Bool-cases (not ent.is_usable || (ent.addr == 0))) [
      | inl a ↦ inl (rw a refl, rw a refl)
      | inr a ↦ elim (Bool-cases (leb entry_end s.bump_watermark)) [
        | inl b ↦ inl (rw (a, b) refl, rw (a, b) refl)
        | inr b ↦ elim (Bool-cases (ltb early_boot_map_limit (add64 start size))) [
          | inl c ↦ inl (rw (a, b, c) refl, rw (a, b, c) refl)
          | inr c ↦ elim (Bool-cases (leb (add64 start size) entry_end)) [
            | inl d ↦ inr (
              record s {
                bump_ptr_phys = start;
                bump_region_end_phys =
                    if ltb early_boot_map_limit entry_end then early_boot_map_limit else entry_end;
              },
              rw (a, b, c, d) refl,
              rw (a, b, c, d) refl,
            )
            | inr d ↦ inl (rw (a, b, c, d) refl, rw (a, b, c, d) refl)
          ]
        ]
      ]
    ]

visit_rewound :
    (size : ℕ) (s : Pmm) (ents : List MemoryEntry)
    → checked (visit_entries size (false, rewound s) ents)
      ≡ checked (visit_entries size (false, s) ents)
unfolding visit_entries
visit_rewound size s [] = refl
visit_rewound size s (ent ∷ ents) =
    let go = λ (st : Bool × Pmm). checked (visit_entries size st ents) in
    elim (visit_entry-Alike size s ent) [
      | inl (a, b) ↦ ap go a ∙ visit_rewound size s ents ∙ sym (ap go b)
      | inr (s', a, b) ↦ ap go a ∙ sym (ap go b)
    ]

find_rewound :
    (s : Pmm) (size : ℕ) → find_bump_alloc_region (rewound s) size ≡ find_bump_alloc_region s size
unfolding find_bump_alloc_region
find_rewound s size = over s.mmap
  where
    look : Pmm → Option (List MemoryEntry) → Option Pmm
    look t o = elim o [ none ↦ none | some ents ↦ checked (visit_entries size (false, t) ents) ]

    over : (o : Option (List MemoryEntry)) → look (rewound s) o ≡ look s o
    over none = refl
    over (some ents) = visit_rewound size s ents

-- One more round of the loop.
again : ℕ → ℕ → Option Pmm → Run Pmm
again fuel size o = elim o [ none ↦ Run.panicked | some s' ↦ search_loop fuel s' size ]

search_rewound :
    (fuel : ℕ) (s : Pmm) (size : ℕ)
    → s.bump_region_end_phys < add64 s.bump_ptr_phys size
    → search_loop fuel s size ≡ search_loop fuel (rewound s) size
unfolding search_loop again
search_rewound zero s size full = refl
search_rewound (suc fuel) s size full =
    let no_room : ((s.bump_ptr_phys == 0)
          || ltb s.bump_region_end_phys (add64 s.bump_ptr_phys size))
        ≡ true =
      ground arith in
    rw no_room (ap (again fuel size) (sym (find_rewound s size)))

early_run :
    (fuel : ℕ) (s : Pmm) (num : ℕ)
    → s.initialized_buddy ≡ false
    → alloc_pages_bump fuel s num
      ≡ bump (mul64 num page_size) (search_loop fuel s (mul64 num page_size))
unfolding alloc_pages_bump
early_run fuel s num early =
    ap
      (λ b.
        if b
        then Run.done (0, s)
        else bump (mul64 num page_size) (search_loop fuel s (mul64 num page_size)))
      early

-- Before the buddy allocator runs, when a request does not fit behind the pointer,
-- `alloc_pages_bump` answers exactly as it does in the state with the pointer and the end of the
-- region reset to 0: what was given out before plays no part in the search.
pub alloc_pages_bump-rewound :
    (fuel : ℕ) (s : Pmm) (num : ℕ)
    → s.initialized_buddy ≡ false
    → s.bump_region_end_phys < add64 s.bump_ptr_phys (mul64 num page_size)
    → alloc_pages_bump fuel s num ≡ alloc_pages_bump fuel (rewound s) num
alloc_pages_bump-rewound fuel s num early full =
    early_run fuel s num early
    ∙ ap (bump (mul64 num page_size)) (search_rewound fuel s (mul64 num page_size) full)
    ∙ sym (early_run fuel (rewound s) num early)
