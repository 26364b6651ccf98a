-- ===== src/Pmm/Start/Moved.antt =====
-- What the bump allocator leaves alone when it gives out the memory of the bitmaps.
use mio_os.Common.{
  ℕ, zero, suc, ◌+◌, ◌*◌, ◌/◌, ◌^◌, ◌<◌, ◌≡◌, inl, inr, true, false, refl, arith, ltb, sym, subst,
  ◌∙◌, ap, leb, ◌==◌, ◌||◌, not, Bool, Bool-cases, if◌then◌else◌, add64, mul64, Option, none, some,
  List, [], ◌∷◌,
}
use mio_os.Mm.{page_size, align_up, early_boot_map_limit}
use mio_os.Mm.Align.{align_up-page}
use mio_os.Pmm.State.{Pmm, MemoryEntry}
use mio_os.Pmm.Bump.{
  visit_entry, visit_entries, checked, find_bump_alloc_region, Run, search_loop, bump,
  alloc_pages_bump,
}
use mio_os.Pmm.Bump.Fits.{IsLow, IsLowMap, Bumped, alloc_pages_bump-Bumped}

-- The bump allocator changes its pointer and the end of its region alone, and keeps the pointer
-- at the start of a page.
pub record Moved (s s' : Pmm) : Type 0 where
  pub pointer : ℕ
  pub end : ℕ
  pub same : s' ≡ record s { bump_ptr_phys = pointer * 4096; bump_region_end_phys = end }

Moved-refl : (s : Pmm) (p : ℕ) → s.bump_ptr_phys ≡ p * 4096 → Moved s s
Moved-refl s p e = record {
  pointer = p;
  end = s.bump_region_end_phys;
  same = ap (λ (x : ℕ). record s { bump_ptr_phys = x }) e;
}

Moved-trans : (s t u : Pmm) → Moved s t → Moved t u → Moved s u
Moved-trans s t u k k' = record {
  pointer = k'.pointer;
  end = k'.end;
  same =
      k'.same
      ∙ ap
          (λ (x : Pmm). record x {
            bump_ptr_phys = k'.pointer * 4096;
            bump_region_end_phys = k'.end;
          })
          k.same;
}

pub Moved-aligned : (s t : Pmm) (k : Moved s t) → t.bump_ptr_phys ≡ k.pointer * 4096
Moved-aligned s t k = ap (λ (x : Pmm). x.bump_ptr_phys) k.same

visit_entry-Moved :
    (size : ℕ) (found : Bool) (s : Pmm) (ent : MemoryEntry) (p : ℕ)
    → s.bump_ptr_phys ≡ p * 4096
    → s.bump_watermark < 2 ^ 62
    → ent.addr < 2 ^ 62
    → Moved s (visit_entry size (found, s) ent).1
unfolding visit_entry
visit_entry-Moved size true s ent p e low low' = Moved-refl s p e
visit_entry-Moved size false s ent p e low low' =
    let entry_end = add64 ent.addr ent.len in
    let from = if ltb s.bump_watermark ent.addr then ent.addr else s.bump_watermark in
    let start = align_up from page_size in
    let stay = Moved-refl s p e in
    elim (Bool-cases (not ent.is_usable || (ent.addr == 0))) [
      | inl a ↦ rw a stay
      | inr a ↦ elim (Bool-cases (leb entry_end s.bump_watermark)) [
        | inl b ↦ rw (a, b) stay
        | inr b ↦ elim (Bool-cases (ltb early_boot_map_limit (add64 start size))) [
          | inl c ↦ rw (a, b, c) stay
          | inr c ↦ elim (Bool-cases (leb (add64 start size) entry_end)) [
            | inr d ↦ rw (a, b, c, d) stay
            | inl d ↦
                let small : from + 4095 < 2 ^ 64 = ground arith in
                rw (a, b, c, d)
                  (record {
                    pointer = (from + 4095) / 4096;
                    end =
                        if ltb early_boot_map_limit entry_end
                        then early_boot_map_limit
                        else entry_end;
                    same =
                        ap
                          (λ (x : ℕ). record s {
                            bump_ptr_phys = x;
                            bump_region_end_phys =
                                if ltb early_boot_map_limit entry_end
                                then early_boot_map_limit
                                else entry_end;
                          })
                          (align_up-page from small);
                  })
          ]
        ]
      ]
    ]

visit_entries-Moved :
    (size : ℕ) (found : Bool) (s : Pmm) (ents : List MemoryEntry) (p : ℕ)
    → s.bump_ptr_phys ≡ p * 4096
    → s.bump_watermark < 2 ^ 62
    → IsLow ents
    → Moved s (visit_entries size (found, s) ents).1
unfolding visit_entries
visit_entries-Moved size found s [] p e low lows = Moved-refl s p e
visit_entries-Moved size found s (ent ∷ ents) p e low lows =
    let one = visit_entry-Moved size found s ent p e low lows.0 in
    let (found', t) = visit_entry size (found, s) ent in
    let mark : t.bump_watermark < 2 ^ 62 = rw one.same low in
    Moved-trans s t _ one
      (visit_entries-Moved size found' t ents one.pointer (Moved-aligned s t one) mark lows.1)

abbrev Found : Pmm → Option Pmm → Type 0
Found s none = Unit {0}
Found s (some t) = Moved s t

find-Moved :
    (s : Pmm) (size p : ℕ)
    → s.bump_ptr_phys ≡ p * 4096
    → s.bump_watermark < 2 ^ 62
    → IsLowMap s.mmap
    → Found s (find_bump_alloc_region s size)
unfolding find_bump_alloc_region
find-Moved s size p e low lows = over s.mmap lows
  where
    settled : (r : Bool × Pmm) → Moved s r.1 → Found s (checked r)
    settled (true, t) k = k
    settled (false, t) k = tt

    over :
        (o : Option (List MemoryEntry))
        → IsLowMap o
        → Found s
            (elim o [ none ↦ none | some ents ↦ checked (visit_entries size (false, s) ents) ])
    over none h = tt
    over (some ents) h =
        settled (visit_entries size (false, s) ents)
          (visit_entries-Moved size false s ents p e low h)

abbrev MovedRun : Pmm → Run Pmm → Type 0
MovedRun s (Run.done t) = Moved s t
MovedRun s Run.panicked = Unit {0}
MovedRun s Run.running = Unit {0}

MovedRun-trans : (s t : Pmm) (r : Run Pmm) → Moved s t → MovedRun t r → MovedRun s r
MovedRun-trans s t (Run.done u) k k' = Moved-trans s t u k k'
MovedRun-trans s t Run.panicked k k' = tt
MovedRun-trans s t Run.running k k' = tt

search_loop-Moved :
    (fuel : ℕ) (s : Pmm) (size p : ℕ)
    → s.bump_ptr_phys ≡ p * 4096
    → s.bump_watermark < 2 ^ 62
    → IsLowMap s.mmap
    → MovedRun s (search_loop fuel s size)
unfolding search_loop
search_loop-Moved zero s size p e low lows = tt
search_loop-Moved (suc fuel) s size p e low lows =
    let ih = search_loop-Moved fuel in
    elim (Bool-cases
      ((s.bump_ptr_phys == 0) || ltb s.bump_region_end_phys (add64 s.bump_ptr_phys size))) [
        | inr fits ↦ rw fits (Moved-refl s p e)
        | inl short ↦
            rw short (next ih (find_bump_alloc_region s size) (find-Moved s size p e low lows))
      ]
  where
    next :
        ((t : Pmm) (size p : ℕ)
          → t.bump_ptr_phys ≡ p * 4096
          → t.bump_watermark < 2 ^ 62
          → IsLowMap t.mmap
          → MovedRun t (search_loop fuel t size))
        → (o : Option Pmm) → Found s o
        → MovedRun s (elim o [ none ↦ Run.panicked | some t ↦ search_loop fuel t size ])
    next ih none k = tt
    next ih (some t) k =
        MovedRun-trans s t (search_loop fuel t size) k
          (ih t size k.pointer (Moved-aligned s t k) (rw k.same low) (rw k.same lows))

-- The bump allocator's answer, with a pointer at the start of a page.
abbrev pub Bitmaps : Pmm → Run (ℕ × Pmm) → Type 0
Bitmaps s (Run.done (q, t)) = Moved s t
Bitmaps s Run.panicked = Unit {0}
Bitmaps s Run.running = ⊥

bump-Moved :
    (s : Pmm) (num : ℕ) (r : Run Pmm)
    → MovedRun s r
    → Bumped (mul64 num page_size) (bump (mul64 num page_size) r)
    → Bitmaps s (bump (mul64 num page_size) r)
unfolding bump
bump-Moved s num Run.panicked k b = tt
bump-Moved s num Run.running k b = b
bump-Moved s num (Run.done t) k b =
    let next = add64 t.bump_ptr_phys (mul64 num page_size) in
    let start : next ≡ next / 4096 * 4096 = omega (arith, Moved-aligned s t k) in
    Moved-trans s t _ k (record {
      pointer = next / 4096;
      end = t.bump_region_end_phys;
      same = ap (λ (x : ℕ). record t { bump_ptr_phys = x }) start;
    })

pub alloc_pages_bump-Bitmaps :
    (fuel : ℕ) (s : Pmm) (num p : ℕ)
    → s.initialized_buddy ≡ false
    → s.bump_ptr_phys ≡ p * 4096
    → s.bump_watermark < 2 ^ 62
    → IsLowMap s.mmap
    → Bitmaps s (alloc_pages_bump (suc (suc fuel)) s num)
unfolding alloc_pages_bump
alloc_pages_bump-Bitmaps fuel s num p early e low lows =
    let size = mul64 num page_size in
    let run = search_loop (suc (suc fuel)) s size in
    let same : alloc_pages_bump (suc (suc fuel)) s num ≡ bump size run = simp early refl in
    subst (λ r. Bitmaps s r) (sym same)
      (bump-Moved s num run (search_loop-Moved (suc (suc fuel)) s size p e low lows)
        (subst (λ r. Bumped size r) same (alloc_pages_bump-Bumped fuel s num early low lows)))
