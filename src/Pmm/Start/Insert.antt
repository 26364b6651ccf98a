-- ===== src/Pmm/Start/Insert.antt =====
-- The loop over a region, and the visit of all regions.
use mio_os.Common.{
  ℕ, zero, suc, ◌+◌, ◌*◌, ◌/◌, ◌^◌, ◌≤◌, ◌<◌, ◌≡◌, inl, inr, true, false, refl, arith, ltb, sym,
  subst, ◌∙◌, leb, ◌&&◌, ◌||◌, not, Bool, Bool-cases, if◌then◌else◌, add64, Option, some, List, [],
  ◌∷◌,
}
use mio_os.Mm.{page_size, align_up, align_down}
use mio_os.Mm.Align.{align_up-page, align_down-page}
use mio_os.Pmm.State.{Pmm, MemoryEntry}
use mio_os.Pmm.Lists.{Lists}
use mio_os.Pmm.Invariant.{cover}
use mio_os.Pmm.Cover.{Wf}
use mio_os.Pmm.Start.{advance, insert_region, insert_entries}
use mio_os.Pmm.Start.Advance.{Kept, Kept-refl, Kept-trans, open_frame, Advanced, advance-Advanced}

-- A frame behind a range is as it was.
past :
    (q next f c : ℕ) (b : Bool)
    → next ≤ f
    → c ≡ 0
    → (if (leb q f && ltb f next) && b then 1 else c) ≡ 0
past q next f c b h z = ground arith

-- A range and the one that follows it.
joined :
    (q next e f c c1 c2 : ℕ) (o : Bool)
    → q < next
    → c1 ≡ (if (leb q f && ltb f next) && (ltb f e && o) then 1 else c)
    → c2 ≡ (if (leb next f && ltb f e) && o then 1 else c1)
    → c2 ≡ (if (leb q f && ltb f e) && o then 1 else c)
joined q next e f c c1 c2 true lt h h' = ground arith
joined q next e f c c1 c2 false lt h h' = ground arith

-- The pages that lie wholly in a region.
abbrev pub in_region : MemoryEntry → ℕ → Bool
in_region ent f =
    ent.is_usable && (leb ((ent.addr + 4095) / 4096) f && ltb f ((ent.addr + ent.len) / 4096))

abbrev pub in_usable : List MemoryEntry → ℕ → Bool
in_usable [] f = false
in_usable (ent ∷ ents) f = in_region ent f || in_usable ents f

-- Regions end below frame `limit`, and no page lies in two that are usable.
abbrev pub IsMap : ℕ → List MemoryEntry → Type 0
IsMap limit [] = Unit {0}
IsMap limit (ent ∷ ents) =
    (ent.addr + ent.len < limit * 4096)
    × ((f : ℕ) → in_region ent f ≡ true → in_usable ents f ≡ false)
    × IsMap limit ents

or_right : (a : Bool) {b : Bool} → b ≡ true → (a || b) ≡ true
or_right true h = refl
or_right false h = h

untouched : (a o : Bool) {c : ℕ} → (a ≡ true → ⊥) → c ≡ 0 → (if a && o then 1 else c) ≡ 0
untouched true o out z = absurd (out refl)
untouched false o out z = z

-- One region more.
one_more :
    (a b o : Bool) (c c1 c2 : ℕ)
    → (a ≡ true → b ≡ false)
    → c1 ≡ (if a && o then 1 else c)
    → c2 ≡ (if b && o then 1 else c1)
    → c2 ≡ (if (a || b) && o then 1 else c)
one_more true true o c c1 c2 apart h h' = let z = apart refl in cc
one_more true false true c c1 c2 apart h h' = h' ∙ h
one_more true false false c c1 c2 apart h h' = h' ∙ h
one_more false true true c c1 c2 apart h h' = h'
one_more false true false c c1 c2 apart h h' = h' ∙ h
one_more false false o c c1 c2 apart h h' = h' ∙ h

module _ (kernel_start mbi_end highest bump_end : ℕ) where
  abbrev is_open : ℕ → Bool
  is_open = open_frame kernel_start mbi_end highest bump_end

  -- The visit ends, keeps the invariant, and makes the open frames of `inside` free.
  pub record Inserted (s : Pmm) (l : Lists) (inside : ℕ → Bool) (r : Option Pmm) : Type 0 where
    pub state : Pmm
    pub ended : r ≡ some state
    pub kept : Kept s state
    pub after : Lists
    pub wf : Wf state after
    pub frames :
        (f : ℕ)
        → cover after f ≡ (
            if inside f && open_frame kernel_start mbi_end highest bump_end f then 1 else cover l f)

  insert_region-Inserted :
      (fuel : ℕ) (s : Pmm) (l : Lists) (q e : ℕ)
      → Wf s l
      → s.highest_reserved_phys ≡ highest
      → align_up highest page_size ≡ mbi_end * 4096
      → s.bump_ptr_phys ≡ bump_end * 4096
      → e ≤ 2 ^ 35
      → 0 < fuel
      → e < q + fuel
      → ((f : ℕ) → q ≤ f → f < e → cover l f ≡ 0)
      → Inserted s l
          (λ f. leb q f && ltb f e)
          (insert_region fuel kernel_start (mbi_end * 4096) s (q * 4096) (e * 4096))
  unfolding insert_region
  insert_region-Inserted zero s l q e w high mbi bump small some_fuel enough vacant =
      absurd (omega arith)
  insert_region-Inserted (suc fuel) s l q e w high mbi bump small some_fuel enough vacant =
      elim (Bool-cases (ltb (q * 4096) (e * 4096))) [
        | inr over ↦ rw over (record {
          state = s;
          ended = refl;
          kept = Kept-refl s;
          after = l;
          wf = w;
          frames = λ f. ground arith;
        })
        | inl more ↦
            let below : q < e = ground arith in
            let one =
              subst
                (λ h.
                  Advanced kernel_start mbi_end h bump_end s l q e
                    (advance kernel_start (mbi_end * 4096) s (q * 4096) (e * 4096)))
                high
                (advance-Advanced kernel_start mbi_end bump_end s l q e w
                  (subst (λ h. align_up h page_size ≡ mbi_end * 4096) (sym high) mbi) bump below
                  small vacant) in
            let rest =
              insert_region-Inserted fuel _ one.after one.next e one.wf (one.kept.highest ∙ high)
                mbi (one.kept.bump ∙ bump) small (omega (arith, one.onward))
                (omega (arith, one.onward))
                (λ f above lt.
                  one.frames f
                  ∙ past q one.next f _ _ above (vacant f (omega (arith, one.onward)) lt)) in
            rw (more, one.address)
              (record {
                state = rest.state;
                ended = rest.ended;
                kept = Kept-trans one.kept rest.kept;
                after = rest.after;
                wf = rest.wf;
                frames = λ f.
                    joined q one.next e f _ _ _ (is_open f) one.onward (one.frames f)
                      (rest.frames f);
              })
      ]

  -- One entry of the map: a usable region is inserted, any other is passed over.
  insert_entry-Inserted :
      (fuel limit : ℕ) (s : Pmm) (l : Lists) (ent : MemoryEntry)
      → Wf s l
      → s.highest_reserved_phys ≡ highest
      → align_up highest page_size ≡ mbi_end * 4096
      → s.bump_ptr_phys ≡ bump_end * 4096
      → limit ≤ 2 ^ 35
      → limit < fuel
      → ent.addr + ent.len < limit * 4096
      → ((f : ℕ) → in_region ent f ≡ true → cover l f ≡ 0)
      → Inserted s l (in_region ent) (
          if not ent.is_usable
          then some s
          else insert_region fuel kernel_start
              (mbi_end * 4096)
              s
              (align_up ent.addr page_size)
              (align_down (add64 ent.addr ent.len) page_size))
  insert_entry-Inserted fuel limit s l ent w high mbi bump small enough ends vacant =
      elim (Bool-cases ent.is_usable) [
        | inr unusable ↦ simp unusable (record {
          state = s;
          ended = refl;
          kept = Kept-refl s;
          after = l;
          wf = w;
          frames = λ f. simp unusable refl;
        })
        | inl usable ↦
            let wrap : add64 ent.addr ent.len ≡ ent.addr + ent.len = omega arith in
            let done =
              insert_region-Inserted fuel s l ((ent.addr + 4095) / 4096)
                ((ent.addr + ent.len) / 4096) w high mbi bump (omega arith) (omega arith)
                (omega arith) (λ f above below. vacant f (simp usable (ground arith))) in
            simp
              (
                usable,
                wrap,
                align_up-page ent.addr (omega arith),
                align_down-page (ent.addr + ent.len) (omega arith),
              )
              (record {
                state = done.state;
                ended = done.ended;
                kept = done.kept;
                after = done.after;
                wf = done.wf;
                frames = λ f. simp usable (done.frames f);
              })
      ]

  pub insert_entries-Inserted :
      (fuel limit : ℕ) (s : Pmm) (l : Lists) (ents : List MemoryEntry)
      → Wf s l
      → s.highest_reserved_phys ≡ highest
      → align_up highest page_size ≡ mbi_end * 4096
      → s.bump_ptr_phys ≡ bump_end * 4096
      → limit ≤ 2 ^ 35
      → limit < fuel
      → IsMap limit ents
      → ((f : ℕ) → in_usable ents f ≡ true → cover l f ≡ 0)
      → Inserted s l (in_usable ents) (insert_entries fuel kernel_start (mbi_end * 4096) s ents)
  unfolding insert_entries
  insert_entries-Inserted fuel limit s l [] w high mbi bump small enough m vacant = record {
    state = s;
    ended = refl;
    kept = Kept-refl s;
    after = l;
    wf = w;
    frames = λ f. refl;
  }
  insert_entries-Inserted fuel limit s l (ent ∷ ents) w high mbi bump small enough m vacant =
      let one =
        insert_entry-Inserted fuel limit s l ent w high mbi bump small enough m.0
          (λ f h. vacant f (rw h refl)) in
      let rest =
        insert_entries-Inserted fuel limit one.state one.after ents one.wf (one.kept.highest ∙ high)
          mbi (one.kept.bump ∙ bump) small enough m.2
          (λ f h. one.frames f ∙ still ent f (is_open f) h (m.1 f) (vacant f (later ent f h))) in
      rw (insert_entries, one.ended)
        (record {
          state = rest.state;
          ended = rest.ended;
          kept = Kept-trans one.kept rest.kept;
          after = rest.after;
          wf = rest.wf;
          frames = λ f.
              one_more (in_region ent f) (in_usable ents f) (is_open f) _ _ _ (m.1 f) (one.frames f)
                (rest.frames f);
        })
    where
      later :
          (ent : MemoryEntry) (f : ℕ)
          → in_usable ents f ≡ true
          → (in_region ent f || in_usable ents f) ≡ true
      later ent f h = or_right (in_region ent f) h

      still :
          (ent : MemoryEntry) (f : ℕ) (o : Bool)
          → in_usable ents f ≡ true
          → (in_region ent f ≡ true → in_usable ents f ≡ false)
          → cover l f ≡ 0
          → (if in_region ent f && o then 1 else cover l f) ≡ 0
      still ent f o h apart z = untouched (in_region ent f) o (λ a. let b = apart a in cc) z
