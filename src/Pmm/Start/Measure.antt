-- ===== src/Pmm/Start/Measure.antt =====
-- What the first visit of the map finds, and the state before the regions are inserted.
use mio_os.Common.{
  ℕ, ◌%◌, ◌<◌, ◌≡◌, inl, inr, refl, arith, ltb, ◌∙◌, ap, not, Bool-cases, if◌then◌else◌, add64,
  List, [], ◌∷◌,
}
use mio_os.Common.Bits.{bit-zero}
use mio_os.Pmm.State.{Pmm, MemoryEntry}
use mio_os.Pmm.Lists.{Lists}
use mio_os.Pmm.Weigh.{weigh}
use mio_os.Pmm.Invariant.{cover, pages}
use mio_os.Pmm.Cover.{Wf}
use mio_os.Pmm.Start.{measure_entry, measure_entries}

abbrev pub no_blocks : Lists
no_blocks o = []

pub no_cover : (f : ℕ) → cover no_blocks f ≡ 0
unfolding weigh
no_cover f = refl

no_pages : pages no_blocks ≡ 0
unfolding weigh
no_pages = refl

-- Empty lists and clear bitmaps, with all memory in use.
pub empty-Wf :
    (s : Pmm)
    → ((o : ℕ) → o < 11 → s.free_lists o ≡ 0)
    → s.free_memory ≡ 0
    → s.used_memory ≡ s.total_memory
    → Wf (record s { buddy_map = λ order byte_index. 0 }) no_blocks
empty-Wf s heads free used = record {
  core = record {
    rep = record { chain = λ o h. heads o h; distinct = λ o h. tt; apart = λ o i a h h' m m'. cc };
    blocks = λ o a h m. absurd cc;
    parity = λ o p h. bit-zero (p % 8);
  };
  once = λ f. omega (arith, no_cover f);
  free = omega (arith, free, no_pages);
  total = omega (arith, free, used);
}

-- What the first visit finds: the largest end and the sum of the lengths of the usable regions.
abbrev pub largest_end : ℕ → List MemoryEntry → ℕ
largest_end m [] = m
largest_end m (ent ∷ ents) =
    let entry_end = add64 ent.addr ent.len in
    largest_end (if not ent.is_usable then m else if ltb m entry_end then entry_end else m) ents

abbrev pub add_lengths : ℕ → List MemoryEntry → ℕ
add_lengths t [] = t
add_lengths t (ent ∷ ents) = add_lengths (if not ent.is_usable then t else add64 t ent.len) ents

measured_one :
    (m : ℕ) (s : Pmm) (ent : MemoryEntry)
    → measure_entry (m, s) ent ≡ (
      (if not ent.is_usable
          then m
          else if ltb m (add64 ent.addr ent.len)
          then add64 ent.addr ent.len
          else m),
      record s {
        total_memory = if not ent.is_usable then s.total_memory else add64 s.total_memory ent.len;
      },
    )
unfolding measure_entry
measured_one m s ent = elim (Bool-cases ent.is_usable) [ inl e ↦ simp e refl | inr e ↦ simp e refl ]

pub measured :
    (m : ℕ) (s : Pmm) (ents : List MemoryEntry)
    → measure_entries (m, s) ents
      ≡ (largest_end m ents, record s { total_memory = add_lengths s.total_memory ents })
unfolding measure_entries
measured m s [] = refl
measured m s (ent ∷ ents) =
    ap (λ (st : ℕ × Pmm). measure_entries st ents) (measured_one m s ent)
    ∙ measured
        (if not ent.is_usable
          then m
          else if ltb m (add64 ent.addr ent.len)
          then add64 ent.addr ent.len
          else m)
        (record s {
          total_memory = if not ent.is_usable then s.total_memory else add64 s.total_memory ent.len;
        })
        ents
