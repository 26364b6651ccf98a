-- ===== src/Acpi/Madt/Entries.antt =====
-- The walk over the records against a table as the ACPI specification has it: a sequence of
-- entries.
use mio_os.Common.{
  ℕ, zero, suc, ◌+◌, ◌/◌, ◌%◌, ◌≤◌, ◌<◌, ◌≡◌, refl, arith, ◌∙◌, ltb, ◌==◌, if◌then◌else◌, Bool,
  true, false, Bool-cases, inl, inr, ◌||◌, some, List, [], ◌∷◌, ◌++◌,
}
use mathlib.Core.List.{append-nil, append_assoc}
use mio_os.Common.Seq.{length}
use mio_os.Common.Outcome.{Run}
use mio_os.Runtime.Memory.{Memory}
use mio_os.Boot.Multiboot.{load32, load64}
use mio_os.Common.Bits.{bit_and_pow}
use mio_os.Acpi.Madt.{
  CpuCoreInfo, IoapicInfo, IoapicIso, Lx2apic, SystemTopology, usable_cpu, load16, pushed,
  parse_record, parse_records, parse_madt,
}

-- An entry with its contents; of any other kind, its type and its length.
pub data Entry : Type 0 where
  lapic : (cpu_id id flags : ℕ) → Entry
  ioapic : IoapicInfo → Entry
  iso : IoapicIso → Entry
  lapic_address : ℕ → Entry
  x2apic : Lx2apic → Entry
  other : (kind size : ℕ) → Entry

abbrev pub size_of : Entry → ℕ
size_of (lapic cpu_id id flags) = 8
size_of (ioapic i) = 12
size_of (iso i) = 10
size_of (lapic_address a) = 12
size_of (x2apic i) = 16
size_of (other kind size) = size

-- Kinds that the kernel reads.
abbrev pub is_known : ℕ → Bool
is_known k = (k == 0) || ((k == 1) || ((k == 2) || ((k == 5) || (k == 9))))

-- The bytes at `p` are the entry.
abbrev pub EntryAt : Memory → ℕ → Entry → Type 0
EntryAt m p (lapic cpu_id id flags) =
    (m p ≡ 0) × (m (p + 2) ≡ cpu_id) × (m (p + 3) ≡ id) × (load32 m (p + 4) ≡ flags)
EntryAt m p (ioapic i) =
    (m p ≡ 1)
    × (m (p + 2) ≡ i.ioapic_id)
    × (load32 m (p + 4) ≡ i.ioapic_address)
    × (load32 m (p + 8) ≡ i.gsib)
EntryAt m p (iso i) =
    (m p ≡ 2)
    × (m (p + 2) ≡ i.bus_source)
    × (m (p + 3) ≡ i.irq_source)
    × (load32 m (p + 4) ≡ i.gsi)
    × (load16 m (p + 8) ≡ i.flags)
EntryAt m p (lapic_address a) = (m p ≡ 5) × (load64 m (p + 4) ≡ a)
EntryAt m p (x2apic i) =
    (m p ≡ 9)
    × (load32 m (p + 4) ≡ i.lx2apic_id)
    × (load32 m (p + 8) ≡ i.flags)
    × (load32 m (p + 12) ≡ i.acpi_id)
EntryAt m p (other kind size) = (m p ≡ kind) × (is_known kind ≡ false) × (0 < size)

-- The entries follow one another from `p` to `end`.
abbrev pub EntriesAt : Memory → ℕ → ℕ → List Entry → Type 0
EntriesAt m p end [] = p ≡ end
EntriesAt m p end (e ∷ es) =
    EntryAt m p e × (m (p + 1) ≡ size_of e) × EntriesAt m (p + size_of e) end es

-- Bit 0 of the flags says that a processor is enabled, bit 1 that it can be brought online.
abbrev pub can_run : ℕ → Bool
can_run flags = (flags % 2 == 1) || (flags / 2 % 2 == 1)

-- The entries whose push finds memory.
abbrev pub heard : (ℕ → Bool) → ℕ → List Entry → List Entry
heard room p [] = []
heard room p (e ∷ es) =
    let rest = heard room (p + size_of e) es in if room p then e ∷ rest else rest

-- What the kernel is to know: the processors that can be used, in the order of the table, the
-- I/O APICs, the overrides, and the last address given for the local APICs.
abbrev pub cpus_of : (bsp_id : ℕ) → List Entry → List CpuCoreInfo
cpus_of bsp_id [] = []
cpus_of bsp_id (lapic cpu_id id flags ∷ es) =
    if can_run flags
    then record { acpi_cpu_id = cpu_id; apic_id = id; flags = flags; is_bsp = id == bsp_id }
      ∷ cpus_of bsp_id es
    else cpus_of bsp_id es
cpus_of bsp_id (e ∷ es) = cpus_of bsp_id es

abbrev pub ioapics_of : List Entry → List IoapicInfo
ioapics_of [] = []
ioapics_of (ioapic i ∷ es) = i ∷ ioapics_of es
ioapics_of (e ∷ es) = ioapics_of es

abbrev pub overrides_of : List Entry → List IoapicIso
overrides_of [] = []
overrides_of (iso i ∷ es) = i ∷ overrides_of es
overrides_of (e ∷ es) = overrides_of es

abbrev pub x2apics_of : List Entry → List Lx2apic
x2apics_of [] = []
x2apics_of (x2apic i ∷ es) = if can_run i.flags then i ∷ x2apics_of es else x2apics_of es
x2apics_of (e ∷ es) = x2apics_of es

abbrev pub address_of : ℕ → List Entry → ℕ
address_of a [] = a
address_of a (lapic_address b ∷ es) = address_of b es
address_of a (e ∷ es) = address_of a es

-- What was known, and then what these entries say.
abbrev pub known : (bsp_id : ℕ) → SystemTopology → List Entry → SystemTopology
known bsp_id t es = record t {
  cpu_infos = t.cpu_infos ++ cpus_of bsp_id es;
  io_apics = t.io_apics ++ ioapics_of es;
  overrides = t.overrides ++ overrides_of es;
  lx2apics = t.lx2apics ++ x2apics_of es;
}

usable_cpu-can_run : (flags : ℕ) → usable_cpu flags ≡ can_run flags
usable_cpu-can_run flags = ground (arith, bit_and_pow flags 0, bit_and_pow flags 1)

-- An entry, if its push finds memory.
abbrev kept : Bool → Entry → List Entry
kept ok e = if ok then e ∷ [] else []

parse_record-known :
    (room : ℕ → Bool) (bsp_id : ℕ) (m : Memory) (p : ℕ) (t : SystemTopology) (a : ℕ) (e : Entry)
    → EntryAt m p e
    → parse_record room bsp_id m p (t, a)
      ≡ (known bsp_id t (kept (room p) e), address_of a (e ∷ []))
unfolding parse_record pushed
parse_record-known room bsp_id m p t a (lapic cpu_id id flags) (k, c, i, f) =
    let same = usable_cpu-can_run flags in
    elim (Bool-cases (can_run flags)) [
      | inl u ↦ elim (Bool-cases (room p)) [
        | inl r ↦ simp (k, c, i, f, same, u, r, append-nil)
        | inr r ↦ simp (k, c, i, f, same, u, r, append-nil)
      ]
      | inr u ↦ elim (Bool-cases (room p)) [
        | inl r ↦ simp (k, c, i, f, same, u, r, append-nil)
        | inr r ↦ simp (k, c, i, f, same, u, r, append-nil)
      ]
    ]
parse_record-known room bsp_id m p t a (ioapic i) (k, c, d, g) = elim (Bool-cases (room p)) [
  | inl r ↦ simp (k, c, d, g, r, append-nil)
  | inr r ↦ simp (k, c, d, g, r, append-nil)
]
parse_record-known room bsp_id m p t a (iso i) (k, b, c, d, g) = elim (Bool-cases (room p)) [
  | inl r ↦ simp (k, b, c, d, g, r, append-nil)
  | inr r ↦ simp (k, b, c, d, g, r, append-nil)
]
parse_record-known room bsp_id m p t a (lapic_address b) (k, c) = elim (Bool-cases (room p)) [
  | inl r ↦ simp (k, c, r, append-nil)
  | inr r ↦ simp (k, c, r, append-nil)
]
parse_record-known room bsp_id m p t a (x2apic i) (k, c, f, d) =
    let same = usable_cpu-can_run i.flags in
    elim (Bool-cases (can_run i.flags)) [
      | inl u ↦ elim (Bool-cases (room p)) [
        | inl r ↦ simp (k, c, f, d, same, u, r, append-nil)
        | inr r ↦ simp (k, c, f, d, same, u, r, append-nil)
      ]
      | inr u ↦ elim (Bool-cases (room p)) [
        | inl r ↦ simp (k, c, f, d, same, u, r, append-nil)
        | inr r ↦ simp (k, c, f, d, same, u, r, append-nil)
      ]
    ]
parse_record-known room bsp_id m p t a (other kind size) (k, z, pos) =
    let z0 : (kind == 0) ≡ false = ground arith in
    let z1 : (kind == 1) ≡ false = ground arith in
    let z2 : (kind == 2) ≡ false = ground arith in
    let z5 : (kind == 5) ≡ false = ground arith in
    let z9 : (kind == 9) ≡ false = ground arith in
    elim (Bool-cases (room p)) [
      | inl r ↦ simp (k, z0, z1, z2, z5, z9, r, append-nil)
      | inr r ↦ simp (k, z0, z1, z2, z5, z9, r, append-nil)
    ]

size_of_pos : (m : Memory) (p : ℕ) (e : Entry) → EntryAt m p e → 0 < size_of e
size_of_pos m p (lapic cpu_id id flags) h = omega arith
size_of_pos m p (ioapic i) h = omega arith
size_of_pos m p (iso i) h = omega arith
size_of_pos m p (lapic_address b) h = omega arith
size_of_pos m p (x2apic i) h = omega arith
size_of_pos m p (other kind size) h = h.2

EntriesAt-le : (m : Memory) (p end : ℕ) (es : List Entry) → EntriesAt m p end es → p ≤ end
EntriesAt-le m p end [] h = omega arith
EntriesAt-le m p end (e ∷ es) (h, z, rest) =
    omega (arith, EntriesAt-le m (p + size_of e) end es rest)

-- One entry, and then others.
known-known :
    (bsp_id : ℕ) (t : SystemTopology) (e : Entry) (es : List Entry)
    → known bsp_id (known bsp_id t (e ∷ [])) es ≡ known bsp_id t (e ∷ es)
known-known bsp_id t (lapic cpu_id id flags) es = elim (Bool-cases (can_run flags)) [
  | inl u ↦ simp (u, append-nil, append_assoc)
  | inr u ↦ simp (u, append-nil)
]
known-known bsp_id t (ioapic i) es = simp (append-nil, append_assoc)
known-known bsp_id t (iso i) es = simp (append-nil, append_assoc)
known-known bsp_id t (lapic_address b) es = simp (append-nil)
known-known bsp_id t (x2apic i) es = elim (Bool-cases (can_run i.flags)) [
  | inl u ↦ simp (u, append-nil, append_assoc)
  | inr u ↦ simp (u, append-nil)
]
known-known bsp_id t (other kind size) es = simp (append-nil)

-- An entry as far as it is kept, and then others.
known-kept :
    (ok : Bool) (bsp_id : ℕ) (t : SystemTopology) (e : Entry) (es : List Entry)
    → known bsp_id (known bsp_id t (kept ok e)) es ≡ known bsp_id t (if ok then e ∷ es else es)
known-kept true bsp_id t e es = known-known bsp_id t e es
known-kept false bsp_id t e es = simp append-nil

address_of-one :
    (a : ℕ) (e : Entry) (es : List Entry)
    → address_of (address_of a (e ∷ [])) es ≡ address_of a (e ∷ es)
address_of-one a (lapic cpu_id id flags) es = refl
address_of-one a (ioapic i) es = refl
address_of-one a (iso i) es = refl
address_of-one a (lapic_address b) es = refl
address_of-one a (x2apic i) es = refl
address_of-one a (other kind size) es = refl

parse_records-known :
    (fuel : ℕ) (room : ℕ → Bool) (bsp_id : ℕ) (m : Memory) (p end : ℕ) (t : SystemTopology) (a : ℕ)
    (es : List Entry)
    → EntriesAt m p end es
    → length es < fuel
    → parse_records fuel room bsp_id m p end (t, a)
      ≡ some (known bsp_id t (heard room p es), address_of a es)
unfolding parse_records
parse_records-known zero room bsp_id m p end t a es h f = absurd (omega arith)
parse_records-known (suc fuel) room bsp_id m p end t a [] h f =
    let over : ltb p end ≡ false = ground arith in rw over (simp append-nil)
parse_records-known (suc fuel) room bsp_id m p end t a (e ∷ es) (h, z, rest) f =
    let pos = size_of_pos m p e h in
    let le = EntriesAt-le m (p + size_of e) end es rest in
    let more : ltb p end ≡ true = ground arith in
    let ih =
      parse_records-known fuel room bsp_id m (p + size_of e) end (known bsp_id t (kept (room p) e))
        (address_of a (e ∷ [])) es rest (omega arith) in
    rw (more, z, parse_record-known room bsp_id m p t a e h)
      (ih
        ∙ rw (known-kept (room p) bsp_id t e (heard room (p + size_of e) es), address_of-one a e es)
            refl)

-- For a MADT that holds a sequence of entries and nothing else, fuel above their number is enough
-- for `parse_madt`: it succeeds, and adds to what was known, in the order of the table, the
-- processors and x2APICs whose flags have bit 0 (enabled) or bit 1 (online capable), the I/O
-- APICs and the overrides, but of all these only those for which the push onto their list finds
-- memory; the others are lost without an error. The address of the local APICs is that of the
-- last override of it, or else that of the table.
pub parse_madt-known :
    (fuel : ℕ) (room : ℕ → Bool) (bsp_id : ℕ) (m : Memory) (madt : ℕ) (t : SystemTopology)
    (es : List Entry)
    → EntriesAt m (madt + 44) (madt + load32 m (madt + 4)) es
    → length es < fuel
    → parse_madt fuel room bsp_id m (some madt) t
      ≡ Run.done (
        true,
        record (known bsp_id t (heard room (madt + 44) es)) {
          local_apic_base_phys = address_of (load32 m (madt + 36)) es;
        },
      )
unfolding parse_madt
parse_madt-known fuel room bsp_id m madt t es h f =
    rw
      (
        parse_madt,
        parse_records-known fuel room bsp_id m (madt + 44) (madt + load32 m (madt + 4)) t
            (load32 m (madt + 36)) es h f,
      )
      refl
