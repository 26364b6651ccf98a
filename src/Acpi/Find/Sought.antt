-- ===== src/Acpi/Find/Sought.antt =====
-- What `find_sdp` returns.
use mio_os.Common.{
  ℕ, zero, suc, ◌+◌, ◌*◌, ◌^◌, ◌≤◌, ◌<◌, ◌≡◌, ◌≢◌, inl, inr, refl, arith, add64, ◌==◌, ◌!=◌, Bool,
  ◌&&◌, ◌||◌, Option, none, some, Bool-cases, true, false, List,
}
use mio_os.Common.Seq.{length}
use mio_os.Common.Outcome.{Run}
use mio_os.Mm.{hhdm_base}
use mio_os.Runtime.Memory.{Memory}
use mio_os.Boot.Multiboot.{load32, load64, get_acpi_new, get_acpi_old, get_efi64}
use mio_os.Boot.Tags.{Tag, TagsAt, first_of, find_tag-first}
use mio_os.Boot.Uefi.{
  compare_guid, load_guid, acpi20_guid, acpi10_guid, scan_tables, scan_uefi_for_rsdp,
}
use mio_os.Acpi.Rsdp.{is_valid_sdp, scan_memory_for_sdp}
use mio_os.Acpi.Scan.{
  IsBytes, IsSdp, is_valid_sdp-IsSdp, found, nothing, scan_memory_for_sdp-Scanned,
}
use mio_os.Acpi.Find.{SdpState, in_tag, or_else, ebda_address, find_sdp}

-- A source answers with a valid descriptor, or with `nullptr`.
abbrev Answer : Memory → ℕ → Option ℕ → Type 0
Answer m text none = ⊥
Answer m text (some p) = p ≢ 0 → IsSdp m text p

-- A valid descriptor was found and kept, or there was a panic, and none lies in the two areas of
-- the BIOS.
pub data Sought (m : Memory) (text : ℕ) (st : SdpState) (r : Run (ℕ × SdpState)) : Type 0 where
  kept :
      (p : ℕ)
      → p ≢ 0
      → IsSdp m text p
      → r ≡ Run.done (p, record st { sdp = p })
      → Sought m text st r
  missing :
      r ≡ Run.panicked
      → ((j : ℕ) → 0xE0000 + 16 * j < 0xFFFFF → IsSdp m text (0xE0000 + 16 * j + hhdm_base) → ⊥)
      → ((j : ℕ) → j < 64 → IsSdp m text (ebda_address m + 16 * j + hhdm_base) → ⊥)
      → Sought m text st r

module _ (m : Memory) (text : ℕ) (bytes : IsBytes m) (lit : text ≢ 0) where
  valid-IsSdp : (p : ℕ) → is_valid_sdp m text p ≡ true → p ≢ 0 → IsSdp m text p
  valid-IsSdp p e ne = elim (is_valid_sdp-IsSdp m text p bytes lit ne) [
    | inl (_, d) ↦ d
    | inr (e', _) ↦ absurd (clash e e')
  ]
    where
      clash : {b : Bool} → b ≡ true → b ≡ false → ⊥
      clash h h' = cc

  -- An intermediate source, before one that does what it should.
  or_else-Sought :
      (st : SdpState) (o : Option ℕ) (rest : Run (ℕ × SdpState))
      → Answer m text o
      → Sought m text st rest
      → Sought m text st (or_else st o rest)
  unfolding or_else
  or_else-Sought st none rest a s = absurd a
  or_else-Sought st (some p) rest a s = elim (Bool-cases (p == 0)) [
    | inl z ↦ rw z s
    | inr ne ↦ let ne' : p ≢ 0 = ground arith in rw ne (kept p ne' (a ne') refl)
  ]

  in_tag-Answer : (o : Option ℕ) (t : ℕ) → o ≡ some t → Answer m text (in_tag m text o)
  unfolding in_tag
  in_tag-Answer none t e = cc
  in_tag-Answer (some tag) t e = elim (Bool-cases ((tag != 0) && is_valid_sdp m text (tag + 8))) [
    | inr out ↦ rw out (λ ne. absurd (ne refl))
    | inl good ↦ rw good (λ ne. valid-IsSdp (tag + 8) (right (tag != 0) good) ne)
  ]
    where
      right : (a : Bool) {b : Bool} → (a && b) ≡ true → b ≡ true
      right true h = h
      right false h = cc

  scan_tables-valid :
      (entries entry fallback : ℕ)
      → (fallback ≢ 0 → IsSdp m text fallback)
      → (let p = scan_tables entries m text entry fallback in p ≢ 0 → IsSdp m text p)
  unfolding scan_tables
  scan_tables-valid zero entry fallback ok = ok
  scan_tables-valid (suc entries) entry fallback ok =
      let table = add64 (load64 m (entry + 16)) hhdm_base in
      let ih = scan_tables-valid entries (entry + 24) in
      elim (Bool-cases (is_valid_sdp m text table)) [
        | inl good ↦ elim (Bool-cases (compare_guid (load_guid m entry) acpi20_guid)) [
          | inl new ↦ rw (new, good) (valid-IsSdp table good)
          | inr other ↦ elim (Bool-cases (compare_guid (load_guid m entry) acpi10_guid)) [
            | inl old ↦ rw (other, old, good) (ih table (valid-IsSdp table good))
            | inr neither ↦ rw (other, neither) (ih fallback ok)
          ]
        ]
        | inr bad ↦ elim (Bool-cases (compare_guid (load_guid m entry) acpi20_guid)) [
          | inl new ↦ rw (new, bad) (ih fallback ok)
          | inr other ↦ elim (Bool-cases (compare_guid (load_guid m entry) acpi10_guid)) [
            | inl old ↦ rw (other, old, bad) (ih fallback ok)
            | inr neither ↦ rw (other, neither) (ih fallback ok)
          ]
        ]
      ]

  scan_uefi-Answer :
      (fuel info efi_tag : ℕ)
      → get_efi64 fuel m info ≡ some efi_tag
      → Answer m text (scan_uefi_for_rsdp fuel m text info)
  unfolding scan_uefi_for_rsdp
  scan_uefi-Answer fuel info efi_tag e = elim (Bool-cases (efi_tag == 0)) [
    | inl z ↦ rw (scan_uefi_for_rsdp, e, z) (λ ne. absurd (ne refl))
    | inr real ↦
        let sys_table = add64 (load64 m (efi_tag + 8)) hhdm_base in
        rw (scan_uefi_for_rsdp, e, real)
          (scan_tables-valid (load64 m (sys_table + 104))
            (add64 (load64 m (sys_table + 112)) hhdm_base) 0 (λ ne. absurd (ne refl)))
  ]

  low_ebda : ebda_address m + 1024 ≤ 2 ^ 47
  unfolding ebda_address
  low_ebda =
      let a = bytes (0x40E + hhdm_base) in let b = bytes (0x40F + hhdm_base) in omega (arith, a, b)

  or_else-hit :
      (st : SdpState) (p : ℕ) (rest : Run (ℕ × SdpState))
      → p ≢ 0
      → IsSdp m text p
      → Sought m text st (or_else st (some p) rest)
  unfolding or_else
  or_else-hit st p rest ne d =
      let real : (p == 0) ≡ false = ground arith in rw real (kept p ne d refl)

  -- The two areas of the BIOS, and then a panic.
  bios-Sought :
      (st : SdpState) (rounds : ℕ)
      → 8192 ≤ rounds
      → (let ebda = ebda_address m in
          Sought m text st (
            or_else st
              (scan_memory_for_sdp (suc rounds) m text ebda (ebda + 1024))
              (or_else st (scan_memory_for_sdp (suc rounds) m text 0xE0000 0xFFFFF) Run.panicked)))
  unfolding or_else
  bios-Sought st rounds enough =
      let ebda = ebda_address m in
      elim (scan_memory_for_sdp-Scanned m text ebda (ebda + 1024) rounds bytes lit
        (omega (arith, low_ebda)) (omega arith)) [
          | found k below d before e phys ↦ rw e (or_else-hit st _ _ (λ z. omega arith) d)
          | nothing none_here e ↦
              rw e
                (elim (scan_memory_for_sdp-Scanned m text 0xE0000 0xFFFFF rounds bytes lit
                  (omega arith) (omega arith)) [
                    | found k below d before e' phys ↦
                        rw e' (or_else-hit st _ _ (λ z. omega arith) d)
                    | nothing none_there e' ↦
                        rw e' (missing refl none_there (λ j h. none_here j (omega arith)))
                  ])
        ]

-- In a memory of bytes, for boot information with a sequence of tags as above, not null, before
-- the ACPI memory is reclaimed, fuel above the number of tags and 8192 is enough for `find_sdp`:
-- it returns a pointer, not null, to a valid descriptor, and keeps it in `sdp`; or the kernel
-- panics, and no descriptor stands at a step of 16 of the main BIOS area or of the first 1024
-- bytes of the extended one.
pub find_sdp-Sought :
    (m : Memory) (text : ℕ) (st : SdpState) (info rounds : ℕ) (ts : List Tag)
    → IsBytes m
    → text ≢ 0
    → info ≢ 0
    → st.acpi_reclaimed ≡ false
    → TagsAt m (info + load32 m info) (info + 8) ts
    → length ts ≤ rounds
    → 8192 ≤ rounds
    → Sought m text st (find_sdp (suc rounds) m text st info)
unfolding find_sdp get_acpi_new get_acpi_old get_efi64
find_sdp-Sought m text st info rounds ts bytes lit ne fresh tags few enough =
    let go : ((info == 0) || st.acpi_reclaimed) ≡ false = ground arith in
    let tag = λ (kind : ℕ). find_tag-first (suc rounds) m info kind ts (omega arith) tags in
    rw go (
      or_else-Sought m text bytes lit st _ _ (in_tag-Answer m text bytes lit _ _ (tag 15)) (
        or_else-Sought m text bytes lit st _ _ (in_tag-Answer m text bytes lit _ _ (tag 14)) (
          or_else-Sought m text bytes lit st _ _
            (scan_uefi-Answer m text bytes lit (suc rounds) info (first_of 12 (info + 8) ts)
              (tag 12))
            (bios-Sought m text bytes lit st rounds enough))))
