-- ===== src/Paging/Entry.antt =====
-- `PageTableEntry` of include/mm/paging.hpp.
use mio_os.Common.{
  ℕ, ◌+◌, ◌*◌, ◌/◌, ◌%◌, ◌^◌, ◌<◌, ◌≡◌, arith, bit_and, bit_or, not64, ◌!=◌, if◌then◌else◌, Bool,
  true, false, ◌||◌, refl, ap, ◌∙◌,
}
use mio_os.Paging.Flags as PageFlags
use mio_os.Paging.Flags.{has_flag}
use mio_os.Common.Bits.{bit_and_range, bit_or_low}

abbrev pub pfn_mask : ℕ
pfn_mask = 0xffffffffff000

-- The bit fields of the union; `raw` and `of_raw` go to its other view and back.
pub record PageTableEntry : Type 0 where
  pub present : ℕ
  pub writable : ℕ
  pub user : ℕ
  pub write_through : ℕ
  pub cache_disable : ℕ
  pub accessed : ℕ
  pub dirty : ℕ
  pub huge_or_pat : ℕ
  pub global : ℕ
  pub available0 : ℕ
  pub pfn : ℕ
  pub available1 : ℕ
  pub no_execute : ℕ

unfoldable pub raw : PageTableEntry → ℕ
raw e =
    e.present
    + 2 * e.writable
    + 4 * e.user
    + 8 * e.write_through
    + 16 * e.cache_disable
    + 32 * e.accessed
    + 64 * e.dirty
    + 128 * e.huge_or_pat
    + 256 * e.global
    + 512 * e.available0
    + 4096 * e.pfn
    + 2 ^ 52 * e.available1
    + 2 ^ 63 * e.no_execute

unfoldable pub of_raw : ℕ → PageTableEntry
of_raw r = record {
  present = r % 2;
  writable = r / 2 % 2;
  user = r / 4 % 2;
  write_through = r / 8 % 2;
  cache_disable = r / 16 % 2;
  accessed = r / 32 % 2;
  dirty = r / 64 % 2;
  huge_or_pat = r / 128 % 2;
  global = r / 256 % 2;
  available0 = r / 512 % 8;
  pfn = r / 4096 % 2 ^ 40;
  available1 = r / 2 ^ 52 % 2 ^ 11;
  no_execute = r / 2 ^ 63 % 2;
}

unfoldable pub physical_address : PageTableEntry → ℕ
unfolding raw
physical_address e = bit_and (raw e) pfn_mask

unfoldable pub set_physical_address : PageTableEntry → ℕ → PageTableEntry
unfolding raw of_raw
set_physical_address e pa = of_raw (bit_or (bit_and (raw e) (not64 pfn_mask)) (bit_and pa pfn_mask))

-- The constructor of the union: `raw(0)`.
abbrev pub make_empty : PageTableEntry
make_empty = record {
  present = 0;
  writable = 0;
  user = 0;
  write_through = 0;
  cache_disable = 0;
  accessed = 0;
  dirty = 0;
  huge_or_pat = 0;
  global = 0;
  available0 = 0;
  pfn = 0;
  available1 = 0;
  no_execute = 0;
}

unfoldable pub apply_flags : PageTableEntry → ℕ → PageTableEntry
unfolding has_flag
apply_flags e flags = record e {
  writable = if has_flag flags PageFlags.write then 1 else 0;
  user = if has_flag flags PageFlags.user then 1 else 0;
  write_through = if has_flag flags PageFlags.write_through then 1 else 0;
  cache_disable =
      if has_flag flags PageFlags.no_cache || has_flag flags PageFlags.write_combining
      then 1
      else 0;
  global = if has_flag flags PageFlags.global then 1 else 0;
  no_execute = if has_flag flags PageFlags.execute then 0 else 1;
  huge_or_pat =
      if has_flag flags PageFlags.huge_2m
        || (has_flag flags PageFlags.huge_1g || has_flag flags PageFlags.write_combining)
      then 1
      else 0;
}

abbrev pub is_present : PageTableEntry → Bool
is_present e = e.present != 0

abbrev pub is_huge : PageTableEntry → Bool
is_huge e = e.huge_or_pat != 0

unfoldable pub make_table : ℕ → Bool → PageTableEntry
unfolding set_physical_address
make_table next_phys user =
    set_physical_address
      (record make_empty { present = 1; writable = 1; user = if user then 1 else 0 }) next_phys

unfoldable pub make_page : ℕ → ℕ → PageTableEntry
unfolding set_physical_address apply_flags
make_page phys flags =
    apply_flags (set_physical_address (record make_empty { present = 1 }) phys) flags

unfoldable pub make_huge_2m : ℕ → ℕ → PageTableEntry
unfolding set_physical_address apply_flags
make_huge_2m phys flags =
    apply_flags (set_physical_address (record make_empty { present = 1; huge_or_pat = 1 }) phys)
      flags

unfoldable pub make_huge_1g : ℕ → ℕ → PageTableEntry
unfolding set_physical_address apply_flags
make_huge_1g phys flags =
    apply_flags (set_physical_address (record make_empty { present = 1; huge_or_pat = 1 }) phys)
      flags

-- Each field fits its width.
pub record IsEntry (e : PageTableEntry) : Type 0 where
  pub low :
      e.present
        + 2 * e.writable
        + 4 * e.user
        + 8 * e.write_through
        + 16 * e.cache_disable
        + 32 * e.accessed
        + 64 * e.dirty
        + 128 * e.huge_or_pat
        + 256 * e.global
        + 512 * e.available0
      < 4096
  pub pfn : e.pfn < 2 ^ 40

pub physical_address-pfn : (e : PageTableEntry) → IsEntry e → physical_address e ≡ e.pfn * 4096
unfolding physical_address raw
physical_address-pfn e h =
    let rest =
      e.present
      + 2 * e.writable
      + 4 * e.user
      + 8 * e.write_through
      + 16 * e.cache_disable
      + 32 * e.accessed
      + 64 * e.dirty
      + 128 * e.huge_or_pat
      + 256 * e.global
      + 512 * e.available0 in
    let q = e.pfn + 2 ^ 40 * e.available1 + 2 ^ 51 * e.no_execute in
    let split : raw e ≡ q * 2 ^ 12 + rest = omega arith in
    let whole : q % 2 ^ 40 ≡ e.pfn = omega (arith, h.pfn) in
    ap (λ (t : ℕ). bit_and t pfn_mask) split
    ∙ bit_and_range 12 40 q rest h.low
    ∙ ap (λ (t : ℕ). t * 4096) whole

-- An entry with given low bits takes an address.
stored :
    (low pa : ℕ) → low < 4096 → bit_or low (bit_and pa pfn_mask) ≡ pa / 4096 % 2 ^ 40 * 4096 + low
stored low pa h =
    let cut : pa ≡ pa / 4096 * 2 ^ 12 + pa % 4096 = omega arith in
    rw
      (ap (λ (t : ℕ). bit_and t pfn_mask) cut
        ∙ bit_and_range 12 40 (pa / 4096) (pa % 4096) (omega arith))
      (bit_or_low 12 (pa / 4096 % 2 ^ 40) low h)

pub set-pfn :
    (e : PageTableEntry) (pa low : ℕ)
    → bit_and (raw e) (not64 pfn_mask) ≡ low
    → low < 256
    → set_physical_address e pa ≡ record make_empty {
      present = low % 2;
      writable = low / 2 % 2;
      user = low / 4 % 2;
      write_through = low / 8 % 2;
      cache_disable = low / 16 % 2;
      accessed = low / 32 % 2;
      dirty = low / 64 % 2;
      huge_or_pat = low / 128 % 2;
      pfn = pa / 4096 % 2 ^ 40;
    }
unfolding set_physical_address
set-pfn e pa low k h =
    let q = pa / 4096 % 2 ^ 40 in
    let r = q * 4096 + low in
    let f0 : r % 2 ≡ low % 2 = omega arith in
    let f1 : r / 2 % 2 ≡ low / 2 % 2 = omega arith in
    let f2 : r / 4 % 2 ≡ low / 4 % 2 = omega arith in
    let f3 : r / 8 % 2 ≡ low / 8 % 2 = omega arith in
    let f4 : r / 16 % 2 ≡ low / 16 % 2 = omega arith in
    let f5 : r / 32 % 2 ≡ low / 32 % 2 = omega arith in
    let f6 : r / 64 % 2 ≡ low / 64 % 2 = omega arith in
    let f7 : r / 128 % 2 ≡ low / 128 % 2 = omega arith in
    let f8 : r / 256 % 2 ≡ 0 = omega arith in
    let f9 : r / 512 % 8 ≡ 0 = omega arith in
    let fp : r / 4096 % 2 ^ 40 ≡ q = omega arith in
    let fa : r / 2 ^ 52 % 2 ^ 11 ≡ 0 = omega arith in
    let fx : r / 2 ^ 63 % 2 ≡ 0 = omega arith in
    rw (k, stored low pa (omega arith), f0, f1, f2, f3, f4, f5, f6, f7, f8, f9, fp, fa, fx) refl

-- What a table's page and a mapped frame have: page-aligned and below 2 ^ 52.
pub record IsPage (pa : ℕ) : Type 0 where
  pub aligned : pa % 4096 ≡ 0
  pub below : pa < 2 ^ 52

whole_page : (pa : ℕ) → IsPage pa → pa / 4096 % 2 ^ 40 * 4096 ≡ pa
whole_page pa h = omega (arith, h.aligned, h.below)

table_entry :
    (pa : ℕ) (user : Bool)
    → make_table pa user ≡ record make_empty {
      present = 1;
      writable = 1;
      user = if user then 1 else 0;
      pfn = pa / 4096 % 2 ^ 40;
    }
unfolding make_table raw
table_entry pa true =
    set-pfn (record make_empty { present = 1; writable = 1; user = 1 }) pa 7 refl (omega arith)
table_entry pa false =
    set-pfn (record make_empty { present = 1; writable = 1; user = 0 }) pa 3 refl (omega arith)

low_user : (b : Bool) → 1 + 2 * 1 + 4 * (if b then 1 else 0) < 4096
low_user b = ground arith

-- An entry for a subtable is present, no leaf, and leads to the subtable.
pub make_table_lem :
    (pa : ℕ) (user : Bool)
    → IsPage pa
    → (is_present (make_table pa user) ≡ true)
      × (is_huge (make_table pa user) ≡ false)
      × (physical_address (make_table pa user) ≡ pa)
make_table_lem pa user h = rw (table_entry pa user) (
  refl,
  refl,
  physical_address-pfn _ (record { low = ground arith; pfn = omega arith }) ∙ whole_page pa h,
)

page_entry :
    (pa flags : ℕ)
    → make_page pa flags
      ≡ apply_flags (record make_empty { present = 1; pfn = pa / 4096 % 2 ^ 40 }) flags
unfolding make_page raw
page_entry pa flags =
    ap (λ e. apply_flags e flags)
      (set-pfn (record make_empty { present = 1 }) pa 1 refl (omega arith))

-- An entry for a page is present and leads to the page, whatever the flags.
pub make_page_lem :
    (pa flags : ℕ)
    → IsPage pa
    → (is_present (make_page pa flags) ≡ true) × (physical_address (make_page pa flags) ≡ pa)
unfolding apply_flags
make_page_lem pa flags h = rw (page_entry pa flags) (
  refl,
  physical_address-pfn _ (record { low = ground arith; pfn = omega arith }) ∙ whole_page pa h,
)

-- The same without the no-execute bit.
pub make_page_nx :
    (pa flags : ℕ)
    → IsPage pa
    → physical_address (record (make_page pa flags) { no_execute = 0 }) ≡ pa
unfolding apply_flags
make_page_nx pa flags h =
    rw (page_entry pa flags)
      (physical_address-pfn _ (record { low = ground arith; pfn = omega arith }) ∙ whole_page pa h)

-- An entry always holds the address of a page.
pub physical_address-IsPage : (e : PageTableEntry) → IsPage (physical_address e)
unfolding physical_address
physical_address-IsPage e =
    let r = raw e in
    let cut : r ≡ r / 4096 * 2 ^ 12 + r % 4096 = omega arith in
    let value : bit_and r pfn_mask ≡ r / 4096 % 2 ^ 40 * 4096 =
      ap (λ (t : ℕ). bit_and t pfn_mask) cut
      ∙ bit_and_range 12 40 (r / 4096) (r % 4096) (omega arith) in
    record { aligned = omega (arith, value); below = omega (arith, value) }
