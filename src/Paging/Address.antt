-- ===== src/Paging/Address.antt =====
-- `VirtualAddressFields` of include/mm/paging.hpp.
use mio_os.Common.{
  ℕ, ◌+◌, ◌*◌, ◌/◌, ◌%◌, ◌^◌, ◌≤◌, ◌<◌, ◌≡◌, arith, bit_and, bit_or, u64, ◌<<<◌, ◌>>>◌, ◌!=◌,
  if◌then◌else◌, refl, ◌∙◌, ap, leb, ◌⊎◌, inl, inr, Bool-cases,
}
use mio_os.Common.Bits.{bit_and_mask, bit_and_range, bit_or_fields, bit_or_low}

abbrev pub index_mask : ℕ
index_mask = 0x1ff

abbrev pub offset_mask : ℕ
offset_mask = 0xfff

pub record VirtualAddressFields : Type 0 where
  pub pml4_index : ℕ
  pub pdpt_index : ℕ
  pub pd_index : ℕ
  pub pt_index : ℕ
  pub page_offset : ℕ

unfoldable pub decompose : ℕ → VirtualAddressFields
decompose va = record {
  pml4_index = bit_and (va >>> 39) index_mask;
  pdpt_index = bit_and (va >>> 30) index_mask;
  pd_index = bit_and (va >>> 21) index_mask;
  pt_index = bit_and (va >>> 12) index_mask;
  page_offset = bit_and (va >>> 0) offset_mask;
}

-- A shift to the left of a `VirtAddr` drops what does not fit 64 bits.
unfoldable pub compose : ℕ → ℕ → ℕ → ℕ → ℕ → ℕ
compose pml4 pdpt pd pt offset =
    let va =
      bit_or
        (bit_or (bit_or (bit_or (u64 (pml4 <<< 39)) (u64 (pdpt <<< 30))) (u64 (pd <<< 21)))
          (u64 (pt <<< 12)))
        offset in
    if bit_and va (2 ^ 47) != 0 then bit_or va 0xffff000000000000 else va

pub decompose_fields :
    (va : ℕ)
    → decompose va ≡ record {
      pml4_index = va / 2 ^ 39 % 512;
      pdpt_index = va / 2 ^ 30 % 512;
      pd_index = va / 2 ^ 21 % 512;
      pt_index = va / 2 ^ 12 % 512;
      page_offset = va % 4096;
    }
unfolding decompose
decompose_fields va =
    let whole : va / 2 ^ 0 ≡ va = omega arith in
    rw
      (
        bit_and_mask 9 (va / 2 ^ 39),
        bit_and_mask 9 (va / 2 ^ 30),
        bit_and_mask 9 (va / 2 ^ 21),
        bit_and_mask 9 (va / 2 ^ 12),
        bit_and_mask 12 (va / 2 ^ 0),
        whole,
      )
      refl

-- The fields side by side, without the sign extension.
abbrev packed : ℕ → ℕ → ℕ → ℕ → ℕ → ℕ
packed a b c d o = (((a * 512 + b) * 512 + c) * 512 + d) * 4096 + o

or_fields :
    (a b c d o : ℕ)
    → a < 512
    → b < 512
    → c < 512
    → d < 512
    → o < 4096
    → bit_or
        (bit_or
          (bit_or (bit_or (u64 (a <<< 39)) (u64 (b <<< 30))) (u64 (c <<< 21)))
          (u64 (d <<< 12)))
        o
      ≡ packed a b c d o
or_fields a b c d o ha hb hc hd ho =
    let a' : u64 (a * 2 ^ 39) ≡ a * 2 ^ 39 = omega arith in
    let b' : u64 (b * 2 ^ 30) ≡ b * 2 ^ 30 = omega arith in
    let c' : u64 (c * 2 ^ 21) ≡ c * 2 ^ 21 = omega arith in
    let d' : u64 (d * 2 ^ 12) ≡ d * 2 ^ 12 = omega arith in
    let ab : a * 2 ^ 39 + b * 2 ^ 30 ≡ (a * 512 + b) * 2 ^ 30 = omega arith in
    let bc : (a * 512 + b) * 2 ^ 30 + c * 2 ^ 21 ≡ ((a * 512 + b) * 512 + c) * 2 ^ 21 =
      omega arith in
    let cd : ((a * 512 + b) * 512 + c) * 2 ^ 21 + d * 2 ^ 12
        ≡ (((a * 512 + b) * 512 + c) * 512 + d) * 2 ^ 12 =
      omega arith in
    rw
      (
        a',
        b',
        c',
        d',
        bit_or_fields 39 a (b * 2 ^ 30) (omega arith),
        ab,
        bit_or_fields 30 (a * 512 + b) (c * 2 ^ 21) (omega arith),
        bc,
        bit_or_fields 21 ((a * 512 + b) * 512 + c) (d * 2 ^ 12) (omega arith),
        cd,
        bit_or_fields 12 (((a * 512 + b) * 512 + c) * 512 + d) o ho,
      )
      refl

-- What `compose` gives: the packed fields, with bit 47 spread over the upper 16 bits.
pub compose_value :
    (a b c d o : ℕ)
    → a < 512
    → b < 512
    → c < 512
    → d < 512
    → o < 4096
    → compose a b c d o
      ≡ (if leb 256 a then 0xffff000000000000 + packed a b c d o else packed a b c d o)
unfolding compose
compose_value a b c d o ha hb hc hd ho =
    let va = packed a b c d o in
    let q : va ≡ va / 2 ^ 47 * 2 ^ 47 + va % 2 ^ 47 = omega arith in
    let top : bit_and va (2 ^ 47) ≡ va / 2 ^ 47 % 2 * 2 ^ 47 =
      ap (λ (t : ℕ). bit_and t (2 ^ 47)) q
      ∙ bit_and_range 47 1 (va / 2 ^ 47) (va % 2 ^ 47) (omega arith) in
    let sign : (va / 2 ^ 47 % 2 * 2 ^ 47 != 0) ≡ leb 256 a = ground arith in
    let high : bit_or va 0xffff000000000000 ≡ 0xffff000000000000 + va =
      bit_or_low 48 0xffff va (omega arith) in
    rw (or_fields a b c d o ha hb hc hd ho, top, sign, high) refl

-- An address whose upper 17 bits are equal.
abbrev pub IsCanonical : ℕ → Type 0
IsCanonical va = (va < 2 ^ 47) ⊎ ((2 ^ 64 ≤ va + 2 ^ 47) × (va < 2 ^ 64))

-- `compose` of the fields of a canonical address is the address.
pub compose-decompose :
    (va : ℕ)
    → IsCanonical va
    → compose
        (decompose va).pml4_index
        (decompose va).pdpt_index
        (decompose va).pd_index
        (decompose va).pt_index
        (decompose va).page_offset
      ≡ va
compose-decompose va h = rw decompose_fields (
    compose_value (va / 2 ^ 39 % 512) (va / 2 ^ 30 % 512) (va / 2 ^ 21 % 512) (va / 2 ^ 12 % 512)
      (va % 4096) (omega arith) (omega arith) (omega arith) (omega arith) (omega arith)
    ∙ ground (arith, h))

unpacked :
    (h a b c d o : ℕ)
    → a < 512
    → b < 512
    → c < 512
    → d < 512
    → o < 4096
    → decompose (h * 2 ^ 48 + packed a b c d o)
      ≡ record { pml4_index = a; pdpt_index = b; pd_index = c; pt_index = d; page_offset = o }
unpacked h a b c d o ha hb hc hd ho =
    let va = h * 2 ^ 48 + packed a b c d o in
    let a' : va / 2 ^ 39 % 512 ≡ a = omega arith in
    let b' : va / 2 ^ 30 % 512 ≡ b = omega arith in
    let c' : va / 2 ^ 21 % 512 ≡ c = omega arith in
    let d' : va / 2 ^ 12 % 512 ≡ d = omega arith in
    let o' : va % 4096 ≡ o = omega arith in rw (decompose_fields, a', b', c', d', o') refl

-- `decompose` of an address that `compose` makes of four indices below 512 and an offset below
-- 4096 gives these back.
pub decompose-compose :
    (a b c d o : ℕ)
    → a < 512
    → b < 512
    → c < 512
    → d < 512
    → o < 4096
    → decompose (compose a b c d o)
      ≡ record { pml4_index = a; pdpt_index = b; pd_index = c; pt_index = d; page_offset = o }
decompose-compose a b c d o ha hb hc hd ho =
    rw (compose_value a b c d o ha hb hc hd ho) (elim (Bool-cases (leb 256 a)) [
      | inl e ↦ rw e (unpacked 0xffff a b c d o ha hb hc hd ho)
      | inr e ↦
          let low : packed a b c d o ≡ 0 * 2 ^ 48 + packed a b c d o = omega arith in
          rw e (ap decompose low ∙ unpacked 0 a b c d o ha hb hc hd ho)
    ])
