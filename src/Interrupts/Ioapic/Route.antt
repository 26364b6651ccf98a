-- ===== src/Interrupts/Ioapic/Route.antt =====
-- What a redirection entry says once it is written.
use mio_os.Common.{
  ℕ, ◌+◌, ◌-◌, ◌*◌, ◌/◌, ◌%◌, ◌^◌, ◌<◌, ◌≡◌, ◌≢◌, refl, sym, arith, bit_and, ◌!=◌, if◌then◌else◌,
  Bool, true, ◌∙◌,
}
use mio_os.Common.Bits.{bit, bit_and_pow, bit-lt}
use mio_os.Interrupts.Ioapic.{Ioapic, write_rte, make_rte, lower_dword}

-- The flags of an override: bit 1 is the polarity, bit 3 the trigger mode.
polarity_lem : (flags : ℕ) → (if bit_and flags 2 != 0 then 1 else 0) ≡ bit flags 1
polarity_lem flags = ground (arith, bit_and_pow flags 1, bit-lt flags 1)

trigger_lem : (flags : ℕ) → (if bit_and flags 8 != 0 then 1 else 0) ≡ bit flags 3
trigger_lem flags = ground (arith, bit_and_pow flags 3, bit-lt flags 3)

-- The first register of the entry of a GSI on the I/O APIC that has it: the entries of its pins
-- start at 16, two registers each, and the first pin has the GSI `gsi_base`.
abbrev pub entry_of : Ioapic → ℕ → ℕ
entry_of a gsi = 16 + 2 * (gsi - a.gsi_base)

-- The entry of `gsi` is written, and nothing else.
pub record Routed (a : Ioapic) (gsi vector dest flags : ℕ) (masked : Bool) (a' : Ioapic)
    : Type 0 where
  pub vector_field : a'.register (entry_of a gsi) % 2 ^ 8 ≡ vector
  pub modes : a'.register (entry_of a gsi) / 2 ^ 8 % 2 ^ 5 ≡ 0
  pub polarity : a'.register (entry_of a gsi) / 2 ^ 13 % 2 ≡ bit flags 1
  pub trigger : a'.register (entry_of a gsi) / 2 ^ 15 % 2 ≡ bit flags 3
  pub mask : a'.register (entry_of a gsi) / 2 ^ 16 ≡ (if masked then 1 else 0)
  pub target : a'.register (entry_of a gsi + 1) ≡ 2 ^ 24 * dest
  pub others : (r : ℕ) → r ≢ entry_of a gsi → r ≢ entry_of a gsi + 1 → a'.register r ≡ a.register r
  pub same_range :
      (a'.gsi_base ≡ a.gsi_base)
      × (a'.max_entries ≡ a.max_entries)
      × (a'.initialized ≡ a.initialized)

-- The word, by its parts.
abbrev word : ℕ → ℕ → Bool → ℕ
word vector flags masked =
    vector + 2 ^ 13 * bit flags 1 + 2 ^ 15 * bit flags 3 + 2 ^ 16 * (if masked then 1 else 0)

lower-make_rte :
    (vector dest flags : ℕ) (masked : Bool)
    → lower_dword (make_rte vector dest flags masked 0 0) ≡ word vector flags masked
unfolding lower_dword make_rte
lower-make_rte vector dest flags masked = rw (polarity_lem flags, trigger_lem flags) (omega arith)

module _ (a : Ioapic) (gsi vector dest flags : ℕ) (masked : Bool) (on : a.initialized ≡ true)
    (byte : vector < 2 ^ 8) where
  abbrev written : Ioapic
  written = write_rte a gsi vector dest flags masked 0 0

  low : written.register (16 + gsi * 2) ≡ word vector flags masked
  unfolding write_rte
  low = rw on (ground arith) ∙ lower-make_rte vector dest flags masked

  high : written.register (17 + gsi * 2) ≡ 2 ^ 24 * dest
  unfolding write_rte
  high = rw on (ground arith)

  masked-lt : (if masked then 1 else 0) < 2
  masked-lt = ground arith

  -- On an initialized I/O APIC, `write_rte` with the number `gsi` and the default modes writes the
  -- entry of the GSI that lies `gsi` above the first one of that I/O APIC (that is the GSI of this
  -- number only where the first is 0): it leaves there the vector, fixed delivery, the polarity and
  -- the trigger mode of the flags, the mask bit and the destination, and changes no other register.
  pub write_rte-Routed : Routed a (a.gsi_base + gsi) vector dest flags masked written
  write_rte-Routed = record {
    vector_field = rw (here, low) (omega (arith, bit-lt flags 1, bit-lt flags 3, masked-lt));
    modes = rw (here, low) (omega (arith, bit-lt flags 1, bit-lt flags 3, masked-lt));
    polarity = rw (here, low) (omega (arith, bit-lt flags 1, bit-lt flags 3, masked-lt));
    trigger = rw (here, low) (omega (arith, bit-lt flags 1, bit-lt flags 3, masked-lt));
    mask = rw (here, low) (omega (arith, bit-lt flags 1, bit-lt flags 3, masked-lt));
    target = rw here' high;
    others = λ r ne ne'. rest r (λ e. ne (e ∙ sym here)) (λ e. ne' (e ∙ sym here'));
    same_range = same;
  }
    where
      here : entry_of a (a.gsi_base + gsi) ≡ 16 + gsi * 2
      here = omega arith

      here' : entry_of a (a.gsi_base + gsi) + 1 ≡ 17 + gsi * 2
      here' = omega arith

      rest : (r : ℕ) → r ≢ 16 + gsi * 2 → r ≢ 17 + gsi * 2 → written.register r ≡ a.register r
      rest r ne ne' = unfold write_rte in (rw on (ground arith))

      same :
          (written.gsi_base ≡ a.gsi_base)
          × (written.max_entries ≡ a.max_entries)
          × (written.initialized ≡ a.initialized)
      same = unfold write_rte in (rw on (refl, refl, refl))
