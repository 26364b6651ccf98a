-- ===== src/Interrupts/Examples.antt =====
-- One I/O APIC, the table of uACPI with a slot in use, and the gates of small stubs.
use mio_os.Common.{ℕ, ◌+◌, ◌%◌, ◌^◌, ◌<◌, ◌≡◌, ◌⊎◌, refl, arith, true, false, some, [], ◌∷◌}
use mio_os.Interrupts.Ioapic.{Ioapic, write_rte}
use mio_os.Interrupts.Ioapic.Route.{Routed, write_rte-Routed}
use mio_os.Interrupts.Uacpi.{
  Entry, success, no_resource, invalid_argument, Host, install_interrupt_handler,
  uninstall_interrupt_handler,
}
use mio_os.Interrupts.Uacpi.Slots.{find, has_room}
use mio_os.Interrupts.Uacpi.Install.{Added, Removed, Foreign, install-Added, uninstall-Removed}
use mio_os.Interrupts.Idt.{Gates, early_initialize, initialize}
use mio_os.Interrupts.Idt.Vectors.{Installed, stub_of, initialize-Installed}

abbrev ioapic : Ioapic
ioapic = record {
  gsi_base = 0;
  initialized = true;
  max_entries = 24;
  select = 0;
  register = λ r. 0;
}

-- The second I/O APIC of a machine, whose first GSI is 24.
abbrev second : Ioapic
second = record ioapic { gsi_base = 24 }

write_rte-Routed_example :
    Routed second (24 + 9) 41 0 10 false (write_rte second 9 41 0 10 false 0 0)
write_rte-Routed_example = write_rte-Routed second 9 41 0 10 false refl (omega arith)

-- Vector 41 is in use, for the handler at 0x5000.
abbrev host : Host
host = record {
  entries =
      record { handler = 0x5000; ctx = 7; in_use = true; vector = 41 }
      ∷ record { handler = 0; ctx = 0; in_use = false; vector = 0 }
      ∷ [];
  handlers = λ v. 0;
  ioapics = ioapic ∷ [];
  overrides = [];
  sci_irq = 9;
  bsp_id = 0;
  trampoline = 0x4000;
}

install-Added_example :
    ((has_room host.entries ≡ false)
      × (install_interrupt_handler host 10 0x6000 8 ≡ (no_resource, 0, host)))
    ⊎ ((has_room host.entries ≡ true)
        × (s' : Host) × (install_interrupt_handler host 10 0x6000 8 ≡ (success, 42, s'))
        × Added host 42 0x6000 8 s')
install-Added_example = install-Added host 10 0x6000 8 (λ h. refl, (λ h. refl, tt)) refl

uninstall-Removed_example :
    (Foreign host 41 0x5000
      × (uninstall_interrupt_handler host 0x5000 41 ≡ (invalid_argument, host)))
    ⊎ ((e : Entry) × (find host.entries 41 ≡ some e)
        × (e.handler ≡ 0x5000)
        × (s' : Host) × (uninstall_interrupt_handler host 0x5000 41 ≡ (success, s'))
        × Removed host 41 s')
uninstall-Removed_example = uninstall-Removed host 0x5000 41 (λ h. refl, (λ h. refl, tt))

below : (n : ℕ) → n % 256 + 4096 < 2 ^ 64
below n = omega arith

initialize-Installed_example :
    (g g' : Gates) × (early_initialize (λ j. j % 256 + 4096) (λ j. j % 256 + 4096) ≡ some g)
    × (initialize g (λ j. j % 256 + 4096) 0x9000 ≡ some g')
    × ((j : ℕ)
        → j < 256
        → Installed j (g' j) (stub_of (λ k. k % 256 + 4096) (λ k. k % 256 + 4096) 0x9000 j))
initialize-Installed_example =
    initialize-Installed (λ j. j % 256 + 4096) (λ j. j % 256 + 4096) 0x9000 below below
      (omega arith)
