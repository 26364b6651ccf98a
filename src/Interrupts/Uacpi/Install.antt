-- ===== src/Interrupts/Uacpi/Install.antt =====
-- What installing and uninstalling a handler does to the calls of the trampoline.
use mio_os.Common.{
  ℕ, ◌+◌, ◌-◌, ◌%◌, ◌^◌, ◌<◌, ◌≡◌, ◌≢◌, ◌⊎◌, inl, inr, refl, arith, u8, ◌==◌, ◌!=◌, if◌then◌else◌,
  true, false, none, some, List, Bool-cases, Option-cases, ap, ◌∙◌,
}
use mio_os.Interrupts.Ioapic.{
  Ioapic, Override, get_gsi_for_irq, get_ioapic_for_gsi, find_gsi_and_write_rte,
  register_interrupt_handler, unregister_interrupt_handler, modify,
}
use mio_os.Interrupts.Uacpi.{
  Entry, success, no_resource, invalid_argument, Host, install_interrupt_handler,
  uninstall_interrupt_handler, uacpi_interrupt_trampoline, get_uacpi_entry, clear_entry,
}
use mio_os.Interrupts.Uacpi.Slots.{
  find, installed, has_room, allocate-installed, find-installed, IsUnique, IsUnique-installed,
  find-cleared, IsUnique-cleared, call_of, trampoline-find, get_uacpi_entry-find,
}

-- The answer is 0 or 1, and never the -1 that its callers test for.
pub find_gsi_answer :
    (overrides : List Override) (sci_irq bsp_id : ℕ) (ioapics : List Ioapic)
    (vector destination : ℕ)
    → ((find_gsi_and_write_rte overrides sci_irq bsp_id ioapics vector destination).0 == 2 ^ 32 - 1)
      ≡ false
unfolding find_gsi_and_write_rte
find_gsi_answer overrides sci_irq bsp_id ioapics vector destination =
    let gsi = (get_gsi_for_irq overrides sci_irq ((vector + 256 - 32) % 256)).0 in
    elim (Option-cases (get_ioapic_for_gsi gsi ioapics)) [
      | inl e ↦ rw (e, find_gsi_and_write_rte) refl
      | inr (k, e) ↦ rw (e, find_gsi_and_write_rte) refl
    ]

-- The state after an installation for vector `v`.
pub record Added (s : Host) (v handler ctx : ℕ) (s' : Host) : Type 0 where
  pub unique : IsUnique s'.entries
  pub calls :
      (x : ℕ)
      → x < 256
      → uacpi_interrupt_trampoline s'.entries x ≡ (
          if v == x
          then if handler != 0 then some (handler, ctx) else none
          else uacpi_interrupt_trampoline s.entries x)
  pub routes : (x : ℕ) → s'.handlers x ≡ (if x == v then s.trampoline else s.handlers x)

module _ (s : Host) (irq handler ctx : ℕ) (u : IsUnique s.entries)
    (absent : find s.entries (u8 (32 + irq)) ≡ none) where
  abbrev v : ℕ
  v = u8 (32 + irq)

  abbrev new : Entry
  new = record { handler = handler; ctx = ctx; in_use = true; vector = v }

  abbrev done : Host
  done = record s {
    entries = installed s.entries new;
    handlers = register_interrupt_handler s.handlers v s.trampoline;
    ioapics = (find_gsi_and_write_rte s.overrides s.sci_irq s.bsp_id s.ioapics v (2 ^ 32 - 1)).1;
  }

  done-Added : has_room s.entries ≡ true → Added s v handler ctx done
  done-Added room = record {
    unique = IsUnique-installed s.entries new room refl absent u;
    calls = λ x h.
        trampoline-find (installed s.entries new) x h
        ∙ ap call_of (find-installed s.entries new x room refl absent)
        ∙ by_vector x h;
    routes = λ x. registered x;
  }
    where
      by_vector :
          (x : ℕ)
          → x < 256
          → call_of (if v == x then some new else find s.entries x) ≡ (
              if v == x
              then if handler != 0 then some (handler, ctx) else none
              else uacpi_interrupt_trampoline s.entries x)
      by_vector x h = elim (Bool-cases (v == x)) [
        | inl e ↦ rw e refl
        | inr e ↦ rw (e, trampoline-find s.entries x h) refl
      ]

      registered :
          (x : ℕ)
          → register_interrupt_handler s.handlers v s.trampoline x
            ≡ (if x == v then s.trampoline else s.handlers x)
      registered x = unfold register_interrupt_handler in refl

-- If no vector has two slots and the vector of the interrupt has none, installing a handler
-- either finds every slot in use, answers that there is no resource and changes nothing; or
-- succeeds, whether an I/O APIC serves the interrupt or not: the vector is routed to the
-- trampoline, which calls the handler for it, the calls for all other vectors and the other
-- routes are as before, and still no vector has two slots.
pub install-Added :
    (s : Host) (irq handler ctx : ℕ)
    → IsUnique s.entries
    → find s.entries (u8 (32 + irq)) ≡ none
    → ((has_room s.entries ≡ false)
        × (install_interrupt_handler s irq handler ctx ≡ (no_resource, 0, s)))
      ⊎ ((has_room s.entries ≡ true)
          × (s' : Host) × (install_interrupt_handler s irq handler ctx
              ≡ (success, u8 (32 + irq), s'))
          × Added s (u8 (32 + irq)) handler ctx s')
unfolding install_interrupt_handler
install-Added s irq handler ctx u absent =
    elim (allocate-installed s.entries (u8 (32 + irq)) handler ctx) [
      | inl (a, full) ↦ inl (full, rw (a, install_interrupt_handler) refl)
      | inr (k, taken, a, room, e) ↦ inr (
        room,
        done s irq handler ctx u absent,
        rw
            (
              a,
              find_gsi_answer s.overrides s.sci_irq s.bsp_id s.ioapics (u8 (32 + irq)) (2 ^ 32 - 1),
              e,
              install_interrupt_handler,
            )
            refl,
        done-Added s irq handler ctx u absent room,
      )
    ]

-- The state after the handler of vector `v` is gone.
pub record Removed (s : Host) (v : ℕ) (s' : Host) : Type 0 where
  pub unique : IsUnique s'.entries
  pub calls :
      (x : ℕ)
      → x < 256
      → uacpi_interrupt_trampoline s'.entries x
        ≡ (if v == x then none else uacpi_interrupt_trampoline s.entries x)
  pub routes : (x : ℕ) → s'.handlers x ≡ (if x == v then 0 else s.handlers x)

-- The map holds another handler for `v`, or none.
abbrev pub Foreign : Host → ℕ → ℕ → Type 0
Foreign s v handler =
    (find s.entries v ≡ none) ⊎ ((e : Entry) × (find s.entries v ≡ some e) × (e.handler ≢ handler))

module _ (s : Host) (v k : ℕ) (e : Entry) (u : IsUnique s.entries)
    (at : get_uacpi_entry s.entries v ≡ some (k, e)) where
  abbrev cleared : Host
  cleared = record s {
    handlers = unregister_interrupt_handler s.handlers v;
    entries = modify k clear_entry s.entries;
  }

  cleared-Removed : Removed s v cleared
  cleared-Removed = record {
    unique = IsUnique-cleared s.entries v k e at u;
    calls = λ x h.
        trampoline-find (modify k clear_entry s.entries) x h
        ∙ ap call_of (find-cleared s.entries v k e x at u)
        ∙ by_vector x h;
    routes = λ x. unfold unregister_interrupt_handler in refl;
  }
    where
      by_vector :
          (x : ℕ)
          → x < 256
          → call_of (if v == x then none else find s.entries x)
            ≡ (if v == x then none else uacpi_interrupt_trampoline s.entries x)
      by_vector x h = elim (Bool-cases (v == x)) [
        | inl t ↦ rw t refl
        | inr t ↦ rw (t, trampoline-find s.entries x h) refl
      ]

-- If no vector has two slots, uninstalling a handler either finds no slot for the vector or one
-- with another handler, answers that the argument is invalid and changes nothing; or succeeds:
-- the trampoline calls nothing for the vector, which loses its route, the calls for all other
-- vectors and the other routes are as before, and no vector has two slots.
pub uninstall-Removed :
    (s : Host) (handler irq_handle : ℕ)
    → IsUnique s.entries
    → (Foreign s (u8 irq_handle) handler
        × (uninstall_interrupt_handler s handler irq_handle ≡ (invalid_argument, s)))
      ⊎ ((e : Entry) × (find s.entries (u8 irq_handle) ≡ some e)
          × (e.handler ≡ handler)
          × (s' : Host) × (uninstall_interrupt_handler s handler irq_handle ≡ (success, s'))
          × Removed s (u8 irq_handle) s')
unfolding uninstall_interrupt_handler
uninstall-Removed s handler irq_handle u = elim (get_uacpi_entry-find s.entries (u8 irq_handle)) [
  | inl (a, b) ↦ inl (inl b, rw (a, uninstall_interrupt_handler) refl)
  | inr (k, e, a, b) ↦ elim (Bool-cases (e.handler != handler)) [
    | inl other ↦ inl (inr (e, b, ground arith), rw (a, other, uninstall_interrupt_handler) refl)
    | inr same ↦ inr (
      e,
      b,
      ground arith,
      cleared s (u8 irq_handle) k e u a,
      rw (a, same, uninstall_interrupt_handler) refl,
      cleared-Removed s (u8 irq_handle) k e u a,
    )
  ]
]
