-- ===== src/Interrupts/Idt/Vectors.antt =====
-- Every vector has its gate once both initializations have run.
use mio_os.Common.{
  ℕ, zero, suc, ◌+◌, ◌-◌, ◌*◌, ◌^◌, ◌<◌, ◌≡◌, ◌≢◌, ◌⊎◌, refl, sym, subst, arith, u16, u32, ◌>>>◌,
  ltb, leb, ◌==◌, if◌then◌else◌, Bool, true, false, ◌&&◌, ◌||◌, some, Bool-cases, inl, inr, ◌∙◌,
}
use mio_os.Pmm.State.{update}
use mio_os.Interrupts.Idt.{
  Gate, Gates, set_gate, set_stubs, early_initialize, set_exceptions, initialize, gate_type,
  gate_dpl, gate_ist, cleared_gate,
}

-- The address that a gate leads to.
abbrev pub address : Gate → ℕ
address g = g.offset_1 + 2 ^ 16 * g.offset_2 + 2 ^ 32 * g.offset_3

abbrev gate_of : ℕ → ℕ → ℕ → ℕ → Gate
gate_of base ist type dpl = record {
  offset_1 = u16 base;
  selector = 8;
  ist = ist;
  type = type;
  zero_bit = 0;
  dpl = dpl;
  present = 1;
  offset_2 = u16 (base >>> 16);
  offset_3 = u32 (base >>> 32);
}

address-gate_of :
    (base ist type dpl : ℕ) → base < 2 ^ 64 → address (gate_of base ist type dpl) ≡ base
address-gate_of base ist type dpl h = omega arith

abbrev between : ℕ → ℕ → ℕ → Bool
between i left j = leb i j && ltb j (i + left)

one_more :
    (target gates : ℕ → Gate) (i left j : ℕ)
    → (if between (i + 1) left j then target j else update gates i (target i) j)
      ≡ (if between i (suc left) j then target j else gates j)
one_more target gates i left j = elim (Bool-cases (j == i)) [
  | inl e ↦ let e' : j ≡ i = ground arith in rw e' (ground arith)
  | inr ne ↦ ground arith
]

valid : (i : ℕ) → (ltb 7 (gate_ist i) || (ltb 3 (gate_dpl i) || ltb 15 (gate_type i))) ≡ false
valid i = ground arith

set_stubs-eq :
    (left : ℕ) (gates : Gates) (first : ℕ) (stubs : ℕ → ℕ) (i : ℕ)
    → (gates' : Gates) × (set_stubs left gates first stubs i ≡ some gates')
      × ((j : ℕ)
          → gates' j ≡ (if between i left j then gate_of (stubs (j - first)) 0 0xE 0 else gates j))
unfolding set_stubs set_gate
set_stubs-eq zero gates first stubs i = (gates, refl, λ j. ground arith)
set_stubs-eq (suc left) gates first stubs i =
    let (gates', e, all) =
      set_stubs-eq left (update gates i (gate_of (stubs (i - first)) 0 0xE 0)) first stubs
        (i + 1) in
    (gates', e, λ j. all j ∙ one_more (λ k. gate_of (stubs (k - first)) 0 0xE 0) gates i left j)

set_exceptions-eq :
    (left : ℕ) (gates : Gates) (stubs : ℕ → ℕ) (i : ℕ)
    → (gates' : Gates) × (set_exceptions left gates stubs i ≡ some gates')
      × ((j : ℕ)
          → gates' j ≡ (
              if between i left j
              then gate_of (stubs j) (gate_ist j) (gate_type j) (gate_dpl j)
              else gates j))
unfolding set_exceptions
set_exceptions-eq zero gates stubs i = (gates, refl, λ j. ground arith)
set_exceptions-eq (suc left) gates stubs i =
    let (gates', e, all) =
      set_exceptions-eq left
        (update gates i (gate_of (stubs i) (gate_ist i) (gate_type i) (gate_dpl i))) stubs
        (i + 1) in
    (
      gates',
      rw (valid i, set_exceptions) e,
      λ j.
          all j
          ∙ one_more (λ k. gate_of (stubs k) (gate_ist k) (gate_type k) (gate_dpl k)) gates i left
              j,
    )

-- What a vector is to have: the stub of its number, except for the spurious interrupt.
abbrev pub stub_of : (ℕ → ℕ) → (ℕ → ℕ) → ℕ → ℕ → ℕ
stub_of cpu_stubs hw_stubs spurious j =
    if j == 255 then spurious else if ltb j 32 then cpu_stubs j else hw_stubs (j - 32)

abbrev Leads : Gate → ℕ → ℕ → ℕ → ℕ → Type 0
Leads g base ist type dpl =
    (address g ≡ base)
    × (g.present ≡ 1)
    × (g.selector ≡ 8)
    × (g.ist ≡ ist)
    × (g.type ≡ type)
    × (g.dpl ≡ dpl)

gate_of-Leads :
    (base ist type dpl : ℕ) → base < 2 ^ 64 → Leads (gate_of base ist type dpl) base ist type dpl
gate_of-Leads base ist type dpl h =
    (address-gate_of base ist type dpl h, refl, refl, refl, refl, refl)

-- What the processor does with an exception, by its number in the manuals: the double fault (8), the
-- non-maskable interrupt (2) and the machine check (18) have stacks of their own; the debug
-- exception (1) and the breakpoint (3) keep interrupts on, as trap gates; only the breakpoint can be
-- raised by user code.
abbrev pub HasStack : (vector stack : ℕ) → Type 0
HasStack vector stack =
    ((vector ≡ 8) × (stack ≡ 1))
    ⊎ (((vector ≡ 2) × (stack ≡ 2))
        ⊎ (((vector ≡ 18) × (stack ≡ 3))
            ⊎ ((vector ≢ 8) × (vector ≢ 2) × (vector ≢ 18) × (stack ≡ 0))))

abbrev pub HasType : (vector type : ℕ) → Type 0
HasType vector type =
    (((vector ≡ 1) ⊎ (vector ≡ 3)) × (type ≡ 15)) ⊎ ((vector ≢ 1) × (vector ≢ 3) × (type ≡ 14))

abbrev pub HasLevel : (vector level : ℕ) → Type 0
HasLevel vector level = ((vector ≡ 3) × (level ≡ 3)) ⊎ ((vector ≢ 3) × (level ≡ 0))

abbrev pub Installed : (vector : ℕ) → Gate → ℕ → Type 0
Installed vector g base =
    (address g ≡ base)
    × (g.present ≡ 1)
    × (g.selector ≡ 8)
    × HasStack vector g.ist
    × HasType vector g.type
    × HasLevel vector g.dpl

gate_ist-HasStack : (j : ℕ) → HasStack j (gate_ist j)
gate_ist-HasStack j = ground arith

gate_type-HasType : (j : ℕ) → HasType j (gate_type j)
gate_type-HasType j = ground arith

gate_dpl-HasLevel : (j : ℕ) → HasLevel j (gate_dpl j)
gate_dpl-HasLevel j = ground arith

Leads-Installed :
    (j : ℕ) (g : Gate) (base : ℕ)
    → Leads g base (gate_ist j) (gate_type j) (gate_dpl j)
    → Installed j g base
Leads-Installed j g base (leads, on, code, ist, type, dpl) = (
  leads,
  on,
  code,
  subst (HasStack j) (sym ist) (gate_ist-HasStack j),
  subst (HasType j) (sym type) (gate_type-HasType j),
  subst (HasLevel j) (sym dpl) (gate_dpl-HasLevel j),
)

module _ (cpu_stubs hw_stubs : ℕ → ℕ) (spurious : ℕ) (cpu_low : (j : ℕ) → cpu_stubs j < 2 ^ 64)
    (hw_low : (j : ℕ) → hw_stubs j < 2 ^ 64) (spurious_low : spurious < 2 ^ 64) where
  -- The gate at a vector, by the loops that reach it.
  final :
      (g1 g2 g3 : Gates) (j : ℕ)
      → j < 256
      → g1 j ≡ (if between 0 32 j then gate_of (cpu_stubs (j - 0)) 0 0xE 0 else cleared_gate)
      → g2 j ≡ (if between 32 224 j then gate_of (hw_stubs (j - 32)) 0 0xE 0 else g1 j)
      → g3 j ≡ (
          if between 0 32 j
          then gate_of (cpu_stubs j) (gate_ist j) (gate_type j) (gate_dpl j)
          else g2 j)
      → Leads
          (update g3 255 (gate_of spurious 0 0xE 0) j)
          (stub_of cpu_stubs hw_stubs spurious j)
          (gate_ist j)
          (gate_type j)
          (gate_dpl j)
  final g1 g2 g3 j h e1 e2 e3 = elim (Bool-cases (j == 255)) [
    | inl top ↦ let e : j ≡ 255 = ground arith in rw e (gate_of-Leads spurious 0 0xE 0 spurious_low)
    | inr other ↦ elim (Bool-cases (ltb j 32)) [
      | inl cpu ↦
          let b : between 0 32 j ≡ true = ground arith in
          let e : g3 j ≡ gate_of (cpu_stubs j) (gate_ist j) (gate_type j) (gate_dpl j) =
            rw b at e3 in
          rw (other, cpu, e)
            (gate_of-Leads (cpu_stubs j) (gate_ist j) (gate_type j) (gate_dpl j) (cpu_low j))
      | inr hw ↦
          let b : between 0 32 j ≡ false = ground arith in
          let b' : between 32 224 j ≡ true = ground arith in
          let e : g3 j ≡ g2 j = rw b at e3 in
          let e' : g2 j ≡ gate_of (hw_stubs (j - 32)) 0 0xE 0 = rw b' at e2 in
          let plain : (gate_ist j ≡ 0) × (gate_type j ≡ 0xE) × (gate_dpl j ≡ 0) =
            (ground arith, ground arith, ground arith) in
          rw (other, hw, plain.0, plain.1, plain.2, e, e')
            (gate_of-Leads (hw_stubs (j - 32)) 0 0xE 0 (hw_low (j - 32)))
    ]
  ]

  -- For stubs with 64-bit addresses, `early_initialize` and then `initialize` do not panic, and
  -- afterwards each of the 256 vectors has a present gate of the kernel's code segment that leads
  -- to its stub (255 to the spurious handler): the double fault (8), the NMI (2) and the machine
  -- check (18) run on the stacks 1, 2 and 3 of the table of interrupt stacks and no other vector on
  -- one; the debug exception (1) and the breakpoint (3) have trap gates, the others interrupt
  -- gates; and the breakpoint alone may be raised from level 3.
  pub initialize-Installed :
      (g g' : Gates) × (early_initialize cpu_stubs hw_stubs ≡ some g)
      × (initialize g cpu_stubs spurious ≡ some g')
      × ((j : ℕ) → j < 256 → Installed j (g' j) (stub_of cpu_stubs hw_stubs spurious j))
  unfolding early_initialize initialize set_gate
  initialize-Installed =
      let (g1, e1, all1) = set_stubs-eq 32 (λ i. cleared_gate) 0 cpu_stubs 0 in
      let (g2, e2, all2) = set_stubs-eq 224 g1 32 hw_stubs 32 in
      let (g3, e3, all3) = set_exceptions-eq 32 g2 cpu_stubs 0 in
      (
        g2,
        update g3 255 (gate_of spurious 0 0xE 0),
        rw (e1, early_initialize) e2,
        rw (e3, initialize) refl,
        λ j h.
            Leads-Installed j (update g3 255 (gate_of spurious 0 0xE 0) j)
              (stub_of cpu_stubs hw_stubs spurious j)
              (final g1 g2 g3 j h (all1 j) (all2 j) (all3 j)),
      )
