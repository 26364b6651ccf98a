-- ===== src/Interrupts/Uacpi/Slots.antt =====
-- The table of slots as a map from vectors to handlers.
use mio_os.Common.{
  ℕ, suc, ◌%◌, ◌^◌, ◌<◌, ◌≡◌, ◌⊎◌, inl, inr, refl, arith, ◌==◌, ◌!=◌, if◌then◌else◌, Bool, true,
  false, not, ◌&&◌, ◌||◌, Option, none, some, List, [], ◌∷◌, Bool-cases, Option-cases, subst, ◌∙◌,
}
use mio_os.Interrupts.Ioapic.{modify}
use mio_os.Interrupts.Uacpi.{
  Entry, allocate_uacpi_entry, get_uacpi_entry, uacpi_interrupt_trampoline, clear_entry,
}

-- The first slot in use for a vector.
abbrev pub find : List Entry → ℕ → Option Entry
find [] v = none
find (e ∷ es) v = if e.in_use && (e.vector == v) then some e else find es v

pub get_uacpi_entry-find :
    (es : List Entry) (v : ℕ)
    → ((get_uacpi_entry es v ≡ none) × (find es v ≡ none))
      ⊎ ((k : ℕ) × (e : Entry) × (get_uacpi_entry es v ≡ some (k, e)) × (find es v ≡ some e))
unfolding get_uacpi_entry
get_uacpi_entry-find [] v = inl (refl, refl)
get_uacpi_entry-find (e ∷ es) v = elim (Bool-cases (e.in_use && (e.vector == v))) [
  | inl here ↦ inr (0, e, rw here refl, rw here refl)
  | inr not_here ↦ elim (get_uacpi_entry-find es v) [
    | inl (a, b) ↦ inl (rw (not_here, a) refl, rw not_here b)
    | inr (k, f, a, b) ↦ inr (suc k, f, rw (not_here, a) refl, rw not_here b)
  ]
]

-- The slot that `allocate_uacpi_entry` takes and the writes that follow, as one.
abbrev pub installed : List Entry → Entry → List Entry
installed [] new = []
installed (e ∷ es) new = if not e.in_use then new ∷ es else e ∷ installed es new

abbrev pub has_room : List Entry → Bool
has_room [] = false
has_room (e ∷ es) = not e.in_use || has_room es

pub allocate-installed :
    (es : List Entry) (v handler ctx : ℕ)
    → ((allocate_uacpi_entry es v ≡ none) × (has_room es ≡ false))
      ⊎ ((k : ℕ) × (taken : List Entry) × (allocate_uacpi_entry es v ≡ some (k, taken))
          × (has_room es ≡ true)
          × (modify k (λ (e : Entry). record e { handler = handler; ctx = ctx }) taken
              ≡ installed es (record { handler = handler; ctx = ctx; in_use = true; vector = v })))
unfolding allocate_uacpi_entry
allocate-installed [] v handler ctx = inl (refl, refl)
allocate-installed (e ∷ es) v handler ctx = elim (Bool-cases (e.in_use)) [
  | inr unused ↦
      let t : not e.in_use ≡ true = ground arith in
      inr (0, record e { in_use = true; vector = v } ∷ es, rw t refl, rw t refl, rw t refl)
  | inl used ↦
      let t : not e.in_use ≡ false = ground arith in
      elim (allocate-installed es v handler ctx) [
        | inl (a, b) ↦ inl (rw (t, a) refl, rw t b)
        | inr (k, taken, a, b, c) ↦ inr (suc k, e ∷ taken, rw (t, a) refl, rw t b, rw (t, c) refl)
      ]
]

-- For a new vector the map gains one pair.
pub find-installed :
    (es : List Entry) (new : Entry) (v : ℕ)
    → has_room es ≡ true
    → new.in_use ≡ true
    → find es new.vector ≡ none
    → find (installed es new) v ≡ (if new.vector == v then some new else find es v)
find-installed [] new v room busy absent = absurd (cc)
find-installed (e ∷ es) new v room busy absent = elim (Bool-cases (e.in_use)) [
  | inr unused ↦ rw (unused, busy) refl
  | inl used ↦ elim (Bool-cases (e.vector == new.vector)) [
    | inl same ↦
        let t : (e.in_use && (e.vector == new.vector)) ≡ true = ground arith in
        let c : some e ≡ none = rw t at absent in absurd (cc)
    | inr other ↦
        let t : (e.in_use && (e.vector == new.vector)) ≡ false = ground arith in
        let n : not e.in_use ≡ false = ground arith in
        let absent' : find es new.vector ≡ none = rw t at absent in
        let room' : has_room es ≡ true = rw n at room in
        let ih = find-installed es new v room' busy absent' in
        elim (Bool-cases (e.in_use && (e.vector == v))) [
          | inl here ↦
              let apart : (new.vector == v) ≡ false = ground arith in rw (n, here, apart) refl
          | inr not_here ↦ rw (n, not_here) ih
        ]
  ]
]

-- No vector has two slots.
abbrev pub IsUnique : List Entry → Type 0
IsUnique [] = Unit {0}
IsUnique (e ∷ es) = (e.in_use ≡ true → find es e.vector ≡ none) × IsUnique es

pub IsUnique-installed :
    (es : List Entry) (new : Entry)
    → has_room es ≡ true
    → new.in_use ≡ true
    → find es new.vector ≡ none
    → IsUnique es
    → IsUnique (installed es new)
IsUnique-installed [] new room busy absent u = tt
IsUnique-installed (e ∷ es) new room busy absent u = elim (Bool-cases (e.in_use)) [
  | inr unused ↦
      let n : not e.in_use ≡ true = ground arith in
      let t : (e.in_use && (e.vector == new.vector)) ≡ false = ground arith in
      rw n (λ h. rw t at absent, u.1)
  | inl used ↦ elim (Bool-cases (e.vector == new.vector)) [
    | inl same ↦
        let t : (e.in_use && (e.vector == new.vector)) ≡ true = ground arith in
        let c : some e ≡ none = rw t at absent in absurd (cc)
    | inr other ↦
        let t : (e.in_use && (e.vector == new.vector)) ≡ false = ground arith in
        let n : not e.in_use ≡ false = ground arith in
        let absent' : find es new.vector ≡ none = rw t at absent in
        let room' : has_room es ≡ true = rw n at room in
        let apart : (new.vector == e.vector) ≡ false = ground arith in
        rw n (
          λ h. find-installed es new e.vector room' busy absent' ∙ rw apart (u.0 used),
          IsUnique-installed es new room' busy absent' u.1,
        )
  ]
]

-- Clearing the slot of a vector removes its pair.
pub find-cleared :
    (es : List Entry) (v k : ℕ) (e : Entry) (x : ℕ)
    → get_uacpi_entry es v ≡ some (k, e)
    → IsUnique es
    → find (modify k clear_entry es) x ≡ (if v == x then none else find es x)
unfolding get_uacpi_entry
find-cleared [] v k e x at u = absurd (cc)
find-cleared (e0 ∷ es) v k e x at u = elim (Bool-cases (e0.in_use && (e0.vector == v))) [
  | inl here ↦
      let at' : ◌≡◌ {A = Option (ℕ × Entry)} (some (0, e0)) (some (k, e)) = rw here at at in
      let first : 0 ≡ k = cc in
      let absent : find es v ≡ none =
        subst (λ (t : ℕ). find es t ≡ none) (ground arith) (u.0 (ground arith)) in
      subst
        (λ (n : ℕ).
          find (modify n clear_entry (e0 ∷ es)) x ≡ (if v == x then none else find (e0 ∷ es) x))
        first
        (elim (Bool-cases (v == x)) [
          | inl same ↦ rw same (subst (λ (t : ℕ). find es t ≡ none) (ground arith) absent)
          | inr other ↦
              let t : (e0.in_use && (e0.vector == x)) ≡ false = ground arith in rw (other, t) refl
        ])
  | inr not_here ↦ elim (Option-cases (get_uacpi_entry es v)) [
    | inl nowhere ↦
        let at' : ◌≡◌ {A = Option (ℕ × Entry)} none (some (k, e)) = rw (not_here, nowhere) at at in
        absurd (cc)
    | inr ((n, f), there) ↦
        let at' : ◌≡◌ {A = Option (ℕ × Entry)} (some (suc n, f)) (some (k, e)) =
          rw (not_here, there) at at in
        let place : suc n ≡ k = cc in
        let ih = find-cleared es v n f x there u.1 in
        subst
          (λ (m : ℕ).
            find (modify m clear_entry (e0 ∷ es)) x ≡ (if v == x then none else find (e0 ∷ es) x))
          place
          (elim (Bool-cases (e0.in_use && (e0.vector == x))) [
            | inl here ↦ let apart : (v == x) ≡ false = ground arith in rw (here, apart) refl
            | inr elsewhere ↦ rw elsewhere ih
          ])
  ]
]

pub IsUnique-cleared :
    (es : List Entry) (v k : ℕ) (e : Entry)
    → get_uacpi_entry es v ≡ some (k, e)
    → IsUnique es
    → IsUnique (modify k clear_entry es)
unfolding get_uacpi_entry
IsUnique-cleared [] v k e at u = absurd (cc)
IsUnique-cleared (e0 ∷ es) v k e at u = elim (Bool-cases (e0.in_use && (e0.vector == v))) [
  | inl here ↦
      let at' : ◌≡◌ {A = Option (ℕ × Entry)} (some (0, e0)) (some (k, e)) = rw here at at in
      let first : 0 ≡ k = cc in
      subst (λ (n : ℕ). IsUnique (modify n clear_entry (e0 ∷ es))) first (λ h. absurd (cc), u.1)
  | inr not_here ↦ elim (Option-cases (get_uacpi_entry es v)) [
    | inl nowhere ↦
        let at' : ◌≡◌ {A = Option (ℕ × Entry)} none (some (k, e)) = rw (not_here, nowhere) at at in
        absurd (cc)
    | inr ((n, f), there) ↦
        let at' : ◌≡◌ {A = Option (ℕ × Entry)} (some (suc n, f)) (some (k, e)) =
          rw (not_here, there) at at in
        let place : suc n ≡ k = cc in
        subst (λ (m : ℕ). IsUnique (modify m clear_entry (e0 ∷ es))) place
          (
            λ h. find-cleared es v n f e0.vector there u.1 ∙ ground (arith, u.0 h),
            IsUnique-cleared es v n f there u.1,
          )
  ]
]

-- The call of the trampoline, by the map.
abbrev pub call_of : Option Entry → Option (ℕ × ℕ)
call_of none = none
call_of (some e) = if e.handler != 0 then some (e.handler, e.ctx) else none

pub trampoline-find :
    (es : List Entry) (x : ℕ) → x < 256 → uacpi_interrupt_trampoline es x ≡ call_of (find es x)
unfolding uacpi_interrupt_trampoline
trampoline-find es x h =
    let small : x % 2 ^ 8 ≡ x = omega arith in
    elim (get_uacpi_entry-find es x) [
      | inl (a, b) ↦ rw (small, a, b, uacpi_interrupt_trampoline) refl
      | inr (k, e, a, b) ↦ rw (small, a, b, uacpi_interrupt_trampoline) refl
    ]
