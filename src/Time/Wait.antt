-- ===== src/Time/Wait.antt =====
-- A loop that reads a counter until it has gone on far enough, as in the delays of the timers.
use mio_os.Common.{
  ◌⊎◌, ℕ, zero, suc, ◌+◌, ◌-◌, ◌^◌, ◌<◌, ◌≤◌, ◌≡◌, refl, sym, arith, ◌∙◌, ap, Bool, true, false,
  ltb, if◌then◌else◌, Bool-cases, inl, inr, sub64,
}
use mio_os.Common.Outcome.{Run, done, running}
use mio_os.Time.Monotonic.{Clock}

-- The delay ends, at the first moment behind `t` at which the counter has gone on by `ticks`.
abbrev pub Waited : Clock → (t ticks : ℕ) → Run ℕ → Type 0
Waited clock t ticks r =
    (u : ℕ) × (r ≡ done u)
    × (t < u)
    × (clock t + ticks ≤ clock u)
    × ((v : ℕ) → t < v → v < u → clock v < clock t + ticks)

-- A counter that goes on with every reading and does not wrap before the moment `last`.
abbrev pub IsRising : Clock → ℕ → Type 0
IsRising clock last = ((u : ℕ) → clock u < clock (suc u)) × (clock last < 2 ^ 64)

-- A loop that reads the counter once a moment, as long as a test holds.
abbrev pub until : (fuel : ℕ) → (ℕ → Bool) → ℕ → Run ℕ
until zero keep t = running
until (suc fuel) keep t = let rest = until fuel keep (suc t) in if keep t then rest else done t

-- It ends at the first moment at which the test fails, at most `n` moments on.
abbrev First : (ℕ → Bool) → (t n : ℕ) → Run ℕ → Type 0
First keep t n r =
    (u : ℕ) × (r ≡ done u)
    × (t ≤ u)
    × (u ≤ t + n)
    × (keep u ≡ false)
    × ((v : ℕ) → t ≤ v → v < u → keep v ≡ true)

same_or_later : (t v : ℕ) → t ≤ v → (t ≡ v) ⊎ (suc t ≤ v)
same_or_later t v h = ground arith

stopped :
    (keep : ℕ → Bool) (t n : ℕ) (rest : Run ℕ)
    → keep t ≡ false
    → First keep t n (if keep t then rest else done t)
stopped keep t n rest over =
    (t, rw over refl, omega arith, omega arith, over, λ v h h'. absurd (omega arith))

went_on :
    (keep : ℕ → Bool) (t n : ℕ) (rest : Run ℕ)
    → keep t ≡ true
    → First keep (suc t) n rest
    → First keep t (suc n) (if keep t then rest else done t)
went_on keep t n rest more (u, r, le, bound, out, before) = (
  u,
  rw more r,
  omega arith,
  omega arith,
  out,
  λ v h h'. elim (same_or_later t v h) [
    | inl same ↦ ap keep (sym same) ∙ more
    | inr later ↦ before v later h'
  ],
)

until-First :
    (fuel : ℕ) (keep : ℕ → Bool) (t n : ℕ)
    → keep (t + n) ≡ false
    → n < fuel
    → First keep t n (until fuel keep t)
until-First zero keep t n e f = absurd (omega arith)
until-First (suc fuel) keep t zero e f =
    let here : t + 0 ≡ t = omega arith in
    stopped keep t 0 (until fuel keep (suc t)) (ap keep (sym here) ∙ e)
until-First (suc fuel) keep t (suc n) e f = elim (Bool-cases (keep t)) [
  | inr over ↦ stopped keep t (suc n) (until fuel keep (suc t)) over
  | inl more ↦
      let later : suc t + n ≡ t + suc n = omega arith in
      went_on keep t n (until fuel keep (suc t)) more
        (until-First fuel keep (suc t) n (ap keep later ∙ e) (omega arith))
]

rise :
    (clock : Clock) → ((u : ℕ) → clock u < clock (suc u)) → (u n : ℕ) → clock u + n ≤ clock (u + n)
rise clock h u zero = let e : clock (u + 0) ≡ clock u = ap clock (omega arith) in omega (arith, e)
rise clock h u (suc n) =
    let a = rise clock h u n in
    let b = h (u + n) in
    let e : clock (u + suc n) ≡ clock (suc (u + n)) = ap clock (omega arith) in
    omega (arith, a, b, e)

-- Between two moments.
rise_to :
    (clock : Clock)
    → ((u : ℕ) → clock u < clock (suc u))
    → (u v : ℕ) → u ≤ v
    → clock u + (v - u) ≤ clock v
rise_to clock h u v le =
    let e : u + (v - u) ≡ v = omega arith in
    let a = rise clock h u (v - u) in
    let b : clock (u + (v - u)) ≡ clock v = ap clock e in omega (arith, a, b)

sub64-exact : (a b : ℕ) → b ≤ a → a < 2 ^ 64 → sub64 a b ≡ a - b
sub64-exact a b le small = omega arith

module _ (clock : Clock) (t ticks : ℕ) (rising : IsRising clock (suc (t + ticks))) where
  abbrev pub keep : ℕ → Bool
  keep v = ltb (sub64 (clock v) (clock t)) ticks

  abbrev pub keep' : ℕ → Bool
  keep' v = ltb (clock v) (clock t + ticks)

  pub same_test : (v : ℕ) → t ≤ v → v ≤ suc (t + ticks) → keep v ≡ keep' v
  same_test v ge le =
      let a = rise_to clock rising.0 t v ge in
      let b = rise_to clock rising.0 v (suc (t + ticks)) le in
      let c = rising.1 in
      rw (sub64-exact (clock v) (clock t) (omega (arith, a)) (omega (arith, b, c)))
        (ground (arith, a))

  last_fails : keep' (suc t + ticks) ≡ false
  last_fails = let a = rise_to clock rising.0 t (suc t + ticks) (omega arith) in ground (arith, a)

  waited :
      (r : Run ℕ) (test : ℕ → Bool)
      → ((v : ℕ) → t ≤ v → v ≤ suc (t + ticks) → test v ≡ keep' v)
      → First test (suc t) ticks r
      → Waited clock t ticks r
  waited r test same (u, e, le, bound, out, before) =
      let out' : keep' u ≡ false = sym (same u (omega arith) (omega arith)) ∙ out in
      (
        u,
        e,
        omega arith,
        ground (arith, out'),
        λ v h h'.
            let b : keep' v ≡ true =
              sym (same v (omega arith) (omega arith)) ∙ before v (omega arith) h' in
            ground (arith, b),
      )

  -- A loop with a test that says this waits for the ticks.
  pub until-Waited :
      (fuel : ℕ) (test : ℕ → Bool)
      → ((v : ℕ) → t ≤ v → v ≤ suc (t + ticks) → test v ≡ keep' v)
      → ticks < fuel
      → Waited clock t ticks (until fuel test (suc t))
  until-Waited fuel test same enough = waited (until fuel test (suc t)) test same (
      until-First fuel test (suc t) ticks
        (same (suc t + ticks) (omega arith) (omega arith) ∙ last_fails) enough)

  pub ticks_fit : clock t + ticks < 2 ^ 64
  ticks_fit =
      let a = rise_to clock rising.0 t (suc (t + ticks)) (omega arith) in
      let c = rising.1 in omega (arith, a, c)
