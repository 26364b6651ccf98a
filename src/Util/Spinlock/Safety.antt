-- ===== src/Util/Spinlock/Safety.antt =====
-- What holds of the lock in every state that can be reached.
use mio_os.Common.{ℕ, true, false, not, if◌then◌else◌, ◌≡◌, ◌≢◌, arith, refl, inl, inr, Bool-cases}
use mio_os.Pmm.State.{update}
use mio_os.Util.Spinlock.{
  System, Place, outside, waiting, inside, Step, start, round, attempt, leave, initial, Reach, here,
  later, lock_round, try_lock, unlock,
}

-- The flag says whether a processor is inside, and at most one is.
record IsExclusive (s : System) : Type 0 where
  single : (i j : ℕ) → s.place i ≡ inside → s.place j ≡ inside → i ≡ j
  flagged : (i : ℕ) → s.place i ≡ inside → s.locked ≡ true
  owned : s.locked ≡ true → (i : ℕ) × (s.place i ≡ inside)

-- A test-and-set by a processor that is not inside, which goes in if the flag was clear.
taken :
    (s : System) (i : ℕ) (p : Place)
    → IsExclusive s
    → s.place i ≡ p
    → p ≢ inside
    → IsExclusive
        (record { locked = true; place = update s.place i (if not s.locked then inside else p) })
taken s i p x e out = elim (Bool-cases s.locked) [
  | inl l ↦ rw l (record {
    single = λ a b p q. ground (arith, x.single a b);
    flagged = λ a p. refl;
    owned = λ _. let (a, h) = x.owned l in (a, ground arith);
  })
  | inr l ↦ rw l (record {
    single = λ a b p q. ground (arith, x.flagged a, x.flagged b);
    flagged = λ a p. refl;
    owned = λ _. (i, ground arith);
  })
]

Step-IsExclusive : {s t : System} → Step s t → IsExclusive s → IsExclusive t
unfolding lock_round try_lock unlock
Step-IsExclusive {s} (start i e) x = record {
  single = λ a b p q. ground (arith, x.single a b);
  flagged = λ a p. ground (arith, x.flagged a);
  owned = λ l. let (a, p) = x.owned l in (a, ground arith);
}
Step-IsExclusive {s} (leave i e) x = record {
  single = λ a b p q. ground (arith, x.single a b);
  flagged = λ a p. ground (arith, x.single a i);
  owned = λ l. cc;
}
Step-IsExclusive {s} (round i e) x = taken s i waiting x e (cc)
Step-IsExclusive {s} (attempt i e) x = taken s i outside x e (cc)

Reach-IsExclusive : {s : System} → Reach initial s → IsExclusive s
Reach-IsExclusive here = record { single = λ i j p q. cc; flagged = λ i p. cc; owned = λ l. cc }
Reach-IsExclusive (later r st) = Step-IsExclusive st (Reach-IsExclusive r)

-- In every state that processors reach from an unlocked lock by calls of `lock`, `try_lock` and,
-- by those that hold it, `unlock`, at most one is between its lock and its unlock.
pub mutual_exclusion :
    {s : System} → Reach initial s → (i j : ℕ) → s.place i ≡ inside → s.place j ≡ inside → i ≡ j
mutual_exclusion r i j p q = (Reach-IsExclusive r).single i j p q

-- A processor in the loop goes in by its next round once the flag is clear.
enter :
    (s : System) (i : ℕ)
    → s.place i ≡ waiting
    → s.locked ≡ false
    → (t : System) × Step s t × (t.place i ≡ inside) × ((j : ℕ) → j ≢ i → t.place j ≡ s.place j)
unfolding lock_round
enter s i w l = (
  record {
    locked = (lock_round s.locked).1;
    place = update s.place i (if (lock_round s.locked).0 then inside else waiting);
  },
  round i w,
  rw l (ground arith),
  λ j ne. ground arith,
)

-- In every such state a processor in the loop of `lock` can get in: a state can be reached in
-- which it holds the lock, and in which every other processor that did not hold it before stands
-- where it stood.
pub waiting-enters :
    {s : System}
    → Reach initial s
    → (i : ℕ) → s.place i ≡ waiting
    → (t : System) × Reach s t
      × (t.place i ≡ inside)
      × ((j : ℕ) → j ≢ i → s.place j ≢ inside → t.place j ≡ s.place j)
unfolding unlock
waiting-enters {s} r i w = elim (Bool-cases s.locked) [
  | inr l ↦ let (t, st, e, others) = enter s i w l in (t, later here st, e, λ j ne out. others j ne)
  | inl l ↦
      let (k, p) = (Reach-IsExclusive r).owned l in
      let u : System = record { locked = unlock s.locked; place = update s.place k outside } in
      let (t, st, e, others) = enter u i (ground arith) refl in
      (t, later (later here (leave k p)) st, e, λ j ne out. let same = others j ne in ground arith)
]
