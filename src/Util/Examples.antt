-- ===== src/Util/Examples.antt =====
-- A list of two numbers, and two processors at a lock.
use mio_os.Common.{
  ℕ, zero, suc, ◌+◌, ◌*◌, ◌<◌, ◌≡◌, ◌≢◌, refl, arith, ◌==◌, if◌then◌else◌, true, some, [], ◌∷◌,
}
use mio_os.Pmm.State.{update}
use mio_os.Util.LinkedList.{HeapOps, Linked, push_back, pop_front}
use mio_os.Util.LinkedList.Holds.{get_elem?, Holds}
use mio_os.Util.LinkedList.Push.{Pushed, push_back-Pushed}
use mio_os.Util.LinkedList.Pop.{pop_front-Holds}
use mio_os.Util.Spinlock.{
  System, waiting, inside, start, round, initial, Reach, here, later, lock_round,
}
use mio_os.Util.Spinlock.Safety.{mutual_exclusion, waiting-enters}

-- An allocator that counts up, and forgets what is freed.
abbrev counter : HeapOps ℕ
counter = record { kmalloc = λ a size. (a, a + 32); kfree = λ a p. a }

-- The nodes stand at 64 and 96.
abbrev pair_addr : ℕ → ℕ
pair_addr i = 64 + i * 32

abbrev pair : Linked ℕ ℕ
pair = record {
  head = 64;
  tail = 96;
  size = 2;
  nodes = λ a.
      if a == 64
      then record { value = 7; next = 96; prev = 0 }
      else record { value = 9; next = 0; prev = 64 };
  heap = 128;
}

pair-Holds : Holds pair pair_addr (7 ∷ 9 ∷ [])
pair-Holds = record {
  chained = record {
    real = λ i h. omega arith;
    apart = λ i j h h' e. omega arith;
    onward = λ i h. ground arith;
    back = λ i h. ground arith;
    first = λ h. refl;
    last = λ i h. ground arith;
  };
  sized = refl;
  small = omega arith;
  empty = λ e. absurd (omega arith);
  headed = λ h. refl;
  tailed = λ i e. ground arith;
  stored = stored_at;
}
  where
    stored_at : (i : ℕ) → i < 2 → get_elem? (7 ∷ 9 ∷ []) i ≡ some (pair.nodes (pair_addr i)).value
    stored_at zero h = refl
    stored_at (suc zero) h = refl
    stored_at (suc (suc i)) h = absurd (omega arith)

push_back-Pushed_example :
    Pushed
      (push_back counter 24 5 pair)
      128
      pair_addr
      (update pair_addr 2 128)
      (7 ∷ 9 ∷ [])
      (7 ∷ 9 ∷ 5 ∷ [])
push_back-Pushed_example =
    push_back-Pushed counter 24 5 pair pair_addr (7 ∷ 9 ∷ []) pair-Holds (omega arith)
      (λ i h. omega arith)

pop_front-Holds_example :
    Holds (pop_front counter pair) (λ i. pair_addr (i + 1)) (9 ∷ [])
    × ((pop_front counter pair).heap ≡ 128)
pop_front-Holds_example = pop_front-Holds counter pair pair_addr 7 (9 ∷ []) pair-Holds

-- Processor 0 is inside, and processor 1 waits.
abbrev contended : System
contended = record {
  locked = true;
  place = update (update (update initial.place 0 waiting) 0 inside) 1 waiting;
}

contended-Reach : Reach initial contended
unfolding lock_round
contended-Reach = later (later (later here (start 0 refl)) (round 0 refl)) (start 1 refl)

mutual_exclusion_example : ◌≡◌ {A = ℕ} 0 0
mutual_exclusion_example = mutual_exclusion contended-Reach 0 0 refl refl

waiting-enters_example :
    (t : System) × Reach contended t
    × (t.place 1 ≡ inside)
    × ((j : ℕ) → j ≢ 1 → contended.place j ≢ inside → t.place j ≡ contended.place j)
waiting-enters_example = waiting-enters contended-Reach 1 refl
