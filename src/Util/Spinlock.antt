-- ===== src/Util/Spinlock.antt =====
-- `Spinlock` of include/util/spinlock.hpp, and the processors that take it in any order. The
-- built-in `__atomic_test_and_set` gives the old value and leaves `true`, `__atomic_clear` leaves
-- `false`, each in one step.
pub mod Safety
use mio_os.Common.{ℕ, Bool, true, false, not, ◌==◌, if◌then◌else◌, ◌≡◌}
use mio_os.Pmm.State.{update}

abbrev pub test_and_set : Bool → Bool × Bool
test_and_set locked = (locked, true)

-- One round of the loop of `lock`: whether it ends, and the flag.
unfoldable pub lock_round : Bool → Bool × Bool
lock_round locked = let (old, locked') = test_and_set locked in (not old, locked')

unfoldable pub try_lock : Bool → Bool × Bool
try_lock locked = let (old, locked') = test_and_set locked in (not old, locked')

unfoldable pub unlock : Bool → Bool
unlock locked = false

-- Where a processor stands: outside, in the loop of `lock`, or between its end (or a `try_lock`
-- that succeeded) and `unlock`.
pub data Place : Type 0 where
  outside : Place
  waiting : Place
  inside : Place

pub record System : Type 0 where
  pub locked : Bool
  pub place : ℕ → Place

-- A processor moves: a call of `lock` starts, a round of its loop, a `try_lock`, an `unlock`.
pub data Step (s : System) : System → Type 0 where
  start : (i : ℕ) → s.place i ≡ outside → Step s (record s { place = update s.place i waiting })
  round :
      (i : ℕ)
      → s.place i ≡ waiting
      → Step s (record {
        locked = (lock_round s.locked).1;
        place = update s.place i (if (lock_round s.locked).0 then inside else waiting);
      })
  attempt :
      (i : ℕ)
      → s.place i ≡ outside
      → Step s (record {
        locked = (try_lock s.locked).1;
        place = update s.place i (if (try_lock s.locked).0 then inside else outside);
      })
  leave :
      (i : ℕ)
      → s.place i ≡ inside
      → Step s (record { locked = unlock s.locked; place = update s.place i outside })

-- The lock as its constructor leaves it, with every processor outside.
abbrev pub initial : System
initial = record { locked = false; place = λ i. outside }

pub data Reach (s : System) : System → Type 0 where
  here : Reach s s
  later : {t u : System} → Reach s t → Step t u → Reach s u
