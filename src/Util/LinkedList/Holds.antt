-- ===== src/Util/LinkedList/Holds.antt =====
-- When a list holds a sequence of values.
use mio_os.Common.{
  ℕ, zero, suc, ◌+◌, ◌-◌, ◌^◌, ◌<◌, ◌≡◌, ◌≢◌, refl, arith, Option, none, some, List, [], ◌∷◌, ◌++◌,
}
use mio_os.Common.Seq.{length}
use mio_os.Util.LinkedList.{Node, Linked}

module _ {ℓ} {T : Type ℓ} where
  abbrev pub get_elem? : List T → ℕ → Option T
  get_elem? [] i = none
  get_elem? (x ∷ xs) zero = some x
  get_elem? (x ∷ xs) (suc i) = get_elem? xs i

  pub get_elem?-append_left :
      (xs ys : List T) (i : ℕ) → i < length xs → get_elem? (xs ++ ys) i ≡ get_elem? xs i
  get_elem?-append_left [] ys i h = absurd (omega arith)
  get_elem?-append_left (x ∷ xs) ys zero h = refl
  get_elem?-append_left (x ∷ xs) ys (suc i) h = get_elem?-append_left xs ys i (omega arith)

  pub length-append_one : (xs : List T) (x : T) → length (xs ++ x ∷ []) ≡ length xs + 1
  length-append_one [] x = omega arith
  length-append_one (y ∷ xs) x = omega (arith, length-append_one xs x)

  -- The element at an index of a longer list, by cases.
  pub get_elem?-append_one :
      (xs : List T) (v : T) (i : ℕ) (w : T)
      → i < length xs + 1
      → (i ≡ length xs → w ≡ v)
      → (i < length xs → get_elem? xs i ≡ some w)
      → get_elem? (xs ++ v ∷ []) i ≡ some w
  get_elem?-append_one [] v zero w h end old = rw (end refl) refl
  get_elem?-append_one [] v (suc i) w h end old = absurd (omega arith)
  get_elem?-append_one (x ∷ xs) v zero w h end old = old (omega arith)
  get_elem?-append_one (x ∷ xs) v (suc i) w h end old =
      get_elem?-append_one xs v i w (omega arith) (λ e. end (omega arith)) (λ b. old (omega arith))

  pub get_elem?-cons :
      (x : T) (xs : List T) (i : ℕ) (w : T)
      → (i ≡ 0 → w ≡ x)
      → (0 < i → get_elem? xs (i - 1) ≡ some w)
      → get_elem? (x ∷ xs) i ≡ some w
  get_elem?-cons x xs zero w start old = rw (start refl) refl
  get_elem?-cons x xs (suc i) w start old =
      let e : suc i - 1 ≡ i = omega arith in rw e at (old (omega arith))

-- The nodes stand at `addr 0`, …, `addr (count - 1)`, and are linked in both directions.
pub record Chained {T : Type 0} (nodes : ℕ → Node T) (addr : ℕ → ℕ) (count : ℕ) : Type 0 where
  pub real : (i : ℕ) → i < count → addr i ≢ 0
  pub apart : (i j : ℕ) → i < count → j < count → addr i ≡ addr j → i ≡ j
  pub onward : (i : ℕ) → i + 1 < count → (nodes (addr i)).next ≡ addr (i + 1)
  pub back : (i : ℕ) → i + 1 < count → (nodes (addr (i + 1))).prev ≡ addr i
  pub first : 0 < count → (nodes (addr 0)).prev ≡ 0
  pub last : (i : ℕ) → i + 1 ≡ count → (nodes (addr i)).next ≡ 0

-- A list whose nodes stand at `addr` and hold the values `xs`, in order.
pub record Holds {T A : Type 0} (l : Linked T A) (addr : ℕ → ℕ) (xs : List T) : Type 0 where
  pub chained : Chained l.nodes addr (length xs)
  pub sized : l.size ≡ length xs
  pub small : length xs < 2 ^ 64
  pub empty : length xs ≡ 0 → (l.head ≡ 0) × (l.tail ≡ 0)
  pub headed : 0 < length xs → l.head ≡ addr 0
  pub tailed : (i : ℕ) → i + 1 ≡ length xs → l.tail ≡ addr i
  pub stored : (i : ℕ) → i < length xs → get_elem? xs i ≡ some (l.nodes (addr i)).value

Chained-zero : {T : Type 0} (nodes : ℕ → Node T) (addr : ℕ → ℕ) → Chained nodes addr 0
Chained-zero nodes addr = record {
  real = λ i h. absurd (omega arith);
  apart = λ i j h. absurd (omega arith);
  onward = λ i h. absurd (omega arith);
  back = λ i h. absurd (omega arith);
  first = λ h. absurd (omega arith);
  last = λ i h. absurd (omega arith);
}

pub Holds-nil :
    {T A : Type 0} (l : Linked T A) (addr : ℕ → ℕ)
    → l.head ≡ 0
    → l.tail ≡ 0
    → l.size ≡ 0
    → Holds l addr []
Holds-nil l addr h t z = record {
  chained = Chained-zero l.nodes addr;
  sized = z;
  small = omega arith;
  empty = λ e. (h, t);
  headed = λ b. absurd (omega arith);
  tailed = λ i e. absurd (omega arith);
  stored = λ i b. absurd (omega arith);
}
