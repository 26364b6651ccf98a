-- ===== src/Util/LinkedList/Push.antt =====
-- `push_back` and `push_front`: the new value at an end, or the list as it was when there is no
-- memory.
use mio_os.Common.{
  ℕ, zero, suc, ◌+◌, ◌-◌, ◌^◌, ◌<◌, ◌≡◌, ◌≢◌, refl, sym, ap, ◌∙◌, arith, ◌==◌, Bool-cases,
  if◌then◌else◌, true, false, Bool, some, List, [], ◌∷◌, ◌++◌, inl, inr,
}
use mio_os.Common.Seq.{length}
use mio_os.Pmm.State.{update}
use mio_os.Util.LinkedList.{Node, HeapOps, Linked, set_node, push_back, push_front}
use mio_os.Util.LinkedList.Holds.{
  get_elem?-append_one, get_elem?-cons, length-append_one, Chained, Holds,
}

-- The addresses with one put before them.
abbrev pub before : ℕ → (ℕ → ℕ) → ℕ → ℕ
before a addr i = if i == 0 then a else addr (i - 1)

-- There was no memory, and the list holds what it held; or it now holds `ys` at `addr'`.
pub data Pushed {T A : Type 0} (r : Linked T A × Bool) (new : ℕ) (addr addr' : ℕ → ℕ)
    (xs ys : List T) : Type 0 where
  refused : new ≡ 0 → r.1 ≡ false → Holds r.0 addr xs → Pushed r new addr addr' xs ys
  pushed : new ≢ 0 → r.1 ≡ true → Holds r.0 addr' ys → Pushed r new addr addr' xs ys

module _ {T : Type 0} (nodes : ℕ → Node T) (addr : ℕ → ℕ) (v : T) (a : ℕ) where
  -- One node alone.
  Chained-one :
      a ≢ 0
      → Chained (set_node nodes a (record { value = v; next = 0; prev = 0 })) (update addr 0 a) 1
  Chained-one ne = record {
    real = λ i h. ground arith;
    apart = λ i j h h' e. omega arith;
    onward = λ i h. absurd (omega arith);
    back = λ i h. absurd (omega arith);
    first = λ h. ground arith;
    last = λ i h. ground arith;
  }

  Chained-front_one :
      a ≢ 0
      → Chained (set_node nodes a (record { value = v; next = 0; prev = 0 })) (before a addr) 1
  Chained-front_one ne = record {
    real = λ i h. ground arith;
    apart = λ i j h h' e. omega arith;
    onward = λ i h. absurd (omega arith);
    back = λ i h. absurd (omega arith);
    first = λ h. ground arith;
    last = λ i h. ground arith;
  }

  -- A node behind the last one.
  Chained-back :
      (n : ℕ)
      → Chained nodes addr (suc n)
      → a ≢ 0
      → ((i : ℕ) → i < suc n → addr i ≢ a)
      → (let fresh = set_node nodes a (record { value = v; next = 0; prev = 0 }) in
          let linked = set_node fresh (addr n) (record (fresh (addr n)) { next = a }) in
          Chained
            (set_node linked a (record (linked a) { prev = addr n }))
            (update addr (suc n) a)
            (suc (suc n)))
  Chained-back n c ne fresh = record {
    real = λ i h. ground (arith, c.real i);
    apart = λ i j h h' e. ground (arith, c.apart i j, fresh i, fresh j);
    onward = λ i h. ground (arith, fresh i, c.onward i, c.apart i n, fresh n);
    back = λ i h. ground (arith, fresh i, fresh (i + 1), c.back i, c.apart i n, fresh n);
    first = λ h. ground (arith, fresh 0, c.first, fresh n);
    last = λ i h. ground (arith, fresh n);
  }

  -- A node before the first one.
  Chained-front :
      (n : ℕ)
      → Chained nodes addr (suc n)
      → a ≢ 0
      → ((i : ℕ) → i < suc n → addr i ≢ a)
      → (let fresh = set_node nodes a (record { value = v; next = 0; prev = 0 }) in
          let linked = set_node fresh (addr 0) (record (fresh (addr 0)) { prev = a }) in
          Chained
            (set_node linked a (record (linked a) { next = addr 0 }))
            (before a addr)
            (suc (suc n)))
  Chained-front n c ne fresh = record {
    real = λ i h. ground (arith, c.real (i - 1));
    apart = λ i j h h' e. ground (arith, c.apart (i - 1) (j - 1), fresh (i - 1), fresh (j - 1));
    onward = front_onward;
    back = front_back;
    first = λ h. ground (arith, fresh 0);
    last = front_last;
  }
    where
      node' : ℕ → Node T
      node' =
          let new = set_node nodes a (record { value = v; next = 0; prev = 0 }) in
          let linked = set_node new (addr 0) (record (new (addr 0)) { prev = a }) in
          set_node linked a (record (linked a) { next = addr 0 })

      front_onward :
          (i : ℕ) → i + 1 < suc (suc n) → (node' (before a addr i)).next ≡ before a addr (i + 1)
      front_onward zero h = ground arith
      front_onward (suc i) h =
          let e : addr (i + 1) ≡ addr (suc i) = ap addr (omega arith) in
          ground (arith, c.onward i, fresh i, fresh 0)

      front_back :
          (i : ℕ) → i + 1 < suc (suc n) → (node' (before a addr (i + 1))).prev ≡ before a addr i
      front_back zero h = ground (arith, fresh 0)
      front_back (suc i) h =
          let e : addr (i + 1) ≡ addr (suc i) = ap addr (omega arith) in
          ground (arith, c.back i, fresh (i + 1), c.apart (i + 1) 0)

      front_last : (i : ℕ) → i + 1 ≡ suc (suc n) → (node' (before a addr i)).next ≡ 0
      front_last zero h = absurd (omega arith)
      front_last (suc i) h = ground (arith, c.last i, fresh i, fresh 0)

module _ {T A : Type 0} (ops : HeapOps A) (node_size : ℕ) (v : T) (l : Linked T A)
    (addr : ℕ → ℕ) where
  abbrev new_node : ℕ
  new_node = (ops.kmalloc l.heap node_size).0

  kept : (xs : List T) → Holds l addr xs → (heap' : A) → Holds (record l { heap = heap' }) addr xs
  kept xs h heap' = record {
    chained = h.chained;
    sized = h.sized;
    small = h.small;
    empty = h.empty;
    headed = h.headed;
    tailed = h.tailed;
    stored = h.stored;
  }

  back_empty :
      Holds l addr []
      → new_node ≢ 0
      → Holds (push_back ops node_size v l).0 (update addr 0 new_node) (v ∷ [])
  unfolding push_back
  back_empty h ne =
      let nz : (new_node == 0) ≡ false = ground arith in
      let z : (l.tail == 0) ≡ true = ground (arith, h.empty) in
      rw (nz, z)
        (record {
          chained = Chained-one l.nodes addr v new_node ne;
          sized = omega (arith, h.sized);
          small = omega arith;
          empty = λ e. absurd (omega arith);
          headed = λ p. ground arith;
          tailed = λ i e. ground arith;
          stored = λ i b.
              get_elem?-append_one [] v i _ (omega arith) (λ e. ground arith)
                (λ lt. absurd (omega arith));
        })

  back_nonempty :
      (x : T) (xs : List T)
      → Holds l addr (x ∷ xs)
      → length xs + 2 < 2 ^ 64
      → new_node ≢ 0
      → ((i : ℕ) → i < suc (length xs) → addr i ≢ new_node)
      → Holds
          (push_back ops node_size v l).0
          (update addr (suc (length xs)) new_node)
          (x ∷ xs ++ v ∷ [])
  unfolding push_back
  back_nonempty x xs h room ne fresh =
      let nz : (new_node == 0) ≡ false = ground arith in
      let t : addr (length xs) ≡ l.tail = sym (h.tailed (length xs) (omega arith)) in
      let z : (l.tail == 0) ≡ false = ground (arith, h.chained.real (length xs)) in
      let len = length-append_one xs v in
      let len' : length (xs ++ v ∷ []) ≡ suc (length xs) = omega (arith, len) in
      rw (nz, z)
        (record {
          chained =
              rw len'
                (rw t at (Chained-back l.nodes addr v new_node (length xs) h.chained ne fresh));
          sized = omega (arith, h.sized);
          small = omega arith;
          empty = λ e. absurd (omega arith);
          headed = λ p. ground (arith, h.headed);
          tailed = λ i e. ground arith;
          stored = λ i b.
              get_elem?-append_one (x ∷ xs) v i _ (omega (arith, len)) (λ e. ground arith)
                (λ lt. h.stored i lt ∙ ap some (ground (arith, fresh i)));
        })

  front_empty :
      Holds l addr []
      → new_node ≢ 0
      → Holds (push_front ops node_size v l).0 (before new_node addr) (v ∷ [])
  unfolding push_front
  front_empty h ne =
      let nz : (new_node == 0) ≡ false = ground arith in
      let z : (l.head == 0) ≡ true = ground (arith, h.empty) in
      rw (nz, z)
        (record {
          chained = Chained-front_one l.nodes addr v new_node ne;
          sized = omega (arith, h.sized);
          small = omega arith;
          empty = λ e. absurd (omega arith);
          headed = λ p. ground arith;
          tailed = λ i e. ground arith;
          stored = λ i b. get_elem?-cons v [] i _ (λ e. ground arith) (λ lt. absurd (omega arith));
        })

  front_nonempty :
      (x : T) (xs : List T)
      → Holds l addr (x ∷ xs)
      → length xs + 2 < 2 ^ 64
      → new_node ≢ 0
      → ((i : ℕ) → i < suc (length xs) → addr i ≢ new_node)
      → Holds (push_front ops node_size v l).0 (before new_node addr) (v ∷ x ∷ xs)
  unfolding push_front
  front_nonempty x xs h room ne fresh =
      let nz : (new_node == 0) ≡ false = ground arith in
      let t : addr 0 ≡ l.head = sym (h.headed (omega arith)) in
      let z : (l.head == 0) ≡ false = ground (arith, h.chained.real 0) in
      rw (nz, z)
        (record {
          chained = rw t at (Chained-front l.nodes addr v new_node (length xs) h.chained ne fresh);
          sized = omega (arith, h.sized);
          small = omega arith;
          empty = λ e. absurd (omega arith);
          headed = λ p. ground arith;
          tailed = λ i e. ground (arith, h.tailed (i - 1));
          stored = λ i b.
              get_elem?-cons v (x ∷ xs) i _ (λ e. ground arith)
                (λ lt.
                  h.stored (i - 1) (omega arith)
                  ∙ ap some (ground (arith, fresh (i - 1), fresh 0)));
        })

  back_refused :
      (xs : List T)
      → Holds l addr xs
      → (new_node == 0) ≡ true
      → ((push_back ops node_size v l).1 ≡ false) × Holds (push_back ops node_size v l).0 addr xs
  unfolding push_back
  back_refused xs h out = rw out (refl, kept xs h (ops.kmalloc l.heap node_size).1)

  back_accepted : (new_node == 0) ≡ false → (push_back ops node_size v l).1 ≡ true
  unfolding push_back
  back_accepted got = elim (Bool-cases (l.tail == 0)) [
    | inl e ↦ rw (got, e) refl
    | inr e ↦ rw (got, e) refl
  ]

  front_refused :
      (xs : List T)
      → Holds l addr xs
      → (new_node == 0) ≡ true
      → ((push_front ops node_size v l).1 ≡ false) × Holds (push_front ops node_size v l).0 addr xs
  unfolding push_front
  front_refused xs h out = rw out (refl, kept xs h (ops.kmalloc l.heap node_size).1)

  front_accepted : (new_node == 0) ≡ false → (push_front ops node_size v l).1 ≡ true
  unfolding push_front
  front_accepted got = elim (Bool-cases (l.head == 0)) [
    | inl e ↦ rw (got, e) refl
    | inr e ↦ rw (got, e) refl
  ]

  back_holds :
      (xs : List T)
      → Holds l addr xs
      → length xs + 1 < 2 ^ 64
      → ((i : ℕ) → i < length xs → addr i ≢ new_node)
      → new_node ≢ 0
      → Holds (push_back ops node_size v l).0 (update addr (length xs) new_node) (xs ++ v ∷ [])
  back_holds [] h room fresh ne = back_empty h ne
  back_holds (x ∷ xs) h room fresh ne = back_nonempty x xs h (omega arith) ne fresh

  front_holds :
      (xs : List T)
      → Holds l addr xs
      → length xs + 1 < 2 ^ 64
      → ((i : ℕ) → i < length xs → addr i ≢ new_node)
      → new_node ≢ 0
      → Holds (push_front ops node_size v l).0 (before new_node addr) (v ∷ xs)
  front_holds [] h room fresh ne = front_empty h ne
  front_holds (x ∷ xs) h room fresh ne = front_nonempty x xs h (omega arith) ne fresh

  -- For a list that holds a sequence of fewer than 2 ^ 64 - 1 values, and a new node that is none
  -- of its nodes, `push_back` either finds no memory, answers false and leaves the sequence as it
  -- was, or answers true and the list holds the sequence with the value behind it, linked in both
  -- directions.
  pub push_back-Pushed :
      (xs : List T)
      → Holds l addr xs
      → length xs + 1 < 2 ^ 64
      → ((i : ℕ) → i < length xs → addr i ≢ new_node)
      → Pushed
          (push_back ops node_size v l)
          new_node
          addr
          (update addr (length xs) new_node)
          xs
          (xs ++ v ∷ [])
  push_back-Pushed xs h room fresh = elim (Bool-cases (new_node == 0)) [
    | inl out ↦ let (e, h') = back_refused xs h out in refused (ground arith) e h'
    | inr got ↦
        let ne : new_node ≢ 0 = ground arith in
        pushed ne (back_accepted got) (back_holds xs h room fresh ne)
  ]

  -- stub
  pub push_front-Pushed :
      (xs : List T)
      → Holds l addr xs
      → length xs + 1 < 2 ^ 64
      → ((i : ℕ) → i < length xs → addr i ≢ new_node)
      → Pushed (push_front ops node_size v l) new_node addr (before new_node addr) xs (v ∷ xs)
  push_front-Pushed xs h room fresh = elim (Bool-cases (new_node == 0)) [
    | inl out ↦ let (e, h') = front_refused xs h out in refused (ground arith) e h'
    | inr got ↦
        let ne : new_node ≢ 0 = ground arith in
        pushed ne (front_accepted got) (front_holds xs h room fresh ne)
  ]
