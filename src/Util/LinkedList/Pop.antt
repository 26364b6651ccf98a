-- ===== src/Util/LinkedList/Pop.antt =====
-- `pop_back` and `pop_front`: the list without the value at an end, whose node is freed.
use mio_os.Common.{
  ℕ, suc, ◌+◌, ◌≡◌, ◌≢◌, refl, sym, ap, ◌∙◌, arith, ◌==◌, false, some, List, [], ◌∷◌, ◌++◌, subst,
}
use mio_os.Common.Seq.{length}
use mio_os.Util.LinkedList.{Node, HeapOps, Linked, set_node, pop_back, pop_front}
use mio_os.Util.LinkedList.Holds.{
  get_elem?, get_elem?-append_left, length-append_one, Chained, Holds, Holds-nil,
}

module _ {T : Type 0} (nodes : ℕ → Node T) (addr : ℕ → ℕ) (n : ℕ)
    (c : Chained nodes addr (suc (suc n))) where
  Chained-drop_last :
      Chained (set_node nodes (addr n) (record (nodes (addr n)) { next = 0 })) addr (suc n)
  Chained-drop_last = record {
    real = λ i h. c.real i (omega arith);
    apart = λ i j h h'. c.apart i j (omega arith) (omega arith);
    onward = λ i h. ground (arith, c.onward i, c.apart i n);
    back = λ i h. ground (arith, c.back i, c.apart (i + 1) n);
    first = λ h. ground (arith, c.first);
    last = λ i h. ground (arith);
  }

  Chained-drop_first :
      Chained
        (set_node nodes (addr 1) (record (nodes (addr 1)) { prev = 0 }))
        (λ i. addr (i + 1))
        (suc n)
  Chained-drop_first = record {
    real = λ i h. c.real (i + 1) (omega arith);
    apart = λ i j h h' e. omega (arith, c.apart (i + 1) (j + 1) (omega arith) (omega arith) e);
    onward = λ i h. ground (arith, c.onward (i + 1), c.apart (i + 1) 1);
    back = λ i h. ground (arith, c.back (i + 1), c.apart (i + 1 + 1) 1);
    first = λ h. ground arith;
    last = λ i h. ground (arith, c.last (i + 1), c.apart (i + 1) 1);
  }

module _ {T A : Type 0} (ops : HeapOps A) (l : Linked T A) (addr : ℕ → ℕ) where
  pop_back-one : (v : T) → Holds l addr (v ∷ []) → Holds (pop_back ops l) addr []
  unfolding pop_back
  pop_back-one v h =
      let t : l.tail ≡ addr 0 = h.tailed 0 (omega arith) in
      let f : (l.nodes (addr 0)).prev ≡ 0 = h.chained.first (omega arith) in
      let z : (addr 0 == 0) ≡ false = ground (arith, h.chained.real 0) in
      rw (t, z, f) (Holds-nil _ _ refl refl (omega (arith, h.sized)))

  pop_front-one : (v : T) → Holds l addr (v ∷ []) → Holds (pop_front ops l) (λ i. addr (i + 1)) []
  unfolding pop_front
  pop_front-one v h =
      let t : l.head ≡ addr 0 = h.headed (omega arith) in
      let f : (l.nodes (addr 0)).next ≡ 0 = h.chained.last 0 (omega arith) in
      let z : (addr 0 == 0) ≡ false = ground (arith, h.chained.real 0) in
      rw (t, z, f) (Holds-nil _ _ refl refl (omega (arith, h.sized)))

  pop_back-more :
      (x : T) (xs : List T) (v : T)
      → Holds l addr (x ∷ xs ++ v ∷ [])
      → Holds (pop_back ops l) addr (x ∷ xs)
  unfolding pop_back
  pop_back-more x xs v h =
      let n = length xs in
      let len : length (xs ++ v ∷ []) ≡ suc n = omega (arith, length-append_one xs v) in
      let c : Chained l.nodes addr (suc (suc n)) =
        subst (λ k. Chained l.nodes addr (suc k)) len h.chained in
      let t : l.tail ≡ addr (n + 1) = h.tailed (n + 1) (omega arith) in
      let f : (l.nodes (addr (n + 1))).prev ≡ addr n = c.back n (omega arith) in
      let z : (addr (n + 1) == 0) ≡ false = ground (arith, c.real (n + 1)) in
      let z' : (addr n == 0) ≡ false = ground (arith, c.real n) in
      rw (t, z, f, z')
        (record {
          chained = Chained-drop_last l.nodes addr n c;
          sized = omega (arith, h.sized, h.small);
          small = omega (arith, h.small);
          empty = λ e. absurd (omega arith);
          headed = λ b. h.headed (omega arith);
          tailed = λ i b. ap addr (omega arith);
          stored = λ i b.
              sym (get_elem?-append_left (x ∷ xs) (v ∷ []) i b)
              ∙ h.stored i (omega arith)
              ∙ ap some (ground arith);
        })

  pop_front-more :
      (v x : T) (xs : List T)
      → Holds l addr (v ∷ x ∷ xs)
      → Holds (pop_front ops l) (λ i. addr (i + 1)) (x ∷ xs)
  unfolding pop_front
  pop_front-more v x xs h =
      let n = length xs in
      let c : Chained l.nodes addr (suc (suc n)) = h.chained in
      let t : l.head ≡ addr 0 = h.headed (omega arith) in
      let f : (l.nodes (addr 0)).next ≡ addr 1 = c.onward 0 (omega arith) in
      let z : (addr 0 == 0) ≡ false = ground (arith, c.real 0) in
      let z' : (addr 1 == 0) ≡ false = ground (arith, c.real 1) in
      rw (t, z, f, z')
        (record {
          chained = Chained-drop_first l.nodes addr n c;
          sized = omega (arith, h.sized, h.small);
          small = omega (arith, h.small);
          empty = λ e. absurd (omega arith);
          headed = λ b. refl;
          tailed = λ i b. h.tailed (i + 1) (omega arith);
          stored = λ i b. moved_on i ∙ h.stored (i + 1) (omega arith) ∙ ap some (ground arith);
        })
    where
      moved_on : (i : ℕ) → get_elem? (x ∷ xs) i ≡ get_elem? (v ∷ x ∷ xs) (i + 1)
      moved_on i = let e : i + 1 ≡ suc i = omega arith in rw e refl

  pop_back-heap :
      (i : ℕ) → l.tail ≡ addr i → addr i ≢ 0 → (pop_back ops l).heap ≡ ops.kfree l.heap (addr i)
  unfolding pop_back
  pop_back-heap i t ne = let z : (addr i == 0) ≡ false = ground arith in rw (t, z) refl

  pop_front-heap : l.head ≡ addr 0 → addr 0 ≢ 0 → (pop_front ops l).heap ≡ ops.kfree l.heap (addr 0)
  unfolding pop_front
  pop_front-heap t ne = let z : (addr 0 == 0) ≡ false = ground arith in rw (t, z) refl

  -- stub
  pub pop_back-Holds :
      (xs : List T) (v : T)
      → Holds l addr (xs ++ v ∷ [])
      → Holds (pop_back ops l) addr xs
        × ((pop_back ops l).heap ≡ ops.kfree l.heap (addr (length xs)))
  pop_back-Holds [] v h = (
    pop_back-one v h,
    pop_back-heap 0 (h.tailed 0 (omega arith)) (h.chained.real 0 (omega arith)),
  )
  pop_back-Holds (x ∷ xs) v h =
      let len = length-append_one xs v in
      let last = suc (length xs) in
      (
        pop_back-more x xs v h,
        pop_back-heap last (h.tailed last (omega arith)) (h.chained.real last (omega arith)),
      )

  -- For a list that holds a value and then a sequence, `pop_front` leaves a list that holds the
  -- sequence in the other nodes, and frees the first node.
  pub pop_front-Holds :
      (v : T) (xs : List T)
      → Holds l addr (v ∷ xs)
      → Holds (pop_front ops l) (λ i. addr (i + 1)) xs
        × ((pop_front ops l).heap ≡ ops.kfree l.heap (addr 0))
  pop_front-Holds v [] h =
      (pop_front-one v h, pop_front-heap (h.headed (omega arith)) (h.chained.real 0 (omega arith)))
  pop_front-Holds v (x ∷ xs) h = (
    pop_front-more v x xs h,
    pop_front-heap (h.headed (omega arith)) (h.chained.real 0 (omega arith)),
  )
