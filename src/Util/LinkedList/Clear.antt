-- ===== src/Util/LinkedList/Clear.antt =====
-- `clear` frees every node, in order.
use mio_os.Common.{ℕ, zero, suc, ◌+◌, ◌<◌, ◌≡◌, refl, arith, ◌==◌, false, some, List, []}
use mio_os.Common.Seq.{length}
use mio_os.Util.LinkedList.{Node, HeapOps, Linked, free_nodes, clear}
use mio_os.Util.LinkedList.Holds.{Chained, Holds, Holds-nil}

-- The allocator after a release of `count` addresses from the one at `i` on.
pub freed : {A : Type 0} → HeapOps A → A → (ℕ → ℕ) → ℕ → ℕ → A
freed ops heap addr i zero = heap
freed ops heap addr i (suc count) = freed ops (ops.kfree heap (addr i)) addr (i + 1) count

module _ {T A : Type 0} (ops : HeapOps A) where
  -- The node at `i`, or the null pointer behind the last one.
  free_nodes-freed :
      (nodes : ℕ → Node T) (addr : ℕ → ℕ) (n : ℕ)
      → Chained nodes addr n
      → (rest i fuel current : ℕ) (heap : A) → i + rest ≡ n
      → rest < fuel
      → (rest ≡ 0 → current ≡ 0)
      → (0 < rest → current ≡ addr i)
      → free_nodes ops fuel nodes heap current ≡ some (freed ops heap addr i rest)
  unfolding free_nodes freed
  free_nodes-freed nodes addr n c rest i zero current heap e f z here = absurd (omega arith)
  free_nodes-freed nodes addr n c zero i (suc fuel) current heap e f z here = rw (z refl) refl
  free_nodes-freed nodes addr n c (suc rest) i (suc fuel) current heap e f z here =
      let at : current ≡ addr i = here (omega arith) in
      let ne : (addr i == 0) ≡ false = ground (arith, c.real i) in
      rw (at, ne)
        (free_nodes-freed nodes addr n c rest (i + 1) fuel (nodes (addr i)).next
          (ops.kfree heap (addr i)) (omega arith) (omega arith) (λ b. c.last i (omega arith))
          (λ b. c.onward i (omega arith)))

  -- For a list that holds a sequence, fuel above its length is enough for `clear`, which leaves a
  -- list that holds nothing and frees every node, from the first to the last.
  pub clear-Holds :
      (l : Linked T A) (addr : ℕ → ℕ) (xs : List T) (fuel : ℕ)
      → Holds l addr xs
      → length xs < fuel
      → (l' : Linked T A) × (clear ops fuel l ≡ some l')
        × Holds l' addr []
        × (l'.heap ≡ freed ops l.heap addr 0 (length xs))
  unfolding clear
  clear-Holds l addr xs fuel h f =
      let e : free_nodes ops fuel l.nodes l.heap l.head
          ≡ some (freed ops l.heap addr 0 (length xs)) =
        free_nodes-freed l.nodes addr (length xs) h.chained (length xs) 0 fuel l.head l.heap
          (omega arith) f (λ z. (h.empty z).0) h.headed in
      let l' : Linked T A = record l {
        head = 0;
        tail = 0;
        size = 0;
        heap = freed ops l.heap addr 0 (length xs);
      } in
      (l', rw (clear, e) refl, Holds-nil l' addr refl refl refl, refl)
