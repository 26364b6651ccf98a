-- ===== src/Util/LinkedList.antt =====
-- `List` of include/util/list.hpp over a heap of its nodes. A pointer is an address, 0 for
-- `nullptr`.
pub mod Holds
pub mod Walk
pub mod Push
pub mod Pop
pub mod Clear
use mio_os.Common.{
  ℕ, zero, suc, ◌+◌, ◌-◌, ◌/◌, add64, sub64, ltb, leb, ◌==◌, if◌then◌else◌, Bool, true, false,
  Option, none, some,
}

pub record Node (T : Type 0) : Type 0 where
  pub value : T  -- the field `data`
  pub next : ℕ
  pub prev : ℕ

-- What the list calls of the allocator.
pub record HeapOps (A : Type 0) : Type 0 where
  pub kmalloc : A → ℕ → ℕ × A
  pub kfree : A → ℕ → A

-- The fields of a list, the nodes of the heap, and the state of the allocator.
pub record Linked (T : Type 0) (A : Type 0) : Type 0 where
  pub head : ℕ
  pub tail : ℕ
  pub size : ℕ
  pub nodes : ℕ → Node T
  pub heap : A

-- A write to the node at an address.
abbrev pub set_node : {T : Type 0} → (ℕ → Node T) → ℕ → Node T → ℕ → Node T
set_node nodes p v a = if a == p then v else nodes a

module _ {T A : Type 0} (ops : HeapOps A) where
  -- `node_size` is `sizeof(Node)`.
  unfoldable pub push_back : ℕ → T → Linked T A → Linked T A × Bool
  push_back node_size val l =
      let (new_node, heap') = ops.kmalloc l.heap node_size in
      let nodes' = set_node l.nodes new_node (record { value = val; next = 0; prev = 0 }) in
      if new_node == 0
      then (record l { heap = heap' }, false)
      else if l.tail == 0
      then (
        record {
          head = new_node;
          tail = new_node;
          size = add64 l.size 1;
          nodes = nodes';
          heap = heap';
        },
        true,
      )
      else let linked = set_node nodes' l.tail (record (nodes' l.tail) { next = new_node }) in
        (
          record l {
            tail = new_node;
            size = add64 l.size 1;
            nodes = set_node linked new_node (record (linked new_node) { prev = l.tail });
            heap = heap';
          },
          true,
        )

  unfoldable pub push_front : ℕ → T → Linked T A → Linked T A × Bool
  push_front node_size val l =
      let (new_node, heap') = ops.kmalloc l.heap node_size in
      let nodes' = set_node l.nodes new_node (record { value = val; next = 0; prev = 0 }) in
      if new_node == 0
      then (record l { heap = heap' }, false)
      else if l.head == 0
      then (
        record {
          head = new_node;
          tail = new_node;
          size = add64 l.size 1;
          nodes = nodes';
          heap = heap';
        },
        true,
      )
      else let linked = set_node nodes' l.head (record (nodes' l.head) { prev = new_node }) in
        (
          record l {
            head = new_node;
            size = add64 l.size 1;
            nodes = set_node linked new_node (record (linked new_node) { next = l.head });
            heap = heap';
          },
          true,
        )

  unfoldable pub pop_back : Linked T A → Linked T A
  pop_back l =
      let tail' = (l.nodes l.tail).prev in
      if l.tail == 0 then l else record l {
        head = if tail' == 0 then 0 else l.head;
        tail = tail';
        size = sub64 l.size 1;
        nodes =
            if tail' == 0
            then l.nodes
            else set_node l.nodes tail' (record (l.nodes tail') { next = 0 });
        heap = ops.kfree l.heap l.tail;
      }

  unfoldable pub pop_front : Linked T A → Linked T A
  pop_front l =
      let head' = (l.nodes l.head).next in
      if l.head == 0 then l else record l {
        head = head';
        tail = if head' == 0 then 0 else l.tail;
        size = sub64 l.size 1;
        nodes =
            if head' == 0
            then l.nodes
            else set_node l.nodes head' (record (l.nodes head') { prev = 0 });
        heap = ops.kfree l.heap l.head;
      }

  -- The loop of `clear`, with fuel; `none` when it still runs.
  unfoldable pub free_nodes : (fuel : ℕ) → (ℕ → Node T) → A → ℕ → Option A
  free_nodes zero nodes heap current = none
  free_nodes (suc fuel) nodes heap current =
      let rest = free_nodes fuel nodes (ops.kfree heap current) (nodes current).next in
      if current == 0 then some heap else rest

  unfoldable pub clear : (fuel : ℕ) → Linked T A → Option (Linked T A)
  clear fuel l = elim (free_nodes fuel l.nodes l.heap l.head) [
    | none ↦ none
    | some heap' ↦ some (record l { head = 0; tail = 0; size = 0; heap = heap' })
  ]

module _ {T : Type 0} where
  unfoldable pub forward : (rounds : ℕ) → (ℕ → Node T) → ℕ → ℕ
  forward zero nodes current = current
  forward (suc rounds) nodes current = forward rounds nodes (nodes current).next

  unfoldable pub backward : (rounds : ℕ) → (ℕ → Node T) → ℕ → ℕ
  backward zero nodes current = current
  backward (suc rounds) nodes current = backward rounds nodes (nodes current).prev

module _ {T A : Type 0} where
  unfoldable pub get_node : Linked T A → ℕ → ℕ
  unfolding forward backward
  get_node l index =
      if ltb index (l.size / 2)
      then forward index l.nodes l.head
      else backward (sub64 l.size 1 - index) l.nodes l.tail

  -- The address of the element, or `nullptr`.
  unfoldable pub at : Linked T A → ℕ → ℕ
  unfolding get_node
  at l index = if leb l.size index then 0 else get_node l index
