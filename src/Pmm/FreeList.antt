-- ===== src/Pmm/FreeList.antt =====
-- `list_add` and `list_remove`: the doubly linked free list of one order, threaded through the
-- free pages.
pub mod Chain
pub mod Unlink
use mio_os.Common.{ℕ, ◌==◌, ◌!=◌, if◌then◌else◌, Bool}
use mio_os.Pmm.State.{BuddyFreeNode, Pmm, update}

abbrev pub set_prev : (ℕ → BuddyFreeNode) → ℕ → ℕ → ℕ → BuddyFreeNode
set_prev node p q = update node p (record { next = (node p).next; prev = q })

abbrev pub set_next : (ℕ → BuddyFreeNode) → ℕ → ℕ → ℕ → BuddyFreeNode
set_next node p q = update node p (record { next = q; prev = (node p).prev })

-- The writes to the nodes, in the order of the code. The two stores into `block` are one.
unfoldable pub link_nodes : (ℕ → BuddyFreeNode) → ℕ → ℕ → ℕ → BuddyFreeNode
link_nodes node head block =
    let node' = update node block (record { next = head; prev = 0 }) in
    if head != 0 then set_prev node' head block else node'

unfoldable pub list_add : Pmm → ℕ → ℕ → Pmm
unfolding link_nodes
list_add s block order = record s {
  node = link_nodes s.node (s.free_lists order) block;
  free_lists = update s.free_lists order block;
}

unfoldable pub unlink_nodes : (ℕ → BuddyFreeNode) → ℕ → ℕ → BuddyFreeNode
unlink_nodes node block =
    let node' =
      (if (node block).prev != 0
        then set_next node (node block).prev (node block).next
        else node) in
    if (node' block).next != 0 then set_prev node' (node' block).next (node' block).prev else node'

unfoldable pub list_remove : Pmm → ℕ → ℕ → Pmm
unfolding unlink_nodes
list_remove s block order = record s {
  node = unlink_nodes s.node block;
  free_lists =
      if (s.node block).prev != 0
      then s.free_lists
      else update s.free_lists order (s.node block).next;
}
