-- ===== src/DoublyLinkedList.antt =====
-- lib/datastruct/doubly_linked_list.c: a doubly linked list through the nodes of the caller. The
-- `prev` and `next` fields of all nodes are a store that the operations take and return. A list and
-- a node that a function is given are never NULL here, but for the `after` of `insert_after`.
pub mod Segment
pub mod Relink
pub mod Insert
pub mod Remove
pub mod Pop
pub mod Iterate
pub mod Lifecycle
mod Tests
use k4c.Base.{ℕ, Bool, true, false, Option, none, some, Prog, pure, ◌>>=◌}
use k4c.Platform.{sizeof_linked_list}
use k4c.Size.{add_size, sub_size}
use k4c.Status.{Status, ok, is_ok}
use k4c.Allocator.{Ptr, Libc, Allocator, allocator_copy, alloc, dealloc}
use k4c.Iterator.{Iterator, iterator_from_state, iterator_set_size_hint}
use k4c.Links.{Field, write}

-- `struct k4c_doubly_linked_list_node`, at every address
pub record Nodes : Type 0 where
  pub prev : Field
  pub next : Field

-- `struct k4c_doubly_linked_list`, with the address that it was allocated at
pub record DoublyLinkedList (W : Type 0) : Type 0 where
  pub address : Ptr
  pub size : ℕ
  pub head : Ptr
  pub tail : Ptr
  pub allocator : Allocator W

-- the assignments of both fields of a node
abbrev pub set_node : ℕ → Ptr → Ptr → Nodes → Nodes
set_node node prev next nodes = record {
  prev = write nodes.prev node prev;
  next = write nodes.next node next;
}

-- `k4c_doubly_linked_list_iterator_next`; the state is the node to give next
unfoldable pub doubly_linked_list_iterator_next : Nodes → Ptr → Option ℕ × Ptr
doubly_linked_list_iterator_next nodes none = (none, none)
doubly_linked_list_iterator_next nodes (some node) = (some node, nodes.next node)

module _ {W : Type 0} where
  -- `before->next = target`, or `list->head = target` where there is no node before
  abbrev pub link_next : Ptr → Ptr → DoublyLinkedList W × Nodes → DoublyLinkedList W × Nodes
  link_next none target (list, nodes) = (record list { head = target }, nodes)
  link_next (some before) target (list, nodes) =
      (list, record nodes { next = write nodes.next before target })

  -- `behind->prev = target`, or `list->tail = target` where there is no node behind
  abbrev pub link_prev : Ptr → Ptr → DoublyLinkedList W × Nodes → DoublyLinkedList W × Nodes
  link_prev none target (list, nodes) = (record list { tail = target }, nodes)
  link_prev (some behind) target (list, nodes) =
      (list, record nodes { prev = write nodes.prev behind target })

  -- `list->size += 1` and `list->size -= 1`
  abbrev pub counted : DoublyLinkedList W × Nodes → DoublyLinkedList W × Nodes
  counted (list, nodes) = (record list { size = add_size list.size 1 }, nodes)

  abbrev pub discounted : DoublyLinkedList W × Nodes → DoublyLinkedList W × Nodes
  discounted (list, nodes) = (record list { size = sub_size list.size 1 }, nodes)

  abbrev pub set_head : Ptr → DoublyLinkedList W × Nodes → DoublyLinkedList W × Nodes
  set_head head (list, nodes) = (record list { head = head }, nodes)

  abbrev pub set_tail : Ptr → DoublyLinkedList W × Nodes → DoublyLinkedList W × Nodes
  set_tail tail (list, nodes) = (record list { tail = tail }, nodes)

  -- `node->prev = NULL` and `node->next = NULL`
  abbrev pub cleared : ℕ → DoublyLinkedList W × Nodes → DoublyLinkedList W × Nodes
  cleared node (list, nodes) = (list, set_node node none none nodes)

  -- `k4c_doubly_linked_list_push`
  unfoldable pub push : DoublyLinkedList W → ℕ → Nodes → DoublyLinkedList W × Nodes
  push list node nodes =
      let prepared = set_node node list.tail none nodes in
      counted (set_tail (some node) (link_next list.tail (some node) (list, prepared)))

  -- `k4c_doubly_linked_list_pushfront`
  unfoldable pub pushfront : DoublyLinkedList W → ℕ → Nodes → DoublyLinkedList W × Nodes
  pushfront list node nodes =
      let prepared = set_node node none list.head nodes in
      counted (set_head (some node) (link_prev list.head (some node) (list, prepared)))

  -- `after->next = node`
  abbrev pub set_next : ℕ → Ptr → DoublyLinkedList W × Nodes → DoublyLinkedList W × Nodes
  set_next after target (list, nodes) =
      (list, record nodes { next = write nodes.next after target })

  -- `k4c_doubly_linked_list_insert_after`
  unfoldable pub insert_after : DoublyLinkedList W → Ptr → ℕ → Nodes → DoublyLinkedList W × Nodes
  unfolding pushfront
  insert_after list none node nodes = pushfront list node nodes
  insert_after list (some after) node nodes =
      let prepared = set_node node (some after) (nodes.next after) nodes in
      counted
        (set_next after (some node) (link_prev (prepared.next after) (some node) (list, prepared)))

  -- `k4c_doubly_linked_list_popleft`, by `list->head`
  abbrev pub pop_head : Ptr → DoublyLinkedList W → Nodes → Ptr × DoublyLinkedList W × Nodes
  pop_head none list nodes = (none, list, nodes)
  pop_head (some old_head) list nodes =
      let head = nodes.next old_head in
      let r =
        discounted (cleared old_head (link_prev head none (record list { head = head }, nodes))) in
      (some old_head, r.0, r.1)

  -- `k4c_doubly_linked_list_popleft`
  unfoldable pub popleft : DoublyLinkedList W → Nodes → Ptr × DoublyLinkedList W × Nodes
  popleft list nodes = pop_head list.head list nodes

  -- `k4c_doubly_linked_list_popback`, by `list->tail`
  abbrev pub pop_tail : Ptr → DoublyLinkedList W → Nodes → Ptr × DoublyLinkedList W × Nodes
  pop_tail none list nodes = (none, list, nodes)
  pop_tail (some old_tail) list nodes =
      let tail = nodes.prev old_tail in
      let r =
        discounted (cleared old_tail (link_next tail none (record list { tail = tail }, nodes))) in
      (some old_tail, r.0, r.1)

  -- `k4c_doubly_linked_list_popback`
  unfoldable pub popback : DoublyLinkedList W → Nodes → Ptr × DoublyLinkedList W × Nodes
  popback list nodes = pop_tail list.tail list nodes

  -- the second half of `k4c_doubly_linked_list_remove`
  abbrev pub unlink_behind : ℕ → DoublyLinkedList W × Nodes → DoublyLinkedList W × Nodes
  unlink_behind node (list, nodes) =
      discounted (cleared node (link_prev (nodes.next node) (nodes.prev node) (list, nodes)))

  -- `k4c_doubly_linked_list_remove`
  unfoldable pub remove : DoublyLinkedList W → ℕ → Nodes → DoublyLinkedList W × Nodes
  remove list node nodes =
      unlink_behind node (link_next (nodes.prev node) (nodes.next node) (list, nodes))

  -- `k4c_doubly_linked_list_size`, `k4c_doubly_linked_list_head` and `k4c_doubly_linked_list_tail`
  abbrev pub size : DoublyLinkedList W → ℕ
  size list = list.size

  abbrev pub head : DoublyLinkedList W → Ptr
  head list = list.head

  abbrev pub tail : DoublyLinkedList W → Ptr
  tail list = list.tail

  -- `k4c_doubly_linked_list_get_iterator`
  unfoldable pub get_iterator : DoublyLinkedList W → Nodes → Iterator Ptr ℕ
  unfolding doubly_linked_list_iterator_next
  get_iterator list nodes =
      iterator_set_size_hint
        (iterator_from_state (doubly_linked_list_iterator_next nodes) list.head) list.size

module _ {W : Type 0} (libc : Libc W) where
  -- the stores at the end of `k4c_doubly_linked_list_create`
  abbrev pub fresh : Option (Allocator W) → Ptr → DoublyLinkedList W
  fresh allocator address = record {
    address = address;
    size = 0;
    head = none;
    tail = none;
    allocator = allocator_copy allocator;
  }

  -- `k4c_doubly_linked_list_create`
  unfoldable pub create : Option (Allocator W) → Prog W (Status × Option (DoublyLinkedList W))
  create allocator = do
    (st, address) ← alloc libc allocator sizeof_linked_list
    elim (is_ok st) [ false ↦ pure (st, none) | true ↦ pure (ok, some (fresh allocator address)) ]

  -- `k4c_doubly_linked_list_destroy`
  unfoldable pub destroy : DoublyLinkedList W → Prog W (Unit {0})
  destroy list = dealloc libc (some list.allocator) list.address
