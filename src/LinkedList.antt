-- ===== src/LinkedList.antt =====
-- lib/datastruct/linked_list.c: a singly linked list through the nodes of the caller. The `next`
-- fields of all nodes are a store that the operations take and return. A list and a node that a
-- function is given are never NULL here, but for the node before the one that `remove_after` takes.
pub mod Chain
pub mod Add
pub mod Remove
pub mod Iterate
pub mod Lifecycle
mod Tests
use k4c.Base.{ℕ, ◌==◌, if◌then◌else◌, Bool, true, false, Option, none, some, Prog, pure, ◌>>=◌}
use k4c.Platform.{sizeof_linked_list}
use k4c.Size.{add_size, sub_size}
use k4c.Status.{Status, ok, is_ok}
use k4c.Allocator.{Ptr, Libc, Allocator, allocator_copy, alloc, dealloc}
use k4c.Iterator.{Iterator, iterator_from_state, iterator_set_size_hint}
use k4c.Links.{Field, write}

-- `struct k4c_linked_list`, with the address that it was allocated at
pub record LinkedList (W : Type 0) : Type 0 where
  pub address : Ptr
  pub size : ℕ
  pub head : Ptr
  pub tail : Ptr
  pub allocator : Allocator W

-- `p == node`
abbrev pub is_node : Ptr → ℕ → Bool
is_node none node = false
is_node (some a) node = a == node

-- `k4c_linked_list_iterator_next`; the state is the node to give next
unfoldable pub linked_list_iterator_next : Field → Ptr → Option ℕ × Ptr
linked_list_iterator_next next none = (none, none)
linked_list_iterator_next next (some node) = (some node, next node)

-- the tail after a node came in front
abbrev pub first_tail : Ptr → ℕ → Ptr
first_tail none node = some node
first_tail (some tail) node = some tail

-- the tail of a list whose head is the first argument
abbrev pub tail_under : Ptr → Ptr → Ptr
tail_under none tail = none
tail_under (some head) tail = tail

module _ {W : Type 0} where
  -- the part of `k4c_linked_list_push` after `node->next = NULL`, by `list->tail`
  abbrev pub link_tail : Ptr → LinkedList W → ℕ → Field → LinkedList W × Field
  link_tail none list node next =
      (record list { head = some node; tail = some node; size = add_size list.size 1 }, next)
  link_tail (some tail) list node next =
      (record list { tail = some node; size = add_size list.size 1 }, write next tail (some node))

  -- `k4c_linked_list_push`
  unfoldable pub push : LinkedList W → ℕ → Field → LinkedList W × Field
  push list node next = link_tail list.tail list node (write next node none)

  -- `k4c_linked_list_pushfront`
  unfoldable pub pushfront : LinkedList W → ℕ → Field → LinkedList W × Field
  pushfront list node next = (
    record list { head = some node; tail = first_tail list.tail node; size = add_size list.size 1 },
    write next node list.head,
  )

  -- `k4c_linked_list_popleft`, by `list->head`
  abbrev pub pop_head : Ptr → LinkedList W → Field → Ptr × LinkedList W × Field
  pop_head none list next = (none, list, next)
  pop_head (some old_head) list next = (
    some old_head,
    record list {
      head = next old_head;
      tail = tail_under (next old_head) list.tail;
      size = sub_size list.size 1;
    },
    write next old_head none,
  )

  -- `k4c_linked_list_popleft`
  unfoldable pub popleft : LinkedList W → Field → Ptr × LinkedList W × Field
  popleft list next = pop_head list.head list next

  -- `k4c_linked_list_remove_after` at a `prev` that is not NULL, by `prev->next`
  abbrev pub unlink_after : Ptr → ℕ → LinkedList W → Field → Ptr × LinkedList W × Field
  unlink_after none prev list next = (none, list, next)
  unlink_after (some node) prev list next = (
    some node,
    record list {
      tail = if is_node list.tail node then some prev else list.tail;
      size = sub_size list.size 1;
    },
    write (write next prev (next node)) node none,
  )

  -- `k4c_linked_list_remove_after`
  unfoldable pub remove_after : LinkedList W → Ptr → Field → Ptr × LinkedList W × Field
  unfolding popleft
  remove_after list none next = popleft list next
  remove_after list (some prev) next = unlink_after (next prev) prev list next

  -- `k4c_linked_list_size` and `k4c_linked_list_head`
  abbrev pub size : LinkedList W → ℕ
  size list = list.size

  abbrev pub head : LinkedList W → Ptr
  head list = list.head

  -- `k4c_linked_list_get_iterator`
  unfoldable pub get_iterator : LinkedList W → Field → Iterator Ptr ℕ
  unfolding linked_list_iterator_next
  get_iterator list next =
      iterator_set_size_hint (iterator_from_state (linked_list_iterator_next next) list.head)
        list.size

module _ {W : Type 0} (libc : Libc W) where
  -- the stores at the end of `k4c_linked_list_create`
  abbrev pub fresh : Option (Allocator W) → Ptr → LinkedList W
  fresh allocator address = record {
    address = address;
    size = 0;
    head = none;
    tail = none;
    allocator = allocator_copy allocator;
  }

  -- `k4c_linked_list_create`
  unfoldable pub create : Option (Allocator W) → Prog W (Status × Option (LinkedList W))
  create allocator = do
    (st, address) ← alloc libc allocator sizeof_linked_list
    elim (is_ok st) [ false ↦ pure (st, none) | true ↦ pure (ok, some (fresh allocator address)) ]

  -- `k4c_linked_list_destroy`
  unfoldable pub destroy : LinkedList W → Prog W (Unit {0})
  destroy list = dealloc libc (some list.allocator) list.address
