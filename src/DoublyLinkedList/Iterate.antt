-- ===== src/DoublyLinkedList/Iterate.antt =====
-- The iterator gives the nodes in order.
use k4c.Base.{
  ℕ, suc, ◌-◌, ◌≡◌, refl, ap, ◌∙◌, none, some, List, [], ◌∷◌, length, if◌then◌else◌, ltb,
}
use k4c.Allocator.{Ptr}
use k4c.Iterator.{Iterator, iterator_next, drain, drain-some, drain-none}
use k4c.DoublyLinkedList.{DoublyLinkedList, Nodes, doubly_linked_list_iterator_next, get_iterator}
use k4c.DoublyLinkedList.Segment.{Segment, Holds}

-- an iterator over the items from `node` on
abbrev from_node : Nodes → ℕ → Ptr → Iterator Ptr ℕ
from_node nodes hint node = record {
  next = doubly_linked_list_iterator_next nodes;
  size_hint = hint;
  state = node;
}

drain-Segment :
    (nodes : Nodes) (items : List ℕ) (before head last : Ptr) (hint : ℕ)
    → Segment nodes before head items last none
    → drain (suc (length items)) (from_node nodes hint head) ≡ items
unfolding doubly_linked_list_iterator_next iterator_next
drain-Segment nodes [] before head last hint (e, f) =
    let ended : iterator_next (from_node nodes hint head) ≡ (none, from_node nodes hint none) =
      rw e refl in
    drain-none 0 (from_node nodes hint head) ended
drain-Segment nodes (a ∷ items) before head last hint (e, p, s) =
    let fewer : ℕ = if ltb 0 hint then hint - 1 else hint in
    let given : iterator_next (from_node nodes hint head)
        ≡ (some a, from_node nodes fewer (nodes.next a)) =
      rw e refl in
    drain-some (suc (length items)) (from_node nodes hint head) given
    ∙ ap (◌∷◌ a) (drain-Segment nodes items (some a) (nodes.next a) last fewer s)

-- The iterator of a list gives exactly the items that the list holds, in order, and then NULL; its
-- size hint is their number.
pub drain-get_iterator :
    {W : Type 0} (list : DoublyLinkedList W) (nodes : Nodes) (items : List ℕ)
    → Holds list nodes items
    → (drain (suc (length items)) (get_iterator list nodes) ≡ items)
      × ((get_iterator list nodes).size_hint ≡ length items)
unfolding get_iterator
drain-get_iterator list nodes items h =
    (drain-Segment nodes items none list.head list.tail list.size h.segment, h.count)
