-- ===== src/LinkedList/Iterate.antt =====
-- The iterator gives the nodes in order.
use k4c.Base.{
  ℕ, suc, ◌≡◌, refl, ap, ◌∙◌, none, some, List, [], ◌∷◌, length, if◌then◌else◌, ltb, ◌-◌,
}
use k4c.Allocator.{Ptr}
use k4c.Iterator.{Iterator, iterator_next, drain, drain-some, drain-none}
use k4c.Links.{Field}
use k4c.LinkedList.{LinkedList, linked_list_iterator_next, get_iterator}
use k4c.LinkedList.Chain.{Chain, Holds}

-- an iterator over the nodes from `node` on
abbrev from_node : Field → ℕ → Ptr → Iterator Ptr ℕ
from_node next hint node = record {
  next = linked_list_iterator_next next;
  size_hint = hint;
  state = node;
}

drain-Chain :
    (next : Field) (nodes : List ℕ) (start : Ptr) (hint : ℕ)
    → Chain next start nodes none
    → drain (suc (length nodes)) (from_node next hint start) ≡ nodes
unfolding linked_list_iterator_next iterator_next
drain-Chain next [] start hint e =
    let ended : iterator_next (from_node next hint start) ≡ (none, from_node next hint none) =
      rw e refl in
    drain-none 0 (from_node next hint start) ended
drain-Chain next (a ∷ nodes) start hint (e, c) =
    let fewer : ℕ = if ltb 0 hint then hint - 1 else hint in
    let given : iterator_next (from_node next hint start)
        ≡ (some a, from_node next fewer (next a)) =
      rw e refl in
    drain-some (suc (length nodes)) (from_node next hint start) given
    ∙ ap (◌∷◌ a) (drain-Chain next nodes (next a) fewer c)

-- The iterator of a list gives exactly the nodes that the list holds, in order, and then NULL; its
-- size hint is their number.
pub drain-get_iterator :
    {W : Type 0} (list : LinkedList W) (next : Field) (nodes : List ℕ)
    → Holds list next nodes
    → (drain (suc (length nodes)) (get_iterator list next) ≡ nodes)
      × ((get_iterator list next).size_hint ≡ length nodes)
unfolding get_iterator
drain-get_iterator list next nodes h = (drain-Chain next nodes list.head list.size h.chain, h.count)
