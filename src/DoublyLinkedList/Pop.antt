-- ===== src/DoublyLinkedList/Pop.antt =====
-- Taking the first and the last node off.
use mathlib.Core.Path.{subst}
use k4c.Base.{ℕ, ◌≡◌, refl, sym, ap, ◌∙◌, arith, none, some, List, [], ◌∷◌, ◌++◌}
use k4c.Allocator.{Ptr}
use k4c.Links.{Field, write}
use k4c.DoublyLinkedList.{
  DoublyLinkedList, Nodes, link_next, link_prev, unlink_behind, cleared, discounted, remove,
  popleft, popback, pop_head, pop_tail,
}
use k4c.DoublyLinkedList.Segment.{Holds, Segment-append}
use k4c.DoublyLinkedList.Remove.{Unlinks, remove-Unlinks}

-- what a popping operation gives and leaves
abbrev pub Pops :
    {W : Type 0} → List ℕ → ℕ → List ℕ → Nodes → Ptr × DoublyLinkedList W × Nodes → Type 0
Pops front item back nodes (got, list, nodes') =
    (got ≡ some item) × Unlinks front item back nodes (list, nodes')

abbrev given : {W : Type 0} → ℕ → DoublyLinkedList W × Nodes → Ptr × DoublyLinkedList W × Nodes
given item (list, nodes) = (some item, list, nodes)

-- a write of NULL leaves NULL where it was
write-none : (field : Field) (y item : ℕ) → field item ≡ none → write field y none item ≡ none
unfolding write
write-none field y item e = ground (arith, e)

module _ {W : Type 0} (list : DoublyLinkedList W) (nodes : Nodes) (item : ℕ) where
  -- popping at an end comes to removing the node there
  pop_head-remove :
      nodes.prev item ≡ none → pop_head (some item) list nodes ≡ given item (remove list item nodes)
  unfolding remove
  pop_head-remove e =
      ap
        (λ p. given item (
          discounted (
            cleared item
              (link_prev (nodes.next item) p (record list { head = nodes.next item }, nodes)))))
        (sym e)
      ∙ ap (λ p. given item (unlink_behind item (link_next p (nodes.next item) (list, nodes))))
          (sym e)

  last_unlinked :
      (p : Ptr)
      → nodes.next item ≡ none
      → discounted (cleared item (link_next p none (record list { tail = nodes.prev item }, nodes)))
        ≡ unlink_behind item (link_next p none (list, nodes))
  last_unlinked none e =
      ap
        (λ q.
          discounted
            (cleared item (link_prev q (nodes.prev item) (record list { head = none }, nodes))))
        (sym e)
  last_unlinked (some y) e =
      let nodes' : Nodes = record nodes { next = write nodes.next y none } in
      ap (λ q. discounted (cleared item (link_prev q (nodes.prev item) (list, nodes'))))
        (sym (write-none nodes.next y item e))

  pop_tail-remove :
      nodes.next item ≡ none → pop_tail (some item) list nodes ≡ given item (remove list item nodes)
  unfolding remove
  pop_tail-remove e =
      ap (given item) (last_unlinked (nodes.prev item) e)
      ∙ ap (λ q. given item (unlink_behind item (link_next (nodes.prev item) q (list, nodes))))
          (sym e)

module _ {W : Type 0} (list : DoublyLinkedList W) (nodes : Nodes) where
  -- On a list with a first item, `popleft` gives it and leaves the others in their order.
  pub popleft-Pops :
      (item : ℕ) (items : List ℕ)
      → Holds list nodes (item ∷ items)
      → Pops [] item items nodes (popleft list nodes)
  unfolding popleft
  popleft-Pops item items h =
      let first : popleft list nodes ≡ given item (remove list item nodes) =
        ap (λ p. pop_head p list nodes) h.segment.0 ∙ pop_head-remove list nodes item h.segment.1 in
      subst (Pops [] item items nodes) (sym first) (refl, remove-Unlinks list nodes [] item items h)

  -- On a list with a last item, `popback` gives it and leaves the others in their order.
  pub popback-Pops :
      (items : List ℕ) (item : ℕ)
      → Holds list nodes (items ++ item ∷ [])
      → Pops items item [] nodes (popback list nodes)
  unfolding popback
  popback-Pops items item h =
      let (m, k, before, (at, leads, (end, same))) =
        Segment-append nodes items (item ∷ []) none list.head list.tail none h.segment in
      let last : popback list nodes ≡ given item (remove list item nodes) =
        ap (λ p. pop_tail p list nodes) same ∙ pop_tail-remove list nodes item end in
      subst (Pops items item [] nodes) (sym last) (refl, remove-Unlinks list nodes items item [] h)

  -- on an empty list both give NULL, and nothing changes
  pub pop-empty :
      Holds list nodes []
      → (popleft list nodes ≡ (none, list, nodes)) × (popback list nodes ≡ (none, list, nodes))
  unfolding popleft popback
  pop-empty h =
      (ap (λ p. pop_head p list nodes) h.segment.0, ap (λ p. pop_tail p list nodes) h.segment.1)
