-- ===== src/DoublyLinkedList/Remove.antt =====
-- Removing a node anywhere.
use mathlib.Core.Path.{subst}
use k4c.Base.{
  ℕ, ◌+◌, ◌≡◌, ◌≢◌, sym, ap, ◌∙◌, arith, none, some, List, [], ◌∷◌, ◌++◌, length, length-append,
  Avoids,
}
use k4c.Size.{sub_size}
use k4c.Allocator.{Ptr}
use k4c.Links.{write_self, write-ne, Distinct-remove, Distinct-append, Avoids-append}
use k4c.LinkedList.Remove.{sub_one}
use k4c.DoublyLinkedList.{
  DoublyLinkedList, Nodes, set_node, link_next, link_prev, unlink_behind, cleared, discounted,
  remove,
}
use k4c.DoublyLinkedList.Segment.{
  Segment, Holds, Segment-append, append-Segment, Agree, Agree-Segment, OnlyAt, OnlyAt-Agree,
  Distinct-Apart,
}
use k4c.DoublyLinkedList.Relink.{LinksOut, link_next-LinksOut, link_prev-LinksIn}

-- what taking `item` out from between `front` and `back` leaves
abbrev pub Unlinks :
    {W : Type 0} → List ℕ → ℕ → List ℕ → Nodes → DoublyLinkedList W × Nodes → Type 0
Unlinks front item back nodes (list, nodes') =
    Holds list nodes' (front ++ back)
    × ((nodes'.prev item ≡ none) × (nodes'.next item ≡ none))
    × OnlyAt (front ++ item ∷ back) nodes nodes'

pub set_node-Agree :
    (nodes : Nodes) (item : ℕ) (prev next : Ptr) (items : List ℕ)
    → Avoids item items
    → Agree nodes (set_node item prev next nodes) items
set_node-Agree nodes item prev next [] h = tt
set_node-Agree nodes item prev next (a ∷ items) (ne, h) = (
  write-ne nodes.prev item a prev (λ e. ne (sym e)),
  write-ne nodes.next item a next (λ e. ne (sym e)),
  set_node-Agree nodes item prev next items h,
)

-- an item apart from all of a list is apart from its parts
pub apart_parts :
    (a : ℕ) (front : List ℕ) (item : ℕ) (back : List ℕ)
    → Avoids a (front ++ item ∷ back)
    → Avoids a front × (item ≢ a) × Avoids a back
apart_parts a front item back h =
    let (f, (ne, b)) = Avoids-append a front (item ∷ back) h in (f, ne, b)

module _ {W : Type 0} (list : DoublyLinkedList W) (nodes : Nodes) (front : List ℕ) (item : ℕ)
    (back : List ℕ) (h : Holds list nodes (front ++ item ∷ back)) where
  -- the end of removing, when front and back are joined
  cleared-Unlinks :
      (p k : Ptr) (r : DoublyLinkedList W × Nodes)
      → Segment r.1 none r.0.head front p k
      → Segment r.1 p k back r.0.tail none
      → r.0.size ≡ list.size
      → OnlyAt (front ++ item ∷ back) nodes r.1
      → Unlinks front item back nodes (discounted (cleared item r))
  cleared-Unlinks p k (l, n) before behind same only =
      let (distinct, apart) = Distinct-remove front item back h.distinct in
      let shorter : length (front ++ item ∷ back) ≡ length (front ++ back) + 1 =
        omega (arith, length-append front (item ∷ back), length-append front back) in
      (
        record {
          segment =
              Agree-Segment n (set_node item none none n) (front ++ back) none l.head l.tail none
                (set_node-Agree n item none none (front ++ back) apart)
                (append-Segment n front back none l.head p k l.tail none before behind);
          count =
              ap (λ (s : ℕ). sub_size s 1) (same ∙ h.count ∙ shorter)
              ∙ sub_one (length (front ++ back)) (omega (arith, h.small, shorter));
          distinct = distinct;
          small = omega (arith, h.small, shorter);
        },
        (write_self n.prev item none, write_self n.next item none),
        λ a out.
            let (out_front, ne, out_back) = apart_parts a front item back out in
            let (same_prev, same_next) = only a out in
            (
              write-ne n.prev item a none ne ∙ same_prev,
              write-ne n.next item a none ne ∙ same_next,
            ),
      )

  -- the second half, whatever way the first one was done
  unlink_behind-Unlinks :
      (r : DoublyLinkedList W × Nodes)
      → Segment nodes (some item) (nodes.next item) back list.tail none
      → LinksOut front (nodes.prev item) (nodes.next item) list nodes r
      → Unlinks front item back nodes (unlink_behind item r)
  unlink_behind-Unlinks (l1, n1) behind out =
      let (distinct, apart) = Distinct-remove front item back h.distinct in
      let (apart_front, apart_back) = Avoids-append item front back apart in
      let (forth, back_apart) = Distinct-Apart front back distinct in
      let (distinct_front, distinct_back) = Distinct-append front back distinct in
      let (same_prev, same_next) = out.only item apart_front in
      let rest : Segment n1 (some item) (n1.next item) back l1.tail none =
        subst (λ n. Segment n1 (some item) n back l1.tail none) (sym same_next)
          (subst (λ t. Segment n1 (some item) (nodes.next item) back t none) (sym out.same_tail)
            (Agree-Segment nodes n1 back (some item) (nodes.next item) list.tail none
              (OnlyAt-Agree front back nodes n1 out.only forth) behind)) in
      let r : DoublyLinkedList W × Nodes = link_prev (n1.next item) (n1.prev item) (l1, n1) in
      let into =
        link_prev-LinksIn back (some item) (n1.next item) (n1.prev item) l1 n1 distinct_back rest in
      let before : Segment r.1 none r.0.head front (nodes.prev item) (nodes.next item) =
        subst (λ q. Segment r.1 none q front (nodes.prev item) (nodes.next item))
          (sym into.same_head)
          (Agree-Segment n1 r.1 front none l1.head (nodes.prev item) (nodes.next item)
            (OnlyAt-Agree back front n1 r.1 into.only back_apart) out.segment) in
      let after : Segment r.1 (nodes.prev item) (nodes.next item) back r.0.tail none =
        subst (λ q. Segment r.1 q (nodes.next item) back r.0.tail none) same_prev
          (subst (λ q. Segment r.1 (n1.prev item) q back r.0.tail none) same_next into.segment) in
      cleared-Unlinks (nodes.prev item) (nodes.next item) r before after
        (into.same_size ∙ out.same_size)
        λ a others.
          let (in_front, ne, in_back) = apart_parts a front item back others in
          let (p, n) = into.only a in_back in let (p', n') = out.only a in_front in (p ∙ p', n ∙ n')

  -- On a list that holds `item` between `front` and `back`, `remove` leaves the others in their
  -- order, clears both fields of the item, and writes no node outside the list.
  pub remove-Unlinks : Unlinks front item back nodes (remove list item nodes)
  unfolding remove
  remove-Unlinks =
      let (m, k, before, (at, leads, behind)) =
        Segment-append nodes front (item ∷ back) none list.head list.tail none h.segment in
      let (distinct, apart) = Distinct-remove front item back h.distinct in
      unlink_behind-Unlinks (link_next (nodes.prev item) (nodes.next item) (list, nodes)) behind (
        link_next-LinksOut front (nodes.prev item) k (nodes.next item) list nodes
          (Distinct-append front back distinct).0
          (subst (λ p. Segment nodes none list.head front p k) (sym leads) before))
