-- ===== src/DoublyLinkedList/Insert.antt =====
-- Adding a node at the back, at the front and behind a given one.
use mathlib.Core.Path.{subst}
use k4c.Base.{
  ℕ, ◌+◌, ◌<◌, ◌≡◌, refl, sym, ap, ◌∙◌, arith, none, some, List, [], ◌∷◌, ◌++◌, length,
  length-append, append-nil, Avoids,
}
use k4c.Size.{size_max, add_size}
use k4c.Allocator.{Ptr}
use k4c.Links.{write, write_self, write-ne, Distinct-insert, Distinct-append, Avoids-append}
use k4c.LinkedList.Add.{add_one}
use k4c.DoublyLinkedList.{
  DoublyLinkedList, Nodes, set_node, link_next, link_prev, counted, set_tail, push, pushfront,
  insert_after,
}
use k4c.DoublyLinkedList.Segment.{
  Segment, Holds, Segment-append, append-Segment, Agree-Segment, OnlyAt, OnlyAt-Agree,
  Distinct-Apart,
}
use k4c.DoublyLinkedList.Relink.{LinksOut, link_next-LinksOut, LinksIn, link_prev-LinksIn}
use k4c.DoublyLinkedList.Remove.{set_node-Agree, apart_parts}

-- what putting `item` between `front` and `back` makes
abbrev pub Inserts :
    {W : Type 0} → List ℕ → ℕ → List ℕ → Nodes → DoublyLinkedList W × Nodes → Type 0
Inserts front item back nodes (list, nodes') =
    Holds list nodes' (front ++ item ∷ back) × OnlyAt (front ++ item ∷ back) nodes nodes'

module _ {W : Type 0} (list : DoublyLinkedList W) (nodes : Nodes) (front : List ℕ) (item : ℕ)
    (back : List ℕ) (h : Holds list nodes (front ++ back)) (apart : Avoids item (front ++ back))
    (room : length (front ++ back) < size_max) where
  -- the list with the item, once its segment is known
  counted-Inserts :
      (r : DoublyLinkedList W × Nodes)
      → Segment r.1 none r.0.head (front ++ item ∷ back) r.0.tail none
      → r.0.size ≡ list.size
      → OnlyAt (front ++ item ∷ back) nodes r.1
      → Inserts front item back nodes (counted r)
  counted-Inserts r segment same only =
      let longer : length (front ++ item ∷ back) ≡ length (front ++ back) + 1 =
        omega (arith, length-append front (item ∷ back), length-append front back) in
      (
        record {
          segment = segment;
          count =
              ap (λ (s : ℕ). add_size s 1) (same ∙ h.count)
              ∙ add_one (length (front ++ back)) room
              ∙ sym longer;
          distinct = Distinct-insert front item back h.distinct apart;
          small = omega (arith, longer);
        },
        only,
      )

  -- the assignments that join the item with what is behind it and before it
  linked-Inserts :
      (m k : Ptr)
      → Segment nodes none list.head front m k
      → Segment nodes m k back list.tail none
      → Inserts front item back nodes (
          counted
            (link_next m (some item) (link_prev k (some item) (list, set_node item m k nodes))))
  linked-Inserts m k before behind =
      let n : Nodes = set_node item m k nodes in
      let r : DoublyLinkedList W × Nodes = link_prev k (some item) (list, n) in
      let s : DoublyLinkedList W × Nodes = link_next m (some item) r in
      let (apart_front, apart_back) = Avoids-append item front back apart in
      let (forth, back_apart) = Distinct-Apart front back h.distinct in
      let (distinct_front, distinct_back) = Distinct-append front back h.distinct in
      let into : LinksIn back k (some item) list n r =
        link_prev-LinksIn back m k (some item) list n distinct_back (
          Agree-Segment nodes n back m k list.tail none
            (set_node-Agree nodes item m k back apart_back) behind) in
      let before' : Segment r.1 none r.0.head front m k =
        subst (λ q. Segment r.1 none q front m k) (sym into.same_head)
          (Agree-Segment n r.1 front none list.head m k
            (OnlyAt-Agree back front n r.1 into.only back_apart)
            (Agree-Segment nodes n front none list.head m k
              (set_node-Agree nodes item m k front apart_front) before)) in
      let out : LinksOut front m (some item) r.0 r.1 s =
        link_next-LinksOut front m k (some item) r.0 r.1 distinct_front before' in
      let (p, q) = into.only item apart_back in
      let (p', q') = out.only item apart_front in
      let prev : s.1.prev item ≡ m = p' ∙ p ∙ write_self nodes.prev item m in
      let next : s.1.next item ≡ k = q' ∙ q ∙ write_self nodes.next item k in
      let behind' : Segment s.1 (some item) k back s.0.tail none =
        subst (λ t. Segment s.1 (some item) k back t none) (sym out.same_tail)
          (Agree-Segment r.1 s.1 back (some item) k r.0.tail none
            (OnlyAt-Agree front back r.1 s.1 out.only forth) into.segment) in
      counted-Inserts s
        (append-Segment s.1 front (item ∷ back) none s.0.head m (some item) s.0.tail none
          out.segment
          (
            refl,
            prev,
            subst (λ x. Segment s.1 (some item) x back s.0.tail none) (sym next) behind',
          ))
        (out.same_size ∙ into.same_size)
        λ a others.
          let (in_front, ne, in_back) = apart_parts a front item back others in
          let (p1, q1) = into.only a in_back in
          let (p2, q2) = out.only a in_front in
          (p2 ∙ p1 ∙ write-ne nodes.prev item a m ne, q2 ∙ q1 ∙ write-ne nodes.next item a k ne)

module _ {W : Type 0} where
  -- the order of the two assignments does not matter at the back
  push_order :
      (m : Ptr) (item : ℕ) (r : DoublyLinkedList W × Nodes)
      → link_next m (some item) (link_prev none (some item) r)
        ≡ set_tail (some item) (link_next m (some item) r)
  push_order none item r = refl
  push_order (some y) item r = refl

  -- On a list that holds `items`, `push` of a node outside it appends the node, and writes the
  -- fields of no node outside the new list.
  pub push-Inserts :
      (list : DoublyLinkedList W) (nodes : Nodes) (items : List ℕ) (item : ℕ)
      → Holds list nodes items
      → Avoids item items
      → length items < size_max
      → Inserts items item [] nodes (push list item nodes)
  unfolding push
  push-Inserts list nodes items item h apart room =
      let whole : items ++ [] ≡ items = append-nil items in
      let linked =
        linked-Inserts list nodes items item [] (subst (Holds list nodes) (sym whole) h)
          (subst (Avoids item) (sym whole) apart)
          (subst (λ xs. length xs < size_max) (sym whole) room) list.tail none h.segment
          (refl, refl) in
      subst (λ r. Inserts items item [] nodes (counted r))
        (push_order list.tail item (list, set_node item list.tail none nodes)) linked

  -- On a list that holds `items`, `pushfront` of a node outside it puts the node before them, and
  -- writes the fields of no node outside the new list.
  pub pushfront-Inserts :
      (list : DoublyLinkedList W) (nodes : Nodes) (items : List ℕ) (item : ℕ)
      → Holds list nodes items
      → Avoids item items
      → length items < size_max
      → Inserts [] item items nodes (pushfront list item nodes)
  unfolding pushfront
  pushfront-Inserts list nodes items item h apart room =
      linked-Inserts list nodes [] item items h apart room none list.head (refl, refl) h.segment

  -- On a list that holds `after` and on which `item` does not stand, `insert_after` puts the item
  -- right behind `after` and keeps the order of the others; it writes the fields of no node outside
  -- the new list.
  pub insert_after-Inserts :
      (list : DoublyLinkedList W) (nodes : Nodes) (front : List ℕ) (after : ℕ) (back : List ℕ)
      (item : ℕ)
      → Holds list nodes ((front ++ after ∷ []) ++ back)
      → Avoids item ((front ++ after ∷ []) ++ back)
      → length ((front ++ after ∷ []) ++ back) < size_max
      → Inserts (front ++ after ∷ []) item back nodes (insert_after list (some after) item nodes)
  unfolding insert_after
  insert_after-Inserts list nodes front after back item h apart room =
      let whole : List ℕ = front ++ after ∷ [] in
      let (m, k, before, behind) =
        Segment-append nodes whole back none list.head list.tail none h.segment in
      let (m', k', first, (at, leads, (next, last))) =
        Segment-append nodes front (after ∷ []) none list.head m k before in
      let out = Avoids-append item front (after ∷ []) (Avoids-append item whole back apart).0 in
      let kept : write nodes.next item (nodes.next after) after ≡ nodes.next after =
        write-ne nodes.next item after (nodes.next after) (λ e. out.1.0 (sym e)) in
      let linked =
        linked-Inserts list nodes whole item back h apart room (some after) (nodes.next after)
          (subst (λ q. Segment nodes none list.head whole (some after) q) (sym next)
            (subst (λ q. Segment nodes none list.head whole q k) last before))
          (subst (λ q. Segment nodes (some after) q back list.tail none) (sym next)
            (subst (λ q. Segment nodes q k back list.tail none) last behind)) in
      subst
        (λ q. Inserts whole item back nodes (
          counted (
            link_next (some after) (some item) (
              link_prev q (some item)
                (list, set_node item (some after) (nodes.next after) nodes)))))
        (sym kept) linked
