-- ===== src/DoublyLinkedList/Relink.antt =====
-- The two assignments by which the operations join a front part and a back part of a list anew.
use mathlib.Core.Path.{subst}
use k4c.Base.{ℕ, ◌≡◌, ◌≢◌, refl, sym, none, some, List, [], ◌∷◌, Avoids}
use k4c.Allocator.{Ptr}
use k4c.Links.{write, write_self, write-ne, Distinct}
use k4c.DoublyLinkedList.{DoublyLinkedList, Nodes, link_next, link_prev}
use k4c.DoublyLinkedList.Segment.{Segment, Agree, Agree-Segment, OnlyAt}

-- the store after `node->next = value`, and after `node->prev = value`
abbrev with_next : Nodes → ℕ → Ptr → Nodes
with_next nodes node value = record nodes { next = write nodes.next node value }

abbrev with_prev : Nodes → ℕ → Ptr → Nodes
with_prev nodes node value = record nodes { prev = write nodes.prev node value }

-- one of the items, as those that avoid the items see it
abbrev Among : ℕ → List ℕ → Type 0
Among y items = (a : ℕ) → Avoids a items → y ≢ a

segment_end :
    (nodes : Nodes) (x : ℕ) (xs : List ℕ) (before head m k value : Ptr)
    → Distinct (x ∷ xs)
    → Segment nodes before head (x ∷ xs) m k
    → (y : ℕ) × (m ≡ some y)
      × Among y (x ∷ xs)
      × Segment (with_next nodes y value) before head (x ∷ xs) m value
segment_end nodes x [] before head m k value d (e, p, (f, g)) =
    (x, g, (λ a out. out.0), (e, p, (write_self nodes.next x value, g)))
segment_end nodes x (z ∷ xs) before head m k value (out, d) (e, p, s) =
    let (y, at, among, t) = segment_end nodes z xs (some x) (nodes.next x) m k value d s in
    let kept : write nodes.next y value x ≡ nodes.next x =
      write-ne nodes.next y x value (among x out) in
    (
      y,
      at,
      (λ a avoids. among a avoids.1),
      (
        e,
        p,
        subst (λ h. Segment (with_next nodes y value) (some x) h (z ∷ xs) m value) (sym kept) t,
      ),
    )

first_Segment :
    (nodes : Nodes) (c : ℕ) (cs : List ℕ) (before last stop value : Ptr)
    → Avoids c cs
    → Segment nodes before (some c) (c ∷ cs) last stop
    → Segment (with_prev nodes c value) value (some c) (c ∷ cs) last stop
first_Segment nodes c cs before last stop value out (e, p, s) = (
  refl,
  write_self nodes.prev c value,
  Agree-Segment nodes (with_prev nodes c value) cs (some c) (nodes.next c) last stop (agree cs out)
      s,
)
  where
    agree : (ds : List ℕ) → Avoids c ds → Agree nodes (with_prev nodes c value) ds
    agree [] h = tt
    agree (d ∷ ds) (ne, h) = (write-ne nodes.prev c d value (λ f. ne (sym f)), refl, agree ds h)

module _ {W : Type 0} where
  -- what `link_next` does to a front part that ends at `m`: it leads on to `value`
  pub record LinksOut (front : List ℕ) (m value : Ptr) (list : DoublyLinkedList W) (nodes : Nodes)
      (r : DoublyLinkedList W × Nodes) : Type 0 where
    pub segment : Segment r.1 none r.0.head front m value
    pub same_tail : r.0.tail ≡ list.tail
    pub same_size : r.0.size ≡ list.size
    pub only : OnlyAt front nodes r.1

  pub link_next-LinksOut :
      (front : List ℕ) (m k value : Ptr) (list : DoublyLinkedList W) (nodes : Nodes)
      → Distinct front
      → Segment nodes none list.head front m k
      → LinksOut front m value list nodes (link_next m value (list, nodes))
  link_next-LinksOut [] m k value list nodes d (e, f) =
      subst (λ p. LinksOut [] p value list nodes (link_next p value (list, nodes))) (sym f)
        (record {
          segment = (refl, refl);
          same_tail = refl;
          same_size = refl;
          only = λ a out. (refl, refl);
        })
  link_next-LinksOut (x ∷ xs) m k value list nodes d s =
      let (y, at, among, t) = segment_end nodes x xs none list.head m k value d s in
      subst (λ p. LinksOut (x ∷ xs) p value list nodes (link_next p value (list, nodes))) (sym at)
        (record {
          segment =
              subst (λ p. Segment (with_next nodes y value) none list.head (x ∷ xs) p value) at t;
          same_tail = refl;
          same_size = refl;
          only = λ a out. (refl, write-ne nodes.next y a value (among a out));
        })

  -- what `link_prev` does to a back part that starts at `k`: it leads back to `value`
  pub record LinksIn (back : List ℕ) (k value : Ptr) (list : DoublyLinkedList W) (nodes : Nodes)
      (r : DoublyLinkedList W × Nodes) : Type 0 where
    pub segment : Segment r.1 value k back r.0.tail none
    pub same_head : r.0.head ≡ list.head
    pub same_size : r.0.size ≡ list.size
    pub only : OnlyAt back nodes r.1

  pub link_prev-LinksIn :
      (back : List ℕ) (m k value : Ptr) (list : DoublyLinkedList W) (nodes : Nodes)
      → Distinct back
      → Segment nodes m k back list.tail none
      → LinksIn back k value list nodes (link_prev k value (list, nodes))
  link_prev-LinksIn [] m k value list nodes d (e, f) =
      subst (λ p. LinksIn [] p value list nodes (link_prev p value (list, nodes))) (sym e)
        (record {
          segment = (refl, refl);
          same_head = refl;
          same_size = refl;
          only = λ a out. (refl, refl);
        })
  link_prev-LinksIn (c ∷ cs) m k value list nodes (out, d) (e, p, s) =
      subst (λ q. LinksIn (c ∷ cs) q value list nodes (link_prev q value (list, nodes))) (sym e)
        (record {
          segment = first_Segment nodes c cs m list.tail none value out (refl, p, s);
          same_head = refl;
          same_size = refl;
          only = λ a avoids. (write-ne nodes.prev c a value avoids.0, refl);
        })
