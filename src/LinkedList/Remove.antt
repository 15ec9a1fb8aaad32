-- ===== src/LinkedList/Remove.antt =====
-- Removing the first node, and the node after a given one.
use mathlib.Core.Path.{subst}
use k4c.Base.{
  ℕ, ◌+◌, ◌-◌, ◌<◌, ◌≡◌, ◌==◌, refl, sym, ap, ◌∙◌, arith, if◌then◌else◌, true, false, none, some,
  List, [], ◌∷◌, ◌++◌, length, length-append, append-nil, append_assoc, Avoids,
}
use native.Mathlib.Nat.{mod-eq_of_lt, add-mod_right}
use k4c.Size.{size_max, word, sub_size}
use k4c.Allocator.{Ptr}
use k4c.Links.{Field, write, write_self, write-ne, Distinct, Distinct-remove, Avoids-append}
use k4c.LinkedList.{LinkedList, popleft, pop_head, remove_after, unlink_after, tail_under, is_node}
use k4c.LinkedList.Chain.{
  Chain, last, Holds, last-append, last-rest, Chain-append, append-Chain, Chain-write, Chain-relink,
}
use k4c.LinkedList.Add.{OnlyAt}

-- what taking out `node` between `front` and `back` leaves
abbrev pub Unlinks :
    {W : Type 0} → List ℕ → ℕ → List ℕ → Field → Ptr × LinkedList W × Field → Type 0
Unlinks front node back next (got, list, next') =
    (got ≡ some node)
    × Holds list next' (front ++ back)
    × (next' node ≡ none)
    × OnlyAt (front ++ node ∷ []) next next'

pub sub_one : (n : ℕ) → n < size_max → sub_size (n + 1) 1 ≡ n
sub_one n h =
    let moved : n + 1 + word - 1 ≡ n + word = omega arith in
    rw (moved, add-mod_right n word) (mod-eq_of_lt (omega arith))

tail_under_lem :
    (nodes : List ℕ) (node : ℕ) (head tail : Ptr) (next : Field)
    → Chain next head nodes none
    → tail ≡ last (node ∷ nodes)
    → tail_under head tail ≡ last nodes
tail_under_lem [] node head tail next c e = rw c refl
tail_under_lem (x ∷ nodes) node head tail next (c, d) e = rw c e

is_node-last :
    (node y : ℕ) (nodes : List ℕ)
    → Avoids node (y ∷ nodes)
    → is_node (last (y ∷ nodes)) node ≡ false
is_node-last node y [] (ne, h) = ground arith
is_node-last node y (z ∷ nodes) (ne, h) = is_node-last node z nodes h

-- the tail after `node` has gone from behind `prev`
tail_after :
    (front : List ℕ) (prev node : ℕ) (back : List ℕ) (tail : Ptr)
    → Avoids node back
    → tail ≡ last ((front ++ prev ∷ []) ++ node ∷ back)
    → (if is_node tail node then some prev else tail) ≡ last ((front ++ prev ∷ []) ++ back)
tail_after front prev node [] tail out e =
    let at : tail ≡ some node = e ∙ last-append (front ++ prev ∷ []) node in
    let same : (node == node) ≡ true = ground arith in
    rw (at, same) (sym (ap last (append-nil (front ++ prev ∷ [])) ∙ last-append front prev))
tail_after front prev node (y ∷ ys) tail out e =
    let at : tail ≡ last (y ∷ ys) = e ∙ last-rest (front ++ prev ∷ []) node (y ∷ ys) in
    rw (at, is_node-last node y ys out) (sym (last-rest (front ++ prev ∷ []) y ys))

module _ {W : Type 0} where
  pop_head-Unlinks :
      (list : LinkedList W) (next : Field) (node : ℕ) (nodes : List ℕ)
      → Holds list next (node ∷ nodes)
      → Unlinks [] node nodes next (pop_head (some node) list next)
  pop_head-Unlinks list next node nodes h =
      let (start, chain) = h.chain in
      let (out, apart) = h.distinct in
      (
        refl,
        record {
          chain = Chain-write next node none nodes (next node) none out chain;
          ends = tail_under_lem nodes node (next node) list.tail next chain h.ends;
          count =
              ap (λ (n : ℕ). sub_size n 1) (h.count ∙ omega arith)
              ∙ sub_one (length nodes) (omega (arith, h.small));
          distinct = apart;
          small = omega (arith, h.small);
        },
        write_self next node none,
        λ a (ne, others). write-ne next node a none ne,
      )

  -- On a list that holds a first node and others, `popleft` gives the first and leaves the others;
  -- it clears the `next` field of the node and writes no other.
  pub popleft-Unlinks :
      (list : LinkedList W) (next : Field) (node : ℕ) (nodes : List ℕ)
      → Holds list next (node ∷ nodes)
      → Unlinks [] node nodes next (popleft list next)
  unfolding popleft
  popleft-Unlinks list next node nodes h =
      subst (λ p. Unlinks [] node nodes next (pop_head p list next)) (sym h.chain.0)
        (pop_head-Unlinks list next node nodes h)

  -- on an empty list it gives NULL, and nothing changes
  pub popleft-nil :
      (list : LinkedList W) (next : Field)
      → Holds list next []
      → popleft list next ≡ (none, list, next)
  unfolding popleft
  popleft-nil list next h = ap (λ p. pop_head p list next) h.chain

  unlink_after-Unlinks :
      (list : LinkedList W) (next : Field) (front : List ℕ) (prev node : ℕ) (back : List ℕ)
      → Holds list next ((front ++ prev ∷ []) ++ node ∷ back)
      → (next prev ≡ some node)
        × Unlinks (front ++ prev ∷ []) node back next (unlink_after (some node) prev list next)
  unlink_after-Unlinks list next front prev node back h =
      let whole : List ℕ = front ++ prev ∷ [] in
      let (middle, first, (at, rest)) =
        Chain-append next whole (node ∷ back) list.head none h.chain in
      let (middle', before, (at', leads)) =
        Chain-append next front (prev ∷ []) list.head middle first in
      let (distinct, out) = Distinct-remove whole node back h.distinct in
      let (out_front, out_back) = Avoids-append node whole back out in
      let again : Distinct (front ++ prev ∷ back) =
        subst Distinct (append_assoc front (prev ∷ []) back) distinct in
      let (apart_front, apart_back) =
        Avoids-append prev front back (Distinct-remove front prev back again).1 in
      let shorter : length (whole ++ node ∷ back) ≡ length (whole ++ back) + 1 =
        omega (arith, length-append whole (node ∷ back), length-append whole back) in
      let joined : Chain (write next prev (next node)) list.head (whole ++ back) none =
        append-Chain (write next prev (next node)) whole back list.head (next node) none
          (Chain-relink next front prev (next node) list.head middle apart_front first)
          (Chain-write next prev (next node) back (next node) none apart_back rest) in
      (
        leads ∙ at,
        (
          refl,
          record {
            chain =
                Chain-write (write next prev (next node)) node none (whole ++ back) list.head none
                  out joined;
            ends = tail_after front prev node back list.tail out_back h.ends;
            count =
                ap (λ (n : ℕ). sub_size n 1) (h.count ∙ shorter)
                ∙ sub_one (length (whole ++ back)) (omega (arith, h.small, shorter));
            distinct = distinct;
            small = omega (arith, h.small, shorter);
          },
          write_self (write next prev (next node)) node none,
          λ a others.
              let (apart, (ne, none_left)) = Avoids-append a whole (node ∷ []) others in
              let (before', (ne', none_left')) = Avoids-append a front (prev ∷ []) apart in
              write-ne (write next prev (next node)) node a none ne
              ∙ write-ne next prev a (next node) ne',
        ),
      )

  -- On a list that holds `prev` with `node` right behind it, `remove_after` of `prev` gives `node`
  -- and leaves the others in their order; it clears the `next` field of `node` and writes, besides,
  -- that of a node of the list only.
  pub remove_after-Unlinks :
      (list : LinkedList W) (next : Field) (front : List ℕ) (prev node : ℕ) (back : List ℕ)
      → Holds list next ((front ++ prev ∷ []) ++ node ∷ back)
      → Unlinks (front ++ prev ∷ []) node back next (remove_after list (some prev) next)
  unfolding remove_after
  remove_after-Unlinks list next front prev node back h =
      let (leads, unlinks) = unlink_after-Unlinks list next front prev node back h in
      subst (λ p. Unlinks (front ++ prev ∷ []) node back next (unlink_after p prev list next))
        (sym leads) unlinks

  -- behind the last node there is none to remove, and nothing changes
  pub remove_after-last :
      (list : LinkedList W) (next : Field) (front : List ℕ) (prev : ℕ)
      → Holds list next (front ++ prev ∷ [])
      → remove_after list (some prev) next ≡ (none, list, next)
  unfolding remove_after
  remove_after-last list next front prev h =
      let (middle, before, (at, leads)) =
        Chain-append next front (prev ∷ []) list.head none h.chain in
      ap (λ p. unlink_after p prev list next) leads
