-- ===== src/LinkedList/Add.antt =====
-- Adding a node at the back and at the front.
use mathlib.Core.Path.{subst}
use k4c.Base.{
  ℕ, ◌+◌, ◌<◌, ◌≡◌, ◌≢◌, refl, sym, ap, ◌∙◌, arith, none, some, List, [], ◌∷◌, ◌++◌, length,
  length-append, Avoids, append-nil,
}
use native.Mathlib.Nat.{mod-eq_of_lt}
use k4c.Size.{size_max, add_size}
use k4c.Allocator.{Ptr}
use k4c.Links.{
  Field, write, write_self, write-ne, Distinct, Distinct-insert, Distinct-remove, Avoids-append,
}
use k4c.LinkedList.{LinkedList, push, pushfront, link_tail, first_tail}
use k4c.LinkedList.Chain.{
  Chain, last, Holds, last-append, last-some, last-none, append-Chain, Chain-write, Chain-relink,
}

-- the fields of nodes outside the list and of the node are left alone
abbrev pub OnlyAt : List ℕ → Field → Field → Type 0
OnlyAt nodes next next' = (a : ℕ) → Avoids a nodes → next' a ≡ next a

pub add_one : (n : ℕ) → n < size_max → add_size n 1 ≡ n + 1
add_one n h = mod-eq_of_lt (omega arith)

-- the last node is apart from the others and from a node outside
pub tail_apart :
    {nodes : List ℕ} {tail node : ℕ} (front : List ℕ)
    → nodes ≡ front ++ tail ∷ []
    → Distinct nodes
    → Avoids node nodes
    → Avoids tail front × (node ≢ tail)
tail_apart {tail} {node} front same d out =
    let (rest, apart) = Distinct-remove front tail [] (subst Distinct same d) in
    let (others, (ne, none_left)) =
      Avoids-append node front (tail ∷ []) (subst (Avoids node) same out) in
    ((Avoids-append tail front [] apart).0, λ e. ne (sym e))

tail_ne :
    {nodes : List ℕ} {tail : ℕ} (front : List ℕ)
    → nodes ≡ front ++ tail ∷ []
    → (a : ℕ) → Avoids a nodes
    → tail ≢ a
tail_ne {tail} front same a out =
    let (others, (ne, none_left)) = Avoids-append a front (tail ∷ []) (subst (Avoids a) same out) in
    ne

-- a node outside the list may come at its end
snoc_Distinct :
    (nodes : List ℕ) (node : ℕ) → Distinct nodes → Avoids node nodes → Distinct (nodes ++ node ∷ [])
snoc_Distinct nodes node d out =
    Distinct-insert nodes node [] (subst Distinct (sym (append-nil nodes)) d)
      (subst (Avoids node) (sym (append-nil nodes)) out)

first_tail_lem :
    (nodes : List ℕ) (node : ℕ) (tail : Ptr)
    → tail ≡ last nodes
    → first_tail tail node ≡ last (node ∷ nodes)
first_tail_lem [] node tail e = rw e refl
first_tail_lem (x ∷ nodes) node none e =
    let empty : x ∷ nodes ≡ [] = last-none (x ∷ nodes) (sym e) in cc
first_tail_lem (x ∷ nodes) node (some tail) e = e

module _ {W : Type 0} where
  -- a list to which a node is added at the back, given its new chain
  appended :
      {list : LinkedList W} {next : Field} {nodes : List ℕ} (node : ℕ) (head : Ptr) (next' : Field)
      → Holds list next nodes
      → Avoids node nodes
      → length nodes < size_max
      → Chain next' head (nodes ++ node ∷ []) none
      → Holds
          (record list { head = head; tail = some node; size = add_size list.size 1 })
          next'
          (nodes ++ node ∷ [])
  appended {list} {next} {nodes} node head next' h out room chain = record {
    chain = chain;
    ends = sym (last-append nodes node);
    count =
        ap (λ (n : ℕ). add_size n 1) h.count
        ∙ add_one (length nodes) room
        ∙ sym (length-append nodes (node ∷ []));
    distinct = snoc_Distinct nodes node h.distinct out;
    small = omega (arith, length-append nodes (node ∷ []));
  }

  link_tail-Holds :
      {list : LinkedList W} {next : Field} {nodes : List ℕ} (node : ℕ) (tail : Ptr)
      → list.tail ≡ tail
      → Holds list next nodes
      → Avoids node nodes
      → length nodes < size_max
      → let r = link_tail tail list node (write next node none) in
        Holds r.0 r.1 (nodes ++ node ∷ []) × OnlyAt (node ∷ nodes) next r.1
  link_tail-Holds {list} {next} {nodes} node none e h out room =
      let empty : nodes ≡ [] = last-none nodes (sym h.ends ∙ e) in
      (
        appended node (some node) (write next node none) h out room
            (rw empty (refl, write_self next node none)),
        λ a (ne, apart). write-ne next node a none ne,
      )
  link_tail-Holds {list} {next} {nodes} node (some tail) e h out room =
      let (front, same) = last-some nodes tail (sym h.ends ∙ e) in
      let next' : Field = write next node none in
      let apart : Avoids tail front × (node ≢ tail) = tail_apart front same h.distinct out in
      let before : Chain next' list.head (front ++ tail ∷ []) none =
        subst (λ ns. Chain next' list.head ns none) same
          (Chain-write next node none nodes list.head none out h.chain) in
      let linked : Chain (write next' tail (some node)) list.head nodes (some node) =
        subst (λ ns. Chain (write next' tail (some node)) list.head ns (some node)) (sym same)
          (Chain-relink next' front tail (some node) list.head none apart.0 before) in
      let end : Chain (write next' tail (some node)) (some node) (node ∷ []) none = (
        refl,
        write-ne next' tail node (some node) (λ f. apart.1 (sym f)) ∙ write_self next node none,
      ) in
      (
        appended node list.head (write next' tail (some node)) h out room (
            append-Chain (write next' tail (some node)) nodes (node ∷ []) list.head (some node) none
              linked end),
        λ a (ne, others).
            write-ne next' tail a (some node) (tail_ne front same a others)
            ∙ write-ne next node a none ne,
      )

  -- On a list that holds `nodes`, `push` of a node outside it appends the node, and it writes the
  -- `next` fields of the node and of the list's nodes only.
  pub push-Holds :
      (list : LinkedList W) (next : Field) (nodes : List ℕ) (node : ℕ)
      → Holds list next nodes
      → Avoids node nodes
      → length nodes < size_max
      → let r = push list node next in
        Holds r.0 r.1 (nodes ++ node ∷ []) × OnlyAt (node ∷ nodes) next r.1
  unfolding push
  push-Holds list next nodes node h out room = link_tail-Holds node list.tail refl h out room

  -- On a list that holds `nodes`, `pushfront` of a node outside it puts the node before them, and it
  -- writes the `next` field of the node only.
  pub pushfront-Holds :
      (list : LinkedList W) (next : Field) (nodes : List ℕ) (node : ℕ)
      → Holds list next nodes
      → Avoids node nodes
      → length nodes < size_max
      → let r = pushfront list node next in
        Holds r.0 r.1 (node ∷ nodes) × OnlyAt (node ∷ []) next r.1
  unfolding pushfront
  pushfront-Holds list next nodes node h out room = (
    record {
      chain = (
        refl,
        rw (write_self next node list.head)
            (Chain-write next node list.head nodes list.head none out h.chain),
      );
      ends = first_tail_lem nodes node list.tail h.ends;
      count = ap (λ (n : ℕ). add_size n 1) h.count ∙ add_one (length nodes) room ∙ omega arith;
      distinct = (out, h.distinct);
      small = omega arith;
    },
    λ a (ne, others). write-ne next node a list.head ne,
  )
