-- ===== src/DoublyLinkedList/Segment.antt =====
-- The nodes that a doubly linked list runs through, in both directions.
use mathlib.Core.Path.{subst}
use k4c.Base.{ℕ, ◌≤◌, ◌≡◌, refl, sym, ◌∙◌, none, some, List, [], ◌∷◌, ◌++◌, length, Avoids}
use k4c.Size.{size_max}
use k4c.Allocator.{Ptr}
use k4c.Links.{Distinct, Avoids-append}
use k4c.DoublyLinkedList.{DoublyLinkedList, Nodes}

-- From `head` the `next` fields lead through the items to `stop`, and each `prev` field leads back:
-- the first item's to `before`. `last` is the last item, or `before` where there is none.
abbrev pub Segment : Nodes → Ptr → Ptr → List ℕ → Ptr → Ptr → Type 0
Segment nodes before head [] last stop = (head ≡ stop) × (last ≡ before)
Segment nodes before head (a ∷ items) last stop =
    (head ≡ some a)
    × (nodes.prev a ≡ before)
    × Segment nodes (some a) (nodes.next a) items last stop

-- The list runs through exactly these items, each once, forwards and backwards.
pub record Holds {W : Type 0} (list : DoublyLinkedList W) (nodes : Nodes) (items : List ℕ)
    : Type 0 where
  pub segment : Segment nodes none list.head items list.tail none
  pub count : list.size ≡ length items
  pub distinct : Distinct items
  pub small : length items ≤ size_max

pub Segment-append :
    (nodes : Nodes) (xs ys : List ℕ) (before head last stop : Ptr)
    → Segment nodes before head (xs ++ ys) last stop
    → (m : Ptr) × (k : Ptr) × Segment nodes before head xs m k × Segment nodes m k ys last stop
Segment-append nodes [] ys before head last stop s = (before, head, (refl, refl), s)
Segment-append nodes (x ∷ xs) ys before head last stop (e, p, s) =
    let (m, k, front, back) = Segment-append nodes xs ys (some x) (nodes.next x) last stop s in
    (m, k, (e, p, front), back)

pub append-Segment :
    (nodes : Nodes) (xs ys : List ℕ) (before head m k last stop : Ptr)
    → Segment nodes before head xs m k
    → Segment nodes m k ys last stop
    → Segment nodes before head (xs ++ ys) last stop
append-Segment nodes [] ys before head m k last stop (e, f) s = rw (e, sym f) s
append-Segment nodes (x ∷ xs) ys before head m k last stop (e, p, s) t =
    (e, p, append-Segment nodes xs ys (some x) (nodes.next x) m k last stop s t)

-- two stores with the same fields at the items
abbrev pub Agree : Nodes → Nodes → List ℕ → Type 0
Agree nodes nodes' [] = Unit
Agree nodes nodes' (a ∷ items) =
    (nodes'.prev a ≡ nodes.prev a) × (nodes'.next a ≡ nodes.next a) × Agree nodes nodes' items

pub Agree-Segment :
    (nodes nodes' : Nodes) (items : List ℕ) (before head last stop : Ptr)
    → Agree nodes nodes' items
    → Segment nodes before head items last stop
    → Segment nodes' before head items last stop
Agree-Segment nodes nodes' [] before head last stop g s = s
Agree-Segment nodes nodes' (a ∷ items) before head last stop (gp, gn, g) (e, p, s) = (
  e,
  gp ∙ p,
  Agree-Segment nodes nodes' items (some a) (nodes'.next a) last stop g
      (subst (λ h. Segment nodes (some a) h items last stop) (sym gn) s),
)

-- the fields of nodes outside the items are left alone
abbrev pub OnlyAt : List ℕ → Nodes → Nodes → Type 0
OnlyAt items nodes nodes' =
    (a : ℕ) → Avoids a items → (nodes'.prev a ≡ nodes.prev a) × (nodes'.next a ≡ nodes.next a)

-- none of the second items is among the first
abbrev pub Apart : List ℕ → List ℕ → Type 0
Apart xs [] = Unit
Apart xs (y ∷ ys) = Avoids y xs × Apart xs ys

pub OnlyAt-Agree :
    (xs ys : List ℕ) (nodes nodes' : Nodes)
    → OnlyAt xs nodes nodes'
    → Apart xs ys
    → Agree nodes nodes' ys
OnlyAt-Agree xs [] nodes nodes' only h = tt
OnlyAt-Agree xs (y ∷ ys) nodes nodes' only (out, h) =
    let (p, n) = only y out in (p, n, OnlyAt-Agree xs ys nodes nodes' only h)

Apart-cons : (x : ℕ) (xs ys : List ℕ) → Avoids x ys → Apart xs ys → Apart (x ∷ xs) ys
Apart-cons x xs [] h k = tt
Apart-cons x xs (y ∷ ys) (ne, h) (out, k) = (((λ e. ne (sym e)), out), Apart-cons x xs ys h k)

Apart-nil : (ys : List ℕ) → Apart [] ys
Apart-nil [] = tt
Apart-nil (y ∷ ys) = (tt, Apart-nil ys)

pub Distinct-Apart : (xs ys : List ℕ) → Distinct (xs ++ ys) → Apart xs ys × Apart ys xs
Distinct-Apart [] ys d = (Apart-nil ys, tt)
Distinct-Apart (x ∷ xs) ys (h, d) =
    let (forth, back) = Distinct-Apart xs ys d in
    let (front, out) = Avoids-append x xs ys h in (Apart-cons x xs ys out forth, (out, back))
