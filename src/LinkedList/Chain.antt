-- ===== src/LinkedList/Chain.antt =====
-- The nodes that a list runs through, by the `next` fields.
use k4c.Base.{ℕ, ◌≤◌, ◌≡◌, refl, sym, ap, none, some, List, [], ◌∷◌, ◌++◌, length, Avoids}
use k4c.Size.{size_max}
use k4c.Allocator.{Ptr}
use k4c.Links.{Field, write, write_self, write-ne, Distinct}
use k4c.LinkedList.{LinkedList}

-- from `start` the `next` fields lead through the nodes to `stop`
abbrev pub Chain : Field → Ptr → List ℕ → Ptr → Type 0
Chain next start [] stop = start ≡ stop
Chain next start (a ∷ nodes) stop = (start ≡ some a) × Chain next (next a) nodes stop

abbrev pub last : List ℕ → Ptr
last [] = none
last (a ∷ []) = some a
last (a ∷ b ∷ nodes) = last (b ∷ nodes)

-- The list runs through exactly these nodes, each once, and ends there.
pub record Holds {W : Type 0} (list : LinkedList W) (next : Field) (nodes : List ℕ) : Type 0 where
  pub chain : Chain next list.head nodes none
  pub ends : list.tail ≡ last nodes
  pub count : list.size ≡ length nodes
  pub distinct : Distinct nodes
  pub small : length nodes ≤ size_max

pub last-append : (nodes : List ℕ) (a : ℕ) → last (nodes ++ a ∷ []) ≡ some a
last-append [] a = refl
last-append (x ∷ []) a = refl
last-append (x ∷ y ∷ nodes) a = last-append (y ∷ nodes) a

pub last-some :
    (nodes : List ℕ) (a : ℕ) → last nodes ≡ some a → (front : List ℕ) × (nodes ≡ front ++ a ∷ [])
last-some [] a e = absurd (none_some e)
  where
    none_some : ◌≡◌ {A = Ptr} none (some a) → ⊥
    none_some f = cc
last-some (x ∷ []) a e = ([], ap (λ t. t ∷ []) (some_injective e))
  where
    some_injective : ◌≡◌ {A = Ptr} (some x) (some a) → x ≡ a
    some_injective f = cc
last-some (x ∷ y ∷ nodes) a e =
    let (front, same) = last-some (y ∷ nodes) a e in (x ∷ front, ap (◌∷◌ x) same)

pub last-none : (nodes : List ℕ) → last nodes ≡ none → nodes ≡ []
last-none [] e = refl
last-none (x ∷ []) e = cc
last-none (x ∷ y ∷ nodes) e = let empty : y ∷ nodes ≡ [] = last-none (y ∷ nodes) e in cc

-- the last node is that of the rest, where there is a rest
pub last-rest : (xs : List ℕ) (y : ℕ) (ys : List ℕ) → last (xs ++ y ∷ ys) ≡ last (y ∷ ys)
last-rest [] y ys = refl
last-rest (x ∷ []) y ys = refl
last-rest (x ∷ x' ∷ xs) y ys = last-rest (x' ∷ xs) y ys

pub Chain-append :
    (next : Field) (xs ys : List ℕ) (start stop : Ptr)
    → Chain next start (xs ++ ys) stop
    → (middle : Ptr) × Chain next start xs middle × Chain next middle ys stop
Chain-append next [] ys start stop c = (start, refl, c)
Chain-append next (x ∷ xs) ys start stop (e, c) =
    let (middle, front, back) = Chain-append next xs ys (next x) stop c in
    (middle, (e, front), back)

pub append-Chain :
    (next : Field) (xs ys : List ℕ) (start middle stop : Ptr)
    → Chain next start xs middle
    → Chain next middle ys stop
    → Chain next start (xs ++ ys) stop
append-Chain next [] ys start middle stop e c = rw e c
append-Chain next (x ∷ xs) ys start middle stop (e, c) d =
    (e, append-Chain next xs ys (next x) middle stop c d)

-- a write at another node
pub Chain-write :
    (next : Field) (node : ℕ) (value : Ptr) (xs : List ℕ) (start stop : Ptr)
    → Avoids node xs
    → Chain next start xs stop
    → Chain (write next node value) start xs stop
Chain-write next node value [] start stop h e = e
Chain-write next node value (x ∷ xs) start stop (ne, h) (e, c) = (
  e,
  rw (write-ne next node x value (λ f. ne (sym f)))
      (Chain-write next node value xs (next x) stop h c),
)

-- a write at the last node moves the end
pub Chain-relink :
    (next : Field) (xs : List ℕ) (a : ℕ) (value : Ptr) (start stop : Ptr)
    → Avoids a xs
    → Chain next start (xs ++ a ∷ []) stop
    → Chain (write next a value) start (xs ++ a ∷ []) value
Chain-relink next [] a value start stop h (e, c) = (e, write_self next a value)
Chain-relink next (x ∷ xs) a value start stop (ne, h) (e, c) = (
  e,
  rw (write-ne next a x value (λ f. ne (sym f))) (Chain-relink next xs a value (next x) stop h c),
)
