-- ===== src/Links.antt =====
-- A pointer field of the nodes of a linked structure: what it holds in the node at each address. The
-- nodes are the caller's; an address of a node is never NULL.
use k4c.Base.{ℕ, ◌==◌, ◌≡◌, ◌≢◌, sym, arith, if◌then◌else◌, List, [], ◌∷◌, ◌++◌, Avoids}
use k4c.Allocator.{Ptr}

abbrev pub Field : Type 0
Field = ℕ → Ptr

-- the assignment of `value` to the field of the node at `node`
unfoldable pub write : Field → ℕ → Ptr → Field
write field node value a = if node == a then value else field a

pub write_self : (field : Field) (node : ℕ) (value : Ptr) → write field node value node ≡ value
unfolding write
write_self field node value = ground arith

pub write-ne :
    (field : Field) (node a : ℕ) (value : Ptr) → node ≢ a → write field node value a ≡ field a
unfolding write
write-ne field node a value h = ground arith

-- no node occurs twice
abbrev pub Distinct : List ℕ → Type 0
Distinct [] = Unit
Distinct (a ∷ nodes) = Avoids a nodes × Distinct nodes

pub Avoids-append :
    (node : ℕ) (xs ys : List ℕ) → Avoids node (xs ++ ys) → Avoids node xs × Avoids node ys
Avoids-append node [] ys h = (tt, h)
Avoids-append node (x ∷ xs) ys (ne, h) =
    let (front, back) = Avoids-append node xs ys h in ((ne, front), back)

pub append-Avoids :
    (node : ℕ) (xs ys : List ℕ) → Avoids node xs → Avoids node ys → Avoids node (xs ++ ys)
append-Avoids node [] ys h k = k
append-Avoids node (x ∷ xs) ys (ne, h) k = (ne, append-Avoids node xs ys h k)

-- a node is apart from each of the others, when they avoid it
pub Distinct-append : (xs ys : List ℕ) → Distinct (xs ++ ys) → Distinct xs × Distinct ys
Distinct-append [] ys h = (tt, h)
Distinct-append (x ∷ xs) ys (h, k) =
    let (front, back) = Distinct-append xs ys k in (((Avoids-append x xs ys h).0, front), back)

-- taking a node out, and putting one in
pub Distinct-remove :
    (xs : List ℕ) (node : ℕ) (ys : List ℕ)
    → Distinct (xs ++ node ∷ ys)
    → Distinct (xs ++ ys) × Avoids node (xs ++ ys)
Distinct-remove [] node ys (h, k) = (k, h)
Distinct-remove (x ∷ xs) node ys (h, k) =
    let (d, a) = Distinct-remove xs node ys k in
    let (front, (ne, back)) = Avoids-append x xs (node ∷ ys) h in
    ((append-Avoids x xs ys front back, d), ((λ e. ne (sym e)), a))

pub Distinct-insert :
    (xs : List ℕ) (node : ℕ) (ys : List ℕ)
    → Distinct (xs ++ ys)
    → Avoids node (xs ++ ys)
    → Distinct (xs ++ node ∷ ys)
Distinct-insert [] node ys d a = (a, d)
Distinct-insert (x ∷ xs) node ys (h, d) (ne, a) =
    let (front, back) = Avoids-append x xs ys h in
    (append-Avoids x xs (node ∷ ys) front ((λ e. ne (sym e)), back), Distinct-insert xs node ys d a)
