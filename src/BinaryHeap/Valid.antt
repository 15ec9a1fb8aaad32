-- ===== src/BinaryHeap/Valid.antt =====
-- When a binary heap is in order, and that its first element is a least one.
use k4c.Base.{
  ℕ, zero, suc, ◌+◌, ◌<◌, ◌≡◌, ◌≢◌, inl, inr, ◌∙◌, arith, Bool, false, Bool-cases, ◌==◌, none, List,
  [], ◌∷◌, ◌++◌, length,
}
use k4c.Vector.{Vector}
use k4c.Vector.Valid as ValidVector
use k4c.BinaryHeap.{BinaryHeap, item, precedes_in, with_cells}
use k4c.BinaryHeap.Order.{OrderLaws, count}
use k4c.BinaryHeap.SiftUp.{parent, Ordered}

module _ {W E : Type 0} (bytes : E → List ℕ) (junk : E) where
  -- The vector is valid, the comparison is an order, and no element precedes its parent.
  pub record IsValid (heap : BinaryHeap W E) : Type 0 where
    pub root : ValidVector.IsValid heap.root
    pub laws : OrderLaws (precedes_in bytes heap)
    pub ordered : Ordered junk (precedes_in bytes heap) heap.root.size heap.root.cells
    pub address : heap.address ≢ none

  -- the elements, as the vector holds them
  abbrev pub contents : BinaryHeap W E → List E
  contents heap = ValidVector.contents heap.root

  -- other cells in heap order, in a vector that holds as many
  pub restored-IsValid :
      {heap : BinaryHeap W E} (root : Vector W E) (cells : List E)
      → IsValid heap
      → ValidVector.IsValid root
      → root.elem_size ≡ heap.root.elem_size
      → length cells ≡ length root.cells
      → Ordered junk (precedes_in bytes heap) root.size cells
      → IsValid (with_cells bytes heap root cells)
  restored-IsValid root cells v rv es long order = record {
    root = record {
      stored = long ∙ rv.stored;
      within = rv.within;
      sized = rv.sized;
      room = rv.room;
      small = rv.small;
      bytes = rv.bytes;
      buffer = rv.buffer;
      address = rv.address;
    };
    laws = rw es v.laws;
    ordered = rw es order;
    address = v.address;
  }

module _ {E : Type 0} (junk : E) (precedes : E → E → Bool) (laws : OrderLaws precedes) where
  -- no element precedes the first
  pub first_least :
      (fuel n : ℕ) (cells : List E) (i : ℕ)
      → Ordered junk precedes n cells
      → i < n
      → i < fuel
      → precedes (item junk cells i) (item junk cells 0) ≡ false
  first_least zero n cells i order h fit = absurd (omega arith)
  first_least (suc fuel) n cells i order h fit = elim (Bool-cases (i == 0)) [
    | inl e ↦
        let at : i ≡ 0 = ground arith in
        rw at (elim (Bool-cases (precedes (item junk cells 0) (item junk cells 0))) [
          | inl d ↦ laws.asym (item junk cells 0) (item junk cells 0) d
          | inr d ↦ d
        ])
    | inr e ↦
        let pos : 0 < i = ground arith in
        laws.trans (item junk cells i) (item junk cells (parent i)) (item junk cells 0)
          (order i pos h) (first_least fuel n cells (parent i) order (omega arith) (omega arith))
  ]

pub count-append :
    {E : Type 0} (q : E → Bool) (xs ys : List E) → count q (xs ++ ys) ≡ count q xs + count q ys
count-append q [] ys = omega arith
count-append q (x ∷ xs) ys = ground (arith, count-append q xs ys)
