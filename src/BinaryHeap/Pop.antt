-- ===== src/BinaryHeap/Pop.antt =====
-- `pop`: a least element goes, and the others stay in heap order.
use k4c.Base.{
  ℕ, suc, ◌+◌, ◌-◌, ◌^◌, ◌≤◌, ◌<◌, ◌≡◌, refl, inl, inr, ◌⊎◌, ap, ◌∙◌, sym, arith, Bool, true, false,
  Bool-cases, ◌==◌, Option, none, some, List, [], ◌∷◌, length, take, get_elem?-get_or, take-suc,
  done, leb, get_elem?, Returns,
}
use k4c.Vector.{Vector}
use k4c.Vector
use k4c.Vector.Valid as ValidVector
use k4c.BinaryHeap.{
  BinaryHeap, item, swap_at, sift_down, precedes_in, with_cells, pop_swapped, pop, peek,
}
use k4c.BinaryHeap.Order.{count, one_if, item-swap_at, length-swap_at, count-swap_at}
use k4c.BinaryHeap.SiftUp.{parent, Ordered}
use k4c.BinaryHeap.SiftDown.{Sinking, sift_down-Sifted}
use k4c.BinaryHeap.Valid.{IsValid, contents, count-append, restored-IsValid, first_least}

module _ {E : Type 0} (junk : E) (precedes : E → E → Bool) where
  item-swapped :
      (n : ℕ) (cells : List E) (i : ℕ)
      → suc n ≤ length cells
      → 0 < i
      → i < n
      → item junk (swap_at junk cells 0 n) i ≡ item junk cells i
  item-swapped n cells i l h m =
      let e : (n == i) ≡ false = ground arith in
      let d : (0 == i) ≡ false = ground arith in
      rw (item-swap_at junk cells 0 n i (omega arith) (omega arith), e, d) refl

  -- the last element in the place of the first
  swapped-Sinking :
      (n : ℕ) (cells : List E)
      → suc n ≤ length cells
      → 0 < n
      → Ordered junk precedes (suc n) cells
      → Sinking junk precedes n (swap_at junk cells 0 n) 0
  swapped-Sinking n cells l pos order = record {
    others = λ i h m ne.
        rw
          (
            item-swapped n cells i l h m,
            item-swapped n cells (parent i) l (omega arith) (omega arith),
          )
          (order i h (omega arith));
    over = λ c h m e up. absurd (omega arith);
  }

  last-swapped :
      (n : ℕ) (cells : List E)
      → suc n ≤ length cells
      → get_elem? (swap_at junk cells 0 n) n ≡ some (item junk cells 0)
  last-swapped n cells l =
      let e : (n == n) ≡ true = ground arith in
      get_elem?-get_or (swap_at junk cells 0 n) n junk
        (omega (arith, length-swap_at junk cells 0 n))
      ∙ ap some (rw (item-swap_at junk cells 0 n n (omega arith) (omega arith), e) refl)

  count-swapped :
      (q : E → Bool) (n : ℕ) (cells : List E)
      → suc n ≤ length cells
      → count q (take (suc n) cells)
        ≡ one_if (q (item junk cells 0)) + count q (take n (swap_at junk cells 0 n))
  count-swapped q n cells l =
      let swapped = swap_at junk cells 0 n in
      let whole = count-swap_at junk q (suc n) cells 0 n (omega arith) (omega arith) l in
      let parts = ap (count q) (take-suc n swapped (last-swapped n cells l)) in
      omega (arith, whole, parts, count-append q (take n swapped) (item junk cells 0 ∷ []))

module _ {W E : Type 0} (bytes : E → List ℕ) (junk : E) where
  -- Nothing on an empty heap; else an element that no other precedes goes, the one that `peek` gave.
  abbrev pub Pops : BinaryHeap W E → Option E × BinaryHeap W E → Type 0
  Pops heap r =
      ((contents bytes junk heap ≡ []) × (r.0 ≡ none) × (r.1 ≡ heap))
      ⊎ ((x : E) × (r.0 ≡ some x)
          × (peek heap ≡ some x)
          × IsValid bytes junk r.1
          × ((q : E → Bool)
              → count q (contents bytes junk heap)
                ≡ one_if (q x) + count q (contents bytes junk r.1))
          × ((i : ℕ)
              → i < heap.root.size
              → precedes_in bytes heap (item junk heap.root.cells i) x ≡ false))

  module _ {heap : BinaryHeap W E} (v : IsValid bytes junk heap) where
    abbrev least : E
    least = item junk heap.root.cells 0

    -- after the swap and the pop of the vector
    shrunk-IsValid :
        (n : ℕ)
        → heap.root.size ≡ suc n
        → ValidVector.IsValid
            (record heap.root { cells = swap_at junk heap.root.cells 0 n; size = n })
    shrunk-IsValid n size = record {
      stored = length-swap_at junk heap.root.cells 0 n ∙ v.root.stored;
      within = omega (arith, v.root.within);
      sized = v.root.sized;
      room = v.root.room;
      small = v.root.small;
      bytes = v.root.bytes;
      buffer = v.root.buffer;
      address = v.root.address;
    }

    none_before :
        (i : ℕ)
        → i < heap.root.size
        → precedes_in bytes heap (item junk heap.root.cells i) least ≡ false
    none_before i h =
        first_least junk (precedes_in bytes heap) v.laws heap.root.size heap.root.size
          heap.root.cells i v.ordered h h

    peek-least : 0 < heap.root.size → peek heap ≡ some least
    unfolding peek Vector.get
    peek-least h =
        let e : (heap.root.size == 0) ≡ false = ground arith in
        let d : leb heap.root.size 0 ≡ false = ground arith in
        rw (e, d)
          (get_elem?-get_or heap.root.cells 0 junk (omega (arith, v.root.stored, v.root.within)))

    pop_swapped_run :
        (n : ℕ) (x : E) (r : List E)
        → heap.root.size ≡ suc n
        → get_elem? (swap_at junk heap.root.cells 0 n) n ≡ some x
        → sift_down junk (precedes_in bytes heap) (n + 1) n (swap_at junk heap.root.cells 0 n) 0
          ≡ done r
        → pop_swapped bytes junk heap n
          ≡ done (
            some x,
            with_cells bytes heap
                (record heap.root { cells = swap_at junk heap.root.cells 0 n; size = n })
                r,
          )
    unfolding pop_swapped Vector.pop
    pop_swapped_run n x r size got run =
        let e : (heap.root.size == 0) ≡ false = ground arith in
        let minus : heap.root.size - 1 ≡ n = omega arith in rw (e, minus, got, run) refl

    -- two elements or more
    pop_many :
        (n : ℕ)
        → heap.root.size ≡ suc n
        → 0 < n
        → suc n < 2 ^ 63
        → Returns (pop_swapped bytes junk heap n) (Pops heap)
    pop_many n size pos small =
        let stored : suc n ≤ length heap.root.cells = omega (arith, v.root.stored, v.root.within) in
        let (r, run, s) =
          sift_down-Sifted junk (precedes_in bytes heap) v.laws (n + 1) n
            (swap_at junk heap.root.cells 0 n) 0
            (omega (arith, length-swap_at junk heap.root.cells 0 n)) (omega arith) pos (omega arith)
            (swapped-Sinking junk (precedes_in bytes heap) n heap.root.cells stored pos
              (rw size at v.ordered)) in
        let root = record heap.root { cells = swap_at junk heap.root.cells 0 n; size = n } in
        (
          _,
          pop_swapped_run n least r size
              (last-swapped junk (precedes_in bytes heap) n heap.root.cells stored) run,
          inr (
            least,
            refl,
            peek-least (omega arith),
            restored-IsValid bytes junk root r v (shrunk-IsValid n size) refl s.1 s.0,
            λ q.
                ap (λ m. count q (take m heap.root.cells)) size
                ∙ count-swapped junk (precedes_in bytes heap) q n heap.root.cells stored
                ∙ ap (λ (m : ℕ). one_if (q least) + m) (sym (s.2 q)),
            none_before,
          ),
        )

    -- the only element
    pop_one : heap.root.size ≡ 1 → Returns (pop bytes junk heap) (Pops heap)
    unfolding pop Vector.pop
    pop_one size =
        let e0 : (1 == 0) ≡ false = ground arith in
        let stored : 1 ≤ length heap.root.cells = omega (arith, v.root.stored, v.root.within) in
        let first : get_elem? heap.root.cells 0 ≡ some least =
          get_elem?-get_or heap.root.cells 0 junk (omega arith) in
        let root = record heap.root { size = 0 } in
        let steps : pop bytes junk heap ≡ done (some least, record heap { root = root }) =
          rw (size, first) refl in
        (
          _,
          steps,
          inr (
            least,
            refl,
            peek-least (omega arith),
            record {
              root = record {
                stored = v.root.stored;
                within = omega arith;
                sized = v.root.sized;
                room = v.root.room;
                small = v.root.small;
                bytes = v.root.bytes;
                buffer = v.root.buffer;
                address = v.root.address;
              };
              laws = v.laws;
              ordered = λ i pos h. absurd (omega arith);
              address = v.address;
            },
            λ q.
                ap (λ m. count q (take m heap.root.cells)) size
                ∙ ap (count q) (take-suc 0 heap.root.cells first)
                ∙ ground arith,
            none_before,
          ),
        )

  -- On a valid heap of less than 2^63 elements `pop` returns. It gives NULL and changes nothing if
  -- there is no element. Otherwise it gives what `peek` gives, an element that no element of the heap
  -- precedes; the heap stays valid and holds the others.
  pub pop-sift_down :
      {heap : BinaryHeap W E}
      → IsValid bytes junk heap
      → heap.root.size < 2 ^ 63
      → Returns (pop bytes junk heap) (Pops heap)
  unfolding pop
  pop-sift_down {heap} v small = elim (Bool-cases (heap.root.size == 0)) [
    | inl e ↦
        let empty : heap.root.size ≡ 0 = ground arith in
        rw e (_, refl, inl (ap (λ n. take n heap.root.cells) empty, refl, refl))
    | inr e ↦ elim (Bool-cases (heap.root.size == 1)) [
      | inl d ↦ pop_one v (ground arith)
      | inr d ↦
          rw (e, d) (pop_many v (heap.root.size - 1) (ground arith) (ground arith) (ground arith))
    ]
  ]
