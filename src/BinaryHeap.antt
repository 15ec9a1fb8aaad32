-- ===== src/BinaryHeap.antt =====
-- lib/datastruct/binary_heap.c, over the vector. `bytes` reads the bytes of an element, and `junk` is
-- the cell that was never written. The indices that the code compares and swaps are below the size,
-- where `k4c_vector_get` gives the cell.
pub mod Order
pub mod SiftUp
pub mod SiftDown
pub mod Valid
pub mod Push
pub mod Pop
mod Tests
use k4c.Base.{
  ℕ, zero, suc, ◌+◌, ◌-◌, ◌*◌, ◌/◌, ltb, ◌==◌, ◌&&◌, if◌then◌else◌, Bool, true, false, Option, none,
  some, List, get_or, get_elem?, set, Run, done, out_of_fuel, and_then, Prog, pure, abort, lift,
  ◌>>=◌, ◌>>◌,
}
use k4c.Base.Int.{ℤ, is_negative}
use k4c.Base.Bytes.{byte_order}
use k4c.Platform.{sizeof_binary_heap}
use k4c.Size.{add_size, mul_size}
use k4c.Status.{Status, ok, is_ok}
use k4c.Allocator.{Ptr, Libc, Allocator, allocator_copy, alloc, dealloc}
use k4c.Iterator.{Iterator, iterator_from_state, iterator_set_size_hint}
use k4c.Vector
use k4c.Vector.{Vector}

-- `struct k4c_binary_heap`, with the address that it was allocated at
pub record BinaryHeap (W E : Type 0) : Type 0 where
  pub address : Ptr
  pub root : Vector W E
  pub cmp : Option (E → E → ℤ)
  pub allocator : Allocator W

-- the cells that the cursor runs over, its index and how many elements are left
pub record BinaryHeapIteratorState (E : Type 0) : Type 0 where
  pub storage : List E
  pub cursor : ℕ
  pub remaining : ℕ

-- `k4c_binary_heap_iterator_next`
unfoldable pub binary_heap_iterator_next :
    {E : Type 0} → BinaryHeapIteratorState E → Option E × BinaryHeapIteratorState E
binary_heap_iterator_next s = if s.remaining == 0 then (none, s) else (
  get_elem? s.storage s.cursor,
  record s { cursor = s.cursor + 1; remaining = s.remaining - 1 },
)

module _ {E : Type 0} (junk : E) where
  -- `k4c_vector_get` below the size
  abbrev pub item : List E → ℕ → E
  item cells i = get_or cells i junk

  -- `k4c_binary_heap_swap_at`
  abbrev pub swap_at : List E → ℕ → ℕ → List E
  swap_at cells i j = set (set cells i (item cells j)) j (item cells i)

  module _ (precedes : E → E → Bool) where
    -- `k4c_binary_heap_sift_up`; `precedes` tells whether a comparison is negative
    unfoldable pub sift_up : ℕ → List E → ℕ → Run (List E)
    sift_up zero cells idx = out_of_fuel
    sift_up (suc fuel) cells idx =
        let parent = (idx - 1) / 2 in
        let rest = sift_up fuel (swap_at cells idx parent) parent in
        if ltb 0 idx && precedes (item cells idx) (item cells parent) then rest else done cells

    -- the choice of `best` in `k4c_binary_heap_sift_down`
    abbrev pub best_of : ℕ → List E → ℕ → ℕ → ℕ
    best_of n cells candidate best =
        if ltb candidate n && precedes (item cells candidate) (item cells best)
        then candidate
        else best

    -- `k4c_binary_heap_sift_down`, on a vector of `n` elements
    unfoldable pub sift_down : ℕ → ℕ → List E → ℕ → Run (List E)
    sift_down zero n cells idx = out_of_fuel
    sift_down (suc fuel) n cells idx =
        let left = add_size (mul_size 2 idx) 1 in
        let right = add_size left 1 in
        let best = best_of n cells right (best_of n cells left idx) in
        let rest = sift_down fuel n (swap_at cells idx best) best in
        if best == idx then done cells else rest

module _ {E : Type 0} (bytes : E → List ℕ) where
  -- the sign of `k4c_binary_heap_compare_idx`
  abbrev pub order_of : Option (E → E → ℤ) → ℕ → E → E → Bool
  order_of (some cmp) elem_size a b = is_negative (cmp a b)
  order_of none elem_size a b = is_negative (byte_order elem_size (bytes a) (bytes b))

module _ {W E : Type 0} (bytes : E → List ℕ) where
  -- whether one element comes before another in a heap
  abbrev pub precedes_in : BinaryHeap W E → E → E → Bool
  precedes_in heap = order_of bytes heap.cmp heap.root.elem_size

  -- the heap with other cells
  abbrev pub with_cells : BinaryHeap W E → Vector W E → List E → BinaryHeap W E
  with_cells heap root cells = record heap { root = record root { cells = cells } }

module _ {W E : Type 0} (bytes : E → List ℕ) (junk : E) where
  -- `k4c_binary_heap_pop` from the swap on, with the index of the last element
  unfoldable pub pop_swapped : BinaryHeap W E → ℕ → Run (Option E × BinaryHeap W E)
  pop_swapped heap last =
      let swapped = record heap.root { cells = swap_at junk heap.root.cells 0 last } in
      let (out, root) = Vector.pop swapped in
      and_then (sift_down junk (precedes_in bytes heap) (root.size + 1) root.size root.cells 0)
        λ cells. done (out, with_cells bytes heap root cells)

  -- `k4c_binary_heap_pop`; an index rises with every round of the sifting
  unfoldable pub pop : BinaryHeap W E → Run (Option E × BinaryHeap W E)
  unfolding pop_swapped
  pop heap =
      if heap.root.size == 0
      then done (none, heap)
      else (if heap.root.size == 1
          then (let (out, root) = Vector.pop heap.root in done (out, record heap { root = root }))
          else pop_swapped heap (heap.root.size - 1))

module _ {W E : Type 0} (libc : Libc W) (bytes : E → List ℕ) (junk : E) where
  -- `k4c_binary_heap_push`; an index needs one round more than it is at most
  unfoldable pub push : BinaryHeap W E → E → Prog W (Status × BinaryHeap W E)
  push heap element = do
    (st, root) ← Vector.push libc junk heap.root element
    elim (is_ok st) [
      | false ↦ pure (st, record heap { root = root })
      | true ↦ do
        cells ← lift (sift_up junk (precedes_in bytes heap) root.size root.cells (root.size - 1))
        pure (ok, with_cells bytes heap root cells)
    ]

  -- `k4c_binary_heap_create`
  unfoldable pub create :
      ℕ → Option (E → E → ℤ) → Option (Allocator W) → Prog W (Status × Option (BinaryHeap W E))
  create elem_size cmp allocator = if elem_size == 0 then abort else (do
    (st, address) ← alloc libc allocator sizeof_binary_heap
    elim (is_ok st) [
      | false ↦ pure (st, none)
      | true ↦ do
        (made, root) ← Vector.create libc junk elem_size (some (allocator_copy allocator))
        elim root [
          | none ↦ do dealloc libc allocator address; pure (made, none)
          | some v ↦ pure (
            ok,
            some (record {
              address = address;
              root = v;
              cmp = cmp;
              allocator = allocator_copy allocator;
            }),
          )
        ]
    ])

  -- `k4c_binary_heap_destroy`
  unfoldable pub destroy : BinaryHeap W E → Prog W (Unit {0})
  destroy heap = do
    Vector.destroy libc junk heap.root
    dealloc libc (some heap.allocator) heap.address

module _ {W E : Type 0} where
  -- `k4c_binary_heap_peek`
  unfoldable pub peek : BinaryHeap W E → Option E
  peek heap = if heap.root.size == 0 then none else Vector.get heap.root 0

  -- `k4c_binary_heap_get_iterator`
  unfoldable pub get_iterator : BinaryHeap W E → Iterator (BinaryHeapIteratorState E) E
  get_iterator heap =
      iterator_set_size_hint
        (iterator_from_state binary_heap_iterator_next
          (record { storage = heap.root.cells; cursor = 0; remaining = heap.root.size }))
        heap.root.size
