-- ===== src/Vector.antt =====
-- lib/datastruct/vector.c. An element is a value of `E`, and `cells` is the storage at `buffer`,
-- one cell for each `elem_size` bytes; `junk` stands for a cell that was never written. A pointer
-- to an element that a function returns is modelled by what the cell holds, or `none` for NULL.
pub mod Grow
pub mod Valid
pub mod Room
pub mod Access
pub mod Search
mod Tests
pub mod Lifecycle
pub mod Iterate
pub mod Collect
use k4c.Base.{
  ℕ, zero, suc, ◌+◌, ◌-◌, ◌/◌, ltb, leb, ◌==◌, if◌then◌else◌, Bool, true, false, Option, none, some,
  List, ◌++◌, length, get_elem?, set, replicate, Run, done, panic, out_of_fuel, Prog, pure, abort,
  lift, ◌>>=◌, ◌>>◌, ◌||◌,
}
use k4c.Platform.{sizeof_vector}
use k4c.Size.{add_size, size_add_overflow, size_mul_overflow}
use k4c.Status.{Status, ok, overflow, is_ok}
use k4c.Allocator.{Ptr, Libc, Allocator, allocator_copy, alloc, resize, dealloc}
use k4c.Iterator.{Iterator, iterator_from_state, iterator_set_size_hint, iterator_next}

abbrev pub default_capacity : ℕ
default_capacity = 16

-- `struct k4c_vector`, with the address that it was allocated at
pub record Vector (W E : Type 0) : Type 0 where
  pub address : Ptr
  pub size : ℕ
  pub elem_size : ℕ
  pub capacity : ℕ
  pub buffer : Ptr
  pub cells : List E
  pub allocator : Allocator W

-- the loop of `k4c_vector_capacity_grow`
grow_loop : ℕ → ℕ → ℕ → Run ℕ
grow_loop zero capacity min_capacity = out_of_fuel
grow_loop (suc fuel) capacity min_capacity =
    let half = capacity / 2 in
    let increment = if half == 0 then 1 else half in
    let rest : Run ℕ = elim (size_add_overflow capacity increment) [
      | none ↦ done min_capacity
      | some next ↦ grow_loop fuel next min_capacity
    ] in
    if ltb capacity min_capacity then rest else done capacity

-- `k4c_vector_capacity_grow`: the capacity rises with every round
unfoldable pub capacity_grow : ℕ → ℕ → Run (Status × ℕ)
unfolding grow_loop
capacity_grow capacity min_capacity =
    if leb min_capacity capacity
    then done (ok, capacity)
    else elim (grow_loop (min_capacity + 1) capacity min_capacity) [
      | done grown ↦ done (ok, grown)
      | panic ↦ panic
      | out_of_fuel ↦ out_of_fuel
    ]

-- the storage of a block that was resized to `capacity` cells
abbrev pub resized : {E : Type 0} → E → List E → ℕ → ℕ → List E
resized junk cells old capacity = cells ++ replicate (capacity - old) junk

pub record VectorIteratorState (E : Type 0) : Type 0 where
  pub storage : List E
  pub cursor : ℕ
  pub remaining : ℕ

-- `k4c_vector_iterator_next`
unfoldable pub vector_iterator_next :
    {E : Type 0} → VectorIteratorState E → Option E × VectorIteratorState E
vector_iterator_next s = if s.remaining == 0 then (none, s) else (
  get_elem? s.storage s.cursor,
  record s { cursor = s.cursor + 1; remaining = s.remaining - 1 },
)

module _ {W E : Type 0} where
  -- `k4c_vector_get`
  unfoldable pub get : Vector W E → ℕ → Option E
  get v index = if leb v.size index then none else get_elem? v.cells index

  -- `k4c_vector_pop`
  unfoldable pub pop : Vector W E → Option E × Vector W E
  pop v =
      if v.size == 0
      then (none, v)
      else (get_elem? v.cells (v.size - 1), record v { size = v.size - 1 })

  -- `k4c_vector_swap_remove`; the slot that it returns is read after the move
  unfoldable pub swap_remove : Vector W E → ℕ → Option E × Vector W E
  swap_remove v index =
      if leb v.size index
      then (none, v)
      else (let last = v.size - 1 in
          let moved = if index == last then v.cells else (elim (get_elem? v.cells last) [
            | none ↦ v.cells
            | some e ↦ set v.cells index e
          ]) in
          (get_elem? moved index, record v { cells = moved; size = last }))

  -- the stores at the end of `k4c_vector_push`
  abbrev pub append_cell : Vector W E → E → Vector W E
  append_cell v element = record v { cells = set v.cells v.size element; size = add_size v.size 1 }

  -- `k4c_vector_get_iterator`
  unfoldable pub get_iterator : Vector W E → Iterator (VectorIteratorState E) E
  get_iterator v =
      iterator_set_size_hint
        (iterator_from_state vector_iterator_next
          (record { storage = v.cells; cursor = 0; remaining = v.size }))
        v.size

  -- the rest of `k4c_vector_push`, which an error of the growth leaves out
  abbrev pub store_element : E → Status × Vector W E → Status × Vector W E
  store_element element (st, v) = if is_ok st then (ok, append_cell v element) else (st, v)

module _ {W E : Type 0} (libc : Libc W) (junk : E) where
  -- the stores at the end of `k4c_vector_create_with_capacity`
  abbrev pub fresh : ℕ → ℕ → Allocator W → Ptr → Ptr → Vector W E
  fresh elem_size capacity owner address buffer = record {
    address = address;
    size = 0;
    elem_size = elem_size;
    capacity = capacity;
    buffer = buffer;
    cells = replicate capacity junk;
    allocator = owner;
  }

  -- the stores at the end of `k4c_vector_reserve`
  abbrev pub enlarged : Vector W E → Ptr → ℕ → Vector W E
  enlarged v buffer capacity = record v {
    buffer = buffer;
    cells = resized junk v.cells v.capacity capacity;
    capacity = capacity;
  }

  -- the second half of `k4c_vector_create_with_capacity`, once the struct is at `address`
  unfoldable pub create_buffer :
      ℕ → ℕ → Allocator W → Ptr → ℕ → Prog W (Status × Option (Vector W E))
  create_buffer elem_size capacity owner address alloc_size = do
    (st, buffer) ← alloc libc (some owner) alloc_size
    elim (is_ok st) [
      | false ↦ do dealloc libc (some owner) address; pure (st, none)
      | true ↦ pure (ok, some (fresh elem_size capacity owner address buffer))
    ]

  -- `k4c_vector_create_with_capacity`
  unfoldable pub create_with_capacity :
      ℕ → ℕ → Option (Allocator W) → Prog W (Status × Option (Vector W E))
  unfolding create_buffer
  create_with_capacity elem_size capacity allocator =
      if elem_size == 0 || capacity == 0
      then abort
      else elim (size_mul_overflow elem_size capacity) [
        | none ↦ pure (overflow, none)
        | some alloc_size ↦ do
          (st, address) ← alloc libc allocator sizeof_vector
          elim (is_ok st) [
            | false ↦ pure (st, none)
            | true ↦ create_buffer elem_size capacity (allocator_copy allocator) address alloc_size
          ]
      ]

  -- `k4c_vector_create`
  unfoldable pub create : ℕ → Option (Allocator W) → Prog W (Status × Option (Vector W E))
  unfolding create_with_capacity
  create elem_size allocator = create_with_capacity elem_size default_capacity allocator

  -- `k4c_vector_reserve`
  unfoldable pub reserve : Vector W E → ℕ → Prog W (Status × Vector W E)
  reserve v capacity =
      if leb capacity v.capacity
      then pure (ok, v)
      else elim (size_mul_overflow capacity v.elem_size) [
        | none ↦ pure (overflow, v)
        | some alloc_size ↦ do
          (st, buffer) ← resize libc (some v.allocator) v.buffer alloc_size
          elim (is_ok st) [ false ↦ pure (st, v) | true ↦ pure (ok, enlarged v buffer capacity) ]
      ]

  -- the growth at the start of `k4c_vector_push`
  unfoldable pub make_room : Vector W E → Prog W (Status × Vector W E)
  unfolding capacity_grow reserve
  make_room v =
      if v.size == v.capacity
      then elim (size_add_overflow v.size 1) [
        | none ↦ pure (overflow, v)
        | some min_capacity ↦ do
          (st, new_capacity) ← lift (capacity_grow v.capacity min_capacity)
          elim (is_ok st) [ false ↦ pure (st, v) | true ↦ reserve v new_capacity ]
      ]
      else pure (ok, v)

  -- `k4c_vector_push`
  unfoldable pub push : Vector W E → E → Prog W (Status × Vector W E)
  unfolding make_room
  push v element = do r ← make_room v; pure (store_element element r)

  -- `k4c_vector_destroy`
  unfoldable pub destroy : Vector W E → Prog W (Unit {0})
  destroy v = do dealloc libc (some v.allocator) v.buffer; dealloc libc (some v.allocator) v.address
