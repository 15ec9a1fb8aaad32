-- ===== src/Deque.antt =====
-- lib/datastruct/deque.c: a ring of cells whose capacity is a power of two. `cells` is the storage
-- at `buffer`, one cell for each `elem_size` bytes; `junk` stands for a cell that was never written.
-- A pointer to an element that a function returns is modelled by what the cell holds.
pub mod Valid
pub mod Ends
pub mod Unroll
pub mod Room
pub mod Lifecycle
pub mod Peek
pub mod Iterate
mod Tests
use k4c.Base.{
  ℕ, zero, suc, ◌+◌, ◌-◌, ◌*◌, ◌/◌, ◌%◌, bit_and, ltb, leb, ◌==◌, if◌then◌else◌, Bool, true, false,
  Option, none, some, List, [], ◌∷◌, length, get_elem?, set, take, drop, replicate, Run, done,
  panic, out_of_fuel, Prog, pure, abort, lift, ◌>>=◌, ◌>>◌,
}
use k4c.Platform.{sizeof_deque}
use k4c.Size.{size_max, add_size, sub_size, size_add_overflow, size_mul_overflow}
use k4c.Status.{Status, ok, overflow, is_ok}
use k4c.Allocator.{Ptr, Libc, Allocator, allocator_copy, alloc, dealloc}
use k4c.Iterator.{Iterator, iterator_from_state, iterator_set_size_hint}

-- K4C_DEQUE_DEFAULT_CAPACITY
abbrev pub default_capacity : ℕ
default_capacity = 16

-- `struct k4c_deque`, with the address that it was allocated at
pub record Deque (W E : Type 0) : Type 0 where
  pub address : Ptr
  pub size : ℕ
  pub elem_size : ℕ
  pub capacity : ℕ
  pub head : ℕ
  pub tail : ℕ
  pub buffer : Ptr
  pub cells : List E
  pub allocator : Allocator W

-- the loop of `k4c_deque_capacity_grow`
unfoldable pub grow_loop : ℕ → ℕ → ℕ → Run (Status × ℕ)
grow_loop zero capacity min_capacity = out_of_fuel
grow_loop (suc fuel) capacity min_capacity =
    let rest = grow_loop fuel (capacity * 2) min_capacity in
    let round = if ltb (size_max / 2) capacity then done (overflow, 0) else rest in
    if ltb capacity min_capacity then round else done (ok, capacity)

-- `k4c_deque_capacity_grow`; a positive capacity doubles at most 64 times
unfoldable pub capacity_grow : ℕ → ℕ → Run (Status × ℕ)
unfolding grow_loop
capacity_grow capacity min_capacity =
    let grown = grow_loop 65 capacity min_capacity in
    let result = if leb min_capacity capacity then done (ok, capacity) else grown in
    if bit_and capacity (sub_size capacity 1) == 0 then result else panic

-- `memcpy` of whole cells into `cells` from the index `i` on
unfoldable pub overwrite : {E : Type 0} → List E → ℕ → List E → List E
overwrite cells i [] = cells
overwrite cells i (x ∷ xs) = overwrite (set cells i x) (i + 1) xs

-- `count` cells from the index `start` on
abbrev pub slice : {E : Type 0} → List E → ℕ → ℕ → List E
slice cells start count = take count (drop start cells)

-- the state of an iterator: `mask` is the capacity less one
pub record DequeIteratorState (E : Type 0) : Type 0 where
  pub storage : List E
  pub index : ℕ
  pub mask : ℕ
  pub remaining : ℕ

-- `k4c_deque_iterator_next`
unfoldable pub deque_iterator_next :
    {E : Type 0} → DequeIteratorState E → Option E × DequeIteratorState E
deque_iterator_next s = if s.remaining == 0 then (none, s) else (
  get_elem? s.storage (bit_and s.index s.mask),
  record s { index = add_size s.index 1; remaining = s.remaining - 1 },
)

module _ {W E : Type 0} where
  -- the index before `i` in the ring
  abbrev pub before : Deque W E → ℕ → ℕ
  before d i = sub_size (add_size i d.capacity) 1 % d.capacity

  -- the index after `i` in the ring
  abbrev pub after : Deque W E → ℕ → ℕ
  after d i = add_size i 1 % d.capacity

  -- the stores at the end of `k4c_deque_push`
  unfoldable pub store_back : Deque W E → E → Deque W E
  store_back d x = record d {
    cells = set d.cells d.tail x;
    size = add_size d.size 1;
    tail = after d d.tail;
  }

  -- the stores at the end of `k4c_deque_pushfront`
  unfoldable pub store_front : Deque W E → E → Deque W E
  store_front d x = record d {
    cells = set d.cells (before d d.head) x;
    size = add_size d.size 1;
    head = before d d.head;
  }

  -- what an operation does when it found or made room, and when it could not
  abbrev pub when_ok : (Deque W E → Deque W E) → Status × Deque W E → Status × Deque W E
  when_ok stores (st, d) = if is_ok st then (ok, stores d) else (st, d)

  -- `k4c_deque_popleft`; a capacity of zero is a panic
  unfoldable pub popleft : Deque W E → Run (Option E × Deque W E)
  popleft d =
      if d.capacity == 0
      then panic
      else (if d.size == 0
          then done (none, d)
          else done
              (get_elem? d.cells d.head, record d { head = after d d.head; size = d.size - 1 }))

  -- `k4c_deque_popback`
  unfoldable pub popback : Deque W E → Run (Option E × Deque W E)
  popback d =
      if d.capacity == 0
      then panic
      else (if d.size == 0
          then done (none, d)
          else done (
            get_elem? d.cells (before d d.tail),
            record d { tail = before d d.tail; size = d.size - 1 },
          ))

  -- `k4c_deque_peekleft`
  unfoldable pub peekleft : Deque W E → Option E
  peekleft d = if d.size == 0 then none else get_elem? d.cells d.head

  -- `k4c_deque_peekback`
  unfoldable pub peekback : Deque W E → Option E
  peekback d = if d.size == 0 then none else get_elem? d.cells (before d d.tail)

  -- `k4c_deque_get_iterator`
  unfoldable pub get_iterator : Deque W E → Run (Iterator (DequeIteratorState E) E)
  get_iterator d =
      if bit_and d.capacity (sub_size d.capacity 1) == 0
      then done (
          iterator_set_size_hint
            (iterator_from_state deque_iterator_next (record {
              storage = d.cells;
              index = d.head;
              mask = sub_size d.capacity 1;
              remaining = d.size;
            }))
            d.size)
      else panic

module _ {W E : Type 0} (libc : Libc W) (junk : E) where
  -- the copies of `k4c_deque_grow` into a new block of `new_capacity` cells
  unfoldable pub unroll : Deque W E → ℕ → List E
  unroll d new_capacity =
      let block = replicate new_capacity junk in
      let first_count = d.capacity - d.head in
      let second_count = d.tail in
      let first = overwrite block 0 (slice d.cells d.head first_count) in
      if d.size == 0
      then block
      else (if ltb d.head d.tail
          then overwrite block 0 (slice d.cells d.head d.size)
          else (if ltb 0 second_count
              then overwrite first first_count (slice d.cells 0 second_count)
              else first))

  -- the stores at the end of `k4c_deque_grow`
  abbrev pub enlarged : Deque W E → Ptr → ℕ → Deque W E
  enlarged d buffer new_capacity = record d {
    cells = unroll d new_capacity;
    buffer = buffer;
    capacity = new_capacity;
    head = 0;
    tail = d.size;
  }

  -- `k4c_deque_grow`, from the new capacity on
  unfoldable pub grow_to : Deque W E → ℕ → Prog W (Status × Deque W E)
  grow_to d new_capacity = elim (size_mul_overflow new_capacity d.elem_size) [
    | none ↦ pure (overflow, d)
    | some alloc_size ↦ do
      (st, buffer) ← alloc libc (some d.allocator) alloc_size
      elim (is_ok st) [
        | false ↦ pure (st, d)
        | true ↦ do
          dealloc libc (some d.allocator) d.buffer
          pure (ok, enlarged d buffer new_capacity)
      ]
  ]

  -- `k4c_deque_grow`
  unfoldable pub grow : Deque W E → Prog W (Status × Deque W E)
  unfolding grow_to capacity_grow
  grow d = elim (size_add_overflow d.size 1) [
    | none ↦ pure (overflow, d)
    | some min_capacity ↦ do
      (st, new_capacity) ← lift (capacity_grow d.capacity min_capacity)
      elim (is_ok st) [ false ↦ pure (st, d) | true ↦ grow_to d new_capacity ]
  ]

  -- the start of `k4c_deque_push` and of `k4c_deque_pushfront`
  unfoldable pub make_room : Deque W E → Prog W (Status × Deque W E)
  unfolding grow
  make_room d =
      if d.capacity == 0 then abort else (if d.size == d.capacity then grow d else pure (ok, d))

  -- `k4c_deque_push`
  unfoldable pub push : Deque W E → E → Prog W (Status × Deque W E)
  unfolding make_room store_back
  push d element = do r ← make_room d; pure (when_ok (λ roomy. store_back roomy element) r)

  -- `k4c_deque_pushfront`
  unfoldable pub pushfront : Deque W E → E → Prog W (Status × Deque W E)
  unfolding make_room store_front
  pushfront d element = do r ← make_room d; pure (when_ok (λ roomy. store_front roomy element) r)

  -- the stores at the end of `k4c_deque_create`
  abbrev pub fresh : ℕ → Allocator W → Ptr → Ptr → Deque W E
  fresh elem_size owner address buffer = record {
    address = address;
    size = 0;
    elem_size = elem_size;
    capacity = default_capacity;
    head = 0;
    tail = 0;
    buffer = buffer;
    cells = replicate default_capacity junk;
    allocator = owner;
  }

  -- the second half of `k4c_deque_create`, once the struct is at `address`
  unfoldable pub create_buffer : ℕ → Allocator W → Ptr → ℕ → Prog W (Status × Option (Deque W E))
  create_buffer elem_size owner address alloc_size = do
    (st, buffer) ← alloc libc (some owner) alloc_size
    elim (is_ok st) [
      | false ↦ do dealloc libc (some owner) address; pure (st, none)
      | true ↦ pure (ok, some (fresh elem_size owner address buffer))
    ]

  -- `k4c_deque_create`
  unfoldable pub create : ℕ → Option (Allocator W) → Prog W (Status × Option (Deque W E))
  unfolding create_buffer
  create elem_size allocator =
      if elem_size == 0 then abort else elim (size_mul_overflow elem_size default_capacity) [
        | none ↦ pure (overflow, none)
        | some alloc_size ↦ do
          (st, address) ← alloc libc allocator sizeof_deque
          elim (is_ok st) [
            | false ↦ pure (st, none)
            | true ↦ create_buffer elem_size (allocator_copy allocator) address alloc_size
          ]
      ]

  -- `k4c_deque_destroy`
  unfoldable pub destroy : Deque W E → Prog W (Unit {0})
  destroy d = do dealloc libc (some d.allocator) d.buffer; dealloc libc (some d.allocator) d.address
