-- ===== src/Heap/Owner.antt =====
-- Creating and destroying a heap: its struct, its buffer and the struct of its list of blocks, each
-- in a block of libc. `junk` is what the new buffer holds.
use k4c.Base.{
  ℕ, leb, ◌+◌, if◌then◌else◌, true, false, Option, none, some, [], ◌∷◌, Prog, pure, abort, ◌>>=◌,
  ◌>>◌,
}
use k4c.Platform.{memory_align, sizeof_heap_block, sizeof_heap}
use k4c.Size.{sub_size, align_up_overflow}
use k4c.Status.{Status, ok, overflow, is_ok}
use k4c.Allocator.{Ptr, Libc, alloc, dealloc}
use k4c.DoublyLinkedList as BlockList
use k4c.DoublyLinkedList.{DoublyLinkedList}
use k4c.Heap.{Heap}

-- `struct k4c_heap` with the address that it was allocated at, and the struct at `blocks`
pub record OwnedHeap (W : Type 0) : Type 0 where
  pub address : Ptr
  pub buffer : Ptr
  pub list : DoublyLinkedList W
  pub heap : Heap

-- the address that a pointer holds
abbrev pub address_of : Ptr → ℕ
address_of none = 0
address_of (some p) = p

-- the heap over a new buffer: one free block
abbrev pub fresh_heap : (ℕ → ℕ) → ℕ → ℕ → Heap
fresh_heap junk buffer capacity = record {
  buffer = buffer;
  capacity = capacity;
  blocks =
      record { address = buffer; size = sub_size capacity sizeof_heap_block; is_free = true } ∷ [];
  bytes = junk;
}

module _ {W : Type 0} (libc : Libc W) (junk : ℕ → ℕ) where
  -- the end of `k4c_heap_create`, once the struct and the buffer are there; the list is there exactly
  -- if its status is OK
  unfoldable pub create_list : Ptr → Ptr → ℕ → Prog W (Status × Option (OwnedHeap W))
  create_list address buffer capacity = do
    (st, list) ← BlockList.create libc none
    elim list [
      | none ↦ do dealloc libc none buffer; dealloc libc none address; pure (st, none)
      | some l ↦ pure (
        ok,
        some (record {
          address = address;
          buffer = buffer;
          list = l;
          heap = fresh_heap junk (address_of buffer) capacity;
        }),
      )
    ]

  -- the part that obtains the buffer
  unfoldable pub create_buffer : Ptr → ℕ → Prog W (Status × Option (OwnedHeap W))
  unfolding create_list
  create_buffer address capacity = do
    (st, buffer) ← alloc libc none capacity
    elim (is_ok st) [
      | false ↦ do dealloc libc none address; pure (st, none)
      | true ↦ create_list address buffer capacity
    ]

  -- `k4c_heap_create`
  unfoldable pub create : ℕ → Prog W (Status × Option (OwnedHeap W))
  unfolding create_buffer
  create capacity =
      if leb capacity (sizeof_heap_block + memory_align)
      then abort
      else elim (align_up_overflow capacity memory_align) [
        | none ↦ pure (overflow, none)
        | some aligned ↦ do
          (st, address) ← alloc libc none sizeof_heap
          elim (is_ok st) [ false ↦ pure (st, none) | true ↦ create_buffer address aligned ]
      ]

module _ {W : Type 0} (libc : Libc W) where
  -- `k4c_heap_destroy`, on a heap that was created
  unfoldable pub destroy : OwnedHeap W → Prog W (Unit {0})
  destroy h = do
    BlockList.destroy libc h.list
    dealloc libc none h.buffer
    dealloc libc none h.address
