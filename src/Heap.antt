-- ===== src/Heap.antt =====
-- lib/mem/general_heap.c: the first-fit heap over one buffer. The list of the block headers stands
-- for the intrusive list that links them, and a place in it for a pointer to a header; a pointer
-- that is no block's payload is undefined in C, and is a panic here.
pub mod Tiling
pub mod Alloc
pub mod Dealloc
pub mod Resize
pub mod Accounts
pub mod Owner
pub mod Lifecycle
mod Tests
use k4c.Base.{
  ℕ, ◌+◌, ◌-◌, ltb, leb, ◌==◌, ◌&&◌, ◌||◌, if◌then◌else◌, Bool, true, false, Option, none, some,
  List, [], ◌∷◌, Run, done, panic,
}
use k4c.Size.{add_size, sub_size, align_up_overflow}
use k4c.Platform.{memory_align, sizeof_heap_block}
use k4c.Allocator.{Ptr}

-- `struct k4c_heap_block`, at its address
pub record Block : Type 0 where
  pub address : ℕ
  pub size : ℕ
  pub is_free : Bool

-- `struct k4c_heap`; `bytes` is what the buffer holds at an address
pub record Heap : Type 0 where
  pub buffer : ℕ
  pub capacity : ℕ
  pub blocks : List Block
  pub bytes : ℕ → ℕ

-- a block with the blocks before it, the nearest first, and those behind it
pub record Place : Type 0 where
  pub before : List Block
  pub block : Block
  pub behind : List Block

-- the whole list of a place
abbrev pub relink : List Block → List Block → List Block
relink [] rest = rest
relink (b ∷ before) rest = relink before (b ∷ rest)

-- the payload of a block
abbrev pub payload : Block → ℕ
payload b = add_size b.address sizeof_heap_block

-- `k4c_heap_split_block`: the block, and what is inserted behind it
unfoldable pub split_block : Block → ℕ → Block × List Block
split_block block size =
    let remaining = sub_size block.size size in
    if leb remaining (sizeof_heap_block + memory_align) then (block, []) else (
      record block { size = size },
      record {
        address = add_size (payload block) size;
        size = sub_size remaining sizeof_heap_block;
        is_free = true;
      }
          ∷ [],
    )

-- the sizes of two blocks and of the header between them
abbrev pub joined_size : Block → Block → ℕ
joined_size block next = add_size block.size (add_size sizeof_heap_block next.size)

-- the first half of `k4c_heap_coalesce`
unfoldable pub join_next : Place → Place
join_next p = elim (p.behind) [
  | [] ↦ p
  | next ∷ rest ↦
      if next.is_free
      then record p { block = record p.block { size = joined_size p.block next }; behind = rest }
      else p
]

-- the second half of `k4c_heap_coalesce`
unfoldable pub join_prev : Place → Place
join_prev p = elim (p.before) [
  | [] ↦ p
  | prev ∷ rest ↦
      if prev.is_free
      then record p { block = record prev { size = joined_size prev p.block }; before = rest }
      else p
]

-- `k4c_heap_coalesce`
unfoldable pub coalesce : Place → Place
unfolding join_next join_prev
coalesce p = join_prev (join_next p)

-- the block that `k4c_heap_vtable_alloc` returns, and what was split off
abbrev pub occupy : Block × List Block → List Block → List Block
occupy (block, split) rest =
    record block { is_free = false } ∷ (elim split [ [] ↦ rest | s ∷ _ ↦ s ∷ rest ])

-- the answer of the rest of the list, behind a block that was passed
abbrev pub behind_block : Block → Option (ℕ × List Block) → Option (ℕ × List Block)
behind_block block none = none
behind_block block (some (ptr, blocks)) = some (ptr, block ∷ blocks)

-- the loop of `k4c_heap_vtable_alloc`
unfoldable pub first_fit : ℕ → List Block → Option (ℕ × List Block)
unfolding split_block
first_fit size [] = none
first_fit size (block ∷ rest) =
    let further = first_fit size rest in
    if block.is_free && leb size block.size
    then some (payload block, occupy (split_block block size) rest)
    else behind_block block further

-- the search of `k4c_heap_vtable_alloc`, at the rounded size
abbrev pub allocated : Heap → Option ℕ → Run (Ptr × Heap)
allocated h none = done (none, h)
allocated h (some aligned) = elim (first_fit aligned h.blocks) [
  | none ↦ done (none, h)
  | some found ↦ done (some found.0, record h { blocks = found.1 })
]

-- `k4c_heap_vtable_alloc`
unfoldable pub alloc : Heap → ℕ → Run (Ptr × Heap)
unfolding first_fit
alloc h size = if size == 0 then panic else allocated h (align_up_overflow size memory_align)

-- the place of the header before a payload
unfoldable pub find_place : ℕ → List Block → List Block → Option Place
find_place ptr before [] = none
find_place ptr before (block ∷ rest) =
    let further = find_place ptr (block ∷ before) rest in
    if payload block == ptr
    then some (record { before = before; block = block; behind = rest })
    else further

-- the heap with the list of a place
abbrev pub at_place : Heap → Place → Heap
at_place h p = record h { blocks = relink p.before (p.block ∷ p.behind) }

-- `block->is_free = true`
abbrev pub mark_free : Place → Place
mark_free p = record p { block = record p.block { is_free = true } }

-- `k4c_heap_vtable_dealloc`
unfoldable pub dealloc : Heap → Ptr → Run Heap
unfolding find_place coalesce
dealloc h none = panic
dealloc h (some ptr) =
    if leb ptr h.buffer || leb (add_size h.buffer h.capacity) ptr
    then done h
    else elim (find_place ptr [] h.blocks) [
      | none ↦ panic
      | some p ↦ done (at_place h (coalesce (mark_free p)))
    ]

-- the loop of `k4c_heap_available`
abbrev pub free_bytes : List Block → ℕ → ℕ
free_bytes [] total = total
free_bytes (block ∷ rest) total =
    free_bytes rest (if block.is_free then add_size total block.size else total)

-- `k4c_heap_available`
unfoldable pub available : Heap → ℕ
available h = free_bytes h.blocks 0
