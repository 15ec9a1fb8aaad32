-- ===== src/Arena.antt =====
-- lib/mem/arena.c: the bump allocator over one buffer. `headers` is the size that a header at an
-- address holds, and `bytes` what the rest of the buffer does.
pub mod Stack
pub mod Alloc
pub mod Resize
pub mod Lifecycle
mod Tests
use k4c.Base.{
  ℕ, ◌+◌, ◌-◌, ltb, leb, ◌==◌, ◌&&◌, ◌||◌, if◌then◌else◌, true, false, Option, none, some, Run,
  done, panic, and_then,
}
use k4c.Size.{add_size, sub_size, align_up_overflow}
use k4c.Platform.{memory_align}
use k4c.Allocator.{Ptr}

-- `struct k4c_arena`, with the memory that it owns
pub record Arena : Type 0 where
  pub buffer : ℕ
  pub capacity : ℕ
  pub offset : ℕ
  pub headers : ℕ → ℕ
  pub bytes : ℕ → ℕ

-- `header_size`, which the code computes as `align_up(sizeof_arena_alloc_header, memory_align)`
abbrev pub header_size : ℕ
header_size = 16

-- a store of `value` at `address`
abbrev pub stored : (ℕ → ℕ) → ℕ → ℕ → ℕ → ℕ
stored memory address value at = if at == address then value else memory at

-- the header and the new offset of an allocation
abbrev pub bump : Arena → ℕ → Arena
bump a size = record a {
  offset = add_size a.offset (add_size header_size size);
  headers = stored a.headers (add_size a.buffer a.offset) size;
}

-- `k4c_arena_vtable_alloc`, from the rounded size on
unfoldable pub bump_alloc : Arena → ℕ → Ptr × Arena
bump_alloc a size =
    if ltb a.capacity size
      || ltb (sub_size a.capacity size) header_size
      || ltb (sub_size (sub_size a.capacity header_size) size) a.offset
    then (none, a)
    else (some (add_size (add_size a.buffer a.offset) header_size), bump a size)

-- `k4c_arena_vtable_alloc`
unfoldable pub alloc : Arena → ℕ → Run (Ptr × Arena)
unfolding bump_alloc
alloc a size = if size == 0 then panic else elim (align_up_overflow size memory_align) [
  | none ↦ done (none, a)
  | some aligned ↦ done (bump_alloc a aligned)
]

-- `memcpy(target, source, count)`
abbrev pub copy_bytes : (ℕ → ℕ) → ℕ → ℕ → ℕ → ℕ → ℕ
copy_bytes bytes target source count address =
    if leb target address && ltb address (target + count)
    then bytes (source + (address - target))
    else bytes address

-- the end of `k4c_arena_vtable_realloc`, with what the new allocation answered
abbrev pub move_payload : ℕ → ℕ → Ptr × Arena → Ptr × Arena
move_payload ptr header (none, a) = (none, a)
move_payload ptr header (some new_ptr, a) =
    (some new_ptr, record a { bytes = copy_bytes a.bytes new_ptr ptr (a.headers header) })

-- `k4c_arena_vtable_realloc`, from the rounded size on
unfoldable pub resize_to : Arena → ℕ → ℕ → Run (Ptr × Arena)
unfolding alloc
resize_to a ptr size =
    let header = sub_size ptr header_size in
    let moved = and_then (alloc a size) (λ r. done (move_payload ptr header r)) in
    if ltb size (a.headers header)
    then panic
    else (if size == a.headers header then done (some ptr, a) else moved)

-- `k4c_arena_vtable_realloc`
unfoldable pub realloc : Arena → Ptr → ℕ → Run (Ptr × Arena)
unfolding resize_to
realloc a none size = alloc a size
realloc a (some ptr) size =
    if size == 0 then done (none, a) else elim (align_up_overflow size memory_align) [
      | none ↦ done (none, a)
      | some aligned ↦ resize_to a ptr aligned
    ]

-- `k4c_arena_reset`
unfoldable pub reset : Arena → Arena
reset a = record a { offset = 0 }

-- `k4c_arena_used`
unfoldable pub used : Arena → ℕ
used a = a.offset

-- `k4c_arena_available`
unfoldable pub available : Arena → ℕ
available a = sub_size a.capacity a.offset
