-- ===== src/Heap/Resize.antt =====
-- The reallocation of lib/mem/general_heap.c: in place, into a free neighbour, or by a move.
use k4c.Base.{
  ℕ, ◌+◌, ◌-◌, ltb, leb, ◌==◌, ◌&&◌, if◌then◌else◌, none, some, [], ◌∷◌, Run, done, panic, and_then,
}
use k4c.Size.{align_up_overflow}
use k4c.Platform.{memory_align}
use k4c.Allocator.{Ptr}
use k4c.Heap.{Block, Heap, Place, split_block, joined_size, at_place, find_place, alloc, dealloc}

-- `k4c_heap_split_block` at a place
abbrev pub split_at : Place → ℕ → Place
split_at p size =
    let (block, split) = split_block p.block size in
    record p { block = block; behind = elim split [ [] ↦ p.behind | s ∷ _ ↦ s ∷ p.behind ] }

-- `memcpy(target, source, count)`
abbrev pub copy_bytes : (ℕ → ℕ) → ℕ → ℕ → ℕ → ℕ → ℕ
copy_bytes bytes target source count address =
    if leb target address && ltb address (target + count)
    then bytes (source + (address - target))
    else bytes address

-- the end of `k4c_heap_vtable_realloc`, with what the new allocation answered
unfoldable pub move_payload : ℕ → Block → Ptr × Heap → Run (Ptr × Heap)
unfolding dealloc
move_payload ptr block (none, h) = done (none, h)
move_payload ptr block (some new_ptr, h) =
    and_then (dealloc (record h { bytes = copy_bytes h.bytes new_ptr ptr block.size }) (some ptr))
      λ h'. done (some new_ptr, h')

-- `k4c_heap_vtable_realloc`, from the rounded size and the place of the block on
unfoldable pub resize_at : Heap → ℕ → ℕ → Place → Run (Ptr × Heap)
unfolding alloc move_payload split_block
resize_at h ptr size p =
    let moved = and_then (alloc h size) (move_payload ptr p.block) in
    let grown : Run (Ptr × Heap) = elim (p.behind) [
      | [] ↦ moved
      | next ∷ rest ↦
          if next.is_free && leb size (joined_size p.block next)
          then done (
            some ptr,
            at_place h (
                split_at
                  (record p {
                    block = record p.block { size = joined_size p.block next };
                    behind = rest;
                  })
                  size),
          )
          else moved
    ] in
    if leb size p.block.size then done (some ptr, at_place h (split_at p size)) else grown

-- `k4c_heap_vtable_realloc`
unfoldable pub realloc : Heap → Ptr → ℕ → Run (Ptr × Heap)
unfolding resize_at find_place alloc dealloc
realloc h none size = alloc h size
realloc h (some ptr) size =
    if size == 0
    then and_then (dealloc h (some ptr)) (λ h'. done (none, h'))
    else elim (align_up_overflow size memory_align) [
      | none ↦ done (none, h)
      | some aligned ↦ elim (find_place ptr [] h.blocks) [
        | none ↦ panic
        | some p ↦ resize_at h ptr aligned p
      ]
    ]
