-- ===== src/Heap/Alloc.antt =====
-- First fit: what an allocation changes, and that it fails only where no free block is large enough.
use k4c.Base.{
  ℕ, ◌+◌, ◌-◌, ◌%◌, ◌≤◌, ◌<◌, ◌≡◌, refl, ◌⊎◌, inl, inr, arith, leb, ◌==◌, ◌&&◌, Bool-cases, true,
  false, Option, none, some, List, [], ◌∷◌, ◌++◌, done, Returns,
}
use k4c.Size.{size_max, add_size, sub_size, align_up_overflow}
use k4c.Size.Align.{Rounds, align_up_overflow-Rounds}
use k4c.Allocator.{Ptr}
use k4c.Heap.{Block, Heap, payload, split_block, occupy, behind_block, first_fit, allocated, alloc}
use k4c.Heap.Tiling.{Tiles, IsValid, live, Tiles-bounds}

-- No block of the list is free with `size` bytes.
abbrev pub NoFit : ℕ → List Block → Type 0
NoFit size [] = Unit {0}
NoFit size (b ∷ bs) = ((b.is_free && leb size b.size) ≡ false) × NoFit size bs

-- What an allocation of `size` bytes from the blocks `bs` did: one payload more is live.
abbrev pub Takes : ℕ → ℕ → ℕ → List Block → Option (ℕ × List Block) → Type 0
Takes start end size bs none = NoFit size bs
Takes start end size bs (some (ptr, bs')) =
    Tiles start end bs'
    × (ptr % 16 ≡ 0)
    × ((xs : List (ℕ × ℕ)) × (ys : List (ℕ × ℕ)) × (n : ℕ) × (size ≤ n)
        × (live bs ≡ xs ++ ys)
        × (live bs' ≡ xs ++ (ptr, n) ∷ ys))

sub_size-lem : (a b : ℕ) → b ≤ a → a ≤ size_max → sub_size a b ≡ a - b
sub_size-lem a b h k = omega arith

-- taking the first block, with what was split off
occupy-Takes :
    {start end size : ℕ} (b : Block) (bs : List Block)
    → end ≤ size_max
    → start % 16 ≡ 0
    → size % 16 ≡ 0
    → 0 < size
    → size ≤ b.size
    → b.is_free ≡ true
    → Tiles start end (b ∷ bs)
    → Takes start end size (b ∷ bs) (some (payload b, occupy (split_block b size) bs))
unfolding split_block
occupy-Takes {start} {end} {size} b bs small aligned multiple positive fits free
      (at, sized, bytes, t) =
    let bound = Tiles-bounds (start + (32 + b.size)) end bs t in
    let pay : payload b ≡ b.address + 32 = omega (arith, at) in
    let rest : sub_size b.size size ≡ b.size - size = sub_size-lem b.size size fits (omega arith) in
    elim (Bool-cases (leb (b.size - size) 48)) [
      | inl e ↦
          rw (rest, e, free, pay)
            ((at, sized, bytes, t), omega (arith, at), ([], live bs, b.size, fits, refl, refl))
      | inr e ↦
          let next : add_size (b.address + 32) size ≡ start + (32 + size) = ground (arith, at) in
          let left : sub_size (b.size - size) 32 ≡ b.size - size - 32 = ground arith in
          let end_of : start + (32 + size) + (32 + (b.size - size - 32)) ≡ start + (32 + b.size) =
            ground arith in
          rw (rest, e, free, pay, next, left, end_of)
            (
              (at, multiple, positive, (refl, ground arith, ground arith, t)),
              omega (arith, at),
              ([], live bs, size, omega arith, refl, refl),
            )
    ]

-- a block that is passed
behind_block-Takes :
    (start end size : ℕ) (b : Block) (bs : List Block) (r : Option (ℕ × List Block))
    → (b.is_free && leb size b.size) ≡ false
    → b.address ≡ start
    → b.size % 16 ≡ 0
    → 0 < b.size
    → Takes (start + (32 + b.size)) end size bs r
    → Takes start end size (b ∷ bs) (behind_block b r)
behind_block-Takes start end size b bs none unfit at sized bytes nothing = (unfit, nothing)
behind_block-Takes start end size b bs (some (ptr, bs')) unfit at sized bytes
      (t, aligned, (xs, ys, n, fits, was, is)) =
    elim (Bool-cases (b.is_free)) [
      | inl f ↦ rw (f) ((at, sized, bytes, t), aligned, (xs, ys, n, fits, was, is))
      | inr f ↦
          rw (f, was, is)
            (
              (at, sized, bytes, t),
              aligned,
              ((b.address + 32, b.size) ∷ xs, ys, n, fits, refl, refl),
            )
    ]

first_fit-Takes :
    (bs : List Block) (start end size : ℕ)
    → end ≤ size_max
    → start % 16 ≡ 0
    → size % 16 ≡ 0
    → 0 < size
    → Tiles start end bs
    → Takes start end size bs (first_fit size bs)
unfolding first_fit
first_fit-Takes [] start end size small aligned multiple positive t = tt
first_fit-Takes (b ∷ bs) start end size small aligned multiple positive (at, sized, bytes, t) =
    elim (Bool-cases (b.is_free && leb size b.size)) [
      | inl e ↦
          let free : b.is_free ≡ true = ground arith in
          let fits : size ≤ b.size = ground arith in
          rw e (occupy-Takes b bs small aligned multiple positive fits free (at, sized, bytes, t))
      | inr e ↦ rw e (
          behind_block-Takes start end size b bs (first_fit size bs) e at sized bytes (
            first_fit-Takes bs (start + (32 + b.size)) end size small (omega arith) multiple
              positive t))
    ]

-- What the heap did for a request of `size` bytes.
abbrev pub Allocates : Heap → ℕ → Ptr × Heap → Type 0
Allocates h size (none, h') =
    (h' ≡ h)
    × ((size_max < size + 15) ⊎ ((n : ℕ) × (n < size + 16) × (n % 16 ≡ 0) × NoFit n h.blocks))
Allocates h size (some ptr, h') =
    IsValid h'
    × (ptr % 16 ≡ 0)
    × ((xs : List (ℕ × ℕ)) × (ys : List (ℕ × ℕ)) × (n : ℕ) × (size ≤ n)
        × (live h.blocks ≡ xs ++ ys)
        × (live h'.blocks ≡ xs ++ (ptr, n) ∷ ys))

fitted-Allocates :
    {h : Heap} (size aligned : ℕ) (r : Option (ℕ × List Block))
    → IsValid h
    → (size ≤ aligned) × (aligned < size + 16) × (aligned % 16 ≡ 0)
    → Takes h.buffer (h.buffer + h.capacity) aligned h.blocks r
    → Returns
        (elim r [
          | none ↦ done (none, h)
          | some found ↦ done (some found.0, record h { blocks = found.1 })
        ])
        (Allocates h size)
fitted-Allocates size aligned none v (up, near, multiple) nothing =
    (_, refl, (refl, inr (aligned, near, multiple, nothing)))
fitted-Allocates size aligned (some (ptr, bs)) v (up, near, multiple)
      (t, ptr_aligned, (xs, ys, n, fits, was, is)) =
    (
      _,
      refl,
      (
        record { aligned = v.aligned; small = v.small; tiles = t },
        ptr_aligned,
        (xs, ys, n, omega arith, was, is),
      ),
    )

-- On a valid heap and for a positive size, an allocation returns. Either a 16-byte aligned payload of
-- at least that size is added to the blocks in use and the heap is still cut without gaps, or the
-- heap is unchanged, and then the size rounded up to 16 is no `size_t` or no free block has that
-- many bytes.
pub alloc-Allocates :
    {h : Heap}
    → IsValid h
    → (size : ℕ) → 0 < size
    → size ≤ size_max
    → Returns (alloc h size) (Allocates h size)
unfolding alloc
alloc-Allocates {h} v size positive fits =
    let rounds = align_up_overflow-Rounds 4 (omega arith) size fits in
    let nonzero : (size == 0) ≡ false = ground arith in
    rw nonzero (go (align_up_overflow size 16) rounds)
  where
    go : (r : Option ℕ) → Rounds 4 (omega arith) size r → Returns (allocated h r) (Allocates h size)
    go none over = (_, refl, (refl, inl over))
    go (some aligned) (up, near, multiple, bound) =
        fitted-Allocates size aligned (first_fit aligned h.blocks) v (up, near, multiple)
          (first_fit-Takes h.blocks h.buffer (h.buffer + h.capacity) aligned v.small v.aligned
            multiple (omega (arith, up)) v.tiles)
