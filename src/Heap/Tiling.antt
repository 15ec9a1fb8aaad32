-- ===== src/Heap/Tiling.antt =====
-- The blocks of a heap cut its buffer without gaps; the blocks in use as the abstract state.
use k4c.Base.{
  ℕ, ◌+◌, ◌%◌, ◌≤◌, ◌<◌, ◌≡◌, refl, arith, if◌then◌else◌, Bool-cases, inl, inr, true, List, [], ◌∷◌,
  ◌++◌, ap,
}
use k4c.Size.{size_max}
use k4c.Heap.{Block, Heap, joined_size, relink}

-- The blocks fill the memory from `start` to `end`; every size is a positive multiple of the
-- alignment.
abbrev pub Tiles : ℕ → ℕ → List Block → Type 0
Tiles start end [] = start ≡ end
Tiles start end (b ∷ bs) =
    (b.address ≡ start) × (b.size % 16 ≡ 0) × (0 < b.size) × Tiles (start + (32 + b.size)) end bs

pub record IsValid (h : Heap) : Type 0 where
  pub aligned : h.buffer % 16 ≡ 0
  pub small : h.buffer + h.capacity ≤ size_max
  pub tiles : Tiles h.buffer (h.buffer + h.capacity) h.blocks

-- the address and the size of the payload of every block in use
abbrev pub live : List Block → List (ℕ × ℕ)
live [] = []
live (b ∷ bs) = if b.is_free then live bs else (b.address + 32, b.size) ∷ live bs

pub Tiles-bounds : (start end : ℕ) (bs : List Block) → Tiles start end bs → start ≤ end
Tiles-bounds start end [] t = omega arith
Tiles-bounds start end (b ∷ bs) (at, multiple, some_bytes, t) =
    omega (arith, Tiles-bounds (start + (32 + b.size)) end bs t)

pub live-append : (xs ys : List Block) → live (xs ++ ys) ≡ live xs ++ live ys
live-append [] ys = refl
live-append (b ∷ xs) ys = elim (Bool-cases (b.is_free)) [
  | inl e ↦ rw e (live-append xs ys)
  | inr e ↦ rw e (ap (◌∷◌ (b.address + 32, b.size)) (live-append xs ys))
]

-- The second list can stand for the first at the end of a heap's blocks.
pub record Serves (end : ℕ) (bs cs : List Block) : Type 0 where
  pub tiles : (start : ℕ) → Tiles start end bs → Tiles start end cs
  pub same : live bs ≡ live cs

pub relink-Serves :
    {end : ℕ} (before : List Block) (bs cs : List Block)
    → Serves end bs cs
    → Serves end (relink before bs) (relink before cs)
relink-Serves [] bs cs s = s
relink-Serves {end} (b ∷ before) bs cs s = relink-Serves before (b ∷ bs) (b ∷ cs) (record {
  tiles = λ start (at, multiple, some_bytes, t).
      (at, multiple, some_bytes, s.tiles (start + (32 + b.size)) t);
  same = elim (Bool-cases (b.is_free)) [
    | inl e ↦ rw e s.same
    | inr e ↦ rw e (ap (◌∷◌ (b.address + 32, b.size)) s.same)
  ];
})

-- two free neighbours as one free block
pub joined-Serves :
    {end : ℕ} (b next : Block) (rest : List Block)
    → end ≤ size_max
    → b.is_free ≡ true
    → next.is_free ≡ true
    → Serves end (b ∷ next ∷ rest) (record b { size = joined_size b next } ∷ rest)
joined-Serves {end} b next rest small free next_free = record {
  tiles = λ start (at, multiple, some_bytes, (next_at, next_multiple, next_bytes, t)).
      let bound = Tiles-bounds (start + (32 + b.size) + (32 + next.size)) end rest t in
      let size : joined_size b next ≡ b.size + (32 + next.size) = omega arith in
      let end_of : start + (32 + (b.size + (32 + next.size)))
          ≡ start + (32 + b.size) + (32 + next.size) =
        omega arith in
      rw (size, end_of) (at, omega arith, omega arith, t);
  same = rw (free, next_free) refl;
}
