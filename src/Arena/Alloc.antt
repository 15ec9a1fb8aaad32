-- ===== src/Arena/Alloc.antt =====
-- An allocation from an arena puts one payload on the stack, or finds too little room.
use k4c.Base.{
  ℕ, ◌+◌, ◌-◌, ◌%◌, ◌≤◌, ◌<◌, ◌≡◌, refl, ◌⊎◌, inl, inr, arith, ltb, ◌==◌, ◌||◌, Bool-cases, false,
  Option, none, some, List, [], ◌∷◌, ap₂, done, Returns,
}
use k4c.Size.{size_max, add_size, sub_size, align_up_overflow}
use k4c.Size.Align.{Rounds, align_up_overflow-Rounds}
use k4c.Allocator.{Ptr}
use k4c.Arena.{Arena, stored, bump, bump_alloc, alloc, reset, available}
use k4c.Arena.Stack.{IsValid, Stacks-bounds, Stacks-stored}

-- What an allocation of the rounded size `n` does.
abbrev pub Pushes : Arena → List (ℕ × ℕ) → ℕ → Ptr × Arena → Type 0
Pushes a ps n (none, a') = (a' ≡ a) × (a.capacity < a.offset + (16 + n))
Pushes a ps n (some ptr, a') =
    IsValid a' ((ptr, n) ∷ ps)
    × (ptr % 16 ≡ 0)
    × (ptr ≡ a.buffer + a.offset + 16)
    × (a'.bytes ≡ a.bytes)

pub bump-IsValid :
    {a : Arena} {ps : List (ℕ × ℕ)} (n : ℕ)
    → IsValid a ps
    → n % 16 ≡ 0
    → 0 < n
    → a.offset + (16 + n) ≤ a.capacity
    → IsValid (bump a n) ((a.buffer + a.offset + 16, n) ∷ ps)
bump-IsValid {a} {ps} n v multiple positive room =
    let offset : add_size a.offset (add_size 16 n) ≡ a.offset + (16 + n) = omega (arith, v.small) in
    let at : add_size a.buffer a.offset ≡ a.buffer + a.offset = omega (arith, v.small) in
    let end : a.buffer + (a.offset + (16 + n)) ≡ a.buffer + a.offset + (16 + n) = omega arith in
    let bumped : Arena = record a {
      offset = a.offset + (16 + n);
      headers = stored a.headers (a.buffer + a.offset) n;
    } in
    let e : bump a n ≡ bumped =
      ap₂ (λ (o i : ℕ). record a { offset = o; headers = stored a.headers i n }) offset at in
    rw e (record {
      aligned = v.aligned;
      small = v.small;
      inside = room;
      stacks =
          rw end (
            Stacks-stored a.headers a.buffer (a.buffer + a.offset) n ps multiple positive v.stacks);
    })

-- the three comparisons of the code, as one
no_room :
    (capacity offset n : ℕ)
    → capacity ≤ size_max
    → (ltb capacity n
        || ltb (sub_size capacity n) 16
        || ltb (sub_size (sub_size capacity 16) n) offset)
      ≡ ltb capacity (offset + (16 + n))
no_room capacity offset n small = elim (Bool-cases (ltb capacity (n + 16))) [
  | inl e ↦ ground arith
  | inr e ↦
      let left : sub_size capacity n ≡ capacity - n = ground arith in
      let rest : sub_size capacity 16 ≡ capacity - 16 = ground arith in
      let both : sub_size (capacity - 16) n ≡ capacity - 16 - n = ground arith in
      rw (left, rest, both) (ground arith)
]

bump_alloc-Pushes :
    {a : Arena} {ps : List (ℕ × ℕ)} (n : ℕ)
    → IsValid a ps
    → n % 16 ≡ 0
    → 0 < n
    → Pushes a ps n (bump_alloc a n)
unfolding bump_alloc
bump_alloc-Pushes {a} {ps} n v multiple positive =
    let test = no_room a.capacity a.offset n (omega (arith, v.small)) in
    elim (Bool-cases (ltb a.capacity (a.offset + (16 + n)))) [
      | inl e ↦ rw (test, e) (refl, ground arith)
      | inr e ↦
          let room : a.offset + (16 + n) ≤ a.capacity = ground arith in
          let at : add_size (add_size a.buffer a.offset) 16 ≡ a.buffer + a.offset + 16 =
            omega (arith, v.small) in
          let (_, top) =
            Stacks-bounds a.headers a.buffer (a.buffer + a.offset) ps v.aligned v.stacks in
          rw (test, e, at) (bump-IsValid n v multiple positive room, omega (arith, top), refl, refl)
    ]

-- What an allocation of `size` bytes does.
abbrev pub Allocates : Arena → List (ℕ × ℕ) → ℕ → Ptr × Arena → Type 0
Allocates a ps size r =
    ((size_max < size + 15) × (r ≡ (none, a)))
    ⊎ ((n : ℕ) × (size ≤ n) × (n < size + 16) × Pushes a ps n r)

pub alloc-Pushes :
    {a : Arena} {ps : List (ℕ × ℕ)}
    → IsValid a ps
    → (size : ℕ) → 0 < size
    → size ≤ size_max
    → Returns (alloc a size) (Allocates a ps size)
unfolding alloc
alloc-Pushes {a} {ps} v size positive fits =
    let nonzero : (size == 0) ≡ false = ground arith in
    rw nonzero (go (align_up_overflow size 16) (align_up_overflow-Rounds 4 (omega arith) size fits))
  where
    go :
        (r : Option ℕ)
        → Rounds 4 (omega arith) size r
        → Returns
            (elim r [ none ↦ done (none, a) | some aligned ↦ done (bump_alloc a aligned) ])
            (Allocates a ps size)
    go none over = (_, refl, inl (over, refl))
    go (some n) (up, near, multiple, bound) =
        (_, refl, inr (n, up, near, bump_alloc-Pushes n v multiple (omega (arith, up))))

-- Resetting an arena in order leaves it in order, with nothing handed out and its whole capacity
-- available.
pub reset-IsValid :
    {a : Arena} {ps : List (ℕ × ℕ)}
    → IsValid a ps
    → IsValid (reset a) [] × (available (reset a) ≡ a.capacity)
unfolding reset available
reset-IsValid {a} v = (
  record { aligned = v.aligned; small = v.small; inside = omega arith; stacks = omega arith },
  omega (arith, v.small),
)
