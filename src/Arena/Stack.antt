-- ===== src/Arena/Stack.antt =====
-- The payloads of an arena, the newest first, each behind its header and the next older payload.
use k4c.Base.{ℕ, ◌+◌, ◌%◌, ◌≤◌, ◌<◌, ◌==◌, true, ◌≡◌, refl, arith, List, [], ◌∷◌, ◌++◌, ◌∙◌}
use k4c.Size.{size_max}
use k4c.Arena.{Arena, stored}

-- The payloads and their headers fill the memory from `start` to `end`.
abbrev pub Stacks : (ℕ → ℕ) → ℕ → ℕ → List (ℕ × ℕ) → Type 0
Stacks headers start end [] = start ≡ end
Stacks headers start end ((ptr, n) ∷ ps) =
    (header : ℕ) × (ptr ≡ header + 16)
    × (end ≡ ptr + n)
    × (headers header ≡ n)
    × (n % 16 ≡ 0)
    × (0 < n)
    × Stacks headers start header ps

-- The arena is in order, and has handed out exactly the payloads `ps` since its last reset.
pub record IsValid (a : Arena) (ps : List (ℕ × ℕ)) : Type 0 where
  pub aligned : a.buffer % 16 ≡ 0
  pub small : a.buffer + a.capacity ≤ size_max
  pub inside : a.offset ≤ a.capacity
  pub stacks : Stacks a.headers a.buffer (a.buffer + a.offset) ps

pub Stacks-bounds :
    (headers : ℕ → ℕ) (start end : ℕ) (ps : List (ℕ × ℕ))
    → start % 16 ≡ 0
    → Stacks headers start end ps
    → (start ≤ end) × (end % 16 ≡ 0)
Stacks-bounds headers start end [] aligned s = (omega (arith, s), omega (arith, s))
Stacks-bounds headers start end ((ptr, n) ∷ ps) aligned
      (header, at, to, size, multiple, positive, s) =
    let (before, multiple') = Stacks-bounds headers start header ps aligned s in
    (omega (arith, at, to), omega (arith, at, to))

-- what stands above a stack does not matter to it
pub Stacks-congr :
    (headers headers' : ℕ → ℕ) (start end : ℕ) (ps : List (ℕ × ℕ))
    → ((at : ℕ) → at < end → headers' at ≡ headers at)
    → Stacks headers start end ps
    → Stacks headers' start end ps
Stacks-congr headers headers' start end [] agree s = s
Stacks-congr headers headers' start end ((ptr, n) ∷ ps) agree
      (header, at, to, size, multiple, positive, s) =
    (
      header,
      at,
      to,
      agree header (omega (arith, at, to)) ∙ size,
      multiple,
      positive,
      Stacks-congr headers headers' start header ps (λ i h. agree i (omega (arith, at, to))) s,
    )

-- a payload of the stack, with its header
pub Stacks-member :
    (headers : ℕ → ℕ) (start end ptr n : ℕ) (xs ys : List (ℕ × ℕ))
    → start % 16 ≡ 0
    → Stacks headers start end (xs ++ (ptr, n) ∷ ys)
    → (header : ℕ) × (ptr ≡ header + 16) × (start ≤ header) × (ptr + n ≤ end) × (headers header ≡ n)
Stacks-member headers start end ptr n [] ys aligned (header, at, to, size, multiple, positive, s) =
    let (before, _) = Stacks-bounds headers start header ys aligned s in
    (header, at, before, omega (arith, to), size)
Stacks-member headers start end ptr n ((q, m) ∷ xs) ys aligned
      (top, at, to, size, multiple, positive, s) =
    let (header, at', before, inside, size') =
      Stacks-member headers start top ptr n xs ys aligned s in
    (header, at', before, omega (arith, at, to), size')

-- a new payload behind the last one
pub Stacks-stored :
    (headers : ℕ → ℕ) (start end n : ℕ) (ps : List (ℕ × ℕ))
    → n % 16 ≡ 0
    → 0 < n
    → Stacks headers start end ps
    → Stacks (stored headers end n) start (end + (16 + n)) ((end + 16, n) ∷ ps)
Stacks-stored headers start end n ps multiple positive s =
    let here : (end == end) ≡ true = ground arith in
    (
      end,
      refl,
      omega arith,
      rw here refl,
      multiple,
      positive,
      Stacks-congr headers (stored headers end n) start end ps (λ at h. ground arith) s,
    )
