-- ===== src/Arena/Resize.antt =====
-- Reallocation in an arena: the same payload, a new one with the old bytes, or a failed assertion.
use k4c.Base.{
  ℕ, ◌+◌, ◌-◌, ◌%◌, ◌≤◌, ◌<◌, ◌≡◌, refl, sym, ◌⊎◌, inl, inr, arith, ltb, leb, ◌==◌, ◌&&◌,
  Bool-cases, true, false, Option, none, some, List, ◌∷◌, ◌++◌, ap, ◌∙◌, Run, done, panic, Returns,
  and_then-Returns,
}
use k4c.Size.{size_max, sub_size, align_up_overflow}
use k4c.Size.Align.{Rounds, align_up_overflow-Rounds}
use k4c.Allocator.{Ptr}
use k4c.Arena.{Arena, copy_bytes, move_payload, resize_to, realloc}
use k4c.Arena.Stack.{IsValid, Stacks-member}
use k4c.Arena.Alloc.{Allocates, alloc-Pushes}

-- What a growth of the payload `ptr` of `n` bytes to at least `size` bytes does.
abbrev pub Grows : Arena → List (ℕ × ℕ) → ℕ → ℕ → ℕ → Ptr × Arena → Type 0
Grows a ps ptr n size (none, a') = a' ≡ a
Grows a ps ptr n size (some q, a') =
    (m : ℕ) × (size ≤ m)
    × IsValid a' ((q, m) ∷ ps)
    × ((i : ℕ) → i < n → a'.bytes (q + i) ≡ a.bytes (ptr + i))
    × ((at : ℕ) → at < a.buffer + a.offset → a'.bytes at ≡ a.bytes at)

-- What a reallocation of the payload `ptr` of `n` bytes comes to; `m` is the size rounded up to 16.
abbrev pub Resizes : Arena → List (ℕ × ℕ) → ℕ → ℕ → ℕ → Run (Ptr × Arena) → Type 0
Resizes a ps ptr n size run =
    ((size_max < size + 15) × (run ≡ done (none, a)))
    ⊎ ((m : ℕ) × (size ≤ m)
        × (m < size + 16)
        × (m % 16 ≡ 0)
        × (((m < n) × (run ≡ panic))
            ⊎ (((m ≡ n) × (run ≡ done (some ptr, a)))
                ⊎ ((n < m) × Returns run (Grows a ps ptr n m)))))

copied :
    (bytes : ℕ → ℕ) (target source n i : ℕ)
    → i < n
    → copy_bytes bytes target source n (target + i) ≡ bytes (source + i)
copied bytes target source n i h =
    let test : (leb target (target + i) && ltb (target + i) (target + n)) ≡ true = ground arith in
    let back : target + i - target ≡ i = omega arith in rw (test, back) refl

kept :
    (bytes : ℕ → ℕ) (target source n at : ℕ)
    → at < target
    → copy_bytes bytes target source n at ≡ bytes at
kept bytes target source n at h =
    let test : (leb target at && ltb at (target + n)) ≡ false = ground arith in rw test refl

module _ {a : Arena} (ptr n : ℕ) (xs ys : List (ℕ × ℕ)) (v : IsValid a (xs ++ (ptr, n) ∷ ys)) where
  move_payload-Grows :
      (size header : ℕ) (r : Ptr × Arena)
      → ptr ≡ header + 16
      → Allocates a (xs ++ (ptr, n) ∷ ys) size r
      → Grows a (xs ++ (ptr, n) ∷ ys) ptr n size (move_payload ptr header r)
  move_payload-Grows size header (none, a') e (inl (over, same)) =
      ap (λ (r : Ptr × Arena). r.1) same
  move_payload-Grows size header (some q, a') e (inl (over, same)) =
      absurd (let f = ap (λ (r : Ptr × Arena). r.0) same in cc)
  move_payload-Grows size header (none, a') e (inr (m, up, near, (same, full))) = same
  move_payload-Grows size header (some q, a') e (inr (m, up, near, (valid, multiple, at, bytes))) =
      let (header', e', start, inside, size') =
        Stacks-member a'.headers a'.buffer (a'.buffer + a'.offset) ptr n ((q, m) ∷ xs) ys
          valid.aligned valid.stacks in
      let same : header' ≡ header = omega (arith, e, e') in
      let count : a'.headers header ≡ n = ap a'.headers (sym same) ∙ size' in
      rw count (
        m,
        up,
        record {
          aligned = valid.aligned;
          small = valid.small;
          inside = valid.inside;
          stacks = valid.stacks;
        },
        (λ i h. copied a'.bytes q ptr n i h ∙ ap (λ (f : ℕ → ℕ). f (ptr + i)) bytes),
        λ i h. kept a'.bytes q ptr n i (omega (arith, at)) ∙ ap (λ (f : ℕ → ℕ). f i) bytes,
      )

  resize_to-Resizes :
      (size m : ℕ)
      → (size ≤ m) × (m < size + 16) × (m % 16 ≡ 0)
      → 0 < m
      → m ≤ size_max
      → Resizes a (xs ++ (ptr, n) ∷ ys) ptr n size (resize_to a ptr m)
  unfolding resize_to
  resize_to-Resizes size m (up, near, multiple) positive fits =
      let (header, e, start, inside, count) =
        Stacks-member a.headers a.buffer (a.buffer + a.offset) ptr n xs ys v.aligned v.stacks in
      let small = v.small in
      let within = v.inside in
      let at : sub_size ptr 16 ≡ header = omega (arith, e) in
      elim (Bool-cases (ltb m n)) [
        | inl below ↦ rw (at, count, below) (inr (m, up, near, multiple, inl (ground arith, refl)))
        | inr above ↦ elim (Bool-cases (m == n)) [
          | inl equal ↦
              rw (at, count, above, equal)
                (inr (m, up, near, multiple, inr (inl (ground arith, refl))))
          | inr differ ↦
              rw (at, count, above, differ)
                (inr (
                  m,
                  up,
                  near,
                  multiple,
                  inr (
                      inr (
                        ground arith,
                        and_then-Returns (alloc-Pushes v m positive fits)
                            λ r p. (_, refl, move_payload-Grows m header r e p),
                      )),
                ))
        ]
      ]

  -- On an arena in order, with the payload `ptr` of `n` bytes among those handed out, let `m` be a
  -- positive size rounded up to 16. Reallocating fails and changes nothing if `m` is no `size_t`; it is a
  -- failed assertion if `m` is below `n`, and gives the same payload if they are equal. Otherwise it
  -- returns: it fails and changes nothing, or gives a new payload of at least `m` bytes that starts
  -- with the `n` old ones; the arena stays in order and no older byte changes.
  pub realloc-Resizes :
      (size : ℕ)
      → 0 < size
      → size ≤ size_max
      → Resizes a (xs ++ (ptr, n) ∷ ys) ptr n size (realloc a (some ptr) size)
  unfolding realloc
  realloc-Resizes size positive fits =
      let nonzero : (size == 0) ≡ false = ground arith in
      rw nonzero
        (go (align_up_overflow size 16) (align_up_overflow-Rounds 4 (omega arith) size fits))
    where
      go :
          (r : Option ℕ)
          → Rounds 4 (omega arith) size r
          → Resizes a
              (xs ++ (ptr, n) ∷ ys)
              ptr
              n
              size
              (elim r [ none ↦ done (none, a) | some aligned ↦ resize_to a ptr aligned ])
      go none over = inl (over, refl)
      go (some m) (up, near, multiple, bound) =
          resize_to-Resizes size m (up, near, multiple) (omega (arith, up)) bound
