-- ===== src/Deque/Unroll.antt =====
-- The copies that `grow` makes: the elements in order from the first cell of the new block on.
use k4c.Base.{
  ℕ, zero, suc, ◌+◌, ◌-◌, ◌*◌, ◌%◌, ◌≤◌, ◌<◌, ◌≡◌, ◌≢◌, refl, sym, false, arith, ltb, ◌==◌,
  Bool-cases, inl, inr, ◌^◌, none, List, [], ◌∷◌, length, get_or, set, replicate, ap, ◌∙◌,
  get_or-set_self, get_or-set_ne, length-set, length-replicate,
}
use native.Mathlib.Nat.{mod-eq_of_lt}
use k4c.Size.{size_max}
use k4c.Allocator.{Ptr, Libc}
use k4c.Deque.{Deque, overwrite, slice, unroll, enlarged}
use k4c.Deque.Valid.{IsValid, IsPower, tabulate_congr, ring_index, item, contents}

module _ {E : Type 0} where
  length-overwrite :
      (cells : List E) (i : ℕ) (xs : List E) → length (overwrite cells i xs) ≡ length cells
  unfolding overwrite
  length-overwrite cells i [] = refl
  length-overwrite cells i (x ∷ xs) =
      length-overwrite (set cells i x) (i + 1) xs ∙ length-set cells i x

  get_or-overwrite_before :
      (cells : List E) (i j : ℕ) (xs : List E) (d : E)
      → j < i
      → get_or (overwrite cells i xs) j d ≡ get_or cells j d
  unfolding overwrite
  get_or-overwrite_before cells i j [] d h = refl
  get_or-overwrite_before cells i j (x ∷ xs) d h =
      get_or-overwrite_before (set cells i x) (i + 1) j xs d (omega arith)
      ∙ get_or-set_ne cells i j x d (omega arith)

  get_or-overwrite :
      (cells : List E) (i k : ℕ) (xs : List E) (d : E)
      → k < length xs
      → i + length xs ≤ length cells
      → get_or (overwrite cells i xs) (i + k) d ≡ get_or xs k d
  unfolding overwrite
  get_or-overwrite cells i k [] d h fits = absurd (omega arith)
  get_or-overwrite cells i zero (x ∷ xs) d h fits =
      let here : i + 0 ≡ i = omega arith in
      rw here (
        get_or-overwrite_before (set cells i x) (i + 1) i xs d (omega arith)
        ∙ get_or-set_self cells i x d (omega arith))
  get_or-overwrite cells i (suc k) (x ∷ xs) d h fits =
      let there : i + suc k ≡ i + 1 + k = omega arith in
      rw there (
        get_or-overwrite (set cells i x) (i + 1) k xs d (omega arith)
          (omega (arith, length-set cells i x)))

  length-slice :
      (cells : List E) (start count : ℕ)
      → start + count ≤ length cells
      → length (slice cells start count) ≡ count
  length-slice cells zero zero h = refl
  length-slice [] zero (suc n) h = absurd (omega arith)
  length-slice (x ∷ cells) zero (suc n) h = ap suc (length-slice cells zero n (omega arith))
  length-slice [] (suc s) n h = absurd (omega arith)
  length-slice (x ∷ cells) (suc s) n h = length-slice cells s n (omega arith)

  get_or-slice :
      (cells : List E) (start count k : ℕ) (d : E)
      → k < count
      → get_or (slice cells start count) k d ≡ get_or cells (start + k) d
  get_or-slice [] zero (suc n) k d h = refl
  get_or-slice (x ∷ cells) zero (suc n) zero d h = refl
  get_or-slice (x ∷ cells) zero (suc n) (suc k) d h =
      let next : 0 + suc k ≡ suc (0 + k) = omega arith in
      rw next (get_or-slice cells zero n k d (omega arith))
  get_or-slice cells start zero k d h = absurd (omega arith)
  get_or-slice [] (suc s) (suc n) k d h = refl
  get_or-slice (x ∷ cells) (suc s) (suc n) k d h =
      let next : suc s + k ≡ suc (s + k) = omega arith in
      rw next (get_or-slice cells s (suc n) k d h)

  -- a copy of `count` cells from `start` to the front of a block
  get_or-copied :
      (block cells : List E) (start count i : ℕ) (d : E)
      → start + count ≤ length cells
      → count ≤ length block
      → i < count
      → get_or (overwrite block 0 (slice cells start count)) i d ≡ get_or cells (start + i) d
  get_or-copied block cells start count i d fits room h =
      let size = length-slice cells start count fits in
      let from_zero : i ≡ 0 + i = omega arith in
      ap (λ k. get_or (overwrite block 0 (slice cells start count)) k d) from_zero
      ∙ get_or-overwrite block 0 i (slice cells start count) d (omega arith) (omega arith)
      ∙ get_or-slice cells start count i d h

module _ {W E : Type 0} (libc : Libc W) (junk : E) where
  length-unroll : (d : Deque W E) (n : ℕ) → length (unroll libc junk d n) ≡ n
  unfolding unroll
  length-unroll d n = ground (
    arith,
    length-replicate n junk,
    length-overwrite (replicate n junk) 0 (slice d.cells d.head d.size),
    length-overwrite (replicate n junk) 0 (slice d.cells d.head (d.capacity - d.head)),
    length-overwrite (overwrite (replicate n junk) 0 (slice d.cells d.head (d.capacity - d.head)))
        (d.capacity - d.head) (slice d.cells 0 d.tail),
  )

  -- the `i`th cell of the new block holds the `i`th element
  get_or-unroll :
      {d : Deque W E} (n i : ℕ)
      → IsValid d
      → d.capacity ≤ n
      → i < d.size
      → get_or (unroll libc junk d n) i junk ≡ item junk d i
  unfolding unroll
  get_or-unroll {d} n i v larger h =
      let c = d.capacity in
      let block = replicate n junk in
      let count = c - d.head in
      let first = overwrite block 0 (slice d.cells d.head count) in
      let space : length block ≡ n = length-replicate n junk in
      let nonempty : (d.size == 0) ≡ false = ground arith in
      let at = ring_index d.head i c v.head_in (omega (arith, v.within)) in
      let end = ring_index d.head d.size c v.head_in v.within in
      let fits : d.head + count ≤ length d.cells = omega (arith, v.stored, v.head_in) in
      let copied = get_or-copied block d.cells d.head count i junk fits (omega arith) in
      let direct : i < count → (d.head + i) % c ≡ d.head + i = λ p. ground (arith, at) in
      let plain : i < count → get_or first i junk ≡ item junk d i =
        λ p. copied p ∙ ap (λ k. get_or d.cells k junk) (sym (direct p)) in
      rw nonempty (elim (Bool-cases (ltb d.head d.tail)) [
        | inl e ↦
            let near : (d.head + i) % c ≡ d.head + i = ground (arith, at, end, v.tail_at) in
            rw e (
              get_or-copied block d.cells d.head d.size i junk
                (ground (arith, v.stored, end, v.tail_at)) (omega (arith, v.within)) h
              ∙ ap (λ k. get_or d.cells k junk) (sym near))
        | inr e ↦ rw e (elim (Bool-cases (ltb 0 d.tail)) [
          | inr f ↦ rw f (plain (ground (arith, end, v.tail_at)))
          | inl f ↦ rw f (elim (Bool-cases (ltb i count)) [
            | inl p ↦
                get_or-overwrite_before first count i (slice d.cells 0 d.tail) junk (ground arith)
                ∙ plain (ground arith)
            | inr p ↦
                wrapped first (i - count) (ground (arith, end, v.tail_at)) (ground arith)
                  (ground (arith, length-overwrite block 0 (slice d.cells d.head count)))
          ])
        ])
      ])
    where
      wrapped :
          (first : List E) (k : ℕ)
          → k < d.tail
          → d.capacity - d.head + k ≡ i
          → d.capacity - d.head + d.tail ≤ length first
          → get_or (overwrite first (d.capacity - d.head) (slice d.cells 0 d.tail)) i junk
            ≡ item junk d i
      wrapped first k p e room =
          let count = d.capacity - d.head in
          let src = slice d.cells 0 d.tail in
          let end = ring_index d.head d.size d.capacity v.head_in v.within in
          let at = ring_index d.head i d.capacity v.head_in (omega (arith, v.within)) in
          let tail_in : d.tail ≤ d.capacity = ground (arith, end, v.tail_at) in
          let size = length-slice d.cells 0 d.tail (omega (arith, v.stored)) in
          let same : 0 + k ≡ (d.head + i) % d.capacity = ground (arith, at) in
          ap (λ t. get_or (overwrite first count src) t junk) (sym e)
          ∙ get_or-overwrite first count k src junk (omega arith) (omega arith)
          ∙ get_or-slice d.cells 0 d.tail k junk p
          ∙ ap (λ t. get_or d.cells t junk) same

module _ {W E : Type 0} (libc : Libc W) (junk : E) where
  -- a grown deque stands for the same list
  pub contents-enlarged :
      {d : Deque W E} (p : Ptr) (n : ℕ)
      → IsValid d
      → d.capacity ≤ n
      → contents junk (enlarged libc junk d p n) ≡ contents junk d
  contents-enlarged {d} p n v larger = tabulate_congr _ _ d.size λ i h.
      let same : (0 + i) % n ≡ i =
        (let e : 0 + i ≡ i = omega arith in rw e (mod-eq_of_lt (omega (arith, v.within)))) in
      ap (λ k. get_or (unroll libc junk d n) k junk) same ∙ get_or-unroll libc junk n i v larger h

  pub enlarged-IsValid :
      {d : Deque W E} (p : Ptr) (n : ℕ)
      → IsValid d
      → IsPower n
      → d.size < n
      → n ≤ 2 ^ 63
      → n * d.elem_size ≤ size_max
      → p ≢ none
      → IsValid (enlarged libc junk d p n)
  enlarged-IsValid {d} p n v power free small bytes nonnull = record {
    power = power;
    room = omega arith;
    small = small;
    stored = length-unroll libc junk d n;
    within = omega arith;
    head_in = omega arith;
    tail_at = (let e : 0 + d.size ≡ d.size = omega arith in rw e (sym (mod-eq_of_lt free)));
    sized = v.sized;
    bytes = bytes;
    buffer = nonnull;
    address = v.address;
  }
