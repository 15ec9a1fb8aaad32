-- ===== src/Arena/Lifecycle.antt =====
-- `k4c_arena_create` and `k4c_arena_destroy`, over libc: the arena takes no allocator. What a fresh
-- buffer holds is the parameter `junk`. The struct's address stands beside the arena.
use k4c.Base.{
  ℕ, ◌+◌, ◌%◌, ◌≤◌, ◌<◌, ◌≡◌, ◌≢◌, refl, inl, inr, arith, ◌==◌, if◌then◌else◌, true, false, Option,
  none, some, Prog, pure, abort, ◌>>=◌, ◌>>◌, Returns, and_then-Returns,
}
use k4c.Size.{size_max, align_up_overflow}
use k4c.Size.Align.{Rounds, align_up_overflow-Rounds}
use k4c.Platform.{memory_align, sizeof_arena}
use k4c.Status.{Status, ok, overflow, is_ok}
use k4c.Allocator.{Ptr, Libc, alloc, dealloc}
use k4c.Allocator.Lawful.{Lawful, Obtains-cases}
use k4c.Arena.{Arena}

module _ {W : Type 0} (libc : Libc W) (junk : ℕ → ℕ) where
  -- the stores at the end of `k4c_arena_create`; a NULL buffer would fail the assertions of every
  -- other operation
  abbrev fresh : ℕ → Ptr → Ptr → Prog W (Status × Option (Ptr × Arena))
  fresh capacity address none = abort
  fresh capacity address (some buffer) = pure (
    ok,
    some (
      address,
      record { buffer = buffer; capacity = capacity; offset = 0; headers = junk; bytes = junk },
    ),
  )

  -- `k4c_arena_create`, from the rounded capacity on
  unfoldable pub create_rounded : ℕ → Prog W (Status × Option (Ptr × Arena))
  create_rounded capacity = do
    (st, address) ← alloc libc none sizeof_arena
    elim (is_ok st) [
      | false ↦ pure (st, none)
      | true ↦ do
        (buffer_st, buffer) ← alloc libc none capacity
        elim (is_ok buffer_st) [
          | false ↦ do dealloc libc none address; pure (buffer_st, none)
          | true ↦ fresh capacity address buffer
        ]
    ]

  -- `k4c_arena_create`, with the answer of the rounding
  abbrev create_checked : Option ℕ → Prog W (Status × Option (Ptr × Arena))
  create_checked none = pure (overflow, none)
  create_checked (some rounded) = create_rounded rounded

  -- `k4c_arena_create`
  unfoldable pub create : ℕ → Prog W (Status × Option (Ptr × Arena))
  unfolding create_rounded
  create capacity =
      if capacity == 0 then abort else create_checked (align_up_overflow capacity memory_align)

  -- `k4c_arena_destroy`
  unfoldable pub destroy : Ptr → Arena → Prog W (Unit {0})
  destroy address a = do dealloc libc none (some a.buffer); dealloc libc none address

  module _ (count : W → ℕ) (limit : ℕ) where
    -- A creation yields an empty arena in two new blocks, or an error and no new block.
    abbrev pub Creates : ℕ → ℕ → ℕ → Status × Option (Ptr × Arena) → Type 0
    Creates capacity before after (st, some (address, a)) =
        (st ≡ ok)
        × (address ≢ none)
        × (capacity ≤ a.capacity)
        × (a.capacity % 16 ≡ 0)
        × (a.offset ≡ 0)
        × (after ≡ before + 2)
    Creates capacity before after (st, none) = (is_ok st ≡ false) × (after ≡ before)

    create_rounded-Creates :
        (capacity rounded : ℕ) (w : W)
        → Lawful libc none count limit
        → 0 < rounded
        → capacity ≤ rounded
        → rounded % 16 ≡ 0
        → count w + 1 < limit
        → Returns (create_rounded rounded w) (λ r. Creates capacity (count w) (count r.1) r.0)
    unfolding create_rounded
    create_rounded-Creates capacity rounded w lawful positive up multiple room =
        and_then-Returns (lawful.alloc_law sizeof_arena w (omega arith) (omega arith)) λ r o.
          elim (Obtains-cases (count w) (count r.1) r.0 o) [
            | inr (st, c) ↦ rw st (_, refl, (rw st refl, c))
            | inl (st, (p, ptr), c) ↦ rw st (
                and_then-Returns (lawful.alloc_law rounded r.1 positive (omega arith)) λ s q.
                  elim (Obtains-cases (count r.1) (count s.1) s.0 q) [
                    | inl (st', (b, buffer), c') ↦
                        rw (st', buffer)
                          (_, refl, (refl, (λ e. cc), up, multiple, refl, omega arith))
                    | inr (st', c') ↦ rw st' (
                        and_then-Returns (lawful.dealloc_law r.0.1 s.1 (λ e. cc))
                          λ d f. (_, refl, (rw st' refl, omega arith)))
                  ])
          ]

    -- With a positive capacity and a libc that keeps the allocator contract, creating an arena
    -- returns: either an arena with nothing handed out, of a capacity that is a multiple of 16
    -- and not below the one asked for, in two new blocks, or an error with every block given back.
    pub create_lem :
        (capacity : ℕ) (w : W)
        → Lawful libc none count limit
        → 0 < capacity
        → capacity ≤ size_max
        → count w + 1 < limit
        → Returns (create capacity w) (λ r. Creates capacity (count w) (count r.1) r.0)
    unfolding create
    create_lem capacity w lawful positive fits room =
        let nonzero : (capacity == 0) ≡ false = ground arith in
        rw nonzero (
          go (align_up_overflow capacity 16)
            (align_up_overflow-Rounds 4 (omega arith) capacity fits))
      where
        go :
            (r : Option ℕ)
            → Rounds 4 (omega arith) capacity r
            → Returns (create_checked r w) (λ r. Creates capacity (count w) (count r.1) r.0)
        go none over = (_, refl, (refl, refl))
        go (some rounded) (up, near, multiple, bound) =
            create_rounded-Creates capacity rounded w lawful (omega (arith, up)) up multiple room
