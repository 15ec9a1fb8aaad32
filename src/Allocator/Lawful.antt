-- ===== src/Allocator/Lawful.antt =====
-- What the containers ask of an allocator: its calls return, and its live blocks are counted.
use k4c.Base.{ℕ, ◌+◌, ◌-◌, ◌<◌, ◌≡◌, ◌≢◌, refl, ◌⊎◌, inl, inr, Option, none, some, Returns}
use k4c.Status.{Status, ok, no_memory}
use k4c.Allocator.{Ptr, Libc, Allocator, allocator_copy, alloc, resize, dealloc}

-- how a call for a new block may end, and what it does to the number of live blocks
abbrev pub Obtains : ℕ → ℕ → Status × Ptr → Type 0
Obtains before after (st, some p) = (st ≡ ok) × (after ≡ before + 1)
Obtains before after (st, none) = (st ≡ no_memory) × (after ≡ before)

-- how a call that moves a block may end
abbrev pub Moves : Status × Ptr → Type 0
Moves (st, some p) = st ≡ ok
Moves (st, none) = st ≡ no_memory

pub Moves-cases :
    (r : Status × Ptr) → Moves r → ((r.0 ≡ ok) × ((p : ℕ) × (r.1 ≡ some p))) ⊎ (r.0 ≡ no_memory)
Moves-cases (st, some p) e = inl (e, (p, refl))
Moves-cases (st, none) e = inr e

pub Obtains-cases :
    (before after : ℕ) (r : Status × Ptr)
    → Obtains before after r
    → ((r.0 ≡ ok) × ((p : ℕ) × (r.1 ≡ some p)) × (after ≡ before + 1))
      ⊎ ((r.0 ≡ no_memory) × (after ≡ before))
Obtains-cases before after (st, some p) (e, f) = inl (e, (p, refl), f)
Obtains-cases before after (st, none) (e, f) = inr (e, f)

-- `count` is the number of live blocks; new blocks are followed while it is below `limit`.
pub record Lawful {W : Type 0} (libc : Libc W) (a : Option (Allocator W)) (count : W → ℕ)
    (limit : ℕ) : Type 0 where
  pub alloc_law :
      (size : ℕ) (w : W)
      → 0 < size
      → count w < limit
      → Returns (alloc libc a size w) (λ r. Obtains (count w) (count r.1) r.0)
  pub resize_law :
      (ptr : Ptr) (size : ℕ) (w : W)
      → 0 < size
      → ptr ≢ none
      → Returns (resize libc a ptr size w) (λ r. Moves r.0 × (count r.1 ≡ count w))
  pub dealloc_law :
      (ptr : Ptr) (w : W)
      → ptr ≢ none
      → Returns (dealloc libc a ptr w) (λ r. count r.1 ≡ count w - 1)

module _ {W : Type 0} (libc : Libc W) where
  -- the copy that an owner keeps acts as the allocator that it was given, NULL included
  allocator_copy-alloc :
      (a : Option (Allocator W)) (n : ℕ) (w : W)
      → alloc libc (some (allocator_copy a)) n w ≡ alloc libc a n w
  unfolding allocator_copy alloc
  allocator_copy-alloc none n w = refl
  allocator_copy-alloc (some a) n w = refl

  allocator_copy-resize :
      (a : Option (Allocator W)) (p : Ptr) (n : ℕ) (w : W)
      → resize libc (some (allocator_copy a)) p n w ≡ resize libc a p n w
  unfolding allocator_copy resize
  allocator_copy-resize none p n w = refl
  allocator_copy-resize (some a) p n w = refl

  allocator_copy-dealloc :
      (a : Option (Allocator W)) (p : Ptr) (w : W)
      → dealloc libc (some (allocator_copy a)) p w ≡ dealloc libc a p w
  unfolding allocator_copy dealloc
  allocator_copy-dealloc none p w = refl
  allocator_copy-dealloc (some a) p w = refl

  pub copy_Lawful :
      {a : Option (Allocator W)} {count : W → ℕ} {limit : ℕ}
      → Lawful libc a count limit
      → Lawful libc (some (allocator_copy a)) count limit
  copy_Lawful {a} l = record {
    alloc_law = λ n w p q. rw (allocator_copy-alloc a n w) (l.alloc_law n w p q);
    resize_law = λ ptr n w p q. rw (allocator_copy-resize a ptr n w) (l.resize_law ptr n w p q);
    dealloc_law = λ ptr w p. rw (allocator_copy-dealloc a ptr w) (l.dealloc_law ptr w p);
  }
