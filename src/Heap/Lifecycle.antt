-- ===== src/Heap/Lifecycle.antt =====
-- A heap is created with all of its blocks or none, and gives them all back.
use k4c.Base.{
  ℕ, ◌+◌, ◌-◌, ◌%◌, ◌≤◌, ◌<◌, ◌≡◌, ◌≢◌, refl, ap, ◌∙◌, ◌⊎◌, inl, inr, arith, leb, false, Option,
  none, some, [], done, Returns, and_then-Returns,
}
use k4c.Platform.{sizeof_heap}
use k4c.Size.{size_max, align_up_overflow}
use k4c.Size.Align.{Rounds, align_up_overflow-Rounds}
use k4c.Status.{Status, ok, is_ok}
use k4c.Allocator.{Ptr, Libc, alloc}
use k4c.Allocator.Lawful.{Lawful, Obtains}
use k4c.DoublyLinkedList.{DoublyLinkedList}
use k4c.DoublyLinkedList.Lifecycle.{create-Creates, destroy-dealloc, Creates}
use k4c.Heap.Tiling.{IsValid, live}
use k4c.Heap.Owner.{OwnedHeap, fresh_heap, create_list, create_buffer, create, destroy}

fresh_heap-IsValid :
    (junk : ℕ → ℕ) (buffer capacity : ℕ)
    → buffer % 16 ≡ 0
    → buffer + capacity ≤ size_max
    → capacity % 16 ≡ 0
    → 48 < capacity
    → IsValid (fresh_heap junk buffer capacity)
fresh_heap-IsValid junk buffer capacity aligned small multiple room = record {
  aligned = aligned;
  small = small;
  tiles = (refl, omega arith, omega arith, omega arith);
}

module _ {W : Type 0} (libc : Libc W) (junk : ℕ → ℕ) (count : W → ℕ) (limit : ℕ)
    (lawful : Lawful libc none count limit)
    (placed : (size p : ℕ) (w : W) (w' : W)
      → alloc libc none size w ≡ done ((ok, some p), w')
      → (p % 16 ≡ 0) × (p + size ≤ size_max)) where
  -- a valid heap without a block in use, in three new blocks, or an error and no new block
  abbrev pub CreatesHeap : ℕ → ℕ → ℕ → Status × Option (OwnedHeap W) → Type 0
  CreatesHeap capacity before after (st, none) = (is_ok st ≡ false) × (after ≡ before)
  CreatesHeap capacity before after (st, some h) =
      (st ≡ ok)
      × IsValid h.heap
      × (live h.heap.blocks ≡ [])
      × (capacity ≤ h.heap.capacity)
      × ((h.address ≢ none) × (h.buffer ≢ none) × (h.list.address ≢ none))
      × Lawful libc (some h.list.allocator) count limit
      × (after ≡ before + 3)

  Creates-cases :
      {before after : ℕ} (r : Status × Option (DoublyLinkedList W))
      → Creates libc count limit before after r
      → ((r.1 ≡ none) × (is_ok r.0 ≡ false) × (after ≡ before))
        ⊎ ((list : DoublyLinkedList W) × (r.1 ≡ some list)
            × (list.address ≢ none)
            × Lawful libc (some list.allocator) count limit
            × (after ≡ before + 1))
  Creates-cases (st, none) (error, same) = inl (refl, error, same)
  Creates-cases (st, some list) (good, empty, at, own, more) = inr (list, refl, at, own, more)

  create_list-CreatesHeap :
      (wanted before capacity : ℕ) (address : Ptr) (p : ℕ) (w : W)
      → address ≢ none
      → IsValid (fresh_heap junk p capacity)
      → wanted ≤ capacity
      → count w ≡ before + 2
      → before + 2 < limit
      → Returns
          (create_list libc junk address (some p) capacity w)
          λ r. CreatesHeap wanted before (count r.1) r.0
  unfolding create_list
  create_list-CreatesHeap wanted before capacity address p w h valid enough c room =
      and_then-Returns (create-Creates libc count limit none w lawful (omega (arith, c))) λ r o.
        elim (Creates-cases r.0 o) [
          | inl (none_got, error, same) ↦
              let (d, freed, less) = lawful.dealloc_law (some p) r.1 (λ e. cc) in
              let (d', freed', less') = lawful.dealloc_law address d.1 h in
              rw (none_got, freed, freed') (_, refl, (error, omega (arith, less, less', same, c)))
          | inr (list, got, at, own, more) ↦ rw got (
            _,
            refl,
            (refl, valid, refl, enough, (h, (λ e. cc), at), own, omega (arith, more, c)),
          )
        ]

  -- the second half, once the struct is there
  create_buffer-CreatesHeap :
      (wanted before capacity : ℕ) (address : Ptr) (w : W)
      → address ≢ none
      → capacity % 16 ≡ 0
      → 48 < capacity
      → wanted ≤ capacity
      → count w ≡ before + 1
      → before + 2 < limit
      → Returns
          (create_buffer libc junk address capacity w)
          λ r. CreatesHeap wanted before (count r.1) r.0
  unfolding create_buffer
  create_buffer-CreatesHeap wanted before capacity address w h multiple large enough c room =
      let ((got, w'), run, outcome) =
        lawful.alloc_law capacity w (omega arith) (omega (arith, c)) in
      from_buffer got w' run outcome
    where
      from_buffer :
          (got : Status × Ptr) (w' : W)
          → alloc libc none capacity w ≡ done (got, w')
          → Obtains (count w) (count w') got
          → Returns
              (create_buffer libc junk address capacity w)
              λ r. CreatesHeap wanted before (count r.1) r.0
      from_buffer (st, none) w' run (error, same) =
          let (d, freed, less) = lawful.dealloc_law address w' h in
          rw (run, error, freed) (_, refl, (refl, omega (arith, less, same, c)))
      from_buffer (st, some p) w' run (good, more) =
          let exact : alloc libc none capacity w ≡ done ((ok, some p), w') =
            run ∙ ap (λ s. done ((s, some p), w')) good in
          let (aligned, small) = placed capacity p w w' exact in
          rw exact (
            create_list-CreatesHeap wanted before capacity address p w' h
              (fresh_heap-IsValid junk p capacity aligned small multiple large) enough
              (omega (arith, more, c)) room)

  -- Over a libc that keeps the allocator's contract, with room for three more blocks under its limit,
  -- and whose blocks are aligned and end within the address space: for a `size_t` capacity that the
  -- code accepts, `create` returns. Either it gives a valid heap of at least that capacity with no
  -- block in use, in three new blocks and with a list whose allocator keeps the contract, or an error
  -- and no new block.
  pub create-CreatesHeap :
      (capacity : ℕ) (w : W)
      → 48 < capacity
      → capacity ≤ size_max
      → count w + 2 < limit
      → Returns (create libc junk capacity w) λ r. CreatesHeap capacity (count w) (count r.1) r.0
  unfolding create
  create-CreatesHeap capacity w large small room =
      from_rounded (align_up_overflow capacity 16) refl
        (align_up_overflow-Rounds 4 (omega arith) capacity small)
    where
      accepted : leb capacity 48 ≡ false
      accepted = ground arith

      from_struct :
          (aligned : ℕ)
          → align_up_overflow capacity 16 ≡ some aligned
          → aligned % 16 ≡ 0
          → capacity ≤ aligned
          → (got : Status × Ptr) (w' : W) → alloc libc none sizeof_heap w ≡ done (got, w')
          → Obtains (count w) (count w') got
          → Returns
              (create libc junk capacity w)
              λ r. CreatesHeap capacity (count w) (count r.1) r.0
      from_struct aligned e multiple enough (st, none) w' run (error, same) =
          rw (accepted, e, run, error) (_, refl, (refl, same))
      from_struct aligned e multiple enough (st, some p) w' run (good, more) =
          rw (accepted, e, run, good)
            (create_buffer-CreatesHeap capacity (count w) aligned (some p) w' (λ e. cc) multiple
              (omega arith) enough more room)

      from_rounded :
          (o : Option ℕ)
          → align_up_overflow capacity 16 ≡ o
          → Rounds 4 (omega arith) capacity o
          → Returns
              (create libc junk capacity w)
              λ r. CreatesHeap capacity (count w) (count r.1) r.0
      from_rounded none e h = rw (accepted, e) (_, refl, (refl, refl))
      from_rounded (some aligned) e (enough, _, multiple, _) =
          let ((got, w'), run, outcome) =
            lawful.alloc_law sizeof_heap w (omega arith) (omega arith) in
          from_struct aligned e multiple enough got w' run outcome

  -- `destroy` of a heap that was created gives its three blocks back
  pub destroy-count :
      (h : OwnedHeap W) (w : W)
      → (h.address ≢ none) × (h.buffer ≢ none) × (h.list.address ≢ none)
      → Lawful libc (some h.list.allocator) count limit
      → Returns (destroy libc h w) (λ r. count r.1 ≡ count w - 3)
  unfolding destroy
  destroy-count h w (at, buffer_at, list_at) own =
      and_then-Returns (destroy-dealloc libc count limit h.list w own list_at) λ r c.
        and_then-Returns (lawful.dealloc_law h.buffer r.1 buffer_at) λ s d.
          let (t, run, e) = lawful.dealloc_law h.address s.1 at in (t, run, omega (arith, c, d, e))
