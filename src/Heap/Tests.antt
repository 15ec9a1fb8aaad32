-- ===== src/Heap/Tests.antt =====
-- A heap of 512 bytes at work, a libc for creating one, and the theorems there.
use k4c.Base.{
  ℕ, ◌+◌, ◌-◌, ◌%◌, ◌≤◌, ◌==◌, leb, if◌then◌else◌, none, inl, inr, Bool-cases, ◌≡◌, refl, arith,
  true, false, some, [], ◌∷◌, done, Returns,
}
use k4c.Status.{ok, no_memory}
use k4c.Allocator
use k4c.Allocator.{Libc, resize}
use k4c.Allocator.Lawful.{Lawful}
use k4c.Heap.Owner.{create}
use k4c.Heap.Lifecycle.{CreatesHeap, create-CreatesHeap}
use k4c.Heap.{Block, Heap, first_fit, alloc, dealloc, available}
use k4c.Size.{size_max, align_up_overflow}
use k4c.Heap.Resize.{realloc}
use k4c.Heap.Tiling.{IsValid, live}
use k4c.Heap.Alloc.{Allocates, alloc-Allocates}
use k4c.Heap.Dealloc.{dealloc-Releases}

abbrev block : ℕ → ℕ → Block
block address size = record { address = address; size = size; is_free = false }

abbrev free_block : ℕ → ℕ → Block
free_block address size = record { address = address; size = size; is_free = true }

-- two blocks in use around a free one, and free bytes at the end
abbrev heap : Heap
heap = record {
  buffer = 1024;
  capacity = 512;
  blocks = block 1024 64 ∷ free_block 1120 32 ∷ block 1184 48 ∷ free_block 1264 240 ∷ [];
  bytes = λ address. address;
}

heap-IsValid : IsValid heap
heap-IsValid = record {
  aligned = omega arith;
  small = omega arith;
  tiles = (
    refl,
    refl,
    omega arith,
    (refl, refl, omega arith, (refl, refl, omega arith, (refl, refl, omega arith, omega arith))),
  );
}

available_runs : available heap ≡ 272
unfolding available
available_runs = refl

-- the request passes the free block that is too small
alloc_runs :
    first_fit 80 heap.blocks
    ≡ some (
      1296,
      block 1024 64 ∷ free_block 1120 32 ∷ block 1184 48 ∷ block 1264 80 ∷ free_block 1376 128 ∷ [],
    )
unfolding first_fit
alloc_runs = refl

-- a freed block joins both neighbours
dealloc_runs :
    dealloc heap (some 1216)
    ≡ done (record heap { blocks = block 1024 64 ∷ free_block 1120 384 ∷ [] })
unfolding dealloc
dealloc_runs = refl

alloc-Allocates_example : Returns (alloc heap 70) (Allocates heap 70)
alloc-Allocates_example = alloc-Allocates heap-IsValid 70 (omega arith) (omega arith)

dealloc-Releases_example :
    Returns (dealloc heap (some 1216)) (λ h'. IsValid h' × (live h'.blocks ≡ (1056, 64) ∷ []))
dealloc-Releases_example =
    dealloc-Releases heap-IsValid (block 1024 64 ∷ free_block 1120 32 ∷ []) (block 1184 48)
      (free_block 1264 240 ∷ []) refl refl

-- a block grows into the free one behind it
realloc_runs :
    realloc heap (some 1056) 90
    ≡ done (
      some 1056,
      record heap { blocks = block 1024 128 ∷ block 1184 48 ∷ free_block 1264 240 ∷ [] },
    )
unfolding realloc align_up_overflow
realloc_runs = refl

-- A libc with one block to hand out, again and again; the state counts its live blocks.
abbrev libc : Libc ℕ
libc = record {
  malloc = λ n w. if leb n 4096 then done (some 1024, w + 1) else done (none, w);
  realloc = λ p n w. done (none, w);
  free = λ p w. done (tt, w - 1);
}

libc_allocates :
    (n w : ℕ) → leb n 4096 ≡ true → Allocator.alloc libc none n w ≡ done ((ok, some 1024), w + 1)
unfolding Allocator.alloc
libc_allocates n w small = rw small refl

libc_refuses :
    (n w : ℕ) → leb n 4096 ≡ false → Allocator.alloc libc none n w ≡ done ((no_memory, none), w)
unfolding Allocator.alloc
libc_refuses n w large = rw large refl

libc-Lawful : Lawful libc none (λ w. w) size_max
unfolding resize Allocator.dealloc
libc-Lawful = record {
  alloc_law = λ n w p q. elim (Bool-cases (leb n 4096)) [
    | inl small ↦ rw (libc_allocates n w small) (_, refl, (refl, refl))
    | inr large ↦ rw (libc_refuses n w large) (_, refl, (refl, refl))
  ];
  resize_law =
      λ ptr n w p q. let e : (n == 0) ≡ false = ground arith in rw e (_, refl, (refl, refl));
  dealloc_law = λ ptr w p. (_, refl, refl);
}

libc_placed :
    (size p w w' : ℕ)
    → Allocator.alloc libc none size w ≡ done ((ok, some p), w')
    → (p % 16 ≡ 0) × (p + size ≤ size_max)
libc_placed size p w w' run = elim (Bool-cases (leb size 4096)) [
  | inl small ↦ let e : p ≡ 1024 = cc (libc_allocates size w small) in ground (arith, e)
  | inr large ↦ absurd (cc (libc_refuses size w large))
]

create-CreatesHeap_example :
    Returns
      (create libc (λ address. 0) 100 0)
      (λ r. CreatesHeap libc (λ address. 0) (λ w. w) size_max libc-Lawful libc_placed 100 0 r.1 r.0)
create-CreatesHeap_example =
    create-CreatesHeap libc (λ address. 0) (λ w. w) size_max libc-Lawful libc_placed 100 0
      (omega arith) (omega arith) (omega arith)
