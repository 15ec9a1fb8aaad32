-- ===== src/Arena/Tests.antt =====
-- An arena of 256 bytes at work, and its theorems there.
use k4c.Base.{ℕ, ◌≡◌, ◌==◌, if◌then◌else◌, refl, arith, some, none, List, [], ◌∷◌, Returns}
use k4c.Size.{align_up, size_max}
use k4c.Platform.{memory_align, sizeof_arena_alloc_header}
use k4c.Arena
use k4c.Arena.{Arena, header_size, bump_alloc, realloc, reset, available, used}
use k4c.Allocator.{Ptr, Libc, alloc, resize, dealloc}
use k4c.Allocator.Lawful.{Lawful, Moves}
use k4c.Base.{done, ◌+◌, ◌-◌, ◌*◌, ◌<◌, ◌≢◌, false}
use k4c.Arena.Stack.{IsValid}
use k4c.Arena.Resize.{Resizes, realloc-Resizes}

-- two payloads, of 32 and of 16 bytes
abbrev arena : Arena
arena = record {
  buffer = 1024;
  capacity = 256;
  offset = 80;
  headers = λ at. if at == 1024 then 32 else 16;
  bytes = λ at. at;
}

abbrev payloads : List (ℕ × ℕ)
payloads = (1088, 16) ∷ (1040, 32) ∷ []

arena-IsValid : IsValid arena payloads
arena-IsValid = record {
  aligned = omega arith;
  small = omega arith;
  inside = omega arith;
  stacks = (
    1072,
    refl,
    refl,
    refl,
    refl,
    omega arith,
    (1024, refl, refl, refl, refl, omega arith, omega arith),
  );
}

header_size_runs : align_up sizeof_arena_alloc_header memory_align ≡ header_size
unfolding align_up
header_size_runs = refl

used_runs : used arena ≡ 80
unfolding used
used_runs = refl

bump_alloc_runs : (bump_alloc arena 176).0 ≡ none
unfolding bump_alloc
bump_alloc_runs = refl

-- the newest payload grows from 16 to 48 bytes, by a move
realloc-Resizes_example : Resizes arena payloads 1088 16 40 (realloc arena (some 1088) 40)
realloc-Resizes_example =
    realloc-Resizes 1088 16 [] ((1040, 32) ∷ []) arena-IsValid 40 (omega arith) (omega arith)

-- a libc whose state is the number of live blocks
abbrev counter : Libc ℕ
counter = record {
  malloc = λ n l. done (some (1024 + 512 * l), l + 1);
  realloc = λ p n l. done (p, l);
  free = λ p l. done (tt, l - 1);
}

counter-resize :
    (p : Ptr) (n l : ℕ)
    → 0 < n
    → p ≢ none
    → Returns (resize counter none p n l) (λ r. Moves r.0 × (r.1 ≡ l))
unfolding resize
counter-resize none n l positive ne = absurd (ne refl)
counter-resize (some p) n l positive ne =
    let nonzero : (n == 0) ≡ false = ground arith in rw nonzero (_, refl, (refl, refl))

counter-Lawful : Lawful counter none (λ l. l) size_max
unfolding alloc dealloc
counter-Lawful = record {
  alloc_law = λ n l positive room. (_, refl, (refl, refl));
  resize_law = counter-resize;
  dealloc_law = λ p l ne. (_, refl, refl);
}
