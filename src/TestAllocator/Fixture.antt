-- ===== src/TestAllocator/Fixture.antt =====
-- A libc that hands out addresses 16 apart, and the test allocator over it, for the tests.
use k4c.Base.{ℕ, ◌+◌, refl, none, some, done}
use k4c.Size.{size_max}
use k4c.Allocator.{Libc, Allocator}
use k4c.Allocator.Lawful.{Lawful}
use k4c.TestAllocator.{Machine, test_vtable, init, beside, no_failure}
use k4c.TestAllocator.Laws.{Responds, init-Lawful}

-- the state is the next address
abbrev pub bump : Libc ℕ
bump = record {
  malloc = λ n l. done (some l, l + 16);
  realloc = λ p n l. done (some l, l + 16);
  free = λ p l. done (tt, l);
}

pub bump-Responds : Responds bump
bump-Responds = record {
  malloc_returns = λ n l. (_, refl, tt);
  realloc_returns = λ p n l. (_, refl, tt);
  free_returns = λ p l. (_, refl, tt);
}

-- what `init` gives, with two blocks handed out since
abbrev pub owner : Allocator (Machine ℕ)
owner = record { ctx = none; features = 3; vtable = some (test_vtable bump) }

abbrev pub start : Machine ℕ
start = (
  record {
    alloc_count = 2;
    realloc_count = 0;
    dealloc_count = 0;
    outstanding_allocations = 2;
    failed_allocations = 0;
    fail_after = no_failure;
  },
  96,
)

abbrev pub live : Machine ℕ → ℕ
live m = m.0.outstanding_allocations

pub owner-Lawful : Lawful (beside bump) (some owner) live size_max
unfolding init
owner-Lawful = init-Lawful bump bump-Responds none
