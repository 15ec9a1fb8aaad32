-- ===== src/TestAllocator/Tests.antt =====
-- The test allocator at work.
use k4c.Base.{◌≡◌, refl, none, some, done, true, and_then}
use k4c.TestAllocator.{init, is_clean, test_alloc, test_realloc}
use k4c.TestAllocator.Fixture.{bump, start}

realloc_zero :
    and_then (test_realloc bump (some 64) 0 start) (λ r. done r.1.0.outstanding_allocations)
    ≡ done 1
unfolding test_realloc
realloc_zero = refl

-- a counter at zero makes the next request fail, and counts the failure
fails_on_demand :
    test_alloc bump 40 (record (init bump none).1 { fail_after = 0 }, 16)
    ≡ done (none, (record (init bump none).1 { fail_after = 0; failed_allocations = 1 }, 16))
unfolding test_alloc init
fails_on_demand = refl

is_clean-init : is_clean (init bump none).1 ≡ true
unfolding is_clean init
is_clean-init = refl
