-- ===== src/TestAllocator/Requests.antt =====
-- What the operations of the test allocator do to its counters, request by request.
use k4c.Base.{
  ℕ, zero, suc, ◌+◌, ◌-◌, ◌≡◌, ◌≢◌, none, some, and_then, done, ◌==◌, if◌then◌else◌, Prog,
}
use k4c.Size.{add_size}
use k4c.Allocator.{Ptr, Libc}
use k4c.TestAllocator.{TestAllocator, Machine, no_failure, test_alloc, test_dealloc, test_realloc}

-- a call of an operation of the table
pub data Request : Type 0 where
  allocate : ℕ → Request
  reallocate : Ptr → ℕ → Request
  release : Ptr → Request

-- what is left of the requests to let through; `no_failure` lets all of them through
abbrev pub countdown : ℕ → ℕ
countdown n = if n == no_failure then n else n - 1

-- `live` blocks are outstanding, `failed` refusals were counted, and `left` requests are let through
abbrev Counters : TestAllocator → ℕ → ℕ → ℕ → Type 0
Counters t live failed left =
    (t.outstanding_allocations ≡ live) × (t.failed_allocations ≡ failed) × (t.fail_after ≡ left)

module _ {L : Type 0} where
  -- A new block is counted, a refusal is counted as such; while no request is let through there is
  -- no new block.
  abbrev pub Obtained : Machine L → Ptr × Machine L → Type 0
  Obtained (t, _) (some p, (t', _)) =
      (t.fail_after ≢ 0)
      × Counters t' (t.outstanding_allocations + 1) t.failed_allocations (countdown t.fail_after)
  Obtained (t, _) (none, (t', _)) =
      Counters t' t.outstanding_allocations (add_size t.failed_allocations 1)
        (countdown t.fail_after)

  -- A block that moves stays outstanding, also when it is refused.
  abbrev pub Moved : Machine L → Ptr × Machine L → Type 0
  Moved (t, _) (some p, (t', _)) =
      (t.fail_after ≢ 0)
      × Counters t' t.outstanding_allocations t.failed_allocations (countdown t.fail_after)
  Moved (t, _) (none, (t', _)) =
      Counters t' t.outstanding_allocations (add_size t.failed_allocations 1)
        (countdown t.fail_after)

  -- A block given back is outstanding no longer.
  abbrev pub Released : Machine L → Ptr × Machine L → Type 0
  Released (t, _) (p, (t', _)) =
      (p ≡ none) × Counters t' (t.outstanding_allocations - 1) t.failed_allocations t.fail_after

  abbrev pub Tracks : Request → Machine L → Ptr × Machine L → Type 0
  Tracks (allocate size) m r = Obtained m r
  Tracks (reallocate none size) m r = Obtained m r
  Tracks (reallocate (some p) zero) m r = Released m r
  Tracks (reallocate (some p) (suc size)) m r = Moved m r
  Tracks (release none) m r = r ≡ (none, m)
  Tracks (release (some p)) m r = Released m r

  module _ (libc : Libc L) where
    -- the operation that a request is for; a release answers nothing
    unfoldable pub serve : Request → Prog (Machine L) Ptr
    serve (allocate size) m = test_alloc libc size m
    serve (reallocate ptr size) m = test_realloc libc ptr size m
    serve (release ptr) m = and_then (test_dealloc libc ptr m) (λ r. done (none, r.1))
