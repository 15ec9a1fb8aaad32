-- ===== src/TestAllocator.antt =====
-- lib/mem/test_allocator.c: the allocator that counts its calls and fails on demand.
-- `L` is the state of libc's heap; the counters stand beside it.
pub mod Laws
pub mod Requests
pub mod Fixture
mod Tests
use k4c.Base.{
  ℕ, ◌+◌, ◌-◌, ◌==◌, ltb, Bool, true, false, Option, none, some, if◌then◌else◌, Prog, pure,
  and_then, done,
}
use k4c.Size.{add_size, size_max}
use k4c.Allocator.{Ptr, Libc, Vtable, Allocator, feature_dealloc, feature_realloc}

pub record TestAllocator : Type 0 where
  pub alloc_count : ℕ
  pub realloc_count : ℕ
  pub dealloc_count : ℕ
  pub outstanding_allocations : ℕ
  pub failed_allocations : ℕ
  pub fail_after : ℕ

-- K4C_TEST_ALLOCATOR_NO_FAILURE
abbrev pub no_failure : ℕ
no_failure = size_max

abbrev count_failure : TestAllocator → TestAllocator
count_failure t = record t { failed_allocations = add_size t.failed_allocations 1 }

-- `k4c_test_allocator_should_fail`; the decrement is made at a nonzero count only.
should_fail : TestAllocator → Bool × TestAllocator
should_fail t =
    if t.fail_after == no_failure
    then (false, t)
    else (if t.fail_after == 0
        then (true, count_failure t)
        else (false, record t { fail_after = t.fail_after - 1 }))

-- `k4c_test_allocator_is_clean`
unfoldable pub is_clean : TestAllocator → Bool
is_clean t = t.outstanding_allocations == 0

-- `k4c_test_allocator_reset_counts`
unfoldable pub reset_counts : TestAllocator → TestAllocator
reset_counts t = record t {
  alloc_count = 0;
  realloc_count = 0;
  dealloc_count = 0;
  failed_allocations = 0;
}

-- the machine: the counters and libc's heap
abbrev pub Machine : Type 0 → Type 0
Machine L = TestAllocator × L

module _ {L : Type 0} (libc : Libc L) where
  -- `k4c_test_allocator_alloc`
  unfoldable pub test_alloc : ℕ → Prog (Machine L) Ptr
  unfolding should_fail
  test_alloc size (t, l) =
      let (fails, t') = should_fail t in
      if fails
      then done (none, (t', l))
      else and_then (libc.malloc size l) λ r. elim (r.0) [
        | none ↦ done (none, (count_failure t', r.1))
        | some p ↦ done (
          some p,
          (
            record t' {
              alloc_count = add_size t'.alloc_count 1;
              outstanding_allocations = add_size t'.outstanding_allocations 1;
            },
            r.1,
          ),
        )
      ]

  -- `k4c_test_allocator_dealloc`
  unfoldable pub test_dealloc : Ptr → Prog (Machine L) (Unit {0})
  test_dealloc none (t, l) = done (tt, (t, l))
  test_dealloc (some p) (t, l) =
      let outstanding = t.outstanding_allocations in
      let t' = record t {
        dealloc_count = add_size t.dealloc_count 1;
        outstanding_allocations = if ltb 0 outstanding then outstanding - 1 else outstanding;
      } in
      and_then (libc.free (some p) l) λ r. done (tt, (t', r.1))

  -- `k4c_test_allocator_realloc`
  unfoldable pub test_realloc : Ptr → ℕ → Prog (Machine L) Ptr
  unfolding should_fail test_alloc test_dealloc
  test_realloc none size m = test_alloc size m
  test_realloc (some p) size (t, l) =
      if size == 0
      then and_then (test_dealloc (some p) (t, l)) (λ r. done (none, r.1))
      else (let (fails, t') = should_fail t in
          if fails
          then done (none, (t', l))
          else and_then (libc.realloc (some p) size l) λ r. elim (r.0) [
            | none ↦ done (none, (count_failure t', r.1))
            | some q ↦
                done (some q, (record t' { realloc_count = add_size t'.realloc_count 1 }, r.1))
          ])

  -- `k4c_test_allocator_vtable`; the counters are reached through the machine, for their address
  abbrev pub test_vtable : Vtable (Machine L)
  test_vtable = record {
    alloc = some (λ ctx size. test_alloc size);
    resize = some (λ ctx ptr size. test_realloc ptr size);
    dealloc = some (λ ctx ptr. test_dealloc ptr);
  }

  -- `k4c_test_allocator_init`, at the address `ctx` of the counters
  unfoldable pub init : Ptr → Allocator (Machine L) × TestAllocator
  init ctx = (
    record { ctx = ctx; features = feature_dealloc + feature_realloc; vtable = some test_vtable },
    record {
      alloc_count = 0;
      realloc_count = 0;
      dealloc_count = 0;
      outstanding_allocations = 0;
      failed_allocations = 0;
      fail_after = no_failure;
    },
  )

  -- libc beside the counters, which it leaves alone
  abbrev pub beside : Libc (Machine L)
  beside = record {
    malloc = λ size m. and_then (libc.malloc size m.1) (λ r. done (r.0, (m.0, r.1)));
    realloc = λ ptr size m. and_then (libc.realloc ptr size m.1) (λ r. done (r.0, (m.0, r.1)));
    free = λ ptr m. and_then (libc.free ptr m.1) (λ r. done (r.0, (m.0, r.1)));
  }
