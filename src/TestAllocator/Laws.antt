-- ===== src/TestAllocator/Laws.antt =====
-- The contract of an allocator, for the test allocator.
use k4c.Base.{
  ℕ, ◌+◌, ◌-◌, ◌<◌, ◌≡◌, ◌≢◌, refl, none, some, arith, Returns, and_then-Returns, Bool-cases,
  Option-cases, inl, inr, ◌==◌, false,
}
use k4c.Size.{size_max}
use k4c.Allocator.{Ptr, Libc, alloc, resize, dealloc, answer}
use k4c.Allocator.Lawful.{Lawful, Obtains, Moves}
use k4c.TestAllocator.{
  TestAllocator, Machine, should_fail, test_alloc, test_dealloc, test_realloc, init, beside,
}

-- libc's calls return; what they return is free
pub record Responds {L : Type 0} (libc : Libc L) : Type 0 where
  pub malloc_returns : (n : ℕ) (l : L) → Returns (libc.malloc n l) (λ _. Unit {0})
  pub realloc_returns : (p : Ptr) (n : ℕ) (l : L) → Returns (libc.realloc p n l) (λ _. Unit {0})
  pub free_returns : (p : Ptr) (l : L) → Returns (libc.free p l) (λ _. Unit {0})

outstanding-should_fail :
    (t : TestAllocator) → (should_fail t).1.outstanding_allocations ≡ t.outstanding_allocations
unfolding should_fail
outstanding-should_fail t = ground arith

module _ {L : Type 0} (libc : Libc L) (responds : Responds libc) where
  -- how `outstanding_allocations` follows a call for a block
  Follows : Machine L → Ptr × Machine L → Type 0
  Follows m (some p, m') = m'.0.outstanding_allocations ≡ m.0.outstanding_allocations + 1
  Follows m (none, m') = m'.0.outstanding_allocations ≡ m.0.outstanding_allocations

  test_alloc-Follows :
      (size : ℕ) (m : Machine L)
      → m.0.outstanding_allocations < size_max
      → Returns (test_alloc libc size m) (Follows m)
  unfolding test_alloc Follows
  test_alloc-Follows size (t, l) small =
      let kept = outstanding-should_fail t in
      let (r, run, _) = responds.malloc_returns size l in
      elim (Bool-cases (should_fail t).0) [
        | inl e ↦ rw e (_, refl, kept)
        | inr e ↦ elim (Option-cases r.0) [
          | inl q ↦ rw (e, run, q) (_, refl, kept)
          | inr (p, q) ↦ rw (e, run, q) (_, refl, omega arith)
        ]
      ]

  test_realloc-Follows :
      (p size : ℕ) (m : Machine L)
      → 0 < size
      → Returns
          (test_realloc libc (some p) size m)
          (λ r. r.1.0.outstanding_allocations ≡ m.0.outstanding_allocations)
  unfolding test_realloc
  test_realloc-Follows p size (t, l) pos =
      let kept = outstanding-should_fail t in
      let (r, run, _) = responds.realloc_returns (some p) size l in
      let nonzero : (size == 0) ≡ false = ground arith in
      elim (Bool-cases (should_fail t).0) [
        | inl e ↦ rw (nonzero, e) (_, refl, kept)
        | inr e ↦ elim (Option-cases r.0) [
          | inl q ↦ rw (nonzero, e, run, q) (_, refl, kept)
          | inr (_, q) ↦ rw (nonzero, e, run, q) (_, refl, kept)
        ]
      ]

  test_dealloc-Follows :
      (p : ℕ) (m : Machine L)
      → Returns
          (test_dealloc libc (some p) m)
          (λ r. r.1.0.outstanding_allocations ≡ m.0.outstanding_allocations - 1)
  unfolding test_dealloc
  test_dealloc-Follows p (t, l) =
      let (r, run, _) = responds.free_returns (some p) l in rw run (_, refl, ground arith)

  -- Through the helpers of lib/mem/allocator.c, for positive sizes, blocks other than NULL and while
  -- fewer than SIZE_MAX blocks are outstanding: `outstanding_allocations` counts the live blocks.
  pub init-Lawful :
      (ctx : Ptr)
      → Lawful (beside libc) (some (init libc ctx).0) (λ m. m.0.outstanding_allocations) size_max
  unfolding init alloc resize dealloc Follows
  init-Lawful ctx = record {
    alloc_law = λ size m pos small.
        and_then-Returns (test_alloc-Follows size m small) λ r f. (_, refl, answer_Follows m r f);
    resize_law = moves;
    dealloc_law = frees;
  }
    where
      answer_Follows :
          (m : Machine L) (r : Ptr × Machine L)
          → Follows m r
          → Obtains m.0.outstanding_allocations r.1.0.outstanding_allocations (answer r.0)
      answer_Follows m (some p, m') f = (refl, f)
      answer_Follows m (none, m') f = (refl, f)

      answer_Moves : (p : Ptr) → Moves (answer p)
      answer_Moves (some p) = refl
      answer_Moves none = refl

      moves :
          (ptr : Ptr) (size : ℕ) (m : Machine L)
          → 0 < size
          → ptr ≢ none
          → Returns
              (resize (beside libc) (some (init libc ctx).0) ptr size m)
              (λ r. Moves r.0 × (r.1.0.outstanding_allocations ≡ m.0.outstanding_allocations))
      moves none size m pos nonnull = absurd (nonnull refl)
      moves (some p) size m pos nonnull =
          let nonzero : (size == 0) ≡ false = ground arith in
          rw nonzero (
            and_then-Returns (test_realloc-Follows p size m pos)
              λ r f. (_, refl, (answer_Moves r.0, f)))

      frees :
          (ptr : Ptr) (m : Machine L)
          → ptr ≢ none
          → Returns
              (dealloc (beside libc) (some (init libc ctx).0) ptr m)
              (λ r. r.1.0.outstanding_allocations ≡ m.0.outstanding_allocations - 1)
      frees none m nonnull = absurd (nonnull refl)
      frees (some p) m nonnull = test_dealloc-Follows p m
