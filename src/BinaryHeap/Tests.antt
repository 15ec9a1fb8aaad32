-- ===== src/BinaryHeap/Tests.antt =====
-- Binary heaps at work, over the test allocator.
use k4c.Base.{
  ℕ, zero, suc, ◌-◌, ◌/◌, get_or, false, ◌<◌, ◌≡◌, refl, arith, ltb, if◌then◌else◌, some, List, [],
  ◌∷◌, Returns, done,
}
use k4c.Base.Int.{ℤ, pos, negsuc, is_negative}
use k4c.Size.{size_max}
use k4c.TestAllocator.{Machine, beside}
use k4c.TestAllocator.Fixture.{bump, owner, start, live, owner-Lawful}
use k4c.BinaryHeap.{BinaryHeap, push, pop, sift_up, sift_down}
use k4c.BinaryHeap.Valid.{IsValid}
use k4c.BinaryHeap.Push.{Pushes, push-sift_up}
use k4c.BinaryHeap.Pop.{Pops, pop-sift_down}

-- a comparison function on numbers
abbrev compare_numbers : ℕ → ℕ → ℤ
compare_numbers a b = if ltb a b then negsuc 0 else pos 0

abbrev bytes_of : ℕ → List ℕ
bytes_of a = a ∷ []

abbrev small_heap : BinaryHeap (Machine ℕ) ℕ
small_heap = record {
  address = some 16;
  root = record {
    address = some 64;
    size = 3;
    elem_size = 4;
    capacity = 4;
    buffer = some 80;
    cells = 1 ∷ 5 ∷ 3 ∷ 0 ∷ [];
    allocator = owner;
  };
  cmp = some compare_numbers;
  allocator = owner;
}

in_order :
    (i : ℕ)
    → 0 < i
    → i < 3
    → is_negative (
        compare_numbers
          (get_or (1 ∷ 5 ∷ 3 ∷ 0 ∷ []) i 0)
          (get_or (1 ∷ 5 ∷ 3 ∷ 0 ∷ []) ((i - 1) / 2) 0))
      ≡ false
in_order zero p h = absurd (omega arith)
in_order (suc zero) p h = refl
in_order (suc (suc zero)) p h = refl
in_order (suc (suc (suc i))) p h = absurd (omega arith)

small_heap-IsValid : IsValid bytes_of 0 small_heap
small_heap-IsValid = record {
  root = record {
    stored = refl;
    within = omega arith;
    sized = omega arith;
    room = omega arith;
    small = omega arith;
    bytes = omega arith;
    buffer = λ e. cc;
    address = λ e. cc;
  };
  laws = record { asym = λ a b h. ground arith; trans = λ a b c h k. ground arith };
  ordered = in_order;
  address = λ e. cc;
}

sift_up_small : sift_up 0 (λ a b. ltb a b) 4 (1 ∷ 5 ∷ 3 ∷ 2 ∷ []) 3 ≡ done (1 ∷ 2 ∷ 3 ∷ 5 ∷ [])
unfolding sift_up
sift_up_small = refl

sift_down_small :
    sift_down 0 (λ a b. ltb a b) 5 4 (9 ∷ 2 ∷ 3 ∷ 5 ∷ []) 0 ≡ done (2 ∷ 5 ∷ 3 ∷ 9 ∷ [])
unfolding sift_down
sift_down_small = refl

push-sift_up_example :
    Returns
      (push (beside bump) bytes_of 0 small_heap 2 start)
      (λ r. Pushes bytes_of 0 small_heap 2 r.0 × (live r.1 ≡ live start))
push-sift_up_example =
    push-sift_up (beside bump) bytes_of 0 live size_max 2 start owner-Lawful small_heap-IsValid

pop-sift_down_example : Returns (pop bytes_of 0 small_heap) (Pops bytes_of 0 small_heap)
pop-sift_down_example = pop-sift_down bytes_of 0 small_heap-IsValid (omega arith)
