-- ===== src/Vector/Tests.antt =====
-- Vectors at work, over the test allocator.
use k4c.Base.{
  zero, suc, ℕ, ◌≡◌, refl, arith, some, [], ◌∷◌, Returns, done, if◌then◌else◌, ◌==◌, not, ◌||◌, ltb,
}
use k4c.Base.Int.{ℤ, pos, negsuc, is_negative, is_zero}
use k4c.Size.{size_max}
use k4c.TestAllocator.{Machine, beside}
use k4c.TestAllocator.Fixture.{bump, owner, start, live, owner-Lawful}
use k4c.Iterator.{iterator_next, drain}
use k4c.Vector.Collect.{collect}
use k4c.Vector.Collect.Gather.{Collects, collect-Collects}
use k4c.Vector.{vector_iterator_next, Vector, get_iterator, get, pop, push, create_with_capacity}
use k4c.Vector.Valid.{IsValid}
use k4c.Vector.Room.{Pushes, push-Pushes}
use k4c.Vector.Access.{Pops, pop-Pops}
use k4c.Vector.Lifecycle.{Creates, create_with_capacity-Creates}
use k4c.Vector.Search.{lower_bound, binary_search}
use k4c.Vector.Search.Split.{Splits, IsPartitioned, Finds, lower_bound-Splits, binary_search-Finds}

-- a full vector of three elements
abbrev three : Vector (Machine ℕ) ℕ
three = record {
  address = some 16;
  size = 3;
  elem_size = 4;
  capacity = 3;
  buffer = some 80;
  cells = 5 ∷ 7 ∷ 7 ∷ [];
  allocator = owner;
}

three-IsValid : IsValid three
three-IsValid = record {
  stored = refl;
  within = omega arith;
  sized = omega arith;
  room = omega arith;
  small = omega arith;
  bytes = omega arith;
  buffer = λ e. cc;
  address = λ e. cc;
}

compare_int : ℕ → ℕ → ℤ
compare_int a b = if ltb a b then negsuc 0 else (if a == b then pos 0 else pos 1)

push-Pushes_example :
    Returns
      (push (beside bump) 0 three 9 start)
      (λ r. Pushes (beside bump) 0 live size_max three 9 r.0 × (live r.1 ≡ live start))
push-Pushes_example = push-Pushes (beside bump) 0 live size_max 9 start owner-Lawful three-IsValid

create_with_capacity-Creates_example :
    Returns
      (create_with_capacity {E = ℕ} (beside bump) 0 4 16 (some owner) start)
      (λ r. Creates (beside bump) 0 live size_max 4 16 (some owner) (live start) (live r.1) r.0)
create_with_capacity-Creates_example =
    create_with_capacity-Creates (beside bump) 0 live size_max 4 16 (some owner) start owner-Lawful
      (omega arith) (omega arith) (omega arith) (omega arith)

pop-Pops_example : Pops three (pop three)
pop-Pops_example = pop-Pops three-IsValid

below_first : IsPartitioned three (λ x. is_negative (compare_int x 7))
unfolding get compare_int
below_first zero zero a b h = h
below_first (suc i) zero a b h = absurd (omega arith)
below_first i (suc zero) a b h = cc
below_first i (suc (suc zero)) a b h = cc
below_first i (suc (suc (suc j))) a b h = absurd (omega arith)

lower_bound-Splits_example :
    Returns (lower_bound three 7 compare_int) (Splits three (λ x. is_negative (compare_int x 7)))
lower_bound-Splits_example = lower_bound-Splits three 7 compare_int three-IsValid below_first

not_above_first : IsPartitioned three (λ x. not (is_negative (compare_int 7 x)))
unfolding get compare_int
not_above_first zero j a b h = refl
not_above_first (suc zero) j a b h = refl
not_above_first (suc (suc zero)) j a b h = refl
not_above_first (suc (suc (suc i))) j a b h = absurd (omega arith)

equal_first : IsPartitioned three (λ x. is_negative (compare_int x 7) || is_zero (compare_int x 7))
unfolding get compare_int
equal_first zero j a b h = refl
equal_first (suc zero) j a b h = refl
equal_first (suc (suc zero)) j a b h = refl
equal_first (suc (suc (suc i))) j a b h = absurd (omega arith)

binary_search-Finds_example :
    Returns (binary_search three 7 compare_int) (Finds three 7 compare_int three-IsValid)
binary_search-Finds_example =
    binary_search-Finds three 7 compare_int three-IsValid below_first equal_first

binary_search_runs : binary_search three 7 compare_int ≡ done 1
unfolding binary_search get compare_int
binary_search_runs = refl

collect-Collects_example :
    Returns
      (collect (beside bump) 0 5 (get_iterator three) 4 (some owner) start)
      (λ r. Collects (drain 5 (get_iterator three)) (live start) 0 (live r.1) r.0)
unfolding get_iterator iterator_next vector_iterator_next
collect-Collects_example =
    collect-Collects (beside bump) 0 live size_max 5 (get_iterator three) 4 (some owner) start
      owner-Lawful (omega arith) (omega arith) (omega arith) (omega arith) (omega arith)
