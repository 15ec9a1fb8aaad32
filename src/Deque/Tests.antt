-- ===== src/Deque/Tests.antt =====
-- Deques at work, over the test allocator.
use k4c.Base.{ℕ, ◌≡◌, refl, arith, some, [], ◌∷◌, ◌++◌, Returns}
use k4c.Size.{size_max}
use k4c.TestAllocator.{Machine, beside}
use k4c.TestAllocator.Fixture.{bump, owner, start, live, owner-Lawful}
use k4c.Deque.{Deque, push, pushfront, popleft, popback, get_iterator}
use k4c.Iterator.{drain}
use k4c.Deque.Iterate.{drain-get_iterator}
use k4c.Deque.Valid.{IsValid, contents}
use k4c.Deque.Ends.{PopsLeft, PopsBack, popleft-PopsLeft, popback-PopsBack}
use k4c.Deque.Room.{Pushes, push-Appends, pushfront-Prepends}

-- a full ring, 5 6 7 8 from the left, that goes round the end of its storage
abbrev ring : Deque (Machine ℕ) ℕ
ring = record {
  address = some 16;
  size = 4;
  elem_size = 4;
  capacity = 4;
  head = 3;
  tail = 3;
  buffer = some 80;
  cells = 6 ∷ 7 ∷ 8 ∷ 5 ∷ [];
  allocator = owner;
}

ring-IsValid : IsValid ring
ring-IsValid = record {
  power = (2, omega arith, refl);
  room = omega arith;
  small = omega arith;
  stored = refl;
  within = omega arith;
  head_in = omega arith;
  tail_at = refl;
  sized = omega arith;
  bytes = omega arith;
  buffer = λ e. cc;
  address = λ e. cc;
}

contents-ring : contents 0 ring ≡ 5 ∷ 6 ∷ 7 ∷ 8 ∷ []
contents-ring = refl

push-Appends_example : Returns (push (beside bump) 0 ring 9 start) (λ r.
    Pushes (beside bump) 0 live size_max ring (contents 0 ring ++ 9 ∷ []) r.0
    × (live r.1 ≡ live start))
push-Appends_example =
    push-Appends (beside bump) 0 live size_max 9 start owner-Lawful (omega arith) ring-IsValid

pushfront-Prepends_example : Returns (pushfront (beside bump) 0 ring 9 start) (λ r.
    Pushes (beside bump) 0 live size_max ring (9 ∷ contents 0 ring) r.0 × (live r.1 ≡ live start))
pushfront-Prepends_example =
    pushfront-Prepends (beside bump) 0 live size_max 9 start owner-Lawful (omega arith) ring-IsValid

popleft-PopsLeft_example : Returns (popleft ring) (PopsLeft 0 ring)
popleft-PopsLeft_example = popleft-PopsLeft 0 ring-IsValid

popback-PopsBack_example : Returns (popback ring) (PopsBack 0 ring)
popback-PopsBack_example = popback-PopsBack 0 ring-IsValid

drain-get_iterator_example :
    Returns (get_iterator ring) (λ iter. (drain 5 iter ≡ contents 0 ring) × (iter.size_hint ≡ 4))
drain-get_iterator_example = drain-get_iterator 0 ring-IsValid
