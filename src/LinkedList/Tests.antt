-- ===== src/LinkedList/Tests.antt =====
-- The list 10, 20, 30 through the nodes at these addresses.
use k4c.Base.{ℕ, ◌≡◌, ◌==◌, refl, arith, if◌then◌else◌, none, some, [], ◌∷◌}
use k4c.Allocator.{Ptr}
use k4c.TestAllocator.{Machine}
use k4c.TestAllocator.Fixture.{owner}
use k4c.Iterator.{drain, iterator_next}
use k4c.Links.{Field, write}
use k4c.LinkedList.{LinkedList, push, remove_after, get_iterator}
use k4c.LinkedList.Chain.{Holds}
use k4c.LinkedList.Add.{OnlyAt, push-Holds}
use k4c.LinkedList.Remove.{Unlinks, remove_after-Unlinks}

abbrev three : LinkedList (Machine ℕ)
three = record { address = some 96; size = 3; head = some 10; tail = some 30; allocator = owner }

abbrev links : Field
links a = if a == 10 then some 20 else (if a == 20 then some 30 else none)

three-Holds : Holds three links (10 ∷ 20 ∷ 30 ∷ [])
three-Holds = record {
  chain = (refl, (refl, (refl, refl)));
  ends = refl;
  count = refl;
  distinct = omega arith;
  small = omega arith;
}

-- removing the node behind 10
abbrev short : Ptr × LinkedList (Machine ℕ) × Field
short = remove_after three (some 10) links

short_items : drain 3 (get_iterator short.1 short.2) ≡ 10 ∷ 30 ∷ []
unfolding remove_after get_iterator write iterator_next
short_items = refl

push-Holds_example :
    Holds (push three 40 links).0 (push three 40 links).1 (10 ∷ 20 ∷ 30 ∷ 40 ∷ [])
    × OnlyAt (40 ∷ 10 ∷ 20 ∷ 30 ∷ []) links (push three 40 links).1
push-Holds_example =
    push-Holds three links (10 ∷ 20 ∷ 30 ∷ []) 40 three-Holds (omega arith) (omega arith)

remove_after-Unlinks_example :
    Unlinks (10 ∷ 20 ∷ []) 30 [] links (remove_after three (some 20) links)
remove_after-Unlinks_example = remove_after-Unlinks three links (10 ∷ []) 20 30 [] three-Holds
